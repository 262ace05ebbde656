-- ===== src/Tests/Processes.antt =====
-- Processes of src/dispatcher/ and their turns.
use hypnoticos.Base.{
  ℕ, List, true, ◌-◌, ◌%◌, ◌==◌, if◌then◌else◌, ◌&&◌, add64, ◌+◌, ◌≡◌, refl, ◌≢◌, false, none, some,
  [], ◌∷◌, arith,
}
use hypnoticos.Dispatcher.Addresses.{Va, process_map, get_pa, process_map-get_pa}
use hypnoticos.Dispatcher.Process.{
  Registers, awake, Process, World, dispatcher_find, suspend_test, test_kind,
}
use hypnoticos.Dispatcher.Schedule.{
  Machine, get_cpu, set_current, unload, unload_process, reset_io, dispatcher_save, ready, scan,
  runs, out_of_rounds, load, after_scan, choose, set_up_next, allow_io,
}
use hypnoticos.Dispatcher.Schedule.Switch.{Started, set_up_next-Started}
use hypnoticos.Dispatcher.Schedule.Save.{dispatcher_save_unloads}
use hypnoticos.Dispatcher.Schedule.Rounds.{set_up_next-ne-out_of_rounds}

abbrev zeros : Registers
zeros = record {
  rsp = 0;
  rbp = 0;
  cr3 = 0;
  rip = 0;
  rflags = 0;
  rax = 0;
  rbx = 0;
  rcx = 0;
  rdx = 0;
  rsi = 0;
  rdi = 0;
  r8 = 0;
  r9 = 0;
  r10 = 0;
  r11 = 0;
  r12 = 0;
  r13 = 0;
  r14 = 0;
  r15 = 0;
}

-- On the processor, in cycle 4.
abbrev process_1 : Process
process_1 = record {
  pid = 1;
  save = zeros;
  run = 1;
  last_cycle = 4;
  lock = 1;
  suspend = awake;
  pending_exit = false;
  io = [];
}

abbrev process_2 : Process
process_2 = record {
  pid = 2;
  save = record zeros { rip = 0x400000 };
  run = 1;
  last_cycle = 3;
  lock = 0;
  suspend = awake;
  pending_exit = false;
  io = 0x60 ∷ [];
}

abbrev world : World
world = record { memory = λ a. 0; keys = 0 ∷ []; ticks = 100; open_indices = [] }

abbrev machine : Machine
machine = record {
  processes = process_1 ∷ process_2 ∷ [];
  world = world;
  cycle = 4;
  cpus = record { apic_id = 0; current_pid = 1 } ∷ [];
  saved = record zeros { rip = 0x500000; rflags = 2 };
  io_permission = λ b. 0xFF;
}

cpu_0 : get_cpu 0 machine.cpus ≡ some (record { apic_id = 0; current_pid = 1 })
unfolding get_cpu
cpu_0 = refl

current : dispatcher_find 1 machine.processes ≡ some process_1
unfolding dispatcher_find
current = refl

dispatcher_save_unloads_example :
    (m : Machine) × (dispatcher_save 0 machine ≡ some m)
    × (dispatcher_find 1 m.processes
        ≡ some (record process_1 {
          save = record machine.saved { cr3 = process_1.save.cr3 };
          lock = 0;
        }))
    × (get_cpu 0 m.cpus ≡ some (record { apic_id = 0; current_pid = 0 }))
    × (m.cycle ≡ 4)
dispatcher_save_unloads_example =
    dispatcher_save_unloads 0 machine (record { apic_id = 0; current_pid = 1 }) process_1 cpu_0
      (omega arith) current

-- The second process takes its turn.
abbrev switched : Machine
switched = record machine {
  processes = unload machine.saved process_1 ∷ record process_2 { last_cycle = 4; lock = 1 } ∷ [];
  cpus = record { apic_id = 0; current_pid = 2 } ∷ [];
  saved = record process_2.save { rflags = 2 };
  io_permission = allow_io process_2.io machine.io_permission;
}

switches : set_up_next 2 0 machine ≡ runs 1 switched
unfolding set_up_next dispatcher_save get_cpu dispatcher_find unload_process reset_io set_current
    choose after_scan scan suspend_test test_kind ready load
switches = refl

set_up_next-Started_example :
    (b : Machine) × (dispatcher_save 0 machine ≡ some b) × Started b.processes 0 1 machine switched
set_up_next-Started_example = set_up_next-Started 2 0 1 machine switched switches

set_up_next-ne-out_of_rounds_example : set_up_next 2 0 machine ≢ out_of_rounds
set_up_next-ne-out_of_rounds_example =
    set_up_next-ne-out_of_rounds 0 machine (omega arith) (omega arith, (omega arith, tt))

abbrev map : List Va
map = record { va = 0x400000; pa = 0x200000; ignore = 0 } ∷ []

process_map-get_pa_example :
    (get_pa (process_map true map 0x401000 0x300000 0).1 (0x401000 + 5) 1
      ≡ (if (1 == 1) && (0 == 1) then none else some (add64 0x300000 5)))
    × ((x : ℕ)
        → 0x401000 ≢ x - x % 4096
        → get_pa (process_map true map 0x401000 0x300000 0).1 x 1 ≡ get_pa map x 1)
process_map-get_pa_example =
    process_map-get_pa true map 0x401000 0x300000 0 5 1 (omega arith) (omega arith)
      (omega arith, tt) (omega arith)
