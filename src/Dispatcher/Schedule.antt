-- ===== src/Dispatcher/Schedule.antt =====
-- The choice of the next process: src/dispatcher/dispatcher.c.
pub mod Switch
pub mod Rounds
pub mod Save
pub mod Turns
use Prim.Native.Nat.{bit_xor}
use hypnoticos.Base.{
  ℕ, zero, suc, ◌+◌, ◌/◌, ◌%◌, ◌^◌, Bool, true, false, ◌&&◌, not, Option, none, some, List, [], ◌∷◌,
  ◌++◌, ◌==◌, if◌then◌else◌, add64, get_elem?, set, length,
}
use hypnoticos.Dispatcher.Process.{
  Registers, Suspend, awake, sleeping, reading, Process, World, dispatcher_find, process_done,
  suspend_test,
}

-- DispatcherCpu_t
pub record Cpu : Type 0 where
  pub apic_id : ℕ
  pub current_pid : ℕ

-- DispatcherProcesses, DispatcherCycle, DispatcherCpus, the registers in `IdtCallSaved*`, and the
-- bytes of `Tss.io_permission`.
pub record Machine : Type 0 where
  pub processes : List Process
  pub world : World
  pub cycle : ℕ
  pub cpus : List Cpu
  pub saved : Registers
  pub io_permission : ℕ → ℕ

-- DispatcherGetCpu: `none` where it stops the machine.
unfoldable pub get_cpu : ℕ → List Cpu → Option Cpu
get_cpu cpu [] = none
get_cpu cpu (c ∷ cs) = if c.apic_id == cpu then some c else get_cpu cpu cs

-- A store to `current_pid` through the pointer that `DispatcherGetCpu` returns.
unfoldable pub set_current : (cpu pid : ℕ) → List Cpu → List Cpu
set_current cpu pid [] = []
set_current cpu pid (c ∷ cs) =
    let rest = set_current cpu pid cs in
    if c.apic_id == cpu then record c { current_pid = pid } ∷ cs else c ∷ rest

-- What `DispatcherSave` stores in the process.
abbrev pub unload : Registers → Process → Process
unload saved p = record p { save = record saved { cr3 = p.save.cr3 }; lock = 0 }

-- The stores through the pointer that `DispatcherFind` returns.
unfoldable pub unload_process : Registers → ℕ → List Process → List Process
unload_process saved pid [] = []
unload_process saved pid (p ∷ ps) =
    let rest = unload_process saved pid ps in if p.pid == pid then unload saved p ∷ ps else p ∷ rest

-- The reset of the I/O port bitmap.
unfoldable pub reset_io : List ℕ → (ℕ → ℕ) → ℕ → ℕ
reset_io [] io = io
reset_io (port ∷ ports) io = reset_io ports (λ b. if b == port / 8 then 0xFF else io b)

-- DispatcherSave
unfoldable pub dispatcher_save : ℕ → Machine → Option Machine
dispatcher_save apic m = elim (get_cpu apic m.cpus) [
  | none ↦ none
  | some c ↦
      if c.current_pid == 0 then some m else elim (dispatcher_find c.current_pid m.processes) [
        | none ↦ none
        | some p ↦ some (record m {
          processes = unload_process m.saved c.current_pid m.processes;
          io_permission = reset_io p.io m.io_permission;
          cpus = set_current apic 0 m.cpus;
        })
      ]
]

abbrev pub is_awake : Suspend → Bool
is_awake awake = true
is_awake (sleeping tick overflow) = false
is_awake (reading r) = false

-- The process may run in this cycle.
unfoldable pub ready : ℕ → Process → Bool
ready cycle p =
    (p.run == 1) && ((p.lock == 0) && (not (p.last_cycle == cycle) && is_awake p.suspend))

-- What the `for` loop comes to: a process at an index, or none, with `no_processes_to_run`.
pub data Scan : Type 0 where
  chosen : ℕ → Process → World → List Process → Scan
  nobody : Bool → World → List Process → Scan
  stopped : Scan
  unending : Scan

-- The loop from index `i` on, with at most `n` rounds: each one goes on to the next index, or
-- removes a process that exits and sets `no_processes_to_run` again.
unfoldable pub scan : (n i cycle : ℕ) → Bool → World → List Process → Scan
scan zero i cycle idle w ps = unending
scan (suc n) i cycle idle w ps = elim (get_elem? ps i) [
  | none ↦ nobody idle w ps
  | some p ↦ elim p.pending_exit [
    | true ↦ scan n i cycle true (process_done p w ps).0 (process_done p w ps).1
    | false ↦ elim (suspend_test p w) [
      | none ↦ stopped
      | some (q, v) ↦ elim (ready cycle q) [
        | true ↦ chosen i q v (set ps i q)
        | false ↦ scan n (i + 1) cycle (idle && not (q.last_cycle == cycle)) v (set ps i q)
      ]
    ]
  ]
]

pub data Next : Type 0 where
  runs : ℕ → Machine → Next
  waits : Machine → Next
  stops : Next
  out_of_rounds : Next

-- The bitmap with the ports of a process toggled.
pub allow_io : List ℕ → (ℕ → ℕ) → ℕ → ℕ
allow_io [] io = io
allow_io (port ∷ ports) io =
    allow_io ports (λ b. if b == port / 8 then bit_xor (io b) (2 ^ (port % 8)) else io b)

-- A process takes its turn.
abbrev pub turn : ℕ → Process → Process
turn cycle p = record p { last_cycle = cycle; lock = 1 }

-- The process at index `i` is put on the processor: all registers are restored but rflags.
unfoldable pub load : ℕ → ℕ → Process → World → List Process → Machine → Machine
load apic i p w ps m = record m {
  processes = set ps i (turn m.cycle p);
  world = w;
  cpus = set_current apic p.pid m.cpus;
  saved = record p.save { rflags = m.saved.rflags };
  io_permission = allow_io p.io m.io_permission;
}

-- What follows a scan, with the way back to the label `restart` as an argument: after a scan that
-- finds nobody but a process that has run in this cycle, the next cycle begins.
unfoldable pub after_scan : (Machine → Next) → ℕ → Machine → Scan → Next
after_scan restart apic m (chosen i p w ps) = runs i (load apic i p w ps m)
after_scan restart apic m (nobody true w ps) =
    waits (record m { processes = ps; world = w; cpus = set_current apic 0 m.cpus })
after_scan restart apic m (nobody false w ps) =
    restart (record m { processes = ps; world = w; cycle = add64 m.cycle 1 })
after_scan restart apic m stopped = stops
after_scan restart apic m unending = out_of_rounds

-- The scan of the whole list; `suc (length ..)` rounds are enough, as each one leaves fewer places.
abbrev pub scan_all : Machine → Scan
scan_all m = scan (suc (length m.processes)) 0 m.cycle true m.world m.processes

-- From the label `restart` on.
unfoldable pub choose : ℕ → ℕ → Machine → Next
choose zero apic m = out_of_rounds
choose (suc n) apic m = after_scan (choose n apic) apic m (scan_all m)

-- DispatcherSetUpNext
unfoldable pub set_up_next : ℕ → ℕ → Machine → Next
set_up_next n apic m = elim (dispatcher_save apic m) [
  | none ↦ stops
  | some m' ↦ elim (get_cpu apic m'.cpus) [ none ↦ stops | some c ↦ choose n apic m' ]
]
