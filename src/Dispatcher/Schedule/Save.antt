-- ===== src/Dispatcher/Schedule/Save.antt =====
-- `DispatcherSave` of src/dispatcher/dispatcher.c.
use hypnoticos.Base.{
  ℕ, ◌≡◌, refl, ◌≢◌, inl, inr, some, List, [], ◌∷◌, arith, All, ap, subst, Option-cases, ℕ_discrete,
  eq→==, ne→==,
}
use hypnoticos.Dispatcher.Process.{Registers, Process, dispatcher_find}
use hypnoticos.Dispatcher.Schedule.{
  Cpu, Machine, get_cpu, set_current, unload, unload_process, reset_io, dispatcher_save,
}
use hypnoticos.Dispatcher.Schedule.Turns.{Last}

pub get_cpu-set_current :
    (apic pid : ℕ) (cs : List Cpu) (c : Cpu)
    → get_cpu apic cs ≡ some c
    → get_cpu apic (set_current apic pid cs) ≡ some (record c { current_pid = pid })
unfolding get_cpu set_current
get_cpu-set_current apic pid [] c h = absurd (ground (arith, h))
get_cpu-set_current apic pid (d ∷ cs) c h = elim (ℕ_discrete d.apic_id apic) [
  | yes y ↦
      let e : d ≡ c = ground (arith, y, h) in
      rw (eq→== d.apic_id apic y, eq→== d.apic_id apic y)
        (ap (λ (c : Cpu). some (record c { current_pid = pid })) e)
  | no n ↦
      let rest = get_cpu-set_current apic pid cs c (ground (arith, n, h)) in
      rw (ne→== d.apic_id apic n, ne→== d.apic_id apic n) rest
]

pub find-unload :
    (saved : Registers) (pid : ℕ) (ps : List Process) (p : Process)
    → dispatcher_find pid ps ≡ some p
    → dispatcher_find pid (unload_process saved pid ps) ≡ some (unload saved p)
unfolding unload_process dispatcher_find
find-unload saved pid [] p h = absurd (ground (arith, h))
find-unload saved pid (q ∷ ps) p h = elim (ℕ_discrete q.pid pid) [
  | yes y ↦
      let e : q ≡ p = ground (arith, y, h) in
      rw (eq→== q.pid pid y, eq→== q.pid pid y) (ap (λ (p : Process). some (unload saved p)) e)
  | no n ↦
      let rest = find-unload saved pid ps p (ground (arith, n, h)) in
      rw (ne→== q.pid pid n, ne→== q.pid pid n) rest
]

pub unload-Last :
    (bound : ℕ) (saved : Registers) (pid : ℕ) (ps : List Process)
    → All (Last bound) ps
    → All (Last bound) (unload_process saved pid ps)
unfolding unload_process
unload-Last bound saved pid [] a = tt
unload-Last bound saved pid (p ∷ ps) a = elim (ℕ_discrete p.pid pid) [
  | yes y ↦ rw (eq→== p.pid pid y) (a.0, a.1)
  | no n ↦ rw (ne→== p.pid pid n) (a.0, unload-Last bound saved pid ps a.1)
]

-- `DispatcherSave` on a processor that runs a process of the list: in the list this process now has
-- all the registers of the interrupted code but for cr3, which it keeps, its lock is 0, and the rest
-- of it is as before. The processor runs no process, and the cycle stays.
pub dispatcher_save_unloads :
    (apic : ℕ) (m : Machine) (c : Cpu) (p : Process)
    → get_cpu apic m.cpus ≡ some c
    → c.current_pid ≢ 0
    → dispatcher_find c.current_pid m.processes ≡ some p
    → (m' : Machine) × (dispatcher_save apic m ≡ some m')
      × (dispatcher_find c.current_pid m'.processes
          ≡ some (record p { save = record m.saved { cr3 = p.save.cr3 }; lock = 0 }))
      × (get_cpu apic m'.cpus ≡ some (record c { current_pid = 0 }))
      × (m'.cycle ≡ m.cycle)
unfolding dispatcher_save
dispatcher_save_unloads apic m c p h n f = (
  record m {
    processes = unload_process m.saved c.current_pid m.processes;
    io_permission = reset_io p.io m.io_permission;
    cpus = set_current apic 0 m.cpus;
  },
  ground (arith, h, n, f),
  find-unload m.saved c.current_pid m.processes p f,
  get_cpu-set_current apic 0 m.cpus c h,
  refl,
)

-- The state after `DispatcherSave`, as far as the choice needs it.
pub record Unloaded (m m' : Machine) : Type 0 where
  pub same_cycle : m'.cycle ≡ m.cycle
  pub same_saved : m'.saved ≡ m.saved
  pub last : (bound : ℕ) → All (Last bound) m.processes → All (Last bound) m'.processes

pub dispatcher_save-Unloaded :
    (apic : ℕ) (m m' : Machine) → dispatcher_save apic m ≡ some m' → Unloaded m m'
unfolding dispatcher_save
dispatcher_save-Unloaded apic m m' h = elim (Option-cases (get_cpu apic m.cpus)) [
  | inl e ↦ absurd (ground (arith, e, h))
  | inr (c, e) ↦ elim (ℕ_discrete c.current_pid 0) [
    | yes z ↦
        let same : m ≡ m' = ground (arith, e, z, h) in
        subst (Unloaded m) same (record { same_cycle = refl; same_saved = refl; last = λ b a. a })
    | no n ↦ elim (Option-cases (dispatcher_find c.current_pid m.processes)) [
      | inl f ↦ absurd (ground (arith, e, n, f, h))
      | inr (p, f) ↦
          let next : Machine = record m {
            processes = unload_process m.saved c.current_pid m.processes;
            io_permission = reset_io p.io m.io_permission;
            cpus = set_current apic 0 m.cpus;
          } in
          let same : next ≡ m' = ground (arith, e, n, f, h) in
          subst (Unloaded m) same (record {
            same_cycle = refl;
            same_saved = refl;
            last = λ b a. unload-Last b m.saved c.current_pid m.processes a;
          })
    ]
  ]
]
