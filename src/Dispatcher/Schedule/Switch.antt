-- ===== src/Dispatcher/Schedule/Switch.antt =====
-- A change of processes by `DispatcherSave` and `DispatcherSetUpNext` of
-- src/dispatcher/dispatcher.c.
use hypnoticos.Base.{
  ℕ, zero, suc, ◌≡◌, refl, inl, inr, true, false, some, List, add64, get_elem?, length, arith, ap,
  sym, subst, ◌∙◌, ◌≢◌, All, Any, Any-map, All-Any, get_elem?-set_self, Option-cases,
}
use hypnoticos.Dispatcher.Process.{Registers, awake, Process, World}
use hypnoticos.Dispatcher.Process.Keeps.{Keeps, Keeps-refl, Keeps-trans}
use hypnoticos.Dispatcher.Schedule.{
  Cpu, Machine, get_cpu, dispatcher_save, Scan, chosen, nobody, stopped, unending, Next, runs, turn,
  load, after_scan, scan_all, choose, set_up_next,
}
use hypnoticos.Dispatcher.Schedule.Turns.{
  Ready, get-length, scan-Ready, scan_nobody-All, scan_chosen-All,
}
use hypnoticos.Dispatcher.Schedule.Save.{get_cpu-set_current, dispatcher_save-Unloaded}

-- A process that may be chosen in the cycle: it runs, is not locked, has not run in this cycle, and is
-- not about to exit.
abbrev pub Runnable : (cycle : ℕ) → Process → Type 0
Runnable cycle q = (q.run ≡ 1) × (q.lock ≡ 0) × (q.last_cycle ≢ cycle) × (q.pending_exit ≡ false)

-- Of the list `before` a runnable process was chosen, whose suspension was lifted if it had one. It
-- stands at index `i`, has taken its turn, is on the processor, and has its registers back but for
-- rflags.
pub record Started (before : List Process) (apic i : ℕ) (m m' : Machine) : Type 0 where
  pub chosen_process : Process
  pub was_runnable : Any (λ q. Keeps q chosen_process × Runnable m'.cycle q) before
  pub was_awake : chosen_process.suspend ≡ awake
  pub takes_turn :
      get_elem? m'.processes i ≡ some (record chosen_process { last_cycle = m'.cycle; lock = 1 })
  pub on_cpu :
      (c : Cpu) × (get_cpu apic m'.cpus ≡ some (record c { current_pid = chosen_process.pid }))
  pub registers : m'.saved ≡ record chosen_process.save { rflags = m.saved.rflags }

Ready-Runnable :
    (cycle : ℕ) (p q : Process) → Ready cycle p → Keeps q p → Keeps q p × Runnable cycle q
Ready-Runnable cycle p q r k =
    (k, (sym k.3 ∙ r.run, sym k.4 ∙ r.unlocked, λ e. r.fresh (k.1 ∙ e), sym k.0 ∙ r.staying))

runs-injective : {i j : ℕ} {m m' : Machine} → runs i m ≡ runs j m' → (i ≡ j) × (m ≡ m')
runs-injective h = (cc, cc)

module _ (before : List Process) (apic i : ℕ) (c : Cpu) where
  -- It is a process of the list, up to its suspension.
  abbrev Listed : Process → Type 0
  Listed p = Any (λ q. Keeps q p) before

  Listed-Keeps : (p q : Process) → Keeps p q → Listed p → Listed q
  Listed-Keeps p q k = Any-map (λ r l. Keeps-trans r p q l k) before

  load-Started :
      (m : Machine) (p : Process) (w : World) (ps : List Process)
      → All Listed m.processes
      → get_cpu apic m.cpus ≡ some c
      → scan_all m ≡ chosen i p w ps
      → Started before apic i m (load apic i p w ps m)
  unfolding load
  load-Started m p w ps a g e =
      let r = scan-Ready (suc (length m.processes)) 0 m.cycle true m.world m.processes i p w ps e in
      record {
        chosen_process = p;
        was_runnable =
            Any-map (λ q. Ready-Runnable m.cycle p q r.0) before
              (scan_chosen-All Listed Listed-Keeps (suc (length m.processes)) 0 m.cycle true m.world
                m.processes i p w ps a e);
        was_awake = r.0.active;
        takes_turn = get_elem?-set_self ps i (turn m.cycle p) (get-length ps i p r.1);
        on_cpu = (c, get_cpu-set_current apic p.pid m.cpus c g);
        registers = refl;
      }

  after_scan-Started :
      (restart : Machine → Next) (m m' : Machine) (s : Scan)
      → ((l : Machine)
          → All Listed l.processes
          → get_cpu apic l.cpus ≡ some c
          → restart l ≡ runs i m'
          → Started before apic i l m')
      → All Listed m.processes
      → get_cpu apic m.cpus ≡ some c
      → scan_all m ≡ s
      → after_scan restart apic m s ≡ runs i m'
      → Started before apic i m m'
  unfolding after_scan
  after_scan-Started restart m m' (chosen j p w ps) f a g e h =
      let r = runs-injective h in
      subst (Started before apic i m) r.1 (
        subst (λ j. Started before apic i m (load apic j p w ps m)) (sym r.0)
          (load-Started m p w ps a g (e ∙ ap (λ j. chosen j p w ps) r.0)))
  after_scan-Started restart m m' (nobody true w ps) f a g e h = cc
  after_scan-Started restart m m' (nobody false w ps) f a g e h =
      let listed =
        scan_nobody-All Listed Listed-Keeps (suc (length m.processes)) 0 m.cycle true m.world
          m.processes false w ps a e in
      let r = f (record m { processes = ps; world = w; cycle = add64 m.cycle 1 }) listed g h in
      record {
        chosen_process = r.chosen_process;
        was_runnable = r.was_runnable;
        was_awake = r.was_awake;
        takes_turn = r.takes_turn;
        on_cpu = r.on_cpu;
        registers = r.registers;
      }
  after_scan-Started restart m m' stopped f a g e h = cc
  after_scan-Started restart m m' unending f a g e h = cc

  choose-Started :
      (n : ℕ) (m m' : Machine)
      → All Listed m.processes
      → get_cpu apic m.cpus ≡ some c
      → choose n apic m ≡ runs i m'
      → Started before apic i m m'
  unfolding choose
  choose-Started zero m m' a g h = cc
  choose-Started (suc n) m m' a g h =
      after_scan-Started (choose n apic) m m' (scan_all m) (λ l. choose-Started n l m') a g refl h

-- Where `DispatcherSetUpNext` puts process number `i` on the processor: in the list as `DispatcherSave`
-- leaves it, this process was runnable, that is, run was 1, it was not locked, it was not about to exit
-- and had not run in the cycle that now is. It was not suspended, or its suspension has just been
-- lifted. It is locked now and has run in this cycle, the processor's entry names it, and its saved
-- registers are restored but for rflags.
pub set_up_next-Started :
    (n apic i : ℕ) (m m' : Machine)
    → set_up_next n apic m ≡ runs i m'
    → (b : Machine) × (dispatcher_save apic m ≡ some b) × Started b.processes apic i m m'
unfolding set_up_next
set_up_next-Started n apic i m m' h = elim (Option-cases (dispatcher_save apic m)) [
  | inl e ↦ absurd (ground (arith, e, h))
  | inr (l, e) ↦ elim (Option-cases (get_cpu apic l.cpus)) [
    | inl g ↦ absurd (ground (arith, e, g, h))
    | inr (c, g) ↦
        let u = dispatcher_save-Unloaded apic m l e in
        let all = All-Any Keeps Keeps-refl l.processes in
        let r = choose-Started l.processes apic i c n l m' all g (ground (arith, e, g, h)) in
        (
          l,
          e,
          record {
            chosen_process = r.chosen_process;
            was_runnable = r.was_runnable;
            was_awake = r.was_awake;
            takes_turn = r.takes_turn;
            on_cpu = r.on_cpu;
            registers =
                r.registers
                ∙ ap (λ (s : Registers). record r.chosen_process.save { rflags = s.rflags })
                    u.same_saved;
          },
        )
  ]
]
