-- ===== src/Dispatcher/Schedule/Rounds.antt =====
-- How often `DispatcherSetUpNext` of src/dispatcher/dispatcher.c scans the processes.
use hypnoticos.Base.{
  ℕ, suc, ◌+◌, ◌<◌, ◌≡◌, refl, ◌≢◌, inl, inr, true, false, List, add64, length, arith, word, All,
  sym, subst, Option-cases,
}
use hypnoticos.Dispatcher.Process.{Process, World}
use hypnoticos.Dispatcher.Schedule.{
  Machine, get_cpu, dispatcher_save, Scan, chosen, nobody, stopped, unending, Next, out_of_rounds,
  after_scan, scan_all, choose, set_up_next,
}
use hypnoticos.Dispatcher.Schedule.Turns.{Last, scan-ne-unending, scan-Last, scan-idle}
use hypnoticos.Dispatcher.Schedule.Save.{dispatcher_save-Unloaded}

pub after_scan-ne-out_of_rounds :
    (restart : Machine → Next) (apic : ℕ) (m : Machine) (s : Scan)
    → s ≢ unending
    → ((w : World) (ps : List Process)
        → s ≡ nobody false w ps
        → restart (record m { processes = ps; world = w; cycle = add64 m.cycle 1 }) ≢ out_of_rounds)
    → after_scan restart apic m s ≢ out_of_rounds
unfolding after_scan
after_scan-ne-out_of_rounds restart apic m (chosen i p w ps) u f h = cc
after_scan-ne-out_of_rounds restart apic m (nobody true w ps) u f h = cc
after_scan-ne-out_of_rounds restart apic m (nobody false w ps) u f h = f w ps refl h
after_scan-ne-out_of_rounds restart apic m stopped u f h = cc
after_scan-ne-out_of_rounds restart apic m unending u f h = u refl

pub scan_all-ne-unending : (m : Machine) → scan_all m ≢ unending
scan_all-ne-unending m =
    scan-ne-unending (suc (length m.processes)) 0 m.cycle true m.world m.processes (omega arith)
      (omega arith)

-- In a cycle that no process has run in, one round is enough.
pub choose_fresh :
    (apic bound : ℕ) (m : Machine)
    → bound < m.cycle
    → All (Last bound) m.processes
    → choose 1 apic m ≢ out_of_rounds
unfolding choose
choose_fresh apic bound m l a =
    after_scan-ne-out_of_rounds (choose 0 apic) apic m (scan_all m) (scan_all-ne-unending m)
      (λ w ps e.
        let idle : false ≡ true =
          scan-idle (suc (length m.processes)) 0 m.cycle bound true m.world m.processes false w ps
            refl l a e in
        absurd (ground (arith, idle)))

pub choose_twice :
    (apic : ℕ) (m : Machine)
    → m.cycle + 1 < word
    → All (Last m.cycle) m.processes
    → choose 2 apic m ≢ out_of_rounds
unfolding choose
choose_twice apic m l a =
    after_scan-ne-out_of_rounds (choose 1 apic) apic m (scan_all m) (scan_all-ne-unending m)
      (λ w ps e.
        choose_fresh apic m.cycle (record m { processes = ps; world = w; cycle = add64 m.cycle 1 })
          (ground (arith, l))
          (scan-Last (suc (length m.processes)) 0 m.cycle m.cycle true m.world m.processes false w
            ps a e))

-- `DispatcherSetUpNext` returns to its label `restart` for a new cycle at most once, where no process
-- has run in a later cycle than the present one, and the count of cycles does not overflow: after
-- two scans of the list a process runs, the processor waits, or the machine stops.
pub set_up_next-ne-out_of_rounds :
    (apic : ℕ) (m : Machine)
    → m.cycle + 1 < word
    → All (Last m.cycle) m.processes
    → set_up_next 2 apic m ≢ out_of_rounds
unfolding set_up_next
set_up_next-ne-out_of_rounds apic m l a h = elim (Option-cases (dispatcher_save apic m)) [
  | inl e ↦ ground (arith, e, h)
  | inr (k, e) ↦ elim (Option-cases (get_cpu apic k.cpus)) [
    | inl g ↦ ground (arith, e, g, h)
    | inr (c, g) ↦
        let u = dispatcher_save-Unloaded apic m k e in
        choose_twice apic k (subst (λ n. n + 1 < word) (sym u.same_cycle) l)
          (subst (λ n. All (Last n) k.processes) (sym u.same_cycle) (u.last m.cycle a))
          (ground (arith, e, g, h))
  ]
]
