-- ===== src/Dispatcher/Process/Keeps.antt =====
-- What the tests of suspensions and the end of a process keep.
use hypnoticos.Base.{
  ℕ, zero, suc, ◌+◌, ◌≡◌, refl, inl, inr, Bool, true, false, some, List, [], ◌∷◌, leb, get_elem?,
  length, arith, All, ap, ◌∙◌, subst, Bool-cases, ℕ_discrete,
}
use hypnoticos.Function.Read.{Outcome, returned, halted}
use hypnoticos.Dispatcher.Process.{
  Suspend, awake, sleeping, reading, Process, World, remove_process, process_done, lift_suspension,
  sleep_suspend_test, read_outcome, test_kind, suspend_test,
}

-- A test of a suspension keeps these fields.
abbrev pub Keeps : Process → Process → Type 0
Keeps p q =
    (q.pending_exit ≡ p.pending_exit)
    × (q.last_cycle ≡ p.last_cycle)
    × (q.pid ≡ p.pid)
    × (q.run ≡ p.run)
    × (q.lock ≡ p.lock)
    × (q.save.rip ≡ p.save.rip)

pub Keeps-refl : (p : Process) → Keeps p p
Keeps-refl p = (refl, refl, refl, refl, refl, refl)

pub Keeps-trans : (p q r : Process) → Keeps p q → Keeps q r → Keeps p r
Keeps-trans p q r k l = (l.0 ∙ k.0, l.1 ∙ k.1, l.2 ∙ k.2, l.3 ∙ k.3, l.4 ∙ k.4, l.5 ∙ k.5)

sleep-Keeps :
    (p : Process) (now tick : ℕ) (overflow : Bool)
    → Keeps p (sleep_suspend_test p now tick overflow)
unfolding sleep_suspend_test lift_suspension
sleep-Keeps p now tick true = (refl, refl, refl, refl, refl, refl)
sleep-Keeps p now tick false = elim (Bool-cases (leb tick now)) [
  | inl t ↦ rw t (refl, refl, refl, refl, refl, refl)
  | inr f ↦ rw f (refl, refl, refl, refl, refl, refl)
]

-- The process in a result.
some-fst : {A B : Type 0} {r t : A × B} → some r ≡ some t → r.0 ≡ t.0
some-fst h = cc

read-Keeps :
    (p : Process) (w : World) (r : Process × World) (o : Outcome)
    → read_outcome p w o ≡ some r
    → Keeps p r.0
unfolding read_outcome
read-Keeps p w r halted h = absurd (ground (arith, h))
read-Keeps p w r (returned s) h = subst (Keeps p) (some-fst h) (refl, refl, refl, refl, refl, refl)

test_kind-Keeps :
    (s : Suspend) (p : Process) (w : World) (r : Process × World)
    → test_kind s p w ≡ some r
    → Keeps p r.0
unfolding test_kind
test_kind-Keeps awake p w r h = subst (Keeps p) (some-fst h) (refl, refl, refl, refl, refl, refl)
test_kind-Keeps (sleeping tick overflow) p w r h =
    subst (Keeps p) (some-fst h) (sleep-Keeps p w.ticks tick overflow)
test_kind-Keeps (reading f) p w r h = read-Keeps p w r _ h

pub suspend_test-Keeps :
    (p : Process) (w : World) (r : Process × World) → suspend_test p w ≡ some r → Keeps p r.0
unfolding suspend_test
suspend_test-Keeps p w r h = test_kind-Keeps p.suspend p w r h

pub length-remove_process :
    (ps : List Process) (i : ℕ) (p : Process)
    → get_elem? ps i ≡ some p
    → length (remove_process p.pid ps) + 1 ≡ length ps
unfolding remove_process
length-remove_process [] i p h = absurd (ground (arith, h))
length-remove_process (q ∷ ps) zero p h =
    let e : q ≡ p = ground (arith, h) in
    let same : q.pid ≡ p.pid = ap (λ (p : Process). p.pid) e in ground (arith, same)
length-remove_process (q ∷ ps) (suc i) p h = elim (ℕ_discrete q.pid p.pid) [
  | yes y ↦ ground (arith, y)
  | no n ↦ let rest = length-remove_process ps i p h in ground (arith, n, rest)
]

pub remove_process-All :
    (P : Process → Type 0) (pid : ℕ) (ps : List Process) → All P ps → All P (remove_process pid ps)
unfolding remove_process
remove_process-All P pid [] a = tt
remove_process-All P pid (p ∷ ps) a = elim (ℕ_discrete p.pid pid) [
  | yes y ↦ ground (arith, y, a.1)
  | no n ↦ let rest = remove_process-All P pid ps a.1 in ground (arith, n, a.0, rest)
]

pub process_done_list :
    (p : Process) (w : World) (ps : List Process)
    → (process_done p w ps).1 ≡ remove_process p.pid ps
unfolding process_done
process_done_list p w ps = refl
