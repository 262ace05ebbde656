-- ===== src/Dispatcher/Schedule/Turns.antt =====
-- Which process src/dispatcher/dispatcher.c chooses, and that the choice ends.
use hypnoticos.Base.{
  ℕ, zero, suc, ◌+◌, ◌≤◌, ◌<◌, ◌≡◌, refl, ◌≢◌, inl, inr, Bool, true, false, ◌&&◌, not, none, some,
  List, [], ◌∷◌, ◌==◌, get_elem?, set, length, arith, All, ap, sym, subst, ◌∙◌, length-set,
  get_elem?-set_self, Bool-cases, Option-cases,
}
use hypnoticos.Dispatcher.Process.{
  Suspend, awake, sleeping, reading, Process, World, remove_process, process_done, suspend_test,
}
use hypnoticos.Dispatcher.Process.Keeps.{
  Keeps, process_done_list, suspend_test-Keeps, length-remove_process, remove_process-All,
}
use hypnoticos.Dispatcher.Schedule.{is_awake, ready, chosen, nobody, stopped, unending, scan}

-- A process that may run in the cycle.
pub record Ready (cycle : ℕ) (p : Process) : Type 0 where
  pub run : p.run ≡ 1
  pub unlocked : p.lock ≡ 0
  pub fresh : p.last_cycle ≢ cycle
  pub active : p.suspend ≡ awake
  pub staying : p.pending_exit ≡ false

awake_sound : (s : Suspend) → is_awake s ≡ true → s ≡ awake
awake_sound awake h = refl
awake_sound (sleeping tick overflow) h = cc
awake_sound (reading r) h = cc

ready-Ready :
    (cycle : ℕ) (p : Process) → p.pending_exit ≡ false → ready cycle p ≡ true → Ready cycle p
unfolding ready
ready-Ready cycle p e h = record {
  run = ground (arith, h);
  unlocked = ground (arith, h);
  fresh = ground (arith, h);
  active = awake_sound p.suspend (ground (arith, h));
  staying = e;
}

-- One round of the scan: what it does at a process that stays, and the list that it goes on with.
abbrev pub Last : ℕ → Process → Type 0
Last bound p = p.last_cycle ≤ bound

set-All :
    (P : Process → Type 0) (ps : List Process) (i : ℕ) (q : Process)
    → All P ps
    → P q
    → All P (set ps i q)
set-All P [] i q a b = tt
set-All P (p ∷ ps) zero q a b = (b, a.1)
set-All P (p ∷ ps) (suc i) q a b = (a.0, set-All P ps i q a.1 b)

get-All :
    (P : Process → Type 0) (ps : List Process) (i : ℕ) (p : Process)
    → All P ps
    → get_elem? ps i ≡ some p
    → P p
get-All P [] i p a h = absurd (ground (arith, h))
get-All P (q ∷ ps) zero p a h = let e : q ≡ p = ground (arith, h) in subst P e a.0
get-All P (q ∷ ps) (suc i) p a h = get-All P ps i p a.1 h

pub get-length : (ps : List Process) (i : ℕ) (p : Process) → get_elem? ps i ≡ some p → i < length ps
get-length [] i p h = absurd (ground (arith, h))
get-length (q ∷ ps) zero p h = omega arith
get-length (q ∷ ps) (suc i) p h = omega (arith, get-length ps i p h)

-- How one round of the loop goes on.
data Round (n i cycle : ℕ) (idle : Bool) (w : World) (ps : List Process) : Type 0 where
  at_end :
      get_elem? ps i ≡ none
      → scan (suc n) i cycle idle w ps ≡ nobody idle w ps
      → Round n i cycle idle w ps
  exits :
      (p : Process) (v : World)
      → get_elem? ps i ≡ some p
      → p.pending_exit ≡ true
      → scan (suc n) i cycle idle w ps ≡ scan n i cycle true v (remove_process p.pid ps)
      → Round n i cycle idle w ps
  halts : scan (suc n) i cycle idle w ps ≡ stopped → Round n i cycle idle w ps
  takes :
      (p q : Process) (v : World)
      → get_elem? ps i ≡ some p
      → p.pending_exit ≡ false
      → Keeps p q
      → ready cycle q ≡ true
      → scan (suc n) i cycle idle w ps ≡ chosen i q v (set ps i q)
      → Round n i cycle idle w ps
  passes :
      (p q : Process) (v : World)
      → get_elem? ps i ≡ some p
      → Keeps p q
      → scan (suc n) i cycle idle w ps
        ≡ scan n (i + 1) cycle (idle && not (q.last_cycle == cycle)) v (set ps i q)
      → Round n i cycle idle w ps

round : (n i cycle : ℕ) (idle : Bool) (w : World) (ps : List Process) → Round n i cycle idle w ps
unfolding scan
round n i cycle idle w ps = elim (Option-cases (get_elem? ps i)) [
  | inl e ↦ at_end e (ground (arith, e))
  | inr (p, e) ↦ elim (Bool-cases p.pending_exit) [
    | inl x ↦ exits p (process_done p w ps).0 e x (ground (arith, e, x, process_done_list p w ps))
    | inr s ↦ elim (Option-cases (suspend_test p w)) [
      | inl h ↦ halts (ground (arith, e, s, h))
      | inr (r, t) ↦
          let k = suspend_test-Keeps p w r t in
          elim (Bool-cases (ready cycle r.0)) [
            | inl y ↦ takes p r.0 r.1 e s k y (ground (arith, e, s, t, y))
            | inr y ↦ passes p r.0 r.1 e k (ground (arith, e, s, t, y))
          ]
    ]
  ]
]

-- A round that is not the end of the list goes on with a list in which fewer places are left.
pub scan-ne-unending :
    (n i cycle : ℕ) (idle : Bool) (w : World) (ps : List Process)
    → i ≤ length ps
    → length ps < i + n
    → scan n i cycle idle w ps ≢ unending
scan-ne-unending zero i cycle idle w ps l f h = omega arith
scan-ne-unending (suc n) i cycle idle w ps l f h = elim (round n i cycle idle w ps) [
  | at_end e s ↦ ground (arith, s, h)
  | exits p v e x s ↦
      let inside = get-length ps i p e in
      let len = length-remove_process ps i p e in
      scan-ne-unending n i cycle true v (remove_process p.pid ps) (omega arith) (omega arith)
        (sym s ∙ h)
  | halts s ↦ ground (arith, s, h)
  | takes p q v e x k r s ↦ ground (arith, s, h)
  | passes p q v e k s ↦
      let inside = get-length ps i p e in
      let len = length-set ps i q in
      scan-ne-unending n (i + 1) cycle _ v (set ps i q) (omega arith) (omega arith) (sym s ∙ h)
]

chosen-set :
    (ps : List Process) (i j : ℕ) (p q r : Process) (v u : World) (qs : List Process)
    → get_elem? ps i ≡ some p
    → chosen i q v (set ps i q) ≡ chosen j r u qs
    → (q ≡ r) × (get_elem? qs j ≡ some r)
chosen-set ps i j p q r v u qs e h =
    let here = get_elem?-set_self ps i q (get-length ps i p e) in
    let a : i ≡ j = cc in
    let b : q ≡ r = cc in
    let c : set ps i q ≡ qs = cc in
    (
      b,
      subst (λ j. get_elem? qs j ≡ some r) a
          (subst (λ qs. get_elem? qs i ≡ some r) c (here ∙ ap some b)),
    )

-- The process that a scan chooses is ready, and stands at the index in the list.
pub scan-Ready :
    (n i cycle : ℕ) (idle : Bool) (w : World) (ps : List Process) (j : ℕ) (r : Process) (u : World)
    (qs : List Process)
    → scan n i cycle idle w ps ≡ chosen j r u qs
    → Ready cycle r × (get_elem? qs j ≡ some r)
unfolding scan
scan-Ready zero i cycle idle w ps j r u qs h = cc
scan-Ready (suc n) i cycle idle w ps j r u qs h = elim (round n i cycle idle w ps) [
  | at_end e s ↦ absurd (ground (arith, s, h))
  | exits p v e x s ↦ scan-Ready n i cycle true v (remove_process p.pid ps) j r u qs (sym s ∙ h)
  | halts s ↦ absurd (ground (arith, s, h))
  | takes p q v e x k y s ↦
      let c = chosen-set ps i j p q r v u qs e (sym s ∙ h) in
      (subst (Ready cycle) c.0 (ready-Ready cycle q (k.0 ∙ x) y), c.1)
  | passes p q v e k s ↦ scan-Ready n (i + 1) cycle _ v (set ps i q) j r u qs (sym s ∙ h)
]

-- What a test of a suspension keeps is kept by a scan, for the list that is left and for the process
-- that is chosen.
module _ (P : Process → Type 0) (keep : (p q : Process) → Keeps p q → P p → P q) where
  pub scan_nobody-All :
      (n i cycle : ℕ) (idle : Bool) (w : World) (ps : List Process) (b : Bool) (u : World)
      (qs : List Process)
      → All P ps
      → scan n i cycle idle w ps ≡ nobody b u qs
      → All P qs
  unfolding scan
  scan_nobody-All zero i cycle idle w ps b u qs a h = cc
  scan_nobody-All (suc n) i cycle idle w ps b u qs a h = elim (round n i cycle idle w ps) [
    | at_end e s ↦
        let same : nobody idle w ps ≡ nobody b u qs = sym s ∙ h in
        let c : ps ≡ qs = cc in subst (All P) c a
    | exits p v e x s ↦
        scan_nobody-All n i cycle true v (remove_process p.pid ps) b u qs
          (remove_process-All P p.pid ps a) (sym s ∙ h)
    | halts s ↦ absurd (ground (arith, s, h))
    | takes p q v e x k y s ↦ absurd (ground (arith, s, h))
    | passes p q v e k s ↦
        scan_nobody-All n (i + 1) cycle _ v (set ps i q) b u qs
          (set-All P ps i q a (keep p q k (get-All P ps i p a e))) (sym s ∙ h)
  ]

  pub scan_chosen-All :
      (n i cycle : ℕ) (idle : Bool) (w : World) (ps : List Process) (j : ℕ) (r : Process)
      (u : World) (qs : List Process)
      → All P ps
      → scan n i cycle idle w ps ≡ chosen j r u qs
      → P r
  unfolding scan
  scan_chosen-All zero i cycle idle w ps j r u qs a h = cc
  scan_chosen-All (suc n) i cycle idle w ps j r u qs a h = elim (round n i cycle idle w ps) [
    | at_end e s ↦ absurd (ground (arith, s, h))
    | exits p v e x s ↦
        scan_chosen-All n i cycle true v (remove_process p.pid ps) j r u qs
          (remove_process-All P p.pid ps a) (sym s ∙ h)
    | halts s ↦ absurd (ground (arith, s, h))
    | takes p q v e x k y s ↦
        let c = chosen-set ps i j p q r v u qs e (sym s ∙ h) in
        subst P c.0 (keep p q k (get-All P ps i p a e))
    | passes p q v e k s ↦
        scan_chosen-All n (i + 1) cycle _ v (set ps i q) j r u qs
          (set-All P ps i q a (keep p q k (get-All P ps i p a e))) (sym s ∙ h)
  ]

Last-Keeps : (bound : ℕ) (p q : Process) → Keeps p q → Last bound p → Last bound q
Last-Keeps bound p q k l = subst (λ c. c ≤ bound) (sym k.1) l

-- No scan makes the cycles of the processes later.
pub scan-Last :
    (n i cycle bound : ℕ) (idle : Bool) (w : World) (ps : List Process) (b : Bool) (u : World)
    (qs : List Process)
    → All (Last bound) ps
    → scan n i cycle idle w ps ≡ nobody b u qs
    → All (Last bound) qs
scan-Last n i cycle bound = scan_nobody-All (Last bound) (Last-Keeps bound) n i cycle

-- In a cycle that no process has run in, a scan that finds nobody says so.
pub scan-idle :
    (n i cycle bound : ℕ) (idle : Bool) (w : World) (ps : List Process) (b : Bool) (u : World)
    (qs : List Process)
    → idle ≡ true
    → bound < cycle
    → All (Last bound) ps
    → scan n i cycle idle w ps ≡ nobody b u qs
    → b ≡ true
unfolding scan
scan-idle zero i cycle bound idle w ps b u qs t l a h = cc
scan-idle (suc n) i cycle bound idle w ps b u qs t l a h = elim (round n i cycle idle w ps) [
  | at_end e s ↦
      let same : nobody idle w ps ≡ nobody b u qs = sym s ∙ h in let c : idle ≡ b = cc in sym c ∙ t
  | exits p v e x s ↦
      scan-idle n i cycle bound true v (remove_process p.pid ps) b u qs refl l
        (remove_process-All (Last bound) p.pid ps a) (sym s ∙ h)
  | halts s ↦ absurd (ground (arith, s, h))
  | takes p q v e x k y s ↦ absurd (ground (arith, s, h))
  | passes p q v e k s ↦
      let low : p.last_cycle ≤ bound = get-All (Last bound) ps i p a e in
      let low' : q.last_cycle ≤ bound = subst (λ c. c ≤ bound) (sym k.1) low in
      scan-idle n (i + 1) cycle bound (idle && not (q.last_cycle == cycle)) v (set ps i q) b u qs
        (ground (arith, t, low', l)) l (set-All (Last bound) ps i q a low') (sym s ∙ h)
]
