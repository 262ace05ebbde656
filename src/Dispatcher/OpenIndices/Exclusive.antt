-- ===== src/Dispatcher/OpenIndices/Exclusive.antt =====
-- The locks of src/dispatcher/open-indices.c are exclusive, and an id is found while there is one.
use hypnoticos.Base.{
  ℕ, ◌<◌, ◌≡◌, refl, ◌≢◌, inl, inr, ◌∷◌, Bool, true, false, none, some, List, [], ◌++◌, length,
  arith, All, All-append, Any, sym, Bool-cases, Option-cases, ℕ_discrete,
}
use hypnoticos.Libc.Text.{strcmp, strcmp_iff}
use hypnoticos.Dispatcher.OpenIndices.{
  OpenIndex, has_path, find_id, new_index, lock_attempt, lock_retrieve, lock_done,
}
use hypnoticos.Dispatcher.OpenIndices.Ids.{
  Distinct, Pairwise, IdInRange, IsValid, id_taken-false, has_path-false, find_id_sound,
  find_id_total,
}

lock_attempt_new :
    (pid : ℕ) (path : List ℕ) (es : List OpenIndex) (id : ℕ)
    → has_path es path ≡ false
    → find_id es 9999 1 ≡ some id
    → lock_attempt true true pid path es
      ≡ (some (new_index id path pid), es ++ new_index id path pid ∷ [])
unfolding lock_attempt
lock_attempt_new pid path es id h f = ground (arith, h, f)

Distinct-new :
    (es : List OpenIndex) (e : OpenIndex)
    → All (λ f. f.open_index_id ≢ e.open_index_id) es
    → All (λ f. f.path ≢ e.path) es
    → Pairwise es
    → Pairwise (es ++ e ∷ [])
Distinct-new [] e i p w = (tt, tt)
Distinct-new (f ∷ es) e i p w = (
  All-append (Distinct f) es (e ∷ []) w.0 ((λ q. i.0 (sym q), λ q. p.0 (sym q)), tt),
  Distinct-new es e i.1 p.1 w.1,
)

new_index-IsValid :
    (pid : ℕ) (path : List ℕ) (es : List OpenIndex) (id : ℕ)
    → IsValid es
    → has_path es path ≡ false
    → find_id es 9999 1 ≡ some id
    → IsValid (es ++ new_index id path pid ∷ [])
new_index-IsValid pid path es id v h f =
    let s = find_id_sound es 9999 1 id f in
    (
      Distinct-new es (new_index id path pid) (id_taken-false es id s.2) (has_path-false es path h)
          v.0,
      All-append IdInRange es (new_index id path pid ∷ []) v.1 ((s.0, s.1), tt),
    )

lock_done-All :
    (P : OpenIndex → Type 0) (id : ℕ) (es : List OpenIndex) → All P es → All P (lock_done id es)
unfolding lock_done
lock_done-All P id [] a = tt
lock_done-All P id (e ∷ es) a = elim (ℕ_discrete e.open_index_id id) [
  | yes y ↦ ground (arith, y, a.1)
  | no n ↦ let rest = lock_done-All P id es a.1 in ground (arith, n, a.0, rest)
]

lock_done-Pairwise : (id : ℕ) (es : List OpenIndex) → Pairwise es → Pairwise (lock_done id es)
unfolding lock_done
lock_done-Pairwise id [] w = tt
lock_done-Pairwise id (e ∷ es) w = elim (ℕ_discrete e.open_index_id id) [
  | yes y ↦ ground (arith, y, w.1)
  | no n ↦
      let rest = lock_done-Pairwise id es w.1 in
      let far = lock_done-All (Distinct e) id es w.0 in ground (arith, n, far, rest)
]

-- Unlocking any id keeps the list valid.
pub lock_done-IsValid : (id : ℕ) (es : List OpenIndex) → IsValid es → IsValid (lock_done id es)
lock_done-IsValid id es v = (lock_done-Pairwise id es v.0, lock_done-All IdInRange id es v.1)

lock_done_last :
    (es : List OpenIndex) (e : OpenIndex)
    → All (λ f. f.open_index_id ≢ e.open_index_id) es
    → lock_done e.open_index_id (es ++ e ∷ []) ≡ es
unfolding lock_done
lock_done_last [] e a = ground arith
lock_done_last (f ∷ es) e a = ground (arith, lock_done_last es e a.1)

lock_retrieve_last :
    (pid : ℕ) (es : List OpenIndex) (e : OpenIndex)
    → All (λ f. f.open_index_id ≢ e.open_index_id) es
    → e.pid ≡ pid
    → lock_retrieve pid e.open_index_id (es ++ e ∷ []) ≡ some e
unfolding lock_retrieve
lock_retrieve_last pid [] e a p = ground (arith, p)
lock_retrieve_last pid (f ∷ es) e a p = ground (arith, lock_retrieve_last pid es e a.1 p)

has_path-true :
    (es : List OpenIndex) (path : List ℕ) → Any (λ e. e.path ≡ path) es → has_path es path ≡ true
unfolding has_path
has_path-true [] path a = absurd a
has_path-true (e ∷ es) path (inl q) = ground (arith, (strcmp_iff e.path path).1 q)
has_path-true (e ∷ es) path (inr a) = ground (arith, has_path-true es path a)

unopened :
    (es : List OpenIndex) (path : List ℕ) → All (λ e. e.path ≢ path) es → has_path es path ≡ false
unfolding has_path
unopened [] path a = refl
unopened (e ∷ es) path a = elim (ℕ_discrete (strcmp e.path path) 0) [
  | yes z ↦ absurd (a.0 ((strcmp_iff e.path path).0 z))
  | no n ↦ ground (arith, n, unopened es path a.1)
]

-- An attempt to lock a path that an entry holds returns NULL and leaves the list as it is, whoever
-- asks and whatever memory there is.
pub lock_attempt_refused :
    (entry_room path_room : Bool) (pid : ℕ) (path : List ℕ) (es : List OpenIndex)
    → Any (λ e. e.path ≡ path) es
    → lock_attempt entry_room path_room pid path es ≡ (none, es)
unfolding lock_attempt
lock_attempt_refused entry_room path_room pid path es a = ground (arith, has_path-true es path a)

-- An attempt to lock a path that no entry of a valid list holds, with fewer than 9999 entries and
-- with memory for both allocations, appends an entry for the process under some id. With that id the
-- process retrieves the entry, and unlocking it gives the list as it was.
pub lock_attempt_granted :
    (pid : ℕ) (path : List ℕ) (es : List OpenIndex)
    → IsValid es
    → All (λ e. e.path ≢ path) es
    → length es < 9999
    → (id : ℕ) × (lock_attempt true true pid path es
        ≡ (some (new_index id path pid), es ++ new_index id path pid ∷ []))
      × (lock_retrieve pid id (es ++ new_index id path pid ∷ []) ≡ some (new_index id path pid))
      × (lock_done id (es ++ new_index id path pid ∷ []) ≡ es)
lock_attempt_granted pid path es v a l =
    let (id, f) = find_id_total es l in
    let fresh = id_taken-false es id (find_id_sound es 9999 1 id f).2 in
    (
      id,
      lock_attempt_new pid path es id (unopened es path a) f,
      lock_retrieve_last pid es (new_index id path pid) fresh refl,
      lock_done_last es (new_index id path pid) fresh,
    )

-- On every branch, an attempt keeps a valid list valid: ids and paths stay distinct, and the ids lie
-- from 1 to 9999.
pub lock_attempt-IsValid :
    (entry_room path_room : Bool) (pid : ℕ) (path : List ℕ) (es : List OpenIndex)
    → IsValid es
    → IsValid (lock_attempt entry_room path_room pid path es).1
unfolding lock_attempt
lock_attempt-IsValid entry_room path_room pid path es v = elim (Bool-cases (has_path es path)) [
  | inl t ↦ ground (arith, t, v)
  | inr h ↦ elim (Option-cases (find_id es 9999 1)) [
    | inl n ↦ ground (arith, h, n, v)
    | inr (id, f) ↦
        let w = new_index-IsValid pid path es id v h f in
        elim (Bool-cases entry_room) [
          | inl a ↦ elim (Bool-cases path_room) [
            | inl b ↦ ground (arith, h, f, a, b, w)
            | inr b ↦ ground (arith, h, f, a, b, v)
          ]
          | inr a ↦ ground (arith, h, a, v)
        ]
  ]
]
