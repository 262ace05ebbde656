-- ===== src/Dispatcher/OpenIndices/Ids.antt =====
-- The ids of src/dispatcher/open-indices.c: one is found while there is one.
use hypnoticos.Base.{
  ℕ, zero, suc, ◌+◌, ◌≤◌, ◌<◌, ◌≡◌, refl, ◌≢◌, inl, inr, ◌∷◌, true, false, none, some, List, [],
  length, arith, All, ap, sym, ◌∙◌, Bool-cases, Option-cases, ℕ_discrete,
}
use hypnoticos.Libc.Text.{strcmp, strcmp_iff}
use hypnoticos.Dispatcher.OpenIndices.{
  OpenIndex, open_indices_max_id, has_path, id_taken, find_id, lock_done,
}

-- Two entries of one list.
abbrev pub Distinct : OpenIndex → OpenIndex → Type 0
Distinct e f = (f.open_index_id ≢ e.open_index_id) × (f.path ≢ e.path)

abbrev pub Pairwise : List OpenIndex → Type 0
Pairwise [] = Unit
Pairwise (e ∷ es) = All (Distinct e) es × Pairwise es

-- An id that `lock_attempt` gives out.
abbrev pub IdInRange : OpenIndex → Type 0
IdInRange e = (1 ≤ e.open_index_id) × (e.open_index_id < open_indices_max_id)

abbrev pub IsValid : List OpenIndex → Type 0
IsValid es = Pairwise es × All IdInRange es

pub id_taken-false :
    (es : List OpenIndex) (id : ℕ) → id_taken es id ≡ false → All (λ e. e.open_index_id ≢ id) es
unfolding id_taken
id_taken-false [] id h = tt
id_taken-false (e ∷ es) id h = ground (arith, id_taken-false es id)

pub false-id_taken :
    (es : List OpenIndex) (id : ℕ) → All (λ e. e.open_index_id ≢ id) es → id_taken es id ≡ false
unfolding id_taken
false-id_taken [] id a = refl
false-id_taken (e ∷ es) id a = ground (arith, false-id_taken es id a.1)

pub has_path-false :
    (es : List OpenIndex) (path : List ℕ) → has_path es path ≡ false → All (λ e. e.path ≢ path) es
unfolding has_path
has_path-false [] path h = tt
has_path-false (e ∷ es) path h = elim (ℕ_discrete (strcmp e.path path) 0) [
  | yes z ↦ absurd (ground (arith, z))
  | no n ↦ (λ q. n ((strcmp_iff e.path path).1 q), has_path-false es path (ground (arith, n)))
]

pub find_id_sound :
    (es : List OpenIndex) (n id r : ℕ)
    → find_id es n id ≡ some r
    → (id ≤ r) × (r < id + n) × (id_taken es r ≡ false)
unfolding find_id
find_id_sound es zero id r h = absurd (ground (arith, h))
find_id_sound es (suc n) id r h = elim (Bool-cases (id_taken es id)) [
  | inl t ↦
      let rest = find_id_sound es n (id + 1) r (ground (arith, t, h)) in
      (omega arith, omega arith, rest.2)
  | inr f ↦
      let e : id ≡ r = ground (arith, f, h) in
      (omega arith, omega arith, ap (id_taken es) (sym e) ∙ f)
]

pub find_id-none :
    (es : List OpenIndex) (n id j : ℕ)
    → find_id es n id ≡ none
    → id ≤ j
    → j < id + n
    → id_taken es j ≡ true
unfolding find_id
find_id-none es zero id j h l u = absurd (omega arith)
find_id-none es (suc n) id j h l u = elim (Bool-cases (id_taken es id)) [
  | inl t ↦ elim (ℕ_discrete id j) [
    | yes e ↦ ap (id_taken es) (sym e) ∙ t
    | no ne ↦ find_id-none es n (id + 1) j (ground (arith, t, h)) (omega arith) (omega arith)
  ]
  | inr f ↦ absurd (ground (arith, f, h))
]

pub length-lock_done :
    (es : List OpenIndex) (id : ℕ)
    → id_taken es id ≡ true
    → length (lock_done id es) + 1 ≡ length es
unfolding id_taken lock_done
length-lock_done [] id h = absurd (ground (arith, h))
length-lock_done (e ∷ es) id h = elim (ℕ_discrete e.open_index_id id) [
  | yes y ↦ ground (arith, y)
  | no n ↦ let rest = length-lock_done es id (ground (arith, n, h)) in ground (arith, n, rest)
]

pub id_taken-lock_done :
    (es : List OpenIndex) (id j : ℕ)
    → id ≢ j
    → id_taken es j ≡ true
    → id_taken (lock_done id es) j ≡ true
unfolding id_taken lock_done
id_taken-lock_done [] id j n h = h
id_taken-lock_done (e ∷ es) id j n h = ground (arith, id_taken-lock_done es id j n)

-- As many ids as a list holds need as many entries.
pub ids_taken :
    (n id : ℕ) (es : List OpenIndex)
    → ((j : ℕ) → id ≤ j → j < id + n → id_taken es j ≡ true)
    → n ≤ length es
ids_taken zero id es h = omega arith
ids_taken (suc n) id es h =
    let l = length-lock_done es id (h id (omega arith) (omega arith)) in
    let rest = ids_taken n (id + 1) (lock_done id es) (λ j lo hi.
      id_taken-lock_done es id j (λ e. omega arith) (h j (omega arith) (omega arith))) in
    omega arith

-- While the list holds fewer than 9999 entries there is a free id.
pub find_id_total :
    (es : List OpenIndex) → length es < 9999 → (r : ℕ) × (find_id es 9999 1 ≡ some r)
find_id_total es l = elim (Option-cases (find_id es 9999 1)) [
  | inl n ↦
      let taken = ids_taken 9999 1 es (λ j lo hi. find_id-none es 9999 1 j n lo hi) in
      absurd (omega arith)
  | inr r ↦ r
]
