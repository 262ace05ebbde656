-- ===== src/Fs/HypnoticFs/Scan.antt =====
-- The loops over the index space of src/fs/hypnoticfs/hypnoticfs.c: where they end, and what they
-- find.
use hypnoticos.Base.{
  ℕ, zero, suc, ◌+◌, ◌*◌, ◌≤◌, ◌<◌, ◌≡◌, ◌≢◌, refl, ap, sym, ◌∙◌, subst, Option, none, some, add64,
  word, arith, dec_lt, Option-cases, inl, inr,
}
use hypnoticos.Storage.{Disk}
use hypnoticos.Fs.HypnoticFs.{
  index_start, index_entry_size, Index, get_index_size, read_entry, hit, miss, read_error, unending,
  scan_entries, scan_index,
}

-- An index space of this size ends before the last entry of the address space.
abbrev pub EndsEarly : ℕ → Type 0
EndsEarly index_size = index_size + index_entry_size < word

-- The result of one round.
pub scan_hit {ℓ} :
    {A : Type ℓ} (fuel : ℕ) (d : Disk) (index_size : ℕ) (body : ℕ → Index → Option A) (at : ℕ)
    (e : Index) (a : A)
    → add64 at index_entry_size < index_size
    → read_entry d at ≡ some e
    → body at e ≡ some a
    → scan_entries (suc fuel) d index_size body at ≡ hit a
unfolding scan_entries
scan_hit fuel d index_size body at e a l r b = ground (arith, l, r, b)

pub scan_next {ℓ} :
    {A : Type ℓ} (fuel : ℕ) (d : Disk) (index_size : ℕ) (body : ℕ → Index → Option A) (at : ℕ)
    (e : Index)
    → add64 at index_entry_size < index_size
    → read_entry d at ≡ some e
    → body at e ≡ none
    → scan_entries (suc fuel) d index_size body at
      ≡ scan_entries fuel d index_size body (add64 at index_entry_size)
unfolding scan_entries
scan_next fuel d index_size body at e l r b = ground (arith, l, r, b)

-- A loop goes on exactly to the end of the space.
pub scan_end {ℓ} :
    {A : Type ℓ} (fuel : ℕ) (d : Disk) (index_size : ℕ) (body : ℕ → Index → Option A) (at : ℕ)
    → index_size ≤ add64 at index_entry_size
    → scan_entries (suc fuel) d index_size body at ≡ miss
unfolding scan_entries
scan_end fuel d index_size body at l = ground (arith, l)

pub scan_error {ℓ} :
    {A : Type ℓ} (fuel : ℕ) (d : Disk) (index_size : ℕ) (body : ℕ → Index → Option A) (at : ℕ)
    → add64 at index_entry_size < index_size
    → read_entry d at ≡ none
    → scan_entries (suc fuel) d index_size body at ≡ read_error
unfolding scan_entries
scan_error fuel d index_size body at l r = ground (arith, l, r)

-- What a round comes to.
pub data Round {ℓ} {A : Type ℓ} (d : Disk) (index_size : ℕ) (body : ℕ → Index → Option A) (at : ℕ)
    : Type ℓ where
  ends : index_size ≤ add64 at index_entry_size → Round d index_size body at
  error :
      add64 at index_entry_size < index_size → read_entry d at ≡ none → Round d index_size body at
  stops :
      (e : Index) (a : A)
      → add64 at index_entry_size < index_size
      → read_entry d at ≡ some e
      → body at e ≡ some a
      → Round d index_size body at
  next :
      (e : Index)
      → add64 at index_entry_size < index_size
      → read_entry d at ≡ some e
      → body at e ≡ none
      → Round d index_size body at

pub round {ℓ} :
    {A : Type ℓ} (d : Disk) (index_size : ℕ) (body : ℕ → Index → Option A) (at : ℕ)
    → Round d index_size body at
round d index_size body at = elim (dec_lt (add64 at index_entry_size) index_size) [
  | no l ↦ ends (omega (arith, l))
  | yes l ↦ elim (Option-cases (read_entry d at)) [
    | inl r ↦ error l r
    | inr (e, r) ↦ elim (Option-cases (body at e)) [
      | inl b ↦ next e l r b
      | inr (a, b) ↦ stops e a l r b
    ]
  ]
]

-- What a loop finds is an entry of the space that it comes to.
abbrev pub Found {ℓ} :
    {A : Type ℓ} → Disk → (index_size : ℕ) → (ℕ → Index → Option A) → (from : ℕ) → A → Type ℓ
Found d index_size body from a =
    (at : ℕ) × (e : Index) × (from ≤ at)
    × (at + index_entry_size < index_size)
    × (read_entry d at ≡ some e)
    × (body at e ≡ some a)

pub scan-Found {ℓ} :
    {A : Type ℓ} (fuel : ℕ) (d : Disk) (index_size : ℕ) (body : ℕ → Index → Option A) (at : ℕ)
    (a : A)
    → EndsEarly index_size
    → at ≤ index_size
    → scan_entries fuel d index_size body at ≡ hit a
    → Found d index_size body at a
unfolding scan_entries
scan-Found zero d index_size body at a w l h = absurd (cc)
scan-Found (suc fuel) d index_size body at a w l h = elim (round d index_size body at) [
  | ends k ↦ let s = scan_end fuel d index_size body at k in absurd (cc)
  | error k r ↦ let s = scan_error fuel d index_size body at k r in absurd (cc)
  | stops e a' k r b ↦
      let s = scan_hit fuel d index_size body at e a' k r b in
      let same : a' ≡ a = cc in (at, e, omega arith, omega (arith, k, l, w), r, b ∙ ap some same)
  | next e k r b ↦
      let s = scan_next fuel d index_size body at e k r b in
      let step : add64 at index_entry_size ≡ at + index_entry_size = omega (arith, l, w) in
      let f =
        scan-Found fuel d index_size body (add64 at index_entry_size) a w (omega (arith, k))
          (sym s ∙ h) in
      (f.0, f.1, omega (arith, f.2, step), f.3, f.4, f.5)
]

-- A loop comes to its end.
pub scan_done {ℓ} :
    {A : Type ℓ} (fuel : ℕ) (d : Disk) (index_size : ℕ) (body : ℕ → Index → Option A) (at : ℕ)
    → EndsEarly index_size
    → at ≤ index_size
    → index_size < fuel + at
    → scan_entries fuel d index_size body at ≢ unending
scan_done zero d index_size body at w l f h = absurd (omega (arith, l, f))
scan_done (suc fuel) d index_size body at w l f h = elim (round d index_size body at) [
  | ends k ↦ let s = scan_end fuel d index_size body at k in cc
  | error k r ↦ let s = scan_error fuel d index_size body at k r in cc
  | stops e a k r b ↦ let s = scan_hit fuel d index_size body at e a k r b in cc
  | next e k r b ↦
      let s = scan_next fuel d index_size body at e k r b in
      let step : add64 at index_entry_size ≡ at + index_entry_size = omega (arith, l, w) in
      scan_done fuel d index_size body (add64 at index_entry_size) w (omega (arith, k))
        (omega (arith, step, f)) (sym s ∙ h)
]

-- Two disks with the same entries give the same result.
pub scan_ext {ℓ} :
    {A : Type ℓ} (fuel : ℕ) (d d' : Disk) (index_size : ℕ) (body : ℕ → Index → Option A) (at : ℕ)
    → EndsEarly index_size
    → at ≤ index_size
    → ((p : ℕ) → at ≤ p → p + index_entry_size < index_size → read_entry d' p ≡ read_entry d p)
    → scan_entries fuel d' index_size body at ≡ scan_entries fuel d index_size body at
unfolding scan_entries
scan_ext zero d d' index_size body at w l same = refl
scan_ext (suc fuel) d d' index_size body at w l same =
    let step : add64 at index_entry_size < index_size
        → add64 at index_entry_size ≡ at + index_entry_size =
      λ k. omega (arith, k, l, w) in
    let here : add64 at index_entry_size < index_size → read_entry d' at ≡ read_entry d at =
      λ k. same at (omega arith) (omega (arith, k, step k)) in
    elim (round d index_size body at) [
      | ends k ↦ scan_end fuel d' index_size body at k ∙ sym (scan_end fuel d index_size body at k)
      | error k r ↦
          scan_error fuel d' index_size body at k (here k ∙ r)
          ∙ sym (scan_error fuel d index_size body at k r)
      | stops e a k r b ↦
          scan_hit fuel d' index_size body at e a k (here k ∙ r) b
          ∙ sym (scan_hit fuel d index_size body at e a k r b)
      | next e k r b ↦
          let rest =
            scan_ext fuel d d' index_size body (add64 at index_entry_size) w (omega (arith, k))
              (λ p lo hi. same p (omega (arith, lo, step k)) hi) in
          scan_next fuel d' index_size body at e k (here k ∙ r) b
          ∙ (rest ∙ sym (scan_next fuel d index_size body at e k r b))
    ]

-- A loop that meets an entry in the place of an empty one: before it, the disks have the same
-- entries, and the loop over the old disk finds nothing.
pub scan_fresh {ℓ} :
    {A : Type ℓ} (fuel : ℕ) (d d' : Disk) (index_size : ℕ) (empty : ℕ → Index → Option ℕ)
    (body : ℕ → Index → Option A) (at new : ℕ) (e : Index) (a : A)
    → EndsEarly index_size
    → at ≤ index_size
    → ((p : ℕ) (e : Index) (p' : ℕ) → empty p e ≡ some p' → p' ≡ p)
    → scan_entries fuel d index_size empty at ≡ hit new
    → ((b : A) → scan_entries fuel d index_size body at ≢ hit b)
    → ((p : ℕ) → p + index_entry_size ≤ new → read_entry d' p ≡ read_entry d p)
    → read_entry d' new ≡ some e
    → body new e ≡ some a
    → scan_entries fuel d' index_size body at ≡ hit a
unfolding scan_entries
scan_fresh zero d d' index_size empty body at new e a w l own h n same r b = absurd (cc)
scan_fresh (suc fuel) d d' index_size empty body at new e a w l own h n same r b =
    elim (round d index_size empty at) [
      | ends k ↦ let s = scan_end fuel d index_size empty at k in absurd (cc)
      | error k q ↦ let s = scan_error fuel d index_size empty at k q in absurd (cc)
      | stops e' p k q c ↦
          let s = scan_hit fuel d index_size empty at e' p k q c in
          let here : p ≡ new = cc in
          let there : at ≡ new = sym (own at e' p c) ∙ here in
          subst (λ n. scan_entries (suc fuel) d' index_size body n ≡ hit a) (sym there)
            (scan_hit fuel d' index_size body new e a
              (subst (λ n. add64 n index_entry_size < index_size) there k) r b)
      | next e' k q c ↦
          let s = scan_next fuel d index_size empty at e' k q c in
          let step : add64 at index_entry_size ≡ at + index_entry_size = omega (arith, k, l, w) in
          let f =
            scan-Found fuel d index_size empty (add64 at index_entry_size) new w (omega (arith, k))
              (sym s ∙ h) in
          let before : at + index_entry_size ≤ new =
            omega (arith, f.2, step, own f.0 f.1 new f.5) in
          elim (Option-cases (body at e')) [
            | inr (b, m) ↦ absurd (n b (scan_hit fuel d index_size body at e' b k q m))
            | inl m ↦
                let t = scan_next fuel d index_size body at e' k q m in
                scan_next fuel d' index_size body at e' k (same at before ∙ q) m
                ∙ scan_fresh fuel d d' index_size empty body (add64 at index_entry_size) new e a w
                    (omega (arith, k)) own (sym s ∙ h) (λ b h. n b (t ∙ h)) same r b
          ]
    ]

-- A loop that finds nothing has looked at every entry.
pub scan_miss {ℓ} :
    {A : Type ℓ} (fuel n : ℕ) (d : Disk) (index_size : ℕ) (body : ℕ → Index → Option A) (at : ℕ)
    → EndsEarly index_size
    → at ≤ index_size
    → (at + index_entry_size * n) + index_entry_size < index_size
    → scan_entries fuel d index_size body at ≡ miss
    → (e : Index) × (read_entry d (at + index_entry_size * n) ≡ some e)
      × (body (at + index_entry_size * n) e ≡ none)
unfolding scan_entries
scan_miss zero n d index_size body at w l i h = absurd (cc)
scan_miss (suc fuel) zero d index_size body at w l i h =
    let here : at ≡ at + index_entry_size * zero = omega arith in
    elim (round d index_size body at) [
      | ends k ↦ absurd (omega (arith, i, k, w))
      | error k r ↦ let s = scan_error fuel d index_size body at k r in absurd (cc)
      | stops e a k r b ↦ let s = scan_hit fuel d index_size body at e a k r b in absurd (cc)
      | next e k r b ↦
          subst (λ p. (e : Index) × (read_entry d p ≡ some e) × (body p e ≡ none)) here (e, r, b)
    ]
scan_miss (suc fuel) (suc n) d index_size body at w l i h = elim (round d index_size body at) [
  | ends k ↦ absurd (omega (arith, i, k, w))
  | error k r ↦ let s = scan_error fuel d index_size body at k r in absurd (cc)
  | stops e a k r b ↦ let s = scan_hit fuel d index_size body at e a k r b in absurd (cc)
  | next e k r b ↦
      let s = scan_next fuel d index_size body at e k r b in
      let step : add64 at index_entry_size ≡ at + index_entry_size = omega (arith, k, l, w) in
      let there : add64 at index_entry_size + index_entry_size * n ≡ at + index_entry_size * suc n =
        omega (arith, step) in
      subst (λ p. (e : Index) × (read_entry d p ≡ some e) × (body p e ≡ none)) there
        (scan_miss fuel n d index_size body (add64 at index_entry_size) w (omega (arith, k))
          (omega (arith, i, there)) (sym s ∙ h))
]

-- A loop over an index space that begins where it should and ends 57 bytes before the end of the
-- address space comes to an end, whatever its body does: the size of the space is fuel enough.
pub scan_index_done {ℓ} :
    {A : Type ℓ} (d : Disk) (body : ℕ → Index → Option A)
    → index_start ≤ get_index_size d
    → EndsEarly (get_index_size d)
    → scan_index d body ≢ unending
unfolding scan_index
scan_index_done d body l w =
    scan_done (suc (get_index_size d)) d (get_index_size d) body index_start w l (omega arith)
