-- ===== src/Memory/Paging/Slots.antt =====
-- One entry of the tables of src/memory/paging.c, set and read.
use Prim.Native.Nat.{max, bit_or-bitwise}
use hypnoticos.Base.{
  ℕ, zero, suc, ◌%◌, ◌≡◌, ◌≢◌, ◌⊎◌, inl, inr, refl, ap, sym, ◌∙◌, subst, Bool, true, false,
  Bool-cases, Option, none, some, bit_or, arith, ℕ_discrete,
}
use hypnoticos.Memory.Paging.{
  paging_page_frame, Slot, absent, page, table, in_slot, put, page_slot, put_entry, as_table,
  set_slot, large_word,
}

-- The lowest digit.
bit_or_low : (a b : ℕ) → bit_or a b % 2 ≡ max (a % 2) (b % 2)
bit_or_low zero b = simp bit_or-bitwise (omega arith)
bit_or_low (suc a) b = simp bit_or-bitwise (omega arith)

unfoldable pub IsPresent : ℕ → Type 0
IsPresent w = w % 2 ≡ 1

pub bit_or-IsPresent : (a b : ℕ) → IsPresent b → IsPresent (bit_or a b)
unfolding IsPresent
bit_or-IsPresent a b h = omega (arith, bit_or_low a b, h)

pub large_word-IsPresent : (pa flags : ℕ) → IsPresent flags → IsPresent (large_word pa flags)
unfolding IsPresent
large_word-IsPresent pa flags h =
    omega (arith, bit_or_low (bit_or pa flags) paging_page_frame, bit_or-IsPresent pa flags h)

pub put_same : {A : Type 0} (t : ℕ → A) (i : ℕ) (a : A) → put t i a i ≡ a
unfolding put
put_same t i a = ground arith

pub put_other : {A : Type 0} (t : ℕ → A) (i j : ℕ) (a : A) → j ≢ i → put t i a j ≡ t j
unfolding put
put_other t i j a n = ground (arith, n)

pub put_entry-some :
    {A : Type 0} (t t' : ℕ → A) (i : ℕ) (o : Option A)
    → put_entry t i o ≡ some t'
    → (a : A) × (o ≡ some a) × (t' ≡ put t i a)
unfolding put_entry
put_entry-some t t' i none h = absurd (cc)
put_entry-some t t' i (some a) h = (a, refl, cc)

as_table-some :
    {T : Type 0} (o : Option (ℕ → T)) (s : Slot T)
    → as_table o ≡ some s
    → (t : ℕ → T) × (o ≡ some t) × (s ≡ table t)
unfolding as_table
as_table-some none s h = absurd (cc)
as_table-some (some t) s h = (t, refl, cc)

-- The entry that is set, as `read` sees it.
module _ {T : Type 0} (large : Bool) (w : ℕ) (empty : ℕ → T) (next : (ℕ → T) → Option (ℕ → T))
    (read : (ℕ → T) → Option ℕ) where
  set_slot_inside :
      (s s' : Slot T) (v : ℕ)
      → (large ≡ true → IsPresent w × (w ≡ v))
      → (large ≡ false → (t t' : ℕ → T) → next t ≡ some t' → read t' ≡ some v)
      → set_slot large w empty next s ≡ some s'
      → in_slot read s' ≡ some v
  unfolding set_slot page_slot in_slot IsPresent
  set_slot_inside absent s' v p q h = elim (Bool-cases large) [
    | inl l ↦
        let e : page w ≡ s' = let k = (p l).0 in ground (arith, h, l, k) in
        subst (λ s. in_slot read s ≡ some v) e (ap some (p l).1)
    | inr l ↦
        let a : as_table (next empty) ≡ some s' = ground (arith, h, l) in
        let t = as_table-some (next empty) s' a in
        subst (λ s. in_slot read s ≡ some v) (sym t.2) (q l empty t.0 t.1)
  ]
  set_slot_inside (page u) s' v p q h = absurd (cc)
  set_slot_inside (table t) s' v p q h = elim (Bool-cases large) [
    | inl l ↦ absurd (ground (arith, h, l))
    | inr l ↦
        let a : as_table (next t) ≡ some s' = ground (arith, h, l) in
        let x = as_table-some (next t) s' a in
        subst (λ s. in_slot read s ≡ some v) (sym x.2) (q l t x.0 x.1)
  ]

  set_slot_outside :
      (s s' : Slot T)
      → large ≡ false
      → read empty ≡ none
      → ((t t' : ℕ → T) → next t ≡ some t' → read t' ≡ read t)
      → set_slot large w empty next s ≡ some s'
      → in_slot read s' ≡ in_slot read s
  unfolding set_slot in_slot
  set_slot_outside absent s' l z q h =
      let a : as_table (next empty) ≡ some s' = ground (arith, h, l) in
      let x = as_table-some (next empty) s' a in
      subst (λ s. in_slot read s ≡ none) (sym x.2) (q empty x.0 x.1 ∙ z)
  set_slot_outside (page u) s' l z q h = absurd (cc)
  set_slot_outside (table t) s' l z q h =
      let a : as_table (next t) ≡ some s' = ground (arith, h, l) in
      let x = as_table-some (next t) s' a in
      subst (λ s. in_slot read s ≡ read t) (sym x.2) (q t x.0 x.1)

  -- The same for the table whose entry is set.
  pub put_entry_inside :
      (t t' : ℕ → Slot T) (i j v : ℕ)
      → j ≡ i
      → (large ≡ true → IsPresent w × (w ≡ v))
      → (large ≡ false → (t t' : ℕ → T) → next t ≡ some t' → read t' ≡ some v)
      → put_entry t i (set_slot large w empty next (t i)) ≡ some t'
      → in_slot read (t' j) ≡ some v
  put_entry_inside t t' i j v same p q h =
      let e = put_entry-some t t' i (set_slot large w empty next (t i)) h in
      let here : t' j ≡ e.0 = ap t' same ∙ (ap (λ t. t i) e.2 ∙ put_same t i e.0) in
      ap (in_slot read) here ∙ set_slot_inside (t i) e.0 v p q e.1

  pub put_entry_outside :
      (t t' : ℕ → Slot T) (i j : ℕ)
      → read empty ≡ none
      → (j ≢ i) ⊎ ((large ≡ false) × ((t t' : ℕ → T) → next t ≡ some t' → read t' ≡ read t))
      → put_entry t i (set_slot large w empty next (t i)) ≡ some t'
      → in_slot read (t' j) ≡ in_slot read (t j)
  put_entry_outside t t' i j z o h =
      let e = put_entry-some t t' i (set_slot large w empty next (t i)) h in
      elim (ℕ_discrete j i) [
        | no n ↦ ap (in_slot read) (ap (λ t. t j) e.2 ∙ put_other t i j e.0 n)
        | yes same ↦ elim o [
          | inl n ↦ absurd (n same)
          | inr (l, q) ↦
              let here : t' j ≡ e.0 = ap t' same ∙ (ap (λ t. t i) e.2 ∙ put_same t i e.0) in
              ap (in_slot read) here
              ∙ (set_slot_outside (t i) e.0 l z q e.1 ∙ ap (λ j. in_slot read (t j)) (sym same))
        ]
      ]
