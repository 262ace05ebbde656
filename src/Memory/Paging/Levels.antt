-- ===== src/Memory/Paging/Levels.antt =====
-- One page at the levels of the tables of src/memory/paging.c.
use hypnoticos.Base.{
  ℕ, ◌%◌, ◌≡◌, ◌≢◌, ◌⊎◌, inl, inr, refl, ap, ◌∙◌, subst, false, some, ◌==◌, if◌then◌else◌, bit_or,
  arith,
}
use hypnoticos.Memory.Paging.{
  page_size_4kb, page_size_2mb, page_size_1gb, absent, PageDirectory, PointerTable, pdpte_of,
  pde_of, pte_of, word_at, in_slot, in_directory, in_pointer_table, put, set_pte, set_pde,
  large_word, set_pdpte,
}
use hypnoticos.Memory.Paging.Slots.{
  IsPresent, bit_or-IsPresent, large_word-IsPresent, put_same, put_other, put_entry_inside,
  put_entry_outside,
}

-- A known size.
abbrev pub IsSize : ℕ → Type 0
IsSize page_size =
    (page_size ≡ page_size_4kb) ⊎ ((page_size ≡ page_size_2mb) ⊎ (page_size ≡ page_size_1gb))

-- The word that stands for a page.
unfoldable pub page_word : (pa flags page_size : ℕ) → ℕ
page_word pa flags page_size =
    if page_size == page_size_4kb then bit_or pa flags else large_word pa flags

-- The entries of a page of 4KB, of 2MB and of 1GB at the levels.
module _ (va va' page_size : ℕ) where
  -- `va'` is in the page directory's part of the page of `va`, or not.
  abbrev pub InDirectory : Type 0
  InDirectory =
      (pde_of va' ≡ pde_of va) × ((page_size == page_size_2mb) ≡ false → pte_of va' ≡ pte_of va)

  abbrev pub OutDirectory : Type 0
  OutDirectory =
      (pde_of va' ≢ pde_of va) ⊎ (((page_size == page_size_2mb) ≡ false) × (pte_of va' ≢ pte_of va))

  abbrev pub InPointers : Type 0
  InPointers = (pdpte_of va' ≡ pdpte_of va) × ((page_size == page_size_1gb) ≡ false → InDirectory)

  abbrev pub OutPointers : Type 0
  OutPointers =
      (pdpte_of va' ≢ pdpte_of va) ⊎ (((page_size == page_size_1gb) ≡ false) × OutDirectory)

module _ (va va' pa flags page_size : ℕ) where
  set_pte_inside :
      (pt : ℕ → ℕ)
      → IsPresent flags
      → pte_of va' ≡ pte_of va
      → word_at (set_pte va pa flags pt) va' ≡ some (bit_or pa flags)
  unfolding word_at set_pte IsPresent
  set_pte_inside pt f i =
      let s =
        ap (put pt (pte_of va) (bit_or pa flags)) i ∙ put_same pt (pte_of va) (bit_or pa flags) in
      let p : bit_or pa flags % 2 ≡ 1 = bit_or-IsPresent pa flags f in rw s (ground (arith, p))

  set_pte_outside :
      (pt : ℕ → ℕ) → pte_of va' ≢ pte_of va → word_at (set_pte va pa flags pt) va' ≡ word_at pt va'
  unfolding word_at set_pte
  set_pte_outside pt n = rw (put_other pt (pte_of va) (pte_of va') (bit_or pa flags) n) refl

  page_word_large : page_size ≢ page_size_4kb → large_word pa flags ≡ page_word pa flags page_size
  unfolding page_word
  page_word_large n = ground (arith, n)

  page_word_small :
      IsSize page_size
      → (page_size == page_size_2mb) ≡ false
      → (page_size == page_size_1gb) ≡ false
      → bit_or pa flags ≡ page_word pa flags page_size
  unfolding page_word
  page_word_small z l g = ground (arith, z, l, g)

  set_pde_inside :
      (pd pd' : PageDirectory)
      → IsSize page_size
      → (page_size == page_size_1gb) ≡ false
      → IsPresent flags
      → InDirectory va va' page_size
      → set_pde va pa flags page_size pd ≡ some pd'
      → in_directory pd' va' ≡ some (page_word pa flags page_size)
  unfolding set_pde in_directory
  set_pde_inside pd pd' z g f (i, j) h =
      put_entry_inside (page_size == page_size_2mb) (large_word pa flags) (λ i. 0)
        (λ pt. some (set_pte va pa flags pt)) (λ pt. word_at pt va') pd pd' (pde_of va) (pde_of va')
        (page_word pa flags page_size) i
        (λ l. (large_word-IsPresent pa flags f, page_word_large (ground (arith, l))))
        (λ l t t' s.
          let e : set_pte va pa flags t ≡ t' = cc in
          subst (λ t. word_at t va' ≡ some (page_word pa flags page_size)) e
            (set_pte_inside t f (j l) ∙ ap some (page_word_small z l g)))
        h

  set_pde_outside :
      (pd pd' : PageDirectory)
      → OutDirectory va va' page_size
      → set_pde va pa flags page_size pd ≡ some pd'
      → in_directory pd' va' ≡ in_directory pd va'
  unfolding set_pde in_directory word_at
  set_pde_outside pd pd' o h =
      put_entry_outside (page_size == page_size_2mb) (large_word pa flags) (λ i. 0)
        (λ pt. some (set_pte va pa flags pt)) (λ pt. word_at pt va') pd pd' (pde_of va) (pde_of va')
        refl
        (elim o [
          | inl n ↦ inl n
          | inr (l, n) ↦ inr (
            l,
            λ t t' s.
                let e : set_pte va pa flags t ≡ t' = cc in
                subst (λ x. word_at x va' ≡ word_at t va') e (set_pte_outside t n),
          )
        ])
        h

  pub set_pdpte_inside :
      (pdpt pdpt' : PointerTable)
      → IsSize page_size
      → IsPresent flags
      → InPointers va va' page_size
      → set_pdpte va pa flags page_size pdpt ≡ some pdpt'
      → in_pointer_table pdpt' va' ≡ some (page_word pa flags page_size)
  unfolding set_pdpte in_pointer_table
  set_pdpte_inside pdpt pdpt' z f (i, j) h =
      put_entry_inside (page_size == page_size_1gb) (large_word pa flags) (λ i. absent)
        (set_pde va pa flags page_size) (λ pd. in_directory pd va') pdpt pdpt' (pdpte_of va)
        (pdpte_of va') (page_word pa flags page_size) i
        (λ l. (large_word-IsPresent pa flags f, page_word_large (ground (arith, l))))
        (λ l t t' s. set_pde_inside t t' z l f (j l) s) h

  pub set_pdpte_outside :
      (pdpt pdpt' : PointerTable)
      → OutPointers va va' page_size
      → set_pdpte va pa flags page_size pdpt ≡ some pdpt'
      → in_pointer_table pdpt' va' ≡ in_pointer_table pdpt va'
  unfolding set_pdpte in_pointer_table in_directory in_slot
  set_pdpte_outside pdpt pdpt' o h =
      put_entry_outside (page_size == page_size_1gb) (large_word pa flags) (λ i. absent)
        (set_pde va pa flags page_size) (λ pd. in_directory pd va') pdpt pdpt' (pdpte_of va)
        (pdpte_of va') refl
        (elim o [ inl n ↦ inl n | inr (l, q) ↦ inr (l, λ t t' s. set_pde_outside t t' q s) ]) h
