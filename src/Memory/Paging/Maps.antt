-- ===== src/Memory/Paging/Maps.antt =====
-- What `MemoryPagingSetPage` of src/memory/paging.c maps.
use hypnoticos.Base.{
  ℕ, ◌/◌, ◌%◌, ◌^◌, ◌<◌, ◌≡◌, ◌≢◌, ◌⊎◌, inl, inr, refl, ap, sym, ◌∙◌, Bool-cases, ◌||◌, not, Option,
  none, some, ◌==◌, arith, ℕ_discrete,
}
use hypnoticos.Memory.Paging.{
  page_size_4kb, page_size_2mb, page_size_1gb, PointerTable, Pml4, pml4_entry, pdpte_of, pde_of,
  pte_of, in_slot, in_pointer_table, page_present, put, put_entry, set_pdpte, pointer_table,
  as_some, page_bytes, set_page,
}
use hypnoticos.Memory.Paging.Slots.{put_same, put_other, put_entry-some}
use hypnoticos.Memory.Paging.Levels.{IsSize, OutDirectory, OutPointers, set_pdpte_outside}

as_some-some :
    (o : Option PointerTable) (a : Option PointerTable)
    → as_some o ≡ some a
    → (pdpt : PointerTable) × (o ≡ some pdpt) × (a ≡ some pdpt)
unfolding as_some
as_some-some none a h = absurd (cc)
as_some-some (some pdpt) a h = (pdpt, refl, cc)

in_pml4 :
    (o : Option PointerTable) (va : ℕ)
    → elim o [ none ↦ none | some pdpt ↦ in_pointer_table pdpt va ]
      ≡ in_pointer_table (pointer_table o) va
unfolding in_pointer_table pointer_table in_slot
in_pml4 none va = refl
in_pml4 (some pdpt) va = refl

-- An entry that is absent in the PML4 reads as an empty table.
page_present_at :
    (pml4 : Pml4) (va : ℕ)
    → page_present pml4 va ≡ in_pointer_table (pointer_table (pml4 (pml4_entry va))) va
unfolding page_present
page_present_at pml4 va = in_pml4 (pml4 (pml4_entry va)) va

-- The steps of a page that is set.
abbrev Set : (pml4 : Pml4) (va pa flags page_size : ℕ) (pml4' : Pml4) → Type 0
Set pml4 va pa flags page_size pml4' =
    IsSize page_size
    × ((pdpt : PointerTable) × (set_pdpte va pa flags page_size
            (pointer_table (pml4 (pml4_entry va)))
          ≡ some pdpt)
        × (pml4' ≡ put pml4 (pml4_entry va) (some pdpt)))

page_bytes-IsSize : (page_size : ℕ) → page_bytes page_size ≢ 0 → IsSize page_size
unfolding page_bytes
page_bytes-IsSize page_size n = elim (ℕ_discrete page_size page_size_4kb) [
  | yes a ↦ inl a
  | no a ↦ elim (ℕ_discrete page_size page_size_2mb) [
    | yes b ↦ inr (inl b)
    | no b ↦ elim (ℕ_discrete page_size page_size_1gb) [
      | yes c ↦ inr (inr c)
      | no c ↦ absurd (n (ground (arith, a, b, c)))
    ]
  ]
]

set_page-Set :
    (pml4 pml4' : Pml4) (va pa flags page_size : ℕ)
    → set_page pml4 va pa flags page_size ≡ some pml4'
    → Set pml4 va pa flags page_size pml4'
unfolding set_page
set_page-Set pml4 pml4' va pa flags page_size h =
    let o = set_pdpte va pa flags page_size (pointer_table (pml4 (pml4_entry va))) in
    let odd = not (va % page_bytes page_size == 0) || not (pa % page_bytes page_size == 0) in
    elim (ℕ_discrete (page_bytes page_size) 0) [
      | yes z ↦ absurd (ground (arith, z, h))
      | no z ↦ elim (Bool-cases odd) [
        | inl b ↦ absurd (ground (arith, z, b, h))
        | inr b ↦
            let p : put_entry pml4 (pml4_entry va) (as_some o) ≡ some pml4' =
              ground (arith, z, b, h) in
            let e = put_entry-some pml4 pml4' (pml4_entry va) (as_some o) p in
            let s = as_some-some o e.0 e.1 in
            (page_bytes-IsSize page_size z, (s.0, s.1, e.2 ∙ ap (put pml4 (pml4_entry va)) s.2))
      ]
    ]

-- A virtual address that the tables reach.
abbrev pub IsCanonical : ℕ → Type 0
IsCanonical va = va < 2 ^ 48

-- Two addresses with the same entries at the first levels.
same_gigabyte :
    (va va' : ℕ)
    → IsCanonical va
    → IsCanonical va'
    → pml4_entry va' ≡ pml4_entry va
    → pdpte_of va' ≡ pdpte_of va
    → va' / 2 ^ 30 ≡ va / 2 ^ 30
same_gigabyte va va' c c' i j = omega (arith, i, j, c, c')

same_megabytes :
    (va va' : ℕ) → va' / 2 ^ 30 ≡ va / 2 ^ 30 → pde_of va' ≡ pde_of va → va' / 2 ^ 21 ≡ va / 2 ^ 21
same_megabytes va va' i j = omega (arith, i, j)

same_kilobytes :
    (va va' : ℕ) → va' / 2 ^ 21 ≡ va / 2 ^ 21 → pte_of va' ≡ pte_of va → va' / 2 ^ 12 ≡ va / 2 ^ 12
same_kilobytes va va' i j = omega (arith, i, j)

outside_directory :
    (va va' page_size : ℕ)
    → IsSize page_size
    → page_size ≢ page_size_1gb
    → va' / page_bytes page_size ≢ va / page_bytes page_size
    → va' / 2 ^ 30 ≡ va / 2 ^ 30
    → OutDirectory va va' page_size
unfolding page_bytes
outside_directory va va' page_size z g s i = elim (ℕ_discrete (pde_of va') (pde_of va)) [
  | no n ↦ inl n
  | yes j ↦
      let m = same_megabytes va va' i j in
      elim z [
        | inl a ↦
            let n : va' / 2 ^ 12 ≢ va / 2 ^ 12 = ground (arith, a, s) in
            inr (ground (arith, a), λ k. n (same_kilobytes va va' m k))
        | inr (inl b) ↦ let n : va' / 2 ^ 21 ≢ va / 2 ^ 21 = ground (arith, b, s) in absurd (n m)
        | inr (inr c) ↦ absurd (g c)
      ]
]

outside :
    (va va' page_size : ℕ)
    → IsSize page_size
    → IsCanonical va
    → IsCanonical va'
    → va' / page_bytes page_size ≢ va / page_bytes page_size
    → (pml4_entry va' ≢ pml4_entry va) ⊎ OutPointers va va' page_size
unfolding page_bytes
outside va va' page_size z c c' s = elim (ℕ_discrete (pml4_entry va') (pml4_entry va)) [
  | no n ↦ inl n
  | yes i ↦ elim (ℕ_discrete (pdpte_of va') (pdpte_of va)) [
    | no n ↦ inr (inl n)
    | yes j ↦
        let m = same_gigabyte va va' c c' i j in
        elim (ℕ_discrete page_size page_size_1gb) [
          | yes g ↦ let n : va' / 2 ^ 30 ≢ va / 2 ^ 30 = ground (arith, g, s) in absurd (n m)
          | no g ↦ inr (inr (ground (arith, g), outside_directory va va' page_size z g s m))
        ]
  ]
]

-- The table of the PML4 that a page is set in.
at_entry :
    (pml4 : Pml4) (i j : ℕ) (pdpt : PointerTable) → j ≡ i → put pml4 i (some pdpt) j ≡ some pdpt
at_entry pml4 i j pdpt e = ap (put pml4 i (some pdpt)) e ∙ put_same pml4 i (some pdpt)

-- Where a page is set, every other address below 2 ^ 48 is found where it was, or not at all as
-- before; the address of the page is below 2 ^ 48 as well.
pub set_page-page_present_other :
    (pml4 pml4' : Pml4) (va pa flags page_size va' : ℕ)
    → set_page pml4 va pa flags page_size ≡ some pml4'
    → IsCanonical va
    → IsCanonical va'
    → va' / page_bytes page_size ≢ va / page_bytes page_size
    → page_present pml4' va' ≡ page_present pml4 va'
unfolding pointer_table
set_page-page_present_other pml4 pml4' va pa flags page_size va' h c c' s =
    let y = set_page-Set pml4 pml4' va pa flags page_size h in
    let x = y.1 in
    let look : Option PointerTable → Option ℕ = λ o. in_pointer_table (pointer_table o) va' in
    let done : pml4' (pml4_entry va') ≡ pml4 (pml4_entry va')
        → page_present pml4' va' ≡ page_present pml4 va' =
      λ e. page_present_at pml4' va' ∙ (ap look e ∙ sym (page_present_at pml4 va')) in
    elim (ℕ_discrete (pml4_entry va') (pml4_entry va)) [
      | no n ↦ done (
          ap (λ p. p (pml4_entry va')) x.2
          ∙ put_other pml4 (pml4_entry va) (pml4_entry va') (some x.0) n)
      | yes i ↦ elim (outside va va' page_size y.0 c c' s) [
        | inl n ↦ absurd (n i)
        | inr o ↦
            let table' : pml4' (pml4_entry va') ≡ some x.0 =
              ap (λ p. p (pml4_entry va')) x.2
              ∙ at_entry pml4 (pml4_entry va) (pml4_entry va') x.0 i in
            page_present_at pml4' va'
            ∙ (ap look table'
                ∙ (set_pdpte_outside va va' pa flags page_size
                      (pointer_table (pml4 (pml4_entry va))) x.0 o x.1
                    ∙ (ap (λ j. look (pml4 j)) (sym i) ∙ sym (page_present_at pml4 va'))))
      ]
    ]
