-- ===== src/Memory/Paging.antt =====
-- Page tables: src/memory/paging.c. The table that an entry points to stands in the entry, so that
-- a table has one owner, as the code allocates a new one for each entry. The calls of `malloc_align`
-- return memory here.
pub mod Levels
pub mod Maps
pub mod Slots
use hypnoticos.Base.{
  ℕ, ◌+◌, ◌*◌, ◌/◌, ◌%◌, ◌^◌, Bool, true, false, ◌||◌, not, Option, none, some, ◌==◌, if◌then◌else◌,
  bit_or,
}

abbrev pub paging_present : ℕ
paging_present = 1

abbrev pub paging_page_frame : ℕ
paging_page_frame = 128

abbrev pub page_size_4kb : ℕ
page_size_4kb = 1

abbrev pub page_size_2mb : ℕ
page_size_2mb = 2

abbrev pub page_size_1gb : ℕ
page_size_1gb = 3

-- An entry of a table: without PAGING_PRESENT; the word of a page, with PAGING_PAGE_FRAME; or with
-- a table of the next level.
pub data Slot (T : Type 0) : Type 0 where
  absent : Slot T
  page : ℕ → Slot T
  table : (ℕ → T) → Slot T

-- The tables by level. A page table holds words.
abbrev pub PageDirectory : Type 0
PageDirectory = ℕ → Slot ℕ

abbrev pub PointerTable : Type 0
PointerTable = ℕ → Slot (Slot ℕ)

-- In the PML4, PAGING_PAGE_FRAME is not tested: an entry is a table or absent.
abbrev pub Pml4 : Type 0
Pml4 = ℕ → Option PointerTable

-- VA_GET_PML4_ENTRY, in a `uint16_t`, VA_GET_PDPTE, VA_GET_PDE and VA_GET_PTE
abbrev pub pml4_entry : ℕ → ℕ
pml4_entry va = va / 2 ^ 39 % 2 ^ 16

abbrev pub pdpte_of : ℕ → ℕ
pdpte_of va = va / 2 ^ 30 % 512

abbrev pub pde_of : ℕ → ℕ
pde_of va = va / 2 ^ 21 % 512

abbrev pub pte_of : ℕ → ℕ
pte_of va = va / 2 ^ 12 % 512

-- The word in the page table, if it is present.
unfoldable pub word_at : (ℕ → ℕ) → ℕ → Option ℕ
word_at pt va = if pt (pte_of va) % 2 == 1 then some (pt (pte_of va)) else none

-- The tests of one entry: its page, or what `read` finds in its table.
unfoldable pub in_slot : {T : Type 0} → ((ℕ → T) → Option ℕ) → Slot T → Option ℕ
in_slot read absent = none
in_slot read (page w) = some w
in_slot read (table t) = read t

unfoldable pub in_directory : PageDirectory → ℕ → Option ℕ
in_directory pd va = in_slot (λ pt. word_at pt va) (pd (pde_of va))

unfoldable pub in_pointer_table : PointerTable → ℕ → Option ℕ
in_pointer_table pdpt va = in_slot (λ pd. in_directory pd va) (pdpt (pdpte_of va))

-- MemoryPagingPagePresent: the word at the address that it returns.
unfoldable pub page_present : Pml4 → ℕ → Option ℕ
page_present pml4 va = elim (pml4 (pml4_entry va)) [
  | none ↦ none
  | some pdpt ↦ in_pointer_table pdpt va
]

-- A write of one entry of a table.
unfoldable pub put {ℓ} : {A : Type ℓ} → (ℕ → A) → ℕ → A → ℕ → A
put t i a j = if j == i then a else t j

-- The entry of a word with PAGING_PAGE_FRAME.
unfoldable pub page_slot : {T : Type 0} → ℕ → Slot T
page_slot w = if w % 2 == 1 then page w else absent

-- The end of `MemoryPagingSetPage`.
unfoldable pub set_pte : (va pa flags : ℕ) → (ℕ → ℕ) → ℕ → ℕ
set_pte va pa flags pt = put pt (pte_of va) (bit_or pa flags)

unfoldable pub put_entry : {A : Type 0} → (ℕ → A) → ℕ → Option A → Option (ℕ → A)
put_entry t i none = none
put_entry t i (some a) = some (put t i a)

unfoldable pub as_table : {T : Type 0} → Option (ℕ → T) → Option (Slot T)
as_table none = none
as_table (some t) = some (table t)

-- One entry of a pointer table or of a page directory: with `large`, the page of the word `w` is put
-- there, if the entry is absent; else `next` sets the page in its table, which is made with the
-- entries `empty` where there is none.
unfoldable pub set_slot :
    {T : Type 0}
    → Bool
    → ℕ
    → (empty : ℕ → T) → ((ℕ → T) → Option (ℕ → T))
    → Slot T
    → Option (Slot T)
set_slot large w empty next absent = if large then some (page_slot w) else as_table (next empty)
set_slot large w empty next (page v) = none
set_slot large w empty next (table t) = if large then none else as_table (next t)

-- `pa | flags | PAGING_PAGE_FRAME`
abbrev pub large_word : ℕ → ℕ → ℕ
large_word pa flags = bit_or (bit_or pa flags) paging_page_frame

-- The entry of the page directory.
unfoldable pub set_pde : (va pa flags page_size : ℕ) → PageDirectory → Option PageDirectory
set_pde va pa flags page_size pd = put_entry pd (pde_of va) (
    set_slot (page_size == page_size_2mb) (large_word pa flags) (λ i. 0)
      (λ pt. some (set_pte va pa flags pt)) (pd (pde_of va)))

-- The entry of the pointer table.
unfoldable pub set_pdpte : (va pa flags page_size : ℕ) → PointerTable → Option PointerTable
set_pdpte va pa flags page_size pdpt = put_entry pdpt (pdpte_of va) (
    set_slot (page_size == page_size_1gb) (large_word pa flags) (λ i. absent)
      (set_pde va pa flags page_size) (pdpt (pdpte_of va)))

-- The table at the entry of the PML4, which is made where there is none.
unfoldable pub pointer_table : Option PointerTable → PointerTable
pointer_table none = λ i. absent
pointer_table (some pdpt) = pdpt

unfoldable pub as_some : Option PointerTable → Option (Option PointerTable)
as_some none = none
as_some (some pdpt) = some (some pdpt)

-- The bytes of a page of a size; 0 for an unknown size.
unfoldable pub page_bytes : ℕ → ℕ
page_bytes page_size =
    if page_size == page_size_4kb
    then 2 ^ 12
    else if page_size == page_size_2mb
    then 2 ^ 21
    else if page_size == page_size_1gb
    then 2 ^ 30
    else 0

-- MemoryPagingSetPage: the tables that it leaves, or `none` where it returns 0.
unfoldable pub set_page : Pml4 → (va pa flags page_size : ℕ) → Option Pml4
set_page pml4 va pa flags page_size =
    if page_bytes page_size == 0
    then none
    else if not (va % page_bytes page_size == 0) || not (pa % page_bytes page_size == 0)
    then none
    else put_entry pml4 (pml4_entry va)
        (as_some (set_pdpte va pa flags page_size (pointer_table (pml4 (pml4_entry va)))))
