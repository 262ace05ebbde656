-- ===== src/Tests/Pages.antt =====
-- Page tables of src/memory/paging.c.
use hypnoticos.Base.{◌≡◌, refl, Option, none, some, arith}
use hypnoticos.Memory.Paging.{
  Pml4, put, page_slot, set_pte, put_entry, as_table, set_slot, set_pde, set_pdpte, pointer_table,
  as_some, page_bytes, set_page, page_present,
}
use hypnoticos.Memory.Paging.Maps.{set_page-page_present_other}

abbrev no_pages : Pml4
no_pages = λ i. none

abbrev pages_of : Option Pml4 → Pml4
pages_of none = no_pages
pages_of (some pml4) = pml4

-- The page of 4KB at 0x403000, and behind it a page of 2MB.
abbrev pages_1 : Pml4
pages_1 = pages_of (set_page no_pages 0x403000 0x9000 7 1)

set_1 : set_page no_pages 0x403000 0x9000 7 1 ≡ some pages_1
unfolding set_page page_bytes set_pdpte set_pde set_pte set_slot put_entry as_table as_some
    pointer_table
set_1 = refl

abbrev pages_2 : Pml4
pages_2 = pages_of (set_page pages_1 0x600000 0x200000 3 2)

set_2 : set_page pages_1 0x600000 0x200000 3 2 ≡ some pages_2
unfolding set_page page_bytes set_pdpte set_pde set_pte set_slot put_entry as_table as_some
    pointer_table put page_slot
set_2 = refl

set_page-page_present_other_example : page_present pages_2 0x403008 ≡ page_present pages_1 0x403008
unfolding page_bytes
set_page-page_present_other_example =
    set_page-page_present_other pages_1 pages_2 0x600000 0x200000 3 2 0x403008 set_2 (omega arith)
      (omega arith) (ground arith)
