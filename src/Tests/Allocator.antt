-- ===== src/Tests/Allocator.antt =====
-- The allocator of src/memory/ on a small memory.
use hypnoticos.Base.{
  ℕ, ◌^◌, ◌%◌, ◌≡◌, refl, ◌≢◌, ◌↔◌, false, none, some, List, [], ◌∷◌, arith, zero, suc, All, Any,
  replicate,
}
use hypnoticos.Memory.{MemoryBlock, type_available, align_4kb, TableEntry, TableIndex, Memory}
use hypnoticos.Memory.Find.{
  found, spinning, conflict, memory_is_free, memory_align, search_block, first_addr, try_block,
  memory_find_space,
}
use hypnoticos.Memory.Find.Free.{Fits, Apart, AllEntries, memory_is_free_iff}
use hypnoticos.Memory.Find.Space.{Inside, memory_find_space_found, memory_find_space-ne-spinning}
use hypnoticos.Memory.Alloc.{
  Label, ok, filled, mark_entries, is_last, mark_tables, new_entry, empty_entry, first_size,
  malloc_align,
}
use hypnoticos.Memory.Alloc.Extends.{flat, Separate-empty, AllSeparate-empty}
use hypnoticos.Memory.Alloc.Inv.{IsValid, Ensures, Returned}
use hypnoticos.Memory.Alloc.Main.{malloc_align-Returned, malloc_align_branches}
use hypnoticos.Memory.Release.{cleared, free, live}
use hypnoticos.Memory.Release.Undo.{AllPositive, free-malloc_align}

-- 100 bytes at 2 MB are in use.
abbrev in_use : TableEntry
in_use = record { addr = 0x200000; size = 100; status = 1; function = b'm' ∷ []; line = 7 }

abbrev block : MemoryBlock
block = record { start = 0x200000; size = 0x10000; type = type_available }

abbrev odd_block : MemoryBlock
odd_block = record { start = 0x200800; size = 0x10000; type = type_available }

abbrev table : TableIndex
table = record { addr = 0x100000; entries = in_use ∷ replicate 20 empty_entry }

abbrev memory : Memory
memory = record { blocks = block ∷ []; tables = table ∷ []; new_table_pending = false }

abbrev label : Label
label = record { function = b'f' ∷ []; line = 3 }

-- The table with the next allocation, of 64 bytes.
abbrev table_2 : TableIndex
table_2 = record {
  addr = 0x100000;
  entries = in_use ∷ new_entry 0x200064 64 label ∷ replicate 19 empty_entry;
}

free_entries-Fits : (n : ℕ) → All Fits (replicate n empty_entry)
free_entries-Fits zero = tt
free_entries-Fits (suc n) = (omega arith, free_entries-Fits n)

entries-Fits : All Fits table.entries
entries-Fits = (omega arith, free_entries-Fits 20)

memory-IsValid : IsValid memory
unfolding flat
memory-IsValid = record {
  fits = entries-Fits;
  separate = (Separate-empty in_use 20, AllSeparate-empty 20);
  roomy = (omega arith, tt);
}

found_at : memory_find_space (2 ^ 64) memory.tables 64 0 memory.blocks ≡ found 0x200064
unfolding conflict memory_is_free search_block first_addr try_block memory_find_space
found_at = refl

page_at : memory_find_space (2 ^ 64) memory.tables 64 align_4kb memory.blocks ≡ found 0x201000
unfolding conflict memory_is_free memory_align search_block first_addr try_block memory_find_space
page_at = refl

marked : mark_tables false (new_entry 0x200064 64 label) memory.tables ≡ filled (table_2 ∷ [])
unfolding mark_entries is_last mark_tables
marked = refl

malloc_align-Returned_example :
    Ensures (Returned memory 64 label) (malloc_align (2 ^ 64) label 64 0 label memory)
malloc_align-Returned_example =
    malloc_align-Returned (2 ^ 64) label 64 0 label memory (omega arith) (omega arith)
      memory-IsValid

memory_find_space_found_example :
    (memory_is_free 0x201000 64 memory.tables ≡ none)
    × (align_4kb ≡ align_4kb → 0x201000 % 4096 ≡ 0)
    × Any (Inside 0x201000) memory.blocks
memory_find_space_found_example =
    memory_find_space_found memory.tables 64 align_4kb (2 ^ 64) memory.blocks 0x201000
      (omega arith, tt) page_at

memory_find_space-ne-spinning_example :
    memory_find_space 0x20000 memory.tables 64 0 memory.blocks ≢ spinning
memory_find_space-ne-spinning_example =
    memory_find_space-ne-spinning memory.tables 64 0 0x20000 memory.blocks (omega arith, tt)
      (omega arith, tt)

no_conflict : memory_is_free odd_block.start 0x40000000 memory.tables ≡ none
unfolding conflict memory_is_free
no_conflict = refl

memory_is_free_iff_example :
    (memory_is_free 0x200064 64 memory.tables ≡ none) ↔ AllEntries (Apart 0x200064 64) memory.tables
memory_is_free_iff_example =
    memory_is_free_iff 0x200064 64 (omega arith) memory.tables (entries-Fits, tt)

taken : memory_is_free 0x200010 64 memory.tables ≡ some 0x200064
unfolding conflict memory_is_free
taken = refl

some_table : first_size memory.tables ≢ 0
unfolding first_size
some_table = omega arith

-- The address that was found is returned, with the entry behind the first one filled.
returned_at :
    malloc_align (2 ^ 64) label 64 0 label memory
    ≡ ok (some 0x200064) (record memory { tables = table_2 ∷ [] })
returned_at =
    (malloc_align_branches (2 ^ 64) label 64 0 label memory some_table).2 0x200064 (table_2 ∷ [])
      (omega arith) found_at marked

abbrev freed : Memory
freed = record memory {
  tables = record table { entries = cleared in_use ∷ replicate 20 empty_entry } ∷ [];
}

free_entries-AllPositive : (n : ℕ) → AllPositive (replicate n empty_entry)
free_entries-AllPositive zero = tt
free_entries-AllPositive (suc n) = (λ e. absurd (omega (arith, e)), free_entries-AllPositive n)

memory-AllPositive : AllPositive (flat memory.tables)
unfolding flat
memory-AllPositive = (λ e. omega arith, free_entries-AllPositive 20)

free-malloc_align_example :
    (malloc_align (2 ^ 64) label 64 0 label memory
      ≡ ok (some 0x200064) (record memory { tables = table_2 ∷ [] }))
    × ((us : List TableIndex) × (free 0x200064 (record memory { tables = table_2 ∷ [] })
          ≡ ok tt (record memory { tables = us }))
        × (live (flat us) ≡ live (flat memory.tables)))
free-malloc_align_example =
    free-malloc_align (2 ^ 64) label 64 0 label memory 0x200064 (table_2 ∷ []) memory-IsValid
      memory-AllPositive (omega arith) some_table (omega arith) found_at marked
