-- ===== src/Memory/Find.antt =====
-- src/memory/find.c: the search for an allocation, and for room for a new one.
pub mod Free
pub mod Space
use hypnoticos.Base.{
  ℕ, zero, suc, ◌+◌, ◌-◌, ◌%◌, Bool, true, false, Option, none, some, List, [], ◌∷◌, ◌==◌,
  if◌then◌else◌, ltb, leb, add64,
}
use hypnoticos.Memory.{MemoryBlock, type_available, TableEntry, TableIndex, align_4kb}

-- The inner loop of `MemoryFind` over one table.
unfoldable pub find_entry : ℕ → List TableEntry → Option TableEntry
find_entry addr [] = none
find_entry addr (mt ∷ mts) =
    if mt.status == 1
    then (if mt.addr == addr then some mt else find_entry addr mts)
    else find_entry addr mts

-- MemoryFind
unfoldable pub memory_find : ℕ → List TableIndex → Option TableEntry
memory_find addr [] = none
memory_find addr (mti ∷ mtis) = elim (find_entry addr mti.entries) [
  | some mt ↦ some mt
  | none ↦ memory_find addr mtis
]

-- The inner loop of `MemoryIsFree` over one table: the end of the first allocation in the way.
unfoldable pub conflict : ℕ → ℕ → List TableEntry → Option ℕ
conflict addr size [] = none
conflict addr size (mt ∷ mts) =
    let rest = conflict addr size mts in
    if mt.status == 1
    then if ltb (add64 addr size) mt.addr
      then rest
      else (if leb (add64 mt.addr mt.size) addr then rest else some (add64 mt.addr mt.size))
    else rest

-- MemoryIsFree: `none` if the whole block is unallocated, otherwise what it stores in `*end`.
unfoldable pub memory_is_free : ℕ → ℕ → List TableIndex → Option ℕ
memory_is_free addr size [] = none
memory_is_free addr size (mti ∷ mtis) = elim (conflict addr size mti.entries) [
  | some end ↦ some end
  | none ↦ memory_is_free addr size mtis
]

-- MemoryAlign: `none` if the aligned address lies below `min`.
unfoldable pub memory_align : ℕ → ℕ → ℕ → Option ℕ
memory_align addr min align = let r = addr - addr % align in if ltb r min then none else some r

pub data Search : Type 0 where
  found : ℕ → Search
  exhausted : Search
  spinning : Search

-- The address that the `do` loop tries after a conflict that ends at `end`.
abbrev pub next_addr : ℕ → ℕ → ℕ → ℕ
next_addr align addr end = if align == align_4kb then add64 addr 4096 else end

-- The `do` loop of `MemoryFindSpace` in one block, on fuel: `spinning` if it ran out.
unfoldable pub search_block : ℕ → List TableIndex → (size align max_addr addr : ℕ) → Search
search_block zero tables size align max_addr addr = spinning
search_block (suc fuel) tables size align max_addr addr = elim (memory_is_free addr size tables) [
  | none ↦ found addr
  | some end ↦ elim (ltb (next_addr align addr end) max_addr) [
    | true ↦ search_block fuel tables size align max_addr (next_addr align addr end)
    | false ↦ exhausted
  ]
]

-- Where the search of a block begins; `none` if `MemoryAlign` refuses the block.
unfoldable pub first_addr : MemoryBlock → ℕ → Option ℕ
first_addr block align =
    if align == align_4kb then memory_align block.start block.start 4096 else some block.start

-- The search of one block; `exhausted` also where the outer loop goes on to the next block at once.
unfoldable pub try_block : ℕ → List TableIndex → (size align : ℕ) → MemoryBlock → Search
try_block fuel tables size align block =
    if block.type == type_available
    then elim (first_addr block align) [
      | none ↦ exhausted
      | some addr ↦ search_block fuel tables size align (add64 block.start block.size) addr
    ]
    else exhausted

-- MemoryFindSpace: `exhausted` is the NULL that it returns behind the last block.
unfoldable pub memory_find_space :
    ℕ → List TableIndex → (size align : ℕ) → List MemoryBlock → Search
memory_find_space fuel tables size align [] = exhausted
memory_find_space fuel tables size align (block ∷ blocks) =
    elim (try_block fuel tables size align block) [
      | found a ↦ found a
      | exhausted ↦ memory_find_space fuel tables size align blocks
      | spinning ↦ spinning
    ]
