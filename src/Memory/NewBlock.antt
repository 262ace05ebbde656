-- ===== src/Memory/NewBlock.antt =====
-- The memory blocks and the first table, made at the start: src/memory/new-block.c.
pub mod First
use mathlib.Core.List.{map}
use hypnoticos.Base.{
  ℕ, zero, suc, ◌+◌, ◌*◌, ◌-◌, ◌/◌, Bool, true, false, ◌&&◌, ◌||◌, not, Option, none, some, List,
  [], ◌∷◌, ◌++◌, ◌==◌, if◌then◌else◌, ltb, leb, add64, sub64, length, replicate, ◌^◌, ◌%◌,
}
use hypnoticos.Memory.{MemoryBlock, TableEntry, TableIndex, Memory, table_entry_size}
use hypnoticos.Memory.Alloc.{
  Label, Run, ok, halt, fault, spin, and_then, new_entry, empty_entry, malloc_align,
}

-- An address range from a start to an end.
pub record Range : Type 0 where
  pub from : ℕ
  pub to : ℕ

-- What the loader leaves: the multiboot structure with its modules, and the kernel's own range.
pub record Loaded : Type 0 where
  pub kernel : Range
  pub multiboot : ℕ
  pub mods : List Range
  pub mods_addr : ℕ
  pub mmap_addr : ℕ
  pub mmap_length : ℕ

-- multiboot_memory_map_t
pub record MmapEntry : Type 0 where
  pub addr : ℕ
  pub len : ℕ
  pub type : ℕ

-- MEMORY_FLOOR and MEMORY_TABLE_SKIP
abbrev pub memory_floor : ℕ
memory_floor = 0x100000

abbrev pub memory_table_skip : ℕ
memory_table_skip = 0x1000

-- MEMORY_TABLE_INITIAL_ENTRIES, and the size of these entries
abbrev pub initial_entries : ℕ
initial_entries = 100

abbrev pub initial_size : ℕ
initial_size = table_entry_size * initial_entries

-- sizeof(multiboot), the size of a pointer
abbrev pub pointer_size : ℕ
pointer_size = 8

-- sizeof(MemoryBlock_t)
abbrev pub block_size : ℕ
block_size = 40

-- MemoryNewBlock_CheckOverlap: true where the ranges do not overlap.
unfoldable pub check_overlap : (addr size : ℕ) → Range → Bool
check_overlap addr size r = if ltb r.to addr then true else ltb (add64 addr size) r.from

unfoldable pub check_modules : (addr size : ℕ) → List Range → Bool
check_modules addr size [] = true
check_modules addr size (r ∷ rs) = check_overlap addr size r && check_modules addr size rs

-- The ranges of the multiboot structure, of the entries of the modules and of the memory map, as the
-- code takes them.
abbrev pub multiboot_range : Loaded → Range
multiboot_range l = record { from = l.multiboot; to = add64 l.multiboot pointer_size }

abbrev pub mods_range : Loaded → Range
mods_range l = record { from = l.mods_addr; to = add64 l.mods_addr (length l.mods * pointer_size) }

abbrev pub mmap_range : Loaded → Range
mmap_range l = record { from = l.mmap_addr; to = add64 l.mmap_addr l.mmap_length }

-- The tests of one place for the table.
unfoldable pub is_place : Loaded → ℕ → Bool
is_place l addr =
    check_overlap addr initial_size l.kernel
    && (check_modules addr initial_size l.mods
        && (check_overlap addr initial_size (multiboot_range l)
            && (check_overlap addr initial_size (mods_range l)
                && check_overlap addr initial_size (mmap_range l))))

-- The loop over the places of a block, on fuel.
unfoldable pub search_place : ℕ → Loaded → (max_addr addr : ℕ) → Option ℕ
search_place zero l max_addr addr = none
search_place (suc fuel) l max_addr addr = elim (ltb (add64 addr initial_size) max_addr) [
  | false ↦ none
  | true ↦ elim (is_place l addr) [
    | true ↦ some addr
    | false ↦ search_place fuel l max_addr (add64 addr memory_table_skip)
  ]
]

-- A round for each place of the block is enough.
unfoldable pub find_place : Loaded → (start size : ℕ) → Option ℕ
find_place l start size = search_place (suc (size / memory_table_skip)) l (add64 start size) start

-- The label "-".
abbrev pub no_label : Label
no_label = record { function = b'-' ∷ []; line = 0 }

-- MemoryNewBlock_NewEntry; the entries so far are `es`, and the table has room for 100.
unfoldable pub put_first : List TableEntry → (addr size : ℕ) → Option (List TableEntry)
put_first es addr size =
    if not (length es == 0) && leb initial_entries (length es)
    then none
    else some (es ++ new_entry addr size no_label ∷ [])

-- The entries of allocations, given by address and size, one after another.
unfoldable pub put_ranges : List TableEntry → List (ℕ × ℕ) → Option (List TableEntry)
put_ranges es [] = some es
put_ranges es (r ∷ rs) = elim (put_first es r.0 r.1) [ none ↦ none | some es' ↦ put_ranges es' rs ]

-- A module, whose start and end are 32-bit numbers.
abbrev pub marked_module : Range → ℕ × ℕ
marked_module r = (r.from, (r.to + 2 ^ 32 - r.from) % 2 ^ 32)

-- What is marked as allocated: the table itself, the kernel, the modules, and what the loader left.
unfoldable pub marked_ranges : Loaded → (addr : ℕ) → List (ℕ × ℕ)
marked_ranges l addr =
    (addr, initial_size)
      ∷ (l.kernel.from, sub64 l.kernel.to l.kernel.from)
      ∷ map marked_module l.mods
    ++ (l.multiboot, pointer_size)
      ∷ (l.mods_addr, length l.mods * pointer_size)
      ∷ (l.mmap_addr, l.mmap_length)
      ∷ []

-- The first table at its place.
unfoldable pub first_table : Loaded → (addr : ℕ) → Option TableIndex
first_table l addr = elim (put_ranges [] (marked_ranges l addr)) [
  | none ↦ none
  | some es ↦
      some (record {
        addr = addr;
        entries = es ++ replicate (initial_entries - length es) empty_entry;
      })
]

-- The part of an entry of the memory map from MEMORY_FLOOR on; `none` where there is none.
unfoldable pub clip : MmapEntry → Option (ℕ × ℕ)
clip e =
    if ltb memory_floor e.addr
    then some (e.addr, e.len)
    else if leb (add64 e.addr e.len) memory_floor
    then none
    else some (memory_floor, sub64 e.len memory_floor)

-- Whether the memory is available; `none` for an unknown type.
unfoldable pub availability : ℕ → Option Bool
availability type =
    if type == 1
    then some true
    else if (type == 2) || ((type == 3) || ((type == 4) || (type == 5)))
    then some false
    else none

unfoldable pub block_of : (start size : ℕ) → Bool → MemoryBlock
block_of start size available = record {
  start = start;
  size = size;
  type = if available then 1 else 0;
}

-- The first block, with the first table on it, where there is no table.
unfoldable pub add_first : Loaded → (start size : ℕ) → Memory → Run ℕ
add_first l start size m =
    let m' : Memory = record m { blocks = block_of start size true ∷ [] } in
    elim (find_place l start size) [
      | none ↦ ok 0 m'
      | some addr ↦ elim (first_table l addr) [
        | none ↦ ok 0 m'
        | some t ↦ ok 1 (record m' { tables = t ∷ [] })
      ]
    ]

-- Another block: its struct is allocated, and the result is written to without a test.
unfoldable pub append_block : MemoryBlock → Option ℕ → Memory → Run ℕ
append_block b none m = fault
append_block b (some next) m = ok 1 (record m { blocks = m.blocks ++ b ∷ [] })

unfoldable pub add_block : ℕ → Label → Label → MemoryBlock → Memory → Run ℕ
add_block fuel table_label label b m =
    and_then (malloc_align fuel table_label block_size 0 label m) (append_block b)

-- The first block; a table that is there already stays.
unfoldable pub start_blocks : Loaded → (start size : ℕ) → Memory → Run ℕ
start_blocks l start size m = elim m.tables [
  | [] ↦ add_first l start size m
  | t ∷ ts ↦ ok 1 (record m { blocks = block_of start size true ∷ [] })
]

-- Where the block goes: there is no block yet, or there are blocks and a table.
unfoldable pub place_block : ℕ → Label → Label → Loaded → (start size : ℕ) → Bool → Memory → Run ℕ
place_block fuel table_label label l start size available m = elim m.blocks [
  | [] ↦ if available then start_blocks l start size m else ok 0 m
  | b ∷ bs ↦ elim m.tables [
    | [] ↦ ok 0 m
    | t ∷ ts ↦ add_block fuel table_label label (block_of start size available) m
  ]
]

-- MemoryNewBlock; `label` and `table_label` are those of its call of `malloc` and of the ones of
-- `MemoryNewTable`.
unfoldable pub memory_new_block : ℕ → Label → Label → Loaded → MmapEntry → Memory → Run ℕ
memory_new_block fuel table_label label l e m = elim (availability e.type) [
  | none ↦ ok 0 m
  | some available ↦ elim (clip e) [
    | none ↦ ok 1 m
    | some (start, size) ↦ place_block fuel table_label label l start size available m
  ]
]
