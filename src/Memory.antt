-- ===== src/Memory.antt =====
-- The kernel's memory allocator: src/memory/ and the kernel's part of libc/stdlib/.
-- Available memory is a list of blocks. Allocations stand in tables, each an array of entries; the
-- first table is laid by `MemoryNewBlock`, and others are added when the last one is nearly full.
pub mod Alloc
pub mod Find
pub mod NewBlock
pub mod Paging
pub mod Release
use hypnoticos.Base.{ℕ, ◌*◌, Bool, List, [], ◌∷◌, length}

-- MemoryBlock_t; `size` is its `length`.
pub record MemoryBlock : Type 0 where
  pub start : ℕ
  pub size : ℕ
  pub type : ℕ

-- MEMORYBLOCK_TYPE_AVAILABLE
abbrev pub type_available : ℕ
type_available = 1

-- MemoryTable_t: one allocation. `function` is the text of the label, without its NUL.
pub record TableEntry : Type 0 where
  pub addr : ℕ
  pub size : ℕ
  pub status : ℕ
  pub function : List ℕ
  pub line : ℕ

-- sizeof(MemoryTable_t), packed: 8 + 8 + 1 + 200 + 4
abbrev pub table_entry_size : ℕ
table_entry_size = 221

-- MemoryTableIndex_t: where an array of entries lies, and the entries.
pub record TableIndex : Type 0 where
  pub addr : ℕ
  pub entries : List TableEntry

-- `size` of a MemoryTableIndex_t
abbrev pub table_size : TableIndex → ℕ
table_size t = table_entry_size * length t.entries

-- MemoryBlocks, MemoryTableIndices, and the static `new_table_pending` of `MemoryAllocated`.
pub record Memory : Type 0 where
  pub blocks : List MemoryBlock
  pub tables : List TableIndex
  pub new_table_pending : Bool

-- ALIGN_4KB
abbrev pub align_4kb : ℕ
align_4kb = 4
