-- ===== src/Memory/Alloc.antt =====
-- src/memory/alloc.c and table.c, and the kernel's `free` of libc/stdlib/free.c.
pub mod Extends
pub mod Inv
pub mod Main
pub mod Marking
use hypnoticos.Base.{
  ℕ, zero, suc, ◌+◌, ◌*◌, Bool, true, false, ◌&&◌, not, Option, none, some, List, [], ◌∷◌, ◌++◌,
  ◌==◌, if◌then◌else◌, leb, length, replicate,
}
use hypnoticos.Memory.{MemoryBlock, TableEntry, TableIndex, Memory, table_size, table_entry_size}
use hypnoticos.Memory.Find.{Search, found, exhausted, spinning, memory_find_space}

-- The label of an allocation: `__FUNCTION__` and `__LINE__` of the call.
pub record Label : Type 0 where
  pub function : List ℕ
  pub line : ℕ

-- HALT() stops the machine; a fault is a write through NULL; a search that does not end spins.
pub data Run (A : Type 0) : Type 0 where
  ok : A → Memory → Run A
  halt : Run A
  fault : Run A
  spin : Run A

abbrev pub and_then : {A B : Type 0} → Run A → (A → Memory → Run B) → Run B
and_then (ok a m) k = k a m
and_then halt k = halt
and_then fault k = fault
and_then spin k = spin

infixl 5 ◌>>=◌
abbrev pub ◌>>=◌ : {A B : Type 0} → (Memory → Run A) → (A → Memory → Run B) → Memory → Run B
◌>>=◌ f k m = and_then (f m) k

pub data Mark (A : Type 0) : Type 0 where
  filled : A → Mark A
  grow : Mark A
  full : Mark A

abbrev pub map_mark : {A B : Type 0} → (A → B) → Mark A → Mark B
map_mark f (filled a) = filled (f a)
map_mark f grow = grow
map_mark f full = full

abbrev pub new_entry : ℕ → ℕ → Label → TableEntry
new_entry addr size label = record {
  addr = addr;
  size = size;
  status = 1;
  function = label.function;
  line = label.line;
}

-- The inner loop of `MemoryAllocated`: `count` is the number of entries of the table, `i` the index
-- of the first one that is left, `last` whether the table is the last one. An entry in use among the
-- last ten of the last table asks for a new table, unless one is pending. (Tables lie above 1 MB, so
-- the subtraction of ten entries from the table's end does not wrap, and compares indices.)
unfoldable pub mark_entries :
    (last pending : Bool) → (count i : ℕ) → TableEntry → List TableEntry → Mark (List TableEntry)
mark_entries last pending count i new [] = full
mark_entries last pending count i new (mt ∷ mts) =
    let rest = mark_entries last pending count (i + 1) new mts in
    if mt.status == 1
    then if last && (leb count (i + 10) && not pending) then grow else map_mark (λ r. mt ∷ r) rest
    else filled (new ∷ mts)

unfoldable pub is_last : List TableIndex → Bool
is_last [] = true
is_last (t ∷ ts) = false

-- The outer loop of `MemoryAllocated`.
unfoldable pub mark_tables : Bool → TableEntry → List TableIndex → Mark (List TableIndex)
mark_tables pending new [] = full
mark_tables pending new (t ∷ ts) =
    elim (mark_entries (is_last ts) pending (length t.entries) 0 new t.entries) [
      | filled es ↦ filled (record t { entries = es } ∷ ts)
      | grow ↦ grow
      | full ↦ map_mark (λ r. t ∷ r) (mark_tables pending new ts)
    ]

-- What `MemoryAllocated` does with the outcome of its loops, with `MemoryNewTable` as an argument.
-- The result 0, for "search again", is false.
pub settle : (Memory → Run (Unit {0})) → Memory → Mark (List TableIndex) → Run Bool
settle new_table m (filled ts) = ok true (record m { tables = ts })
settle new_table m grow =
    and_then (new_table (record m { new_table_pending = true }))
      (λ _ m'. ok false (record m' { new_table_pending = false }))
settle new_table m full = halt

-- MemoryAllocated
pub allocated : (Memory → Run (Unit {0})) → ℕ → ℕ → Label → Memory → Run Bool
allocated new_table addr size label m =
    settle new_table m (mark_tables m.new_table_pending (new_entry addr size label) m.tables)

-- The outcome of one search for space.
pub data Attempt : Type 0 where
  no_space : Attempt
  placed : ℕ → Attempt
  again : Attempt

-- The rest of an attempt, once the search for space has ended. Space at address 0 counts as none.
pub place : (Memory → Run (Unit {0})) → ℕ → Label → Memory → Search → Run Attempt
place new_table size label m (found addr) =
    if addr == 0
    then ok no_space m
    else and_then (allocated new_table addr size label m)
        (λ done m'. ok (if done then placed addr else again) m')
place new_table size label m exhausted = ok no_space m
place new_table size label m spinning = spin

-- From the label `restart` to the test of the result of `MemoryAllocated`.
pub attempt : (Memory → Run (Unit {0})) → ℕ → (size align : ℕ) → Label → Memory → Run Attempt
attempt new_table fuel size align label m =
    place new_table size label m (memory_find_space fuel m.tables size align m.blocks)

-- What `__malloc_align` returns after an attempt; NULL is `none`.
pub conclude : (Memory → Run (Option ℕ)) → Attempt → Memory → Run (Option ℕ)
conclude restart no_space m = ok none m
conclude restart (placed addr) m = ok (some addr) m
conclude restart again m = restart m

-- MemoryTableIndices.size
unfoldable pub first_size : List TableIndex → ℕ
first_size [] = 0
first_size (t ∷ ts) = table_size t

-- __malloc_align from its label `restart` on, with `MemoryNewTable` and a further restart as
-- arguments.
pub malloc_round :
    (Memory → Run (Unit {0}))
    → ℕ
    → (size align : ℕ) → Label
    → (Memory → Run (Option ℕ))
    → Memory
    → Run (Option ℕ)
malloc_round new_table fuel size align label restart m =
    if first_size m.tables == 0
    then halt
    else and_then (attempt new_table fuel size align label m) (conclude restart)

-- __malloc_align, with `MemoryNewTable` as an argument: it restarts once.
pub malloc_with : (Memory → Run (Unit {0})) → ℕ → (size align : ℕ) → Label → Memory → Run (Option ℕ)
malloc_with new_table fuel size align label =
    malloc_round new_table fuel size align label
      (malloc_round new_table fuel size align label (λ _. halt))

abbrev pub empty_entry : TableEntry
empty_entry = record { addr = 0; size = 0; status = 0; function = []; line = 0 }

-- MEMORY_TABLE_NEW_TABLE_ENTRIES
abbrev pub new_table_entries : ℕ
new_table_entries = 1000

-- sizeof(MemoryTableIndex_t), packed
abbrev pub table_index_size : ℕ
table_index_size = 32

-- The `malloc` of `MemoryNewTable`. While a table is pending `MemoryAllocated` asks for no other, so
-- what is passed for `MemoryNewTable` is not called.
pub pending_malloc : ℕ → ℕ → Label → Memory → Run (Option ℕ)
pending_malloc fuel size label = malloc_with (λ _. halt) fuel size 0 label

-- What `MemoryNewTable` does with the addresses that its two calls of `malloc` return. The first one
-- is written to at once, and both are used unchecked.
pub append_table : (next addr : Option ℕ) → Memory → Run (Unit {0})
append_table none addr m = fault
append_table (some next) none m = fault
append_table (some next) (some addr) m = ok tt (record m {
  tables =
      m.tables ++ record { addr = addr; entries = replicate new_table_entries empty_entry } ∷ [];
})

-- MemoryNewTable; `label` is that of its first call of `malloc`, and the second one stands three lines
-- below.
pub memory_new_table : ℕ → Label → Memory → Run (Unit {0})
memory_new_table fuel label = do
  next ← pending_malloc fuel table_index_size label
  addr ←
      pending_malloc fuel (table_entry_size * new_table_entries)
        (record label { line = label.line + 3 })
  append_table next addr

-- __malloc_align
pub malloc_align : ℕ → Label → (size align : ℕ) → Label → Memory → Run (Option ℕ)
malloc_align fuel table_label = malloc_with (memory_new_table fuel table_label) fuel
