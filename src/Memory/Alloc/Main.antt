-- ===== src/Memory/Alloc/Main.antt =====
-- `__malloc_align` with the tables that it adds for itself.
use hypnoticos.Base.{
  ℕ, zero, suc, ◌≤◌, ◌<◌, ◌≡◌, ◌≢◌, Option, none, some, List, [], ◌∷◌, ◌++◌, arith, word, All,
  All-append, sym, subst, replicate, ne→==,
}
use hypnoticos.Memory.{TableIndex, Memory}
use hypnoticos.Memory.Find.{found, exhausted, memory_find_space}
use hypnoticos.Memory.Find.Free.{Fits}
use hypnoticos.Memory.Alloc.{
  Label, ok, halt, filled, new_entry, mark_tables, settle, allocated, place, attempt, conclude,
  first_size, malloc_round, malloc_with, empty_entry, pending_malloc, append_table,
  memory_new_table, malloc_align, new_table_entries, table_index_size,
}
use hypnoticos.Memory.Alloc.Extends.{
  flat, Extends, AllSeparate, Extends-append, Separate-empty, AllSeparate-empty, AllSeparate-append,
  flat-append,
}
use hypnoticos.Memory.Alloc.Inv.{
  IsValid, After, After-trans, Returned, Ensures, Ensures-bind, Ensures-mono, malloc_with-Returned,
  request_bound,
}

Fits-empty : (n : ℕ) → All Fits (replicate n empty_entry)
Fits-empty zero = tt
Fits-empty (suc n) = (omega arith, Fits-empty n)

-- A table of free entries behind the others.
empty_table-After :
    (m : Memory) (addr n : ℕ)
    → IsValid m
    → After m (record m {
      tables = m.tables ++ record { addr = addr; entries = replicate n empty_entry } ∷ [];
    })
empty_table-After m addr n v = record {
  valid = record {
    fits =
        subst (All Fits) (sym here)
          (All-append Fits (flat m.tables) (replicate n empty_entry) v.fits (Fits-empty n));
    separate = subst AllSeparate (sym here) (
        AllSeparate-append (flat m.tables) (replicate n empty_entry) (λ x. Separate-empty x n)
          (AllSeparate-empty n) v.separate);
    roomy = v.roomy;
  };
  extends =
      subst (Extends (flat m.tables)) (sym here)
        (Extends-append (flat m.tables) (replicate n empty_entry));
}
  where
    t : TableIndex
    t = record { addr = addr; entries = replicate n empty_entry }

    here : flat (m.tables ++ t ∷ []) ≡ flat m.tables ++ replicate n empty_entry
    here = flat-append m.tables t

append_table-After :
    (next addr : Option ℕ) (m : Memory)
    → IsValid m
    → Ensures (λ _ m'. After m m') (append_table next addr m)
unfolding append_table
append_table-After none addr m v = tt
append_table-After (some next) none m v = tt
append_table-After (some next) (some addr) m v = empty_table-After m addr new_table_entries v

pending_malloc-Returned :
    (fuel size : ℕ) (label : Label) (m : Memory)
    → word ≤ fuel
    → size < request_bound
    → IsValid m
    → Ensures (Returned m size label) (pending_malloc fuel size label m)
unfolding pending_malloc
pending_malloc-Returned fuel size label m n s v =
    malloc_with-Returned (λ _. halt) (λ _ _. tt) fuel size 0 label s n m v

memory_new_table-After :
    (fuel : ℕ) (label : Label)
    → word ≤ fuel
    → (m : Memory) → IsValid m
    → Ensures (λ _ m'. After m m') (memory_new_table fuel label m)
unfolding memory_new_table
memory_new_table-After fuel label n m v =
    Ensures-bind (Returned m _ label) (λ _ m'. After m m') _ _
      (pending_malloc-Returned fuel table_index_size label m n (omega arith) v)
      (λ next m1 r1.
        Ensures-bind (Returned m1 _ _) (λ _ m'. After m m') _ _
          (pending_malloc-Returned fuel _ _ m1 n (omega arith) r1.0.valid)
          (λ addr m2 r2.
            Ensures-mono (λ _ m'. After m2 m') (λ _ m'. After m m') (append_table next addr m2)
              (append_table-After next addr m2 r2.0.valid)
              (λ _ m' a. After-trans r1.0 (After-trans r2.0 a))))

-- For a request below 4 GB, on a memory in which no two allocations in use share a byte, no entry of a
-- table, in use or not, reaches the end of the address space, and more than 4 GB of addresses lie
-- behind each block: with fuel for the whole address space `__malloc_align` never spins. If it returns, the memory is as valid as before,
-- the allocations in use from before are there unchanged, whichever tables were added, and an address
-- that it returns is that of an allocation in use, of the size and with the label that were passed.
pub malloc_align-Returned :
    (fuel : ℕ) (table_label : Label) (size align : ℕ) (label : Label) (m : Memory)
    → word ≤ fuel
    → size < request_bound
    → IsValid m
    → Ensures (Returned m size label) (malloc_align fuel table_label size align label m)
unfolding malloc_align
malloc_align-Returned fuel table_label size align label m n s v =
    malloc_with-Returned (memory_new_table fuel table_label)
      (memory_new_table-After fuel table_label n) fuel size align label s n m v

-- Where no memory block has room, or space is found at address 0, `__malloc_align` returns NULL and
-- changes nothing. Where space is found at another address `a` and a free entry is filled before a new table is asked for, it returns `a`, and the
-- tables are those with that entry filled.
pub malloc_align_branches :
    (fuel : ℕ) (table_label : Label) (size align : ℕ) (label : Label) (m : Memory)
    → first_size m.tables ≢ 0
    → (memory_find_space fuel m.tables size align m.blocks ≡ exhausted
        → malloc_align fuel table_label size align label m ≡ ok none m)
      × (memory_find_space fuel m.tables size align m.blocks ≡ found 0
          → malloc_align fuel table_label size align label m ≡ ok none m)
      × ((a : ℕ) (ts : List TableIndex)
          → a ≢ 0
          → memory_find_space fuel m.tables size align m.blocks ≡ found a
          → mark_tables m.new_table_pending (new_entry a size label) m.tables ≡ filled ts
          → malloc_align fuel table_label size align label m
            ≡ ok (some a) (record m { tables = ts }))
unfolding malloc_align malloc_with malloc_round attempt place allocated settle conclude
malloc_align_branches fuel table_label size align label m n = (
  λ f. rw (ne→== (first_size m.tables) 0 n, f),
  λ f. rw (ne→== (first_size m.tables) 0 n, f),
  λ a ts z f e. rw (ne→== (first_size m.tables) 0 n, f, ne→== a 0 z, e),
)
