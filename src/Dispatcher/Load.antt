-- ===== src/Dispatcher/Load.antt =====
-- Pages of a process and data loaded into them: DispatcherProcessAllocatePage and
-- DispatcherProcessLoadAt of src/dispatcher/memory.c.
pub mod Copies
use hypnoticos.Base.{
  ℕ, zero, suc, ◌+◌, ◌-◌, ◌*◌, ◌/◌, ◌%◌, Bool, true, false, Option, none, some, List, [], ◌∷◌, ◌++◌,
  ◌==◌, if◌then◌else◌, ltb, add64, sub64, replicate, get_or,
}
use hypnoticos.Storage.{bytes_at, store_bytes}
use hypnoticos.Dispatcher.Addresses.{Va, process_map}

-- What a process has of memory: its map, its pages, and the bytes of physical memory.
pub record Space : Type 0 where
  pub map : List Va
  pub alloc : List ℕ
  pub bytes : ℕ → ℕ

-- What the calls for one page give: the address of `malloc_align`, or NULL, and whether
-- `MemoryPagingSetPage` sets the page.
pub record Grant : Type 0 where
  pub address : Option ℕ
  pub paged : Bool

-- The page is in the map, and is noted and cleared.
unfoldable pub add_page : Space → List Va → (ptr : ℕ) → Space
add_page s map ptr = record {
  map = map;
  alloc = s.alloc ++ ptr ∷ [];
  bytes = store_bytes s.bytes ptr (replicate 4096 0);
}

unfoldable pub mapped_page : Space → (ptr : ℕ) → ℕ × List Va → Option ℕ × Space
mapped_page s ptr r =
    if r.0 == 0 then (none, record s { map = r.1 }) else (some ptr, add_page s r.1 ptr)

-- DispatcherProcessAllocatePage
unfoldable pub allocate_page : Grant → Space → (va ignore : ℕ) → Option ℕ × Space
allocate_page g s va ignore = elim g.address [
  | none ↦ (none, s)
  | some ptr ↦ mapped_page s ptr (process_map g.paged s.map va ptr ignore)
]

-- The first loop of `DispatcherProcessLoadAt`: `n` pages from the page `i` on, with their addresses.
unfoldable pub allocate_pages : ℕ → (ℕ → Grant) → Space → (min_addr i : ℕ) → Option (List ℕ) × Space
allocate_pages zero grants s min_addr i = (some [], s)
allocate_pages (suc n) grants s min_addr i =
    let page = allocate_page (grants i) s (add64 min_addr (i * 4096)) 0 in
    elim page.0 [
      | none ↦ (none, page.1)
      | some ptr ↦
          let rest = allocate_pages n grants page.1 min_addr (i + 1) in
          (elim rest.0 [ none ↦ none | some ptrs ↦ some (ptr ∷ ptrs) ], rest.1)
    ]

-- memcpy from the data into memory. `source n` is the byte at `data + n`, in the file or behind it.
unfoldable pub copy : (ℕ → ℕ) → (to : ℕ) → (source : ℕ → ℕ) → (from n : ℕ) → ℕ → ℕ
copy bytes to source from n = store_bytes bytes to (bytes_at source from n)

-- One round of the second loop.
unfoldable pub copy_page :
    (source : ℕ → ℕ) → (file_size initial_offset count i ptr : ℕ) → (ℕ → ℕ) → ℕ → ℕ
copy_page source file_size initial_offset count i ptr bytes =
    if i == 0
    then copy bytes (add64 ptr initial_offset) source 0 (4096 - initial_offset)
    else if i == count - 1
    then copy bytes ptr source (sub64 (i * 4096) (4096 - initial_offset)) (file_size % 4096)
    else copy bytes ptr source (sub64 (i * 4096) (4096 - initial_offset)) 4096

-- The second loop, `n` rounds from `i` on. (There are at least as many pages as rounds.)
unfoldable pub copy_pages :
    ℕ → (source : ℕ → ℕ) → (file_size initial_offset count i : ℕ) → List ℕ → (ℕ → ℕ) → ℕ → ℕ
copy_pages zero source file_size initial_offset count i ptrs bytes = bytes
copy_pages (suc n) source file_size initial_offset count i ptrs bytes =
    copy_pages n source file_size initial_offset count (i + 1) ptrs
      (copy_page source file_size initial_offset count i (get_or ptrs i 0) bytes)

-- The second part of `DispatcherProcessLoadAt`.
unfoldable pub copy_file : (va : ℕ) → (source : ℕ → ℕ) → (file_size : ℕ) → List ℕ → Space → Space
copy_file va source file_size ptrs s = if file_size == 0 then s else record s {
  bytes =
      copy_pages (file_size / 4096 + 1) source file_size (va % 4096) (file_size / 4096 + 1) 0 ptrs
        s.bytes;
}

-- The number of pages from the page of `va` to the one of `va + memory_size`.
unfoldable pub page_count : (va memory_size : ℕ) → ℕ
page_count va memory_size =
    let end = add64 va memory_size in sub64 (end - end % 4096 + 4096) (va - va % 4096) / 4096

unfoldable pub loaded :
    (va : ℕ) → (source : ℕ → ℕ) → (file_size : ℕ) → Option (List ℕ) × Space → ℕ × Space
loaded va source file_size (none, s) = (0, s)
loaded va source file_size (some ptrs, s) = (1, copy_file va source file_size ptrs s)

-- DispatcherProcessLoadAt: its result, and what it leaves.
unfoldable pub load_at :
    (ℕ → Grant) → Space → (va : ℕ) → (source : ℕ → ℕ) → (file_size memory_size : ℕ) → ℕ × Space
load_at grants s va source file_size memory_size =
    if ltb (memory_size / 4096 + 1) (file_size / 4096 + 1)
    then (0, s)
    else loaded va source file_size
        (allocate_pages (page_count va memory_size) grants s (va - va % 4096) 0)
