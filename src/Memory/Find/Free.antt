-- ===== src/Memory/Find/Free.antt =====
-- What `MemoryIsFree` tells.
use hypnoticos.Base.{
  ℕ, ◌+◌, ◌≤◌, ◌<◌, ◌≡◌, refl, ◌↔◌, ◌⊎◌, none, some, List, [], ◌∷◌, arith, word, All, Any,
}
use hypnoticos.Memory.{TableEntry, TableIndex}
use hypnoticos.Memory.Find.{conflict, memory_is_free}

-- Every entry of every table.
abbrev pub AllEntries : (TableEntry → Type 0) → List TableIndex → Type 0
AllEntries P mtis = All (λ (t : TableIndex). All P t.entries) mtis

abbrev pub AnyEntry : (TableEntry → Type 0) → List TableIndex → Type 0
AnyEntry P mtis = Any (λ (t : TableIndex). Any P t.entries) mtis

-- An allocation does not reach the end of the address space.
abbrev pub Fits : TableEntry → Type 0
Fits mt = mt.addr + mt.size < word

-- A block lies behind or strictly before an allocation that is in use.
abbrev pub Apart : ℕ → ℕ → TableEntry → Type 0
Apart addr size mt = mt.status ≡ 1 → (addr + size < mt.addr) ⊎ (mt.addr + mt.size ≤ addr)

-- An allocation that is in use, that touches or overlaps the block, and that ends at `end`.
abbrev pub Blocks : ℕ → ℕ → ℕ → TableEntry → Type 0
Blocks addr size end mt =
    (mt.status ≡ 1)
    × (mt.addr ≤ addr + size)
    × (addr < mt.addr + mt.size)
    × (mt.addr + mt.size ≡ end)

module _ (addr size : ℕ) (room : addr + size < word) where
  conflict-none :
      (mts : List TableEntry)
      → All Fits mts
      → conflict addr size mts ≡ none
      → All (Apart addr size) mts
  unfolding conflict
  conflict-none [] f h = tt
  conflict-none (mt ∷ mts) f h = (ground arith, conflict-none mts f.1 (ground arith))

  conflict-some :
      (mts : List TableEntry) (end : ℕ)
      → All Fits mts
      → conflict addr size mts ≡ some end
      → Any (Blocks addr size end) mts
  unfolding conflict
  conflict-some [] end f h = cc
  conflict-some (mt ∷ mts) end f h = ground (arith, conflict-some mts end f.1)

  pub memory_is_free-Apart :
      (mtis : List TableIndex)
      → AllEntries Fits mtis
      → memory_is_free addr size mtis ≡ none
      → AllEntries (Apart addr size) mtis
  unfolding memory_is_free
  memory_is_free-Apart [] f h = tt
  memory_is_free-Apart (mti ∷ mtis) f h =
      (conflict-none mti.entries f.0 (ground arith), memory_is_free-Apart mtis f.1 (ground arith))

  none-conflict :
      (mts : List TableEntry)
      → All Fits mts
      → All (Apart addr size) mts
      → conflict addr size mts ≡ none
  unfolding conflict
  none-conflict [] f h = refl
  none-conflict (mt ∷ mts) f h = ground (arith, h.0, none-conflict mts f.1 h.1)

  Apart-memory_is_free :
      (mtis : List TableIndex)
      → AllEntries Fits mtis
      → AllEntries (Apart addr size) mtis
      → memory_is_free addr size mtis ≡ none
  unfolding memory_is_free
  Apart-memory_is_free [] f h = refl
  Apart-memory_is_free (mti ∷ mtis) f h =
      ground (arith, none-conflict mti.entries f.0 h.0, Apart-memory_is_free mtis f.1 h.1)

  -- For a range that ends before the end of the address space, and tables whose entries all do so too:
  -- `MemoryIsFree` says that the range is free exactly when every allocation in use lies before it, or
  -- behind it with a gap of at least one byte.
  pub memory_is_free_iff :
      (mtis : List TableIndex)
      → AllEntries Fits mtis
      → (memory_is_free addr size mtis ≡ none) ↔ AllEntries (Apart addr size) mtis
  memory_is_free_iff mtis f = (memory_is_free-Apart mtis f, Apart-memory_is_free mtis f)

  -- If it says that the block is not free, there is an allocation in use that touches the block, and `*end` is its end, which
  -- lies behind the block's start.
  pub memory_is_free-Blocks :
      (mtis : List TableIndex) (end : ℕ)
      → AllEntries Fits mtis
      → memory_is_free addr size mtis ≡ some end
      → AnyEntry (Blocks addr size end) mtis
  unfolding memory_is_free
  memory_is_free-Blocks [] end f h = cc
  memory_is_free-Blocks (mti ∷ mtis) end f h =
      ground (arith, conflict-some mti.entries end f.0, memory_is_free-Blocks mtis end f.1)

-- A conflict ends behind the address that was tried.
conflict_end :
    (addr size : ℕ) (mts : List TableEntry) (end : ℕ)
    → conflict addr size mts ≡ some end
    → addr < end
unfolding conflict
conflict_end addr size [] end h = cc
conflict_end addr size (mt ∷ mts) end h = ground (arith, conflict_end addr size mts end)

pub memory_is_free_end :
    (addr size : ℕ) (mtis : List TableIndex) (end : ℕ)
    → memory_is_free addr size mtis ≡ some end
    → addr < end
unfolding memory_is_free
memory_is_free_end addr size [] end h = cc
memory_is_free_end addr size (mti ∷ mtis) end h =
    ground (arith, conflict_end addr size mti.entries end, memory_is_free_end addr size mtis end)
