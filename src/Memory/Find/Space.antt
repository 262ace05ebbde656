-- ===== src/Memory/Find/Space.antt =====
-- Where `MemoryFindSpace` puts a block, and that its loop ends.
use hypnoticos.Base.{
  ℕ, zero, suc, ◌+◌, ◌%◌, ◌≤◌, ◌<◌, ◌≡◌, refl, ◌≢◌, ◌⊎◌, inl, inr, none, some, List, [], ◌∷◌, arith,
  word, add64, All, Any, Option-cases,
}
use hypnoticos.Memory.{MemoryBlock, type_available, TableIndex, align_4kb}
use hypnoticos.Memory.Find.{
  memory_is_free, memory_align, Search, found, exhausted, spinning, next_addr, search_block,
  first_addr, try_block, memory_find_space,
}
use hypnoticos.Memory.Find.Free.{memory_is_free_end}

-- A block does not reach the last page of the address space.
abbrev pub BlockFits : MemoryBlock → Type 0
BlockFits block = block.start + block.size + 4096 < word

module _ (tables : List TableIndex) (size align max_addr : ℕ) (room : max_addr + 4096 < word) where
  -- Each round of the loop tries a higher address.
  next_addr_grows :
      (addr end : ℕ)
      → addr ≤ max_addr
      → memory_is_free addr size tables ≡ some end
      → addr < next_addr align addr end
  next_addr_grows addr end h e = ground (arith, memory_is_free_end addr size tables end)

  -- With more fuel than there are addresses left, the loop ends by a test of its own.
  search_block-ne-spinning :
      (fuel addr : ℕ)
      → addr ≤ max_addr
      → max_addr < addr + fuel
      → search_block fuel tables size align max_addr addr ≢ spinning
  unfolding search_block
  search_block-ne-spinning zero addr h f = absurd (omega arith)
  search_block-ne-spinning (suc fuel) addr h f =
      elim (Option-cases (memory_is_free addr size tables)) [
        | inl e ↦ ground arith
        | inr (end, e) ↦ ground (
          arith,
          next_addr_grows addr end h e,
          search_block-ne-spinning fuel (next_addr align addr end),
        )
      ]

  -- What is found is free, and lies at the first address or at a higher one inside the block; a
  -- step of a page keeps the alignment.
  pub record Found (addr a : ℕ) : Type 0 where
    pub free : memory_is_free a size tables ≡ none
    pub lower : addr ≤ a
    pub upper : (a ≡ addr) ⊎ (a < max_addr)
    pub aligned : align ≡ align_4kb → addr % 4096 ≡ 0 → a % 4096 ≡ 0

  Found-here : (addr a : ℕ) → memory_is_free addr size tables ≡ none → addr ≡ a → Found addr a
  Found-here addr a free e = record {
    free = ground arith;
    lower = omega arith;
    upper = inl (omega arith);
    aligned = λ _ m. ground arith;
  }

  Found-later :
      (addr a end : ℕ)
      → addr ≤ max_addr
      → memory_is_free addr size tables ≡ some end
      → next_addr align addr end < max_addr
      → Found (next_addr align addr end) a
      → Found addr a
  Found-later addr a end h c l f = record {
    free = f.free;
    lower = omega (arith, next_addr_grows addr end h c, f.lower);
    upper = inr (ground (arith, f.upper));
    aligned = λ al m. f.aligned al (ground arith);
  }

  search_block-Found :
      (fuel addr a : ℕ)
      → addr ≤ max_addr
      → search_block fuel tables size align max_addr addr ≡ found a
      → Found addr a
  unfolding search_block
  search_block-Found zero addr a h e = cc
  search_block-Found (suc fuel) addr a h e = elim (Option-cases (memory_is_free addr size tables)) [
    | inl free ↦ Found-here addr a free (ground arith)
    | inr (end, c) ↦
        let more : next_addr align addr end < max_addr = ground arith in
        let rest : search_block fuel tables size align max_addr (next_addr align addr end)
            ≡ found a =
          ground arith in
        Found-later addr a end h c more
          (search_block-Found fuel (next_addr align addr end) a (omega arith) rest)
  ]

-- The search of a block begins at its start, and a search for an aligned address skips a block that
-- does not start at a page.
first_addr-start :
    (block : MemoryBlock) (align addr : ℕ)
    → first_addr block align ≡ some addr
    → (addr ≡ block.start) × (align ≡ align_4kb → addr % 4096 ≡ 0)
unfolding first_addr memory_align
first_addr-start block align addr e = (ground arith, λ al. ground arith)

-- The address lies in an available block.
abbrev pub Inside : ℕ → MemoryBlock → Type 0
Inside a block =
    (block.type ≡ type_available)
    × (block.start ≤ a)
    × ((a ≡ block.start) ⊎ (a < block.start + block.size))

-- What is found is found in this block or in the rest.
or_found :
    (s rest : Search) (a : ℕ)
    → (elim s [ found b ↦ found b | exhausted ↦ rest | spinning ↦ spinning ]) ≡ found a
    → (s ≡ found a) ⊎ (rest ≡ found a)
or_found (found b) rest a e = inl e
or_found exhausted rest a e = inr e
or_found spinning rest a e = cc

module _ (tables : List TableIndex) (size align fuel : ℕ) where
  block_Found :
      (block : MemoryBlock) (addr a : ℕ)
      → BlockFits block
      → block.type ≡ type_available
      → first_addr block align ≡ some addr
      → search_block fuel tables size align (add64 block.start block.size) addr ≡ found a
      → (memory_is_free a size tables ≡ none) × (align ≡ align_4kb → a % 4096 ≡ 0) × Inside a block
  block_Found block addr a fit av e f =
      let s = first_addr-start block align addr e in
      let r : Found tables size align (add64 block.start block.size) (omega arith) addr a =
        search_block-Found tables size align (add64 block.start block.size) (omega arith) fuel addr
          a (omega arith) f in
      (r.free, λ al. r.aligned al (s.1 al), (av, omega (arith, r.lower), ground (arith, r.upper)))

  try_block_found :
      (block : MemoryBlock) (a : ℕ)
      → BlockFits block
      → try_block fuel tables size align block ≡ found a
      → (memory_is_free a size tables ≡ none) × (align ≡ align_4kb → a % 4096 ≡ 0) × Inside a block
  unfolding try_block
  try_block_found block a fit e = elim (Option-cases (first_addr block align)) [
    | inl no_addr ↦ absurd (ground arith)
    | inr (addr, first) ↦ block_Found block addr a fit (ground arith) first (ground arith)
  ]

  try_block-ne-spinning :
      (block : MemoryBlock)
      → BlockFits block
      → block.size < fuel
      → try_block fuel tables size align block ≢ spinning
  unfolding try_block
  try_block-ne-spinning block fit f = elim (Option-cases (first_addr block align)) [
    | inl no_addr ↦ ground arith
    | inr (addr, first) ↦ ground (
      arith,
      first_addr-start block align addr first,
      search_block-ne-spinning tables size align (add64 block.start block.size) (omega arith) fuel
          addr,
    )
  ]

  -- Where every memory block ends more than a page before the end of the address space: the address
  -- that `MemoryFindSpace` finds begins a range that `MemoryIsFree` accepts, lies in an available
  -- memory block or is the start of one, and is a multiple of 4096 if that was asked for.
  pub memory_find_space_found :
      (blocks : List MemoryBlock) (a : ℕ)
      → All BlockFits blocks
      → memory_find_space fuel tables size align blocks ≡ found a
      → (memory_is_free a size tables ≡ none)
        × (align ≡ align_4kb → a % 4096 ≡ 0)
        × Any (Inside a) blocks
  unfolding memory_find_space
  memory_find_space_found [] a fit e = cc
  memory_find_space_found (block ∷ blocks) a fit e =
      elim (or_found (try_block fuel tables size align block) _ a e) [
        | inl here ↦ let r = try_block_found block a fit.0 here in (r.0, r.1, inl r.2)
        | inr later ↦ let r = memory_find_space_found blocks a fit.1 later in (r.0, r.1, inr r.2)
      ]

  -- Where every memory block ends more than a page before the end of the address space: with more
  -- fuel than any block has bytes, the search ends by the code's own tests.
  pub memory_find_space-ne-spinning :
      (blocks : List MemoryBlock)
      → All BlockFits blocks
      → All (λ (b : MemoryBlock). b.size < fuel) blocks
      → memory_find_space fuel tables size align blocks ≢ spinning
  unfolding memory_find_space
  memory_find_space-ne-spinning [] fit f = cc
  memory_find_space-ne-spinning (block ∷ blocks) fit f =
      ground (
        arith,
        try_block-ne-spinning block fit.0 f.0,
        memory_find_space-ne-spinning blocks fit.1 f.1,
      )

  -- A block that does not start at a multiple of 4096 is passed over by every page-aligned request,
  -- whatever its size: `MemoryAlign` rounds down, and refuses an address below the block.
  pub memory_find_space_unaligned :
      (blocks : List MemoryBlock)
      → align ≡ align_4kb
      → All (λ (b : MemoryBlock). b.start % 4096 ≢ 0) blocks
      → memory_find_space fuel tables size align blocks ≡ exhausted
  unfolding memory_find_space try_block first_addr memory_align
  memory_find_space_unaligned [] al u = refl
  memory_find_space_unaligned (block ∷ blocks) al u =
      ground (arith, memory_find_space_unaligned blocks al u.1)

search_block_here :
    (fuel : ℕ) (tables : List TableIndex) (size align max_addr addr : ℕ)
    → memory_is_free addr size tables ≡ none
    → search_block (suc fuel) tables size align max_addr addr ≡ found addr
unfolding search_block
search_block_here fuel tables size align max_addr addr e = rw (e, search_block)

first_addr_any :
    (block : MemoryBlock) (align : ℕ)
    → align ≢ align_4kb
    → first_addr block align ≡ some block.start
unfolding first_addr
first_addr_any block align h = ground arith

-- The end of a memory block is never compared with the request: where no allocation is in the way
-- at the start of the first block, a request of any size is placed there.
pub memory_find_space_overrun :
    (fuel : ℕ) (tables : List TableIndex) (size align : ℕ) (block : MemoryBlock)
    (blocks : List MemoryBlock)
    → align ≢ align_4kb
    → block.type ≡ type_available
    → memory_is_free block.start size tables ≡ none
    → memory_find_space (suc fuel) tables size align (block ∷ blocks) ≡ found block.start
unfolding memory_find_space try_block
memory_find_space_overrun fuel tables size align block blocks al av e = ground (
  arith,
  first_addr_any block align al,
  search_block_here fuel tables size align (add64 block.start block.size) block.start e,
)
