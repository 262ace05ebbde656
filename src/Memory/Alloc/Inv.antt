-- ===== src/Memory/Alloc/Inv.antt =====
-- What the kernel's allocator keeps: the allocations in use share no byte.
use hypnoticos.Base.{
  ℕ, ◌+◌, ◌^◌, ◌≤◌, ◌<◌, ◌≡◌, refl, inl, inr, Bool, true, false, Option, some, List, [], ◌∷◌, arith,
  word, All, Any, if◌then◌else◌, ◌==◌, subst, Bool-cases,
}
use hypnoticos.Memory.{MemoryBlock, TableEntry, TableIndex, Memory}
use hypnoticos.Memory.Find.{Search, found, exhausted, spinning, memory_find_space}
use hypnoticos.Memory.Find.Free.{Fits, Apart, memory_is_free-Apart}
use hypnoticos.Memory.Find.Space.{
  BlockFits, Inside, memory_find_space_found, memory_find_space-ne-spinning,
}
use hypnoticos.Memory.Alloc.{
  Label, Run, ok, halt, fault, spin, and_then, Mark, filled, grow, full, new_entry, mark_tables,
  settle, allocated, place, conclude, Attempt, no_space, placed, again, attempt, first_size,
  malloc_round, malloc_with,
}
use hypnoticos.Memory.Alloc.Extends.{
  flat, Extends, Separate, AllSeparate, Extends-refl, Extends-trans, Fills-Extends, Fills-All,
  Fills-AllSeparate, Fills-Any, All-flat, flat-All,
}
use hypnoticos.Memory.Alloc.Marking.{mark_tables-Fills}

-- The bound on a request: 4 GB.
abbrev pub request_bound : ℕ
request_bound = 2 ^ 32

-- A request that begins in the block, or at its end, does not reach the end of the address space.
abbrev pub Roomy : MemoryBlock → Type 0
Roomy b = b.start + b.size + request_bound < word

-- No entry, in use or not, reaches the end of the address space, no two allocations in use share a
-- byte, and behind each memory block there are more than 4 GB of addresses.
pub record IsValid (m : Memory) : Type 0 where
  pub fits : All Fits (flat m.tables)
  pub separate : AllSeparate (flat m.tables)
  pub roomy : All Roomy m.blocks

-- The state `m'` is valid, and every allocation in use in `m` is there, unchanged.
pub record After (m m' : Memory) : Type 0 where
  pub valid : IsValid m'
  pub extends : Extends (flat m.tables) (flat m'.tables)

pub After-refl : (m : Memory) → IsValid m → After m m
After-refl m v = record { valid = v; extends = Extends-refl (flat m.tables) }

pub After-trans : {l m n : Memory} → After l m → After m n → After l n
After-trans a b = record { valid = b.valid; extends = Extends-trans a.extends b.extends }

-- `new_table_pending` plays no part.
IsValid-pending : (m : Memory) (b : Bool) → IsValid m → IsValid (record m { new_table_pending = b })
IsValid-pending m b v = record { fits = v.fits; separate = v.separate; roomy = v.roomy }

After-pending :
    (m m' : Memory) (b b' : Bool)
    → After (record m { new_table_pending = b }) m'
    → After m (record m' { new_table_pending = b' })
After-pending m m' b b' a = record { valid = IsValid-pending m' b' a.valid; extends = a.extends }

-- An allocation in use of `size` bytes at `addr` stands in the tables.
abbrev pub Holds : ℕ → ℕ → Label → Memory → Type 0
Holds addr size label m =
    Any
      (λ e. e ≡ record {
        addr = addr;
        size = size;
        status = 1;
        function = label.function;
        line = label.line;
      })
      (flat m.tables)

pub Roomy-BlockFits : (bs : List MemoryBlock) → All Roomy bs → All BlockFits bs
Roomy-BlockFits [] r = tt
Roomy-BlockFits (b ∷ bs) r = (omega arith, Roomy-BlockFits bs r.1)

-- A block has fewer bytes than the address space, so as much fuel is enough.
Roomy-fuel :
    (fuel : ℕ)
    → word ≤ fuel
    → (bs : List MemoryBlock) → All Roomy bs
    → All (λ (b : MemoryBlock). b.size < fuel) bs
Roomy-fuel fuel enough [] r = tt
Roomy-fuel fuel enough (b ∷ bs) r = (omega arith, Roomy-fuel fuel enough bs r.1)

pub Inside-room :
    (a size : ℕ) (bs : List MemoryBlock)
    → size < request_bound
    → All Roomy bs
    → Any (Inside a) bs
    → a + size < word
Inside-room a size [] s r i = absurd i
Inside-room a size (b ∷ bs) s r (inl i) = ground arith
Inside-room a size (b ∷ bs) s r (inr i) = Inside-room a size bs s r.1 i

Apart-Separate :
    (a size : ℕ) (label : Label) (es : List TableEntry)
    → All (Apart a size) es
    → All (Separate (new_entry a size label)) es
Apart-Separate a size label [] h = tt
Apart-Separate a size label (e ∷ es) h =
    (λ _ u. ground (arith, h.0 u), Apart-Separate a size label es h.1)

-- Marking the address that the search found.
mark-After :
    (fuel size align : ℕ) (label : Label) (m : Memory) (a : ℕ) (ts : List TableIndex)
    (pending : Bool)
    → IsValid m
    → size < request_bound
    → memory_find_space fuel m.tables size align m.blocks ≡ found a
    → mark_tables pending (new_entry a size label) m.tables ≡ filled ts
    → After m (record m { tables = ts }) × Holds a size label (record m { tables = ts })
mark-After fuel size align label m a ts pending v s f e =
    let f' =
      memory_find_space_found m.tables size align fuel m.blocks a (Roomy-BlockFits m.blocks v.roomy)
        f in
    let room : a + size < word = Inside-room a size m.blocks s v.roomy f'.2 in
    let p = mark_tables-Fills pending (new_entry a size label) m.tables ts e in
    let apart =
      All-flat (Apart a size) m.tables
        (memory_is_free-Apart a size room m.tables (flat-All Fits m.tables v.fits) f'.0) in
    (
      record {
        valid = record {
          fits = Fills-All Fits p room v.fits;
          separate =
              Fills-AllSeparate p (Apart-Separate a size label (flat m.tables) apart) v.separate;
          roomy = v.roomy;
        };
        extends = Fills-Extends p;
      },
      Fills-Any p,
    )

-- The run does not spin, and if it returns, its result satisfies `P`.
abbrev pub Ensures : {A : Type 0} → (A → Memory → Type 0) → Run A → Type 0
Ensures P (ok a m) = P a m
Ensures P halt = Unit {0}
Ensures P fault = Unit {0}
Ensures P spin = ⊥

pub Ensures-bind :
    {A B : Type 0} (P : A → Memory → Type 0) (Q : B → Memory → Type 0) (r : Run A)
    (k : A → Memory → Run B)
    → Ensures P r
    → ((a : A) (m : Memory) → P a m → Ensures Q (k a m))
    → Ensures Q (and_then r k)
Ensures-bind P Q (ok a m) k p f = f a m p
Ensures-bind P Q halt k p f = tt
Ensures-bind P Q fault k p f = tt
Ensures-bind P Q spin k p f = absurd p

pub Ensures-mono :
    {A : Type 0} (P Q : A → Memory → Type 0) (r : Run A)
    → Ensures P r
    → ((a : A) (m : Memory) → P a m → Q a m)
    → Ensures Q r
Ensures-mono P Q (ok a m) p f = f a m p
Ensures-mono P Q halt p f = tt
Ensures-mono P Q fault p f = tt
Ensures-mono P Q spin p f = absurd p

-- What is assumed of `MemoryNewTable` where it is an argument.
abbrev pub Sound : (Memory → Run (Unit {0})) → Type 0
Sound new_table = (m : Memory) → IsValid m → Ensures (λ _ m'. After m m') (new_table m)

abbrev Marked : Memory → ℕ → ℕ → Label → Bool → Memory → Type 0
Marked m a size label done m' = After m m' × (done ≡ true → Holds a size label m')

abbrev Placed : Memory → ℕ → Label → Attempt → Memory → Type 0
Placed m size label r m' = After m m' × ((a : ℕ) → r ≡ placed a → Holds a size label m')

abbrev pub Returned : Memory → ℕ → Label → Option ℕ → Memory → Type 0
Returned m size label r m' = After m m' × ((a : ℕ) → r ≡ some a → Holds a size label m')

placed_injective : {a b : ℕ} → placed a ≡ placed b → a ≡ b
placed_injective e = cc

some_injective : {a b : ℕ} → some a ≡ some b → a ≡ b
some_injective e = cc

module _ (new_table : Memory → Run (Unit {0})) (sound : Sound new_table) (fuel size align : ℕ)
    (label : Label) (small : size < request_bound) (enough : word ≤ fuel) where
  settle-Marked :
      (m : Memory) (a : ℕ) (k : Mark (List TableIndex))
      → IsValid m
      → memory_find_space fuel m.tables size align m.blocks ≡ found a
      → mark_tables m.new_table_pending (new_entry a size label) m.tables ≡ k
      → Ensures (Marked m a size label) (settle new_table m k)
  unfolding settle
  settle-Marked m a (filled ts) v f e =
      let r = mark-After fuel size align label m a ts m.new_table_pending v small f e in
      (r.0, λ _. r.1)
  settle-Marked m a grow v f e =
      Ensures-bind (λ _ m'. After (record m { new_table_pending = true }) m')
        (Marked m a size label) (new_table (record m { new_table_pending = true })) _
        (sound (record m { new_table_pending = true }) (IsValid-pending m true v))
        (λ _ m' r. (After-pending m m' true false r, λ q. cc))
  settle-Marked m a full v f e = tt

  marked_at :
      (done : Bool) (m' : Memory) (a b : ℕ)
      → (done ≡ true → Holds a size label m')
      → (if done then placed a else again) ≡ placed b
      → Holds b size label m'
  marked_at true m' a b h q = subst (λ c. Holds c size label m') (placed_injective q) (h refl)
  marked_at false m' a b h q = cc

  place-Placed :
      (m : Memory) (s : Search)
      → IsValid m
      → memory_find_space fuel m.tables size align m.blocks ≡ s
      → Ensures (Placed m size label) (place new_table size label m s)
  unfolding place allocated
  place-Placed m (found a) v e = elim (Bool-cases (a == 0)) [
    | inl null ↦ rw null (After-refl m v, λ a q. cc)
    | inr some_addr ↦ rw some_addr (
        Ensures-bind (Marked m a size label) (Placed m size label) _ _
          (settle-Marked m a _ v e refl) (λ done m' r. (r.0, λ b q. marked_at done m' a b r.1 q)))
  ]
  place-Placed m exhausted v e = (After-refl m v, λ a q. cc)
  place-Placed m spinning v e = absurd (
      memory_find_space-ne-spinning m.tables size align fuel m.blocks
        (Roomy-BlockFits m.blocks v.roomy) (Roomy-fuel fuel enough m.blocks v.roomy) e)

  attempt-Placed :
      (m : Memory)
      → IsValid m
      → Ensures (Placed m size label) (attempt new_table fuel size align label m)
  unfolding attempt
  attempt-Placed m v = place-Placed m _ v refl

  conclude-Returned :
      (m : Memory) (restart : Memory → Run (Option ℕ))
      → ((m' : Memory) → After m m' → Ensures (Returned m size label) (restart m'))
      → (r : Attempt) (m' : Memory) → Placed m size label r m'
      → Ensures (Returned m size label) (conclude restart r m')
  unfolding conclude
  conclude-Returned m restart f no_space m' p = (p.0, λ a q. cc)
  conclude-Returned m restart f (placed b) m' p =
      (p.0, λ a q. subst (λ c. Holds c size label m') (some_injective q) (p.1 b refl))
  conclude-Returned m restart f again m' p = f m' p.0

  malloc_round-Returned :
      (m : Memory) (restart : Memory → Run (Option ℕ))
      → IsValid m
      → ((m' : Memory) → After m m' → Ensures (Returned m size label) (restart m'))
      → Ensures (Returned m size label) (malloc_round new_table fuel size align label restart m)
  unfolding malloc_round
  malloc_round-Returned m restart v f = elim (Bool-cases (first_size m.tables == 0)) [
    | inl no_tables ↦ rw no_tables tt
    | inr tables ↦ rw tables (
        Ensures-bind (Placed m size label) (Returned m size label) _ _ (attempt-Placed m v)
          (conclude-Returned m restart f))
  ]

  pub malloc_with-Returned :
      (m : Memory)
      → IsValid m
      → Ensures (Returned m size label) (malloc_with new_table fuel size align label m)
  unfolding malloc_with
  malloc_with-Returned m v = malloc_round-Returned m _ v (λ m' a.
      Ensures-mono (Returned m' size label) (Returned m size label) _
        (malloc_round-Returned m' (λ _. halt) a.valid (λ _ _. tt))
        (λ r n p. (After-trans a p.0, p.1)))
