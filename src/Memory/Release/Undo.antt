-- ===== src/Memory/Release/Undo.antt =====
-- `free`: when it stops the machine, what it keeps, and that it undoes `__malloc_align`.
use hypnoticos.Base.{
  ℕ, ◌+◌, ◌<◌, ◌≡◌, refl, ◌≢◌, ◌↔◌, inl, inr, some, List, [], ◌∷◌, arith, word, All, Option-cases,
}
use hypnoticos.Memory.{TableEntry, TableIndex, Memory}
use hypnoticos.Memory.Find.{found, memory_find_space}
use hypnoticos.Memory.Find.Free.{Fits, Apart, memory_is_free-Apart}
use hypnoticos.Memory.Find.Space.{memory_find_space_found}
use hypnoticos.Memory.Alloc.{
  Label, ok, halt, filled, new_entry, mark_tables, first_size, malloc_align,
}
use hypnoticos.Memory.Alloc.Main.{malloc_align_branches}
use hypnoticos.Memory.Alloc.Extends.{flat, Fills, here, there, All-flat, flat-All}
use hypnoticos.Memory.Alloc.Marking.{mark_tables-Fills}
use hypnoticos.Memory.Alloc.Inv.{IsValid, request_bound, Inside-room, Roomy-BlockFits}
use hypnoticos.Memory.Release.{release_tables, free, live, Unused}
use hypnoticos.Memory.Release.Relation.{Releases, hit, skip, tables-Releases, tables-Unused}

-- Clearing the entry that was filled leaves the allocations that there were.
live-Releases :
    {new : TableEntry} {xs ys zs : List TableEntry}
    → Fills new xs ys
    → new.status ≡ 1
    → Unused new.addr xs
    → Releases new.addr ys zs
    → live zs ≡ live xs
unfolding live
live-Releases (here f) n u (hit s a) = ground arith
live-Releases (here f) n u (skip g p) = absurd (g n refl)
live-Releases (there p) n u (hit s a) = absurd (u.0 s a)
live-Releases (there p) n u (skip g q) = ground (arith, live-Releases p n u.1 q)

module _ {addr : ℕ} where
  not-Unused : {xs ys : List TableEntry} → Releases addr xs ys → Unused addr xs → ⊥
  not-Unused (hit s a) u = u.0 s a
  not-Unused (skip f p) u = not-Unused p u.1

Fills-not-Unused :
    {new : TableEntry} {xs ys : List TableEntry}
    → Fills new xs ys
    → new.status ≡ 1
    → Unused new.addr ys
    → ⊥
Fills-not-Unused (here f) n u = u.0 n refl
Fills-not-Unused (there p) n u = Fills-not-Unused p n u.1

free_ok :
    (addr : ℕ) (m : Memory) (us : List TableIndex)
    → release_tables addr m.tables ≡ some us
    → free addr m ≡ ok tt (record m { tables = us })
unfolding free
free_ok addr m us e = ground (arith, e)

-- `free` stops the machine exactly when no allocation in use begins at the address.
pub free_halts : (addr : ℕ) (m : Memory) → (free addr m ≡ halt) ↔ Unused addr (flat m.tables)
unfolding free
free_halts addr m = elim (Option-cases (release_tables addr m.tables)) [
  | inl e ↦ (λ h. tables-Unused addr m.tables e, λ u. ground arith)
  | inr (ts, e) ↦
      (λ h. absurd (ground arith), λ u. absurd (not-Unused (tables-Releases addr m.tables ts e) u))
]

-- Every allocation in use has a byte.
abbrev pub AllPositive : List TableEntry → Type 0
AllPositive es = All (λ e. e.status ≡ 1 → 0 < e.size) es

Apart-Unused :
    (a size : ℕ) (es : List TableEntry) → All (Apart a size) es → AllPositive es → Unused a es
Apart-Unused a size [] h p = tt
Apart-Unused a size (e ∷ es) h p =
    (λ u q. ground (arith, h.0 u, p.0 u), Apart-Unused a size es h.1 p.1)

-- For a request below 4 GB, on a memory in which no two allocations in use share a byte, each of them
-- has at least one byte, no entry of a table, in use or not, reaches the end of the address space, more
-- than 4 GB of addresses lie behind each block, and the first table is not empty: where space is found at an address `a` other than 0,
-- and a free entry is filled before a new table is asked for, `__malloc_align` returns `a`, and `free`
-- of `a` then returns and leaves the allocations that were in use before.
pub free-malloc_align :
    (fuel : ℕ) (table_label : Label) (size align : ℕ) (label : Label) (m : Memory) (a : ℕ)
    (ts : List TableIndex)
    → IsValid m
    → AllPositive (flat m.tables)
    → size < request_bound
    → first_size m.tables ≢ 0
    → a ≢ 0
    → memory_find_space fuel m.tables size align m.blocks ≡ found a
    → mark_tables m.new_table_pending (new_entry a size label) m.tables ≡ filled ts
    → (malloc_align fuel table_label size align label m ≡ ok (some a) (record m { tables = ts }))
      × ((us : List TableIndex) × (free a (record m { tables = ts })
            ≡ ok tt (record m { tables = us }))
          × (live (flat us) ≡ live (flat m.tables)))
free-malloc_align fuel table_label size align label m a ts v pos s n z f e =
    let f' =
      memory_find_space_found m.tables size align fuel m.blocks a (Roomy-BlockFits m.blocks v.roomy)
        f in
    let room : a + size < word = Inside-room a size m.blocks s v.roomy f'.2 in
    let p = mark_tables-Fills m.new_table_pending (new_entry a size label) m.tables ts e in
    let unused =
      Apart-Unused a size (flat m.tables)
        (All-flat (Apart a size) m.tables
          (memory_is_free-Apart a size room m.tables (flat-All Fits m.tables v.fits) f'.0))
        pos in
    let returns = (malloc_align_branches fuel table_label size align label m n).2 a ts z f e in
    elim (Option-cases (release_tables a ts)) [
      | inl none_there ↦ absurd (Fills-not-Unused p refl (tables-Unused a ts none_there))
      | inr (us, r) ↦ (
        returns,
        (
          us,
          free_ok a (record m { tables = ts }) us r,
          live-Releases p refl unused (tables-Releases a ts us r),
        ),
      )
    ]
