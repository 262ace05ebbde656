-- ===== src/Memory/Release.antt =====
-- The kernel's `free` of libc/stdlib/free.c.
pub mod Found
pub mod Relation
pub mod Undo
use mathlib.Core.Option
use hypnoticos.Base.{
  ℕ, ◌+◌, ◌≤◌, ◌<◌, ◌≡◌, refl, ◌≢◌, ◌↔◌, inl, inr, Bool, true, false, Option, none, some, List, [],
  ◌∷◌, ◌++◌, arith, ◌==◌, if◌then◌else◌, word, All, All-append, sym, ap, ◌∙◌, subst, ℕ_discrete,
  Option-cases,
}
use hypnoticos.Memory.{TableEntry, TableIndex, Memory}
use hypnoticos.Memory.Find.{found, memory_find_space}
use hypnoticos.Memory.Find.Free.{Fits, Apart, memory_is_free-Apart}
use hypnoticos.Memory.Find.Space.{memory_find_space_found}
use hypnoticos.Memory.Alloc.{Label, Run, ok, halt, Mark, filled, new_entry, mark_tables}
use hypnoticos.Memory.Alloc.Extends.{
  flat, Fills, here, there, Separate, AllSeparate, All-flat, flat-All,
}
use hypnoticos.Memory.Alloc.Marking.{mark_tables-Fills}
use hypnoticos.Memory.Alloc.Inv.{IsValid, request_bound, Inside-room, Roomy-BlockFits}

-- What `free` writes to the entry: the status, and the label with `memset`.
abbrev pub cleared : TableEntry → TableEntry
cleared mt = record mt { status = 0; function = []; line = 0 }

-- `MemoryFind` over one table, and the writes to the entry that it returns a pointer to.
unfoldable pub release : ℕ → List TableEntry → Option (List TableEntry)
release addr [] = none
release addr (mt ∷ mts) =
    let rest = Option.map (λ r. mt ∷ r) (release addr mts) in
    if mt.status == 1 then (if mt.addr == addr then some (cleared mt ∷ mts) else rest) else rest

-- The same over all tables.
unfoldable pub release_tables : ℕ → List TableIndex → Option (List TableIndex)
release_tables addr [] = none
release_tables addr (t ∷ ts) = elim (release addr t.entries) [
  | some es ↦ some (record t { entries = es } ∷ ts)
  | none ↦ Option.map (λ r. t ∷ r) (release_tables addr ts)
]

-- free: an address that is not that of an allocation stops the machine.
unfoldable pub free : ℕ → Memory → Run (Unit {0})
free addr m = elim (release_tables addr m.tables) [
  | none ↦ halt
  | some ts ↦ ok tt (record m { tables = ts })
]

-- The allocations in use, in the order of the tables.
unfoldable pub live : List TableEntry → List TableEntry
live [] = []
live (mt ∷ mts) = if mt.status == 1 then mt ∷ live mts else live mts

-- No allocation in use begins at the address.
abbrev pub Unused : ℕ → List TableEntry → Type 0
Unused addr es = All (λ e. e.status ≡ 1 → e.addr ≢ addr) es
