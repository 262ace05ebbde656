-- ===== src/Memory/Release/Found.antt =====
-- `free` of libc/stdlib/free.c changes the entry that `MemoryFind` of src/memory/find.c returns.
use mathlib.Core.Option
use hypnoticos.Base.{
  ℕ, ◌≡◌, refl, ◌⊎◌, inl, inr, Option, none, some, List, [], ◌∷◌, ◌++◌, arith, ◌==◌, Bool-cases,
}
use hypnoticos.Memory.{TableEntry, TableIndex, Memory}
use hypnoticos.Memory.Find.{find_entry, memory_find}
use hypnoticos.Memory.Alloc.{ok, halt}
use hypnoticos.Memory.Alloc.Extends.{flat}
use hypnoticos.Memory.Release.{cleared, release, release_tables, free}

-- `ys` is `xs` with the entry `mt` cleared.
pub data Clears (mt : TableEntry) : List TableEntry → List TableEntry → Type 0 where
  this : {xs : List TableEntry} → Clears mt (mt ∷ xs) (cleared mt ∷ xs)
  later : {x : TableEntry} {xs ys : List TableEntry} → Clears mt xs ys → Clears mt (x ∷ xs) (x ∷ ys)

-- What the search finds in one table is what `release` clears.
abbrev Agree : Option TableEntry → Option (List TableEntry) → List TableEntry → Type 0
Agree none none xs = Unit {0}
Agree none (some ys) xs = ⊥
Agree (some mt) none xs = ⊥
Agree (some mt) (some ys) xs = Clears mt xs ys

Agree-later :
    (x : TableEntry) (xs : List TableEntry) (f : Option TableEntry) (r : Option (List TableEntry))
    → Agree f r xs
    → Agree f (Option.map (λ ys. x ∷ ys) r) (x ∷ xs)
Agree-later x xs none none a = tt
Agree-later x xs none (some ys) a = absurd a
Agree-later x xs (some mt) none a = absurd a
Agree-later x xs (some mt) (some ys) a = later a

release-Agree : (addr : ℕ) (xs : List TableEntry) → Agree (find_entry addr xs) (release addr xs) xs
unfolding find_entry release
release-Agree addr [] = tt
release-Agree addr (x ∷ xs) = elim (Bool-cases (x.status == 1)) [
  | inl used ↦ elim (Bool-cases (x.addr == addr)) [
    | inl here ↦ rw (used, here) this
    | inr there ↦
        rw (used, there)
          (Agree-later x xs (find_entry addr xs) (release addr xs) (release-Agree addr xs))
  ]
  | inr unused ↦
      rw unused (Agree-later x xs (find_entry addr xs) (release addr xs) (release-Agree addr xs))
]

Clears-append :
    {mt : TableEntry} {xs ys : List TableEntry} (zs : List TableEntry)
    → Clears mt xs ys
    → Clears mt (xs ++ zs) (ys ++ zs)
Clears-append zs this = this
Clears-append zs (later c) = later (Clears-append zs c)

Clears-behind :
    {mt : TableEntry} (zs : List TableEntry) {xs ys : List TableEntry}
    → Clears mt xs ys
    → Clears mt (zs ++ xs) (zs ++ ys)
Clears-behind [] c = c
Clears-behind (z ∷ zs) c = later (Clears-behind zs c)

-- The same over all tables.
abbrev AgreeAll : Option TableEntry → Option (List TableIndex) → List TableIndex → Type 0
AgreeAll none none ts = Unit {0}
AgreeAll none (some us) ts = ⊥
AgreeAll (some mt) none ts = ⊥
AgreeAll (some mt) (some us) ts = Clears mt (flat ts) (flat us)

-- One table with what its own search gives, before the others.
AgreeAll-table :
    (t : TableIndex) (ts : List TableIndex) (f g : Option TableEntry) (r : Option (List TableEntry))
    (q : Option (List TableIndex))
    → Agree f r t.entries
    → AgreeAll g q ts
    → AgreeAll
        (elim f [ some mt ↦ some mt | none ↦ g ])
        (elim r [
          | some es ↦ some (record t { entries = es } ∷ ts)
          | none ↦ Option.map (λ r. t ∷ r) q
        ])
        (t ∷ ts)
unfolding flat
AgreeAll-table t ts none g (some es) q a b = absurd a
AgreeAll-table t ts (some mt) g none q a b = absurd a
AgreeAll-table t ts (some mt) g (some es) q a b = Clears-append (flat ts) a
AgreeAll-table t ts none none none none a b = tt
AgreeAll-table t ts none none none (some us) a b = absurd b
AgreeAll-table t ts none (some mt) none none a b = absurd b
AgreeAll-table t ts none (some mt) none (some us) a b = Clears-behind t.entries b

release_tables-AgreeAll :
    (addr : ℕ) (ts : List TableIndex) → AgreeAll (memory_find addr ts) (release_tables addr ts) ts
unfolding memory_find release_tables
release_tables-AgreeAll addr [] = tt
release_tables-AgreeAll addr (t ∷ ts) =
    AgreeAll-table t ts (find_entry addr t.entries) (memory_find addr ts) (release addr t.entries)
      (release_tables addr ts) (release-Agree addr t.entries) (release_tables-AgreeAll addr ts)

free-AgreeAll :
    (m : Memory) (f : Option TableEntry) (r : Option (List TableIndex))
    → AgreeAll f r m.tables
    → ((f ≡ none) × (r ≡ none))
      ⊎ ((mt : TableEntry) × (us : List TableIndex) × (f ≡ some mt)
          × (r ≡ some us)
          × Clears mt (flat m.tables) (flat us))
free-AgreeAll m none none a = inl (refl, refl)
free-AgreeAll m none (some us) a = absurd a
free-AgreeAll m (some mt) none a = absurd a
free-AgreeAll m (some mt) (some us) a = inr (mt, us, refl, refl, a)

-- Where `MemoryFind` returns NULL, `free` stops the machine. Where it returns an entry, `free`
-- returns, and has cleared this entry's status and label and changed nothing else in the tables.
pub free-memory_find :
    (addr : ℕ) (m : Memory)
    → ((memory_find addr m.tables ≡ none) × (free addr m ≡ halt))
      ⊎ ((mt : TableEntry) × (us : List TableIndex) × (memory_find addr m.tables ≡ some mt)
          × (free addr m ≡ ok tt (record m { tables = us }))
          × Clears mt (flat m.tables) (flat us))
unfolding free
free-memory_find addr m =
    elim (free-AgreeAll m (memory_find addr m.tables) (release_tables addr m.tables)
      (release_tables-AgreeAll addr m.tables)) [
        | inl (f, r) ↦ inl (f, ground (arith, r))
        | inr (mt, us, f, r, c) ↦ inr (mt, us, f, ground (arith, r), c)
      ]
