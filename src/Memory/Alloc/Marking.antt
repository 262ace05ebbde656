-- ===== src/Memory/Alloc/Marking.antt =====
-- `MemoryAllocated` fills one free entry, and leaves the others as they are.
use hypnoticos.Base.{
  ℕ, ◌+◌, ◌≡◌, refl, ◌≢◌, Bool, List, [], ◌∷◌, arith, length, ◌∙◌, sym, subst, ℕ_discrete,
}
use hypnoticos.Memory.{TableEntry, TableIndex}
use hypnoticos.Memory.Alloc.{Mark, filled, grow, full, map_mark, mark_entries, is_last, mark_tables}
use hypnoticos.Memory.Alloc.Extends.{flat, Fills, here, there, Fills-append, Fills-behind}

filled_injective : {A : Type 0} {a b : A} → filled a ≡ filled b → a ≡ b
filled_injective e = cc

map_mark_filled :
    {A B : Type 0} (f : A → B) (m : Mark A) {b : B}
    → map_mark f m ≡ filled b
    → (a : A) × (m ≡ filled a) × (f a ≡ b)
map_mark_filled f (filled a) e = (a, refl, filled_injective e)
map_mark_filled f grow e = cc
map_mark_filled f full e = cc

-- The three ways that the loop goes on from an entry.
mark_entries_free :
    (last pending : Bool) (count i : ℕ) (new mt : TableEntry) (mts : List TableEntry)
    → mt.status ≢ 1
    → mark_entries last pending count i new (mt ∷ mts) ≡ filled (new ∷ mts)
unfolding mark_entries
mark_entries_free last pending count i new mt mts f = ground arith

mark_entries_used :
    (last pending : Bool) (count i : ℕ) (new mt : TableEntry) (mts ys : List TableEntry)
    → mt.status ≡ 1
    → mark_entries last pending count i new (mt ∷ mts) ≡ filled ys
    → map_mark (λ r. mt ∷ r) (mark_entries last pending count (i + 1) new mts) ≡ filled ys
unfolding mark_entries
mark_entries_used last pending count i new mt mts ys u e = ground arith

mark_entries_none :
    (last pending : Bool) (count i : ℕ) (new : TableEntry) {ys : List TableEntry}
    → mark_entries last pending count i new [] ≡ filled ys
    → ⊥
unfolding mark_entries
mark_entries_none last pending count i new e = cc

mark_entries-Fills :
    (last pending : Bool) (count i : ℕ) (new : TableEntry) (mts : List TableEntry)
    (ys : List TableEntry)
    → mark_entries last pending count i new mts ≡ filled ys
    → Fills new mts ys
mark_entries-Fills last pending count i new [] ys e =
    absurd (mark_entries_none last pending count i new e)
mark_entries-Fills last pending count i new (mt ∷ mts) ys e = elim (ℕ_discrete mt.status 1) [
  | yes u ↦
      let (r, m, q) =
        map_mark_filled _ _ (mark_entries_used last pending count i new mt mts ys u e) in
      subst (Fills new (mt ∷ mts)) q
        (there (mark_entries-Fills last pending count (i + 1) new mts r m))
  | no f ↦
      subst (Fills new (mt ∷ mts))
        (filled_injective (sym (mark_entries_free last pending count i new mt mts f) ∙ e)) (here f)
]

-- Where `MemoryAllocated` marks an allocation, one free entry is filled and the others are the same.
pub mark_tables-Fills :
    (pending : Bool) (new : TableEntry) (ts ts' : List TableIndex)
    → mark_tables pending new ts ≡ filled ts'
    → Fills new (flat ts) (flat ts')
unfolding mark_tables flat
mark_tables-Fills pending new [] ts' e = cc
mark_tables-Fills pending new (t ∷ ts) ts' e =
    split (mark_tables-Fills pending new ts)
      (mark_entries (is_last ts) pending (length t.entries) 0 new t.entries) refl e
  where
    split :
        ((r : List TableIndex)
          → mark_tables pending new ts ≡ filled r
          → Fills new (flat ts) (flat r))
        → (m : Mark (List TableEntry))
        → mark_entries (is_last ts) pending (length t.entries) 0 new t.entries ≡ m
        → (elim m [
          | filled es ↦ filled (record t { entries = es } ∷ ts)
          | grow ↦ grow
          | full ↦ map_mark (λ r. t ∷ r) (mark_tables pending new ts)
        ])
          ≡ filled ts'
        → Fills new (flat (t ∷ ts)) (flat ts')
    split later (filled es) m e =
        subst (λ u. Fills new (flat (t ∷ ts)) (flat u)) (filled_injective e)
          (Fills-append (flat ts) (mark_entries-Fills _ _ _ _ new t.entries es m))
    split later grow m e = cc
    split later full m e =
        let (r, m, q) = map_mark_filled _ _ e in
        subst (λ u. Fills new (flat (t ∷ ts)) (flat u)) q (Fills-behind t.entries (later r m))
