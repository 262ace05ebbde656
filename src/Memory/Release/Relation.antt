-- ===== src/Memory/Release/Relation.antt =====
-- What `free` does to the tables, as a relation.
use mathlib.Core.Option
use hypnoticos.Base.{
  ℕ, ◌≡◌, refl, ◌≢◌, Option, none, some, List, [], ◌∷◌, ◌++◌, arith, All-append, sym, ◌∙◌, subst,
  ℕ_discrete,
}
use hypnoticos.Memory.{TableEntry, TableIndex}
use hypnoticos.Memory.Alloc.Extends.{flat}
use hypnoticos.Memory.Release.{cleared, release, release_tables, Unused}

-- `ys` is `xs` with the first allocation in use at `addr` cleared.
pub data Releases (addr : ℕ) : List TableEntry → List TableEntry → Type 0 where
  hit :
      {x : TableEntry} {xs : List TableEntry}
      → x.status ≡ 1
      → x.addr ≡ addr
      → Releases addr (x ∷ xs) (cleared x ∷ xs)
  skip :
      {x : TableEntry} {xs ys : List TableEntry}
      → (x.status ≡ 1 → x.addr ≢ addr)
      → Releases addr xs ys
      → Releases addr (x ∷ xs) (x ∷ ys)

module _ {addr : ℕ} where
  Releases-append :
      {xs ys : List TableEntry} (zs : List TableEntry)
      → Releases addr xs ys
      → Releases addr (xs ++ zs) (ys ++ zs)
  Releases-append zs (hit u a) = hit u a
  Releases-append zs (skip f p) = skip f (Releases-append zs p)

  Releases-behind :
      (zs : List TableEntry) {xs ys : List TableEntry}
      → Unused addr zs
      → Releases addr xs ys
      → Releases addr (zs ++ xs) (zs ++ ys)
  Releases-behind [] u p = p
  Releases-behind (z ∷ zs) u p = skip u.0 (Releases-behind zs u.1 p)

release-Unused : (addr : ℕ) (es : List TableEntry) → release addr es ≡ none → Unused addr es
unfolding release
release-Unused addr [] e = tt
release-Unused addr (mt ∷ mts) e = (ground arith, release-Unused addr mts (ground arith))

release_miss :
    (addr : ℕ) (mt : TableEntry) (mts : List TableEntry)
    → (mt.status ≡ 1 → mt.addr ≢ addr)
    → release addr (mt ∷ mts) ≡ Option.map (λ r. mt ∷ r) (release addr mts)
unfolding release
release_miss addr mt mts f = ground arith

release_hit :
    (addr : ℕ) (mt : TableEntry) (mts : List TableEntry)
    → mt.status ≡ 1
    → mt.addr ≡ addr
    → release addr (mt ∷ mts) ≡ some (cleared mt ∷ mts)
unfolding release
release_hit addr mt mts u a = ground arith

pub some_injective : {A : Type 0} {a b : A} → some a ≡ some b → a ≡ b
some_injective e = cc

release-Releases :
    (addr : ℕ) (es ys : List TableEntry) → release addr es ≡ some ys → Releases addr es ys
release-Releases addr [] ys e = absurd (unfold release in cc)
release-Releases addr (mt ∷ mts) ys e = elim (ℕ_discrete mt.status 1) [
  | yes u ↦ elim (ℕ_discrete mt.addr addr) [
    | yes a ↦
        subst (Releases addr (mt ∷ mts)) (some_injective (sym (release_hit addr mt mts u a) ∙ e))
          (hit u a)
    | no a ↦ missed (release-Releases addr mts) (λ _. a)
  ]
  | no u ↦ missed (release-Releases addr mts) (λ v. absurd (u v))
]
  where
    missed :
        ((r : List TableEntry) → release addr mts ≡ some r → Releases addr mts r)
        → (mt.status ≡ 1 → mt.addr ≢ addr)
        → Releases addr (mt ∷ mts) ys
    missed later f =
        let (r, p, q) =
          (Option.map-eq-some_iff (λ r. mt ∷ r) (release addr mts)).0
            (sym (release_miss addr mt mts f) ∙ e) in
        subst (Releases addr (mt ∷ mts)) q (skip f (later r p))

pub tables-Releases :
    (addr : ℕ) (ts us : List TableIndex)
    → release_tables addr ts ≡ some us
    → Releases addr (flat ts) (flat us)
unfolding flat
tables-Releases addr [] us e = absurd (unfold release_tables in cc)
tables-Releases addr (t ∷ ts) us e =
    split (tables-Releases addr ts) (release addr t.entries) refl (unfold release_tables in e)
  where
    split :
        ((r : List TableIndex) → release_tables addr ts ≡ some r → Releases addr (flat ts) (flat r))
        → (o : Option (List TableEntry)) → release addr t.entries ≡ o
        → (elim o [
          | some es ↦ some (record t { entries = es } ∷ ts)
          | none ↦ Option.map (λ r. t ∷ r) (release_tables addr ts)
        ])
          ≡ some us
        → Releases addr (flat (t ∷ ts)) (flat us)
    split later (some es) o e =
        subst (λ u. Releases addr (flat (t ∷ ts)) (flat u)) (some_injective e)
          (Releases-append (flat ts) (release-Releases addr t.entries es o))
    split later none o e =
        let (r, p, q) = (Option.map-eq-some_iff (λ r. t ∷ r) (release_tables addr ts)).0 e in
        subst (λ u. Releases addr (flat (t ∷ ts)) (flat u)) q
          (Releases-behind t.entries (release-Unused addr t.entries o) (later r p))

pub tables-Unused :
    (addr : ℕ) (ts : List TableIndex) → release_tables addr ts ≡ none → Unused addr (flat ts)
unfolding flat release_tables
tables-Unused addr [] e = tt
tables-Unused addr (t ∷ ts) e =
    All-append _ t.entries (flat ts) (release-Unused addr t.entries (ground arith))
      (tables-Unused addr ts (ground arith))
