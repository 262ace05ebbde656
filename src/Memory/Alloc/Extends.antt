-- ===== src/Memory/Alloc/Extends.antt =====
-- How the tables change: entries in use stay, free ones are filled, and new ones come behind.
use hypnoticos.Base.{
  ℕ, ◌+◌, ◌≤◌, ◌≡◌, refl, ◌≢◌, ◌⊎◌, inl, inr, List, [], ◌∷◌, ◌++◌, arith, All, Any, replicate, zero,
  suc, sym, ap, ◌∙◌, append_assoc, append-nil, All-append, All-left, All-right,
}
use hypnoticos.Memory.{TableEntry, TableIndex}
use hypnoticos.Memory.Find.Free.{AllEntries}
use hypnoticos.Memory.Alloc.{empty_entry}

-- The entries of all tables, in the order in which the loops go through them.
unfoldable pub flat : List TableIndex → List TableEntry
flat [] = []
flat (t ∷ ts) = t.entries ++ flat ts

-- `ys` is `xs` with some free entries replaced and others behind.
pub data Extends : List TableEntry → List TableEntry → Type 0 where
  stop : {ys : List TableEntry} → Extends [] ys
  keep : {x : TableEntry} {xs ys : List TableEntry} → Extends xs ys → Extends (x ∷ xs) (x ∷ ys)
  replace :
      {x y : TableEntry} {xs ys : List TableEntry}
      → x.status ≢ 1
      → Extends xs ys
      → Extends (x ∷ xs) (y ∷ ys)

-- `ys` is `xs` with one free entry replaced by `new`.
pub data Fills (new : TableEntry) : List TableEntry → List TableEntry → Type 0 where
  here : {x : TableEntry} {xs : List TableEntry} → x.status ≢ 1 → Fills new (x ∷ xs) (new ∷ xs)
  there : {x : TableEntry} {xs ys : List TableEntry} → Fills new xs ys → Fills new (x ∷ xs) (x ∷ ys)

pub Extends-refl : (xs : List TableEntry) → Extends xs xs
Extends-refl [] = stop
Extends-refl (x ∷ xs) = keep (Extends-refl xs)

-- Both allocations are in use, and they share no byte.
abbrev pub Separate : TableEntry → TableEntry → Type 0
Separate x y = x.status ≡ 1 → y.status ≡ 1 → (x.addr + x.size ≤ y.addr) ⊎ (y.addr + y.size ≤ x.addr)

-- No two allocations in use share a byte.
abbrev pub AllSeparate : List TableEntry → Type 0
AllSeparate [] = Unit {0}
AllSeparate (x ∷ xs) = All (Separate x) xs × AllSeparate xs

module _ {new : TableEntry} where
  pub Fills-Extends : {xs ys : List TableEntry} → Fills new xs ys → Extends xs ys
  Fills-Extends (here {xs} f) = replace f (Extends-refl xs)
  Fills-Extends (there p) = keep (Fills-Extends p)

  pub Fills-append :
      {xs ys : List TableEntry} (zs : List TableEntry)
      → Fills new xs ys
      → Fills new (xs ++ zs) (ys ++ zs)
  Fills-append zs (here f) = here f
  Fills-append zs (there p) = there (Fills-append zs p)

  pub Fills-behind :
      (zs : List TableEntry) {xs ys : List TableEntry}
      → Fills new xs ys
      → Fills new (zs ++ xs) (zs ++ ys)
  Fills-behind [] p = p
  Fills-behind (z ∷ zs) p = there (Fills-behind zs p)

  pub Fills-All :
      (P : TableEntry → Type 0) {xs ys : List TableEntry}
      → Fills new xs ys
      → P new
      → All P xs
      → All P ys
  Fills-All P (here f) n a = (n, a.1)
  Fills-All P (there p) n a = (a.0, Fills-All P p n a.1)

  pub Fills-AllSeparate :
      {xs ys : List TableEntry}
      → Fills new xs ys
      → All (Separate new) xs
      → AllSeparate xs
      → AllSeparate ys
  Fills-AllSeparate (here f) n s = (n.1, s.1)
  Fills-AllSeparate (there {x} p) n s =
      (Fills-All (Separate x) p (λ a b. ground (arith, n.0 b a)) s.0, Fills-AllSeparate p n.1 s.1)

  pub Fills-Any : {xs ys : List TableEntry} → Fills new xs ys → Any (λ e. e ≡ new) ys
  Fills-Any (here f) = inl refl
  Fills-Any (there p) = inr (Fills-Any p)

pub Extends-trans : {xs ys zs : List TableEntry} → Extends xs ys → Extends ys zs → Extends xs zs
Extends-trans stop q = stop
Extends-trans (keep p) (keep q) = keep (Extends-trans p q)
Extends-trans (keep p) (replace f q) = replace f (Extends-trans p q)
Extends-trans (replace f p) (keep q) = replace f (Extends-trans p q)
Extends-trans (replace f p) (replace g q) = replace f (Extends-trans p q)

pub Extends-append : (xs zs : List TableEntry) → Extends xs (xs ++ zs)
Extends-append [] zs = stop
Extends-append (x ∷ xs) zs = keep (Extends-append xs zs)

pub Separate-empty : (x : TableEntry) (n : ℕ) → All (Separate x) (replicate n empty_entry)
Separate-empty x zero = tt
Separate-empty x (suc n) = (λ a b. absurd (omega arith), Separate-empty x n)

pub AllSeparate-empty : (n : ℕ) → AllSeparate (replicate n empty_entry)
AllSeparate-empty zero = tt
AllSeparate-empty (suc n) = (Separate-empty empty_entry n, AllSeparate-empty n)

pub AllSeparate-append :
    (xs zs : List TableEntry)
    → ((x : TableEntry) → All (Separate x) zs)
    → AllSeparate zs
    → AllSeparate xs
    → AllSeparate (xs ++ zs)
AllSeparate-append [] zs f z a = z
AllSeparate-append (x ∷ xs) zs f z a =
    (All-append (Separate x) xs zs a.0 (f x), AllSeparate-append xs zs f z a.1)

pub flat-append :
    (ts : List TableIndex) (t : TableIndex) → flat (ts ++ t ∷ []) ≡ flat ts ++ t.entries
unfolding flat
flat-append [] t = append-nil t.entries
flat-append (u ∷ ts) t =
    ap (λ r. u.entries ++ r) (flat-append ts t) ∙ sym (append_assoc u.entries (flat ts) t.entries)

module _ (P : TableEntry → Type 0) where
  pub All-flat : (ts : List TableIndex) → AllEntries P ts → All P (flat ts)
  unfolding flat
  All-flat [] a = tt
  All-flat (t ∷ ts) a = All-append P t.entries (flat ts) a.0 (All-flat ts a.1)

  pub flat-All : (ts : List TableIndex) → All P (flat ts) → AllEntries P ts
  unfolding flat
  flat-All [] a = tt
  flat-All (t ∷ ts) a =
      (All-left P t.entries (flat ts) a, flat-All ts (All-right P t.entries (flat ts) a))
