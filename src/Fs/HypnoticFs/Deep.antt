-- ===== src/Fs/HypnoticFs/Deep.antt =====
-- A new entry below another directory than the root.
use hypnoticos.Base.{ℕ, ◌≡◌, Option-cases, inl, inr, List, ◌∷◌, arith}
use hypnoticos.Storage.{Disk}
use hypnoticos.Fs.HypnoticFs.IndexSpace.{get_index}
use hypnoticos.Fs.HypnoticFs.Files.{refused, check_parents, create_index}

-- The search for the parents is for the whole path, and so nothing is ever created in another
-- directory than the root: a path of more than one part is refused on every disk.
pub create_index-deep :
    (d : Disk) (s t : List ℕ) (ss : List (List ℕ)) (type : ℕ)
    → create_index d (s ∷ t ∷ ss) type ≡ refused
unfolding create_index check_parents
create_index-deep d s t ss type = elim (Option-cases (get_index d (s ∷ t ∷ ss))) [
  | inl n ↦ ground (arith, n)
  | inr (x, p) ↦ ground (arith, p)
]
