-- ===== src/Tests/Files.antt =====
-- Paths and texts of src/fs/path.c and libc/string/.
use hypnoticos.Base.{
  ℕ, ◌<◌, ◌≡◌, refl, ◌⊎◌, true, none, some, List, [], ◌∷◌, arith, length, All, ℕ_discrete,
}
use hypnoticos.Libc.Text.{differ, strcmp}
use hypnoticos.Fs.Path.{
  max_path_size, slash, split_path, clear_last, place_segment, resolve, concat_segments, or_root,
  consolidate_segments, path_consolidate, path_breakdown,
}
use hypnoticos.Fs.Path.Segments.{Name, kind, join}
use hypnoticos.Fs.Path.Shape.{Canonical, path_consolidate-Canonical}
use hypnoticos.Fs.Path.Breakdown.{path_breakdown_names}
use hypnoticos.Fs.Path.Dots.{Direct, walk, path_consolidate-walk}

abbrev text_1 : List ℕ
text_1 = b'a' ∷ b'b' ∷ []

abbrev text_2 : List ℕ
text_2 = b'a' ∷ b'c' ∷ []

-- "/a/./b/../c//"
abbrev winding : List ℕ
winding =
    slash ∷ b'a' ∷ slash ∷ b'.' ∷ slash ∷ b'b' ∷ slash ∷ b'.' ∷ b'.' ∷ slash ∷ b'c' ∷ slash ∷ slash
    ∷ []

-- "/a/c"
abbrev straight : List ℕ
straight = slash ∷ b'a' ∷ slash ∷ b'c' ∷ []

straightened : path_consolidate winding ≡ some straight
unfolding path_consolidate consolidate_segments concat_segments resolve place_segment clear_last
    split_path or_root strcmp differ
straightened = refl

path_consolidate-Canonical_example : Canonical straight
path_consolidate-Canonical_example = path_consolidate-Canonical winding straight straightened

path_breakdown_names_example :
    ((path_consolidate winding ≡ none) × (path_breakdown winding ≡ none))
    ⊎ ((ss : List (List ℕ)) × (path_breakdown winding ≡ some ss)
        × All Name ss
        × (path_consolidate winding ≡ some (or_root (join ss))))
path_breakdown_names_example = path_breakdown_names winding

a-Name : Name (b'a' ∷ [])
a-Name = ground arith

-- "/a/..", behind the slash.
abbrev back : List ℕ
back = b'a' ∷ slash ∷ b'.' ∷ b'.' ∷ []

back-Direct : Direct true (split_path [] back)
unfolding split_path kind strcmp differ ℕ_discrete
back-Direct = (λ e. refl, (λ e. refl, tt))

back_short : length (join (walk [] (split_path [] back))) < max_path_size
unfolding split_path kind strcmp differ walk join ℕ_discrete
back_short = omega arith

path_consolidate-walk_example :
    path_consolidate (slash ∷ back) ≡ some (or_root (join (walk [] (split_path [] back))))
path_consolidate-walk_example = path_consolidate-walk back (omega arith) back-Direct back_short
