-- ===== src/Fs/Path.antt =====
-- Paths: src/fs/path.c. A path is the list of its characters, without the NUL. The calls of
-- `malloc`, whose results the code uses unchecked, are taken to succeed.
pub mod Shape
pub mod Breakdown
pub mod Segments
pub mod Dots
use hypnoticos.Base.{
  ℕ, ◌+◌, Bool, true, false, ◌||◌, Option, none, some, List, [], ◌∷◌, ◌++◌, ◌==◌, if◌then◌else◌,
  ltb, length,
}
use hypnoticos.Libc.Text.{strcmp}

-- FS_MAX_PATH_SIZE
abbrev pub max_path_size : ℕ
max_path_size = 1000

abbrev pub slash : ℕ
slash = b'/'

-- The texts "." and "..".
abbrev pub dot : List ℕ
dot = b'.' ∷ []

abbrev pub dot_dot : List ℕ
dot_dot = b'.' ∷ b'.' ∷ []

-- The first loop, behind the leading slash: each segment is collected in `buffer`.
unfoldable pub split_path : List ℕ → List ℕ → List (List ℕ)
split_path buffer [] = buffer ∷ []
split_path buffer (ch ∷ cs) =
    let new_segment = split_path [] cs in
    let longer = split_path (buffer ++ ch ∷ []) cs in
    if ch == slash then buffer ∷ new_segment else longer

-- The place before the one that is looked at, if there is one, becomes NULL.
unfoldable pub clear_last : List (Option (List ℕ)) → List (Option (List ℕ))
clear_last [] = []
clear_last (s ∷ []) = none ∷ []
clear_last (s ∷ t ∷ ss) = s ∷ clear_last (t ∷ ss)

-- What one round of the second loop leaves of the places up to the one of the segment.
unfoldable pub place_segment : List (Option (List ℕ)) → List ℕ → List (Option (List ℕ))
place_segment past s =
    if (strcmp s dot == 0) || (strcmp s [] == 0)
    then past ++ none ∷ []
    else if strcmp s dot_dot == 0
    then clear_last past ++ none ∷ []
    else past ++ some s ∷ []

-- The second loop: `past` are the places before the next one, and NULL is `none`.
unfoldable pub resolve : List (Option (List ℕ)) → List (List ℕ) → List (Option (List ℕ))
resolve past [] = past
resolve past (s ∷ ss) = resolve (place_segment past s) ss

-- The third loop: `none` for the return of 0.
unfoldable pub concat_segments : List ℕ → List (Option (List ℕ)) → Option (List ℕ)
concat_segments dest [] = some dest
concat_segments dest (none ∷ ss) = concat_segments dest ss
concat_segments dest (some s ∷ ss) = elim (ltb max_path_size (length dest + 1 + length s + 1)) [
  | true ↦ none
  | false ↦ concat_segments (dest ++ slash ∷ s) ss
]

-- The root in place of an empty result.
unfoldable pub or_root : List ℕ → List ℕ
or_root [] = slash ∷ []
or_root (ch ∷ cs) = ch ∷ cs

unfoldable pub consolidate_segments : List (List ℕ) → Option (List ℕ)
consolidate_segments segments = elim (concat_segments [] (resolve [] segments)) [
  | none ↦ none
  | some dest ↦ some (or_root dest)
]

-- PathConsolidate: what it stores in `dest`, or `none` where it returns 0.
unfoldable pub path_consolidate : List ℕ → Option (List ℕ)
path_consolidate [] = none
path_consolidate (ch ∷ cs) =
    if ch == slash
    then if length (ch ∷ cs) == 1
      then some (slash ∷ [])
      else if ltb max_path_size (length (ch ∷ cs))
      then none
      else consolidate_segments (split_path [] cs)
    else none

-- The segment in the buffer, unless that is empty.
unfoldable pub flush : List ℕ → List (List ℕ) → List (List ℕ)
flush buffer ss = if strcmp buffer [] == 0 then ss else buffer ∷ ss

-- The loop of `PathBreakdown` over the consolidated path, and the segment left behind it.
unfoldable pub breakdown : List ℕ → List ℕ → List (List ℕ)
breakdown buffer [] = flush buffer []
breakdown buffer (ch ∷ cs) =
    let next = breakdown [] cs in
    let longer = breakdown (buffer ++ ch ∷ []) cs in
    if ch == slash then flush buffer next else longer

-- PathBreakdown
unfoldable pub path_breakdown : List ℕ → Option (List (List ℕ))
path_breakdown path = elim (path_consolidate path) [
  | none ↦ none
  | some short_path ↦ some (breakdown [] short_path)
]
