-- ===== src/Fs/Path/Shape.antt =====
-- The shape of what src/fs/path.c returns: consolidated paths and their segments.
use hypnoticos.Base.{
  ℕ, ◌≡◌, refl, ◌≢◌, inl, inr, ◌<◌, false, Option, some, List, [], ◌∷◌, ◌++◌, ◌==◌, ltb, length,
  arith, All, ap, sym, ◌∙◌, subst, append_assoc, append-nil, length-append, ℕ_discrete,
  Option-cases, dec_lt,
}
use hypnoticos.Fs.Path.{
  max_path_size, slash, split_path, resolve, concat_segments, or_root, consolidate_segments,
  path_consolidate,
}
use hypnoticos.Fs.Path.Segments.{
  NoSlash, Name, join, kept, split-NoSlash, split-join, place-Plain, kept-append, resolve-Tidy,
  concat_segments_lem, concat_segments_fits,
}

-- A path in its short form: the root, or names each behind a slash, with room for the NUL.
abbrev pub Canonical : List ℕ → Type 0
Canonical q =
    (ss : List (List ℕ)) × All Name ss × (q ≡ or_root (join ss)) × (length q < max_path_size)

pub root-Canonical : Canonical (slash ∷ [])
unfolding or_root join
root-Canonical = ([], tt, refl, omega arith)

pub or_root-short : (q : List ℕ) → length q < max_path_size → length (or_root q) < max_path_size
unfolding or_root
or_root-short [] l = omega arith
or_root-short (ch ∷ cs) l = l

pub consolidate_segments-Canonical :
    (segments : List (List ℕ)) (q : List ℕ)
    → All NoSlash segments
    → consolidate_segments segments ≡ some q
    → Canonical q
unfolding consolidate_segments
consolidate_segments-Canonical segments q a h =
    elim (Option-cases (concat_segments [] (resolve [] segments))) [
      | inl n ↦ absurd (ground (arith, n, h))
      | inr (d, c) ↦
          let r = concat_segments_lem [] (resolve [] segments) d c (omega arith) in
          let e : or_root d ≡ q = ground (arith, c, h) in
          (
            kept (resolve [] segments),
            resolve-Tidy [] segments a tt,
            sym e ∙ ap or_root r.0,
            subst (λ q. length q < max_path_size) e (or_root-short d r.1),
          )
    ]

-- What `PathConsolidate` stores is "/", or names each behind a slash: no name is empty, "." or "..",
-- or holds a slash. It is shorter than FS_MAX_PATH_SIZE.
pub path_consolidate-Canonical : (path q : List ℕ) → path_consolidate path ≡ some q → Canonical q
unfolding path_consolidate
path_consolidate-Canonical [] q h = absurd (ground (arith, h))
path_consolidate-Canonical (ch ∷ cs) q h = elim (ℕ_discrete ch slash) [
  | no n ↦ absurd (ground (arith, n, h))
  | yes y ↦ elim (ℕ_discrete (length (ch ∷ cs)) 1) [
    | yes one ↦
        let e : slash ∷ [] ≡ q = ground (arith, y, one, h) in subst Canonical e root-Canonical
    | no more ↦ elim (dec_lt max_path_size (length (ch ∷ cs))) [
      | yes long ↦ absurd (ground (arith, y, more, long, h))
      | no fits ↦
          consolidate_segments-Canonical (split_path [] cs) q (split-NoSlash [] cs tt)
            (ground (arith, y, more, fits, h))
    ]
  ]
]

pub kept-append-some :
    (past : List (Option (List ℕ))) (s : List ℕ) → kept (past ++ some s ∷ []) ≡ kept past ++ s ∷ []
kept-append-some past s = kept-append past (some s ∷ [])

-- Names all stay where they are.
pub resolve-names :
    (past : List (Option (List ℕ))) (ss : List (List ℕ))
    → All Name ss
    → kept (resolve past ss) ≡ kept past ++ ss
unfolding resolve
resolve-names past [] a = sym (append-nil (kept past))
resolve-names past (s ∷ ss) a =
    ap (λ r. kept (resolve r ss)) (place-Plain past s a.0.1)
    ∙ resolve-names (past ++ some s ∷ []) ss a.1
    ∙ ap (λ r. r ++ ss) (kept-append-some past s)
    ∙ append_assoc (kept past) (s ∷ []) ss

pub All-NoSlash : (ss : List (List ℕ)) → All Name ss → All NoSlash ss
All-NoSlash [] a = tt
All-NoSlash (s ∷ ss) a = (a.0.0, All-NoSlash ss a.1)

pub consolidate-names :
    (ss : List (List ℕ))
    → All Name ss
    → length (join ss) < max_path_size
    → consolidate_segments ss ≡ some (or_root (join ss))
unfolding consolidate_segments
consolidate-names ss a l =
    let k = resolve-names [] ss a in
    let c =
      concat_segments_fits [] (resolve [] ss)
        (subst (λ r. length (join r) < max_path_size) (sym k) l) in
    ground (arith, c, k)

pub length-positive : (s : List ℕ) → s ≢ [] → 0 < length s
length-positive [] n = absurd (n refl)
length-positive (ch ∷ s) n = omega arith

-- A path in short form stays as it is.
pub Canonical-consolidate : (q : List ℕ) → Canonical q → path_consolidate q ≡ some q
unfolding path_consolidate or_root join
Canonical-consolidate q ([], a, e, l) = subst (λ q. path_consolidate q ≡ some q) (sym e) refl
Canonical-consolidate q (s ∷ ss, a, e, l) =
    subst (λ q. path_consolidate q ≡ some q) (sym e)
      (let some_ch = length-positive s a.0.1.0 in
        let len = length-append s (join ss) in
        let short : length (slash ∷ (s ++ join ss)) < max_path_size =
          subst (λ q. length q < max_path_size) e l in
        let same = split-join [] s ss a.0.0 (All-NoSlash ss a.1) in
        let names = consolidate-names (s ∷ ss) a short in
        let more : (length (slash ∷ (s ++ join ss)) == 1) ≡ false = ground (arith, some_ch, len) in
        let fits : ltb max_path_size (length (slash ∷ (s ++ join ss))) ≡ false =
          ground (arith, short) in
        ground (arith, more, fits, same, names))

-- Consolidating a path again gives the same path.
pub path_consolidate_idempotent :
    (path q : List ℕ) → path_consolidate path ≡ some q → path_consolidate q ≡ some q
path_consolidate_idempotent path q h = Canonical-consolidate q (path_consolidate-Canonical path q h)
