-- ===== src/Fs/Path/Segments.antt =====
-- The segments of a path in the loops of `PathConsolidate` of src/fs/path.c.
use hypnoticos.Base.{
  ℕ, ◌+◌, ◌≡◌, refl, ◌≢◌, inl, inr, ◌<◌, ◌⊎◌, false, Option, none, some, List, [], ◌∷◌, ◌++◌, ltb,
  length, arith, All, All-append, ap, sym, ◌∙◌, subst, append_assoc, append-nil, length-append,
  ℕ_discrete, dec_lt,
}
use hypnoticos.Libc.Text.{differ, strcmp, strcmp_iff}
use hypnoticos.Fs.Path.{
  max_path_size, slash, dot, dot_dot, split_path, clear_last, place_segment, resolve,
  concat_segments,
}

abbrev pub NoSlash : List ℕ → Type 0
NoSlash s = All (λ ch. ch ≢ slash) s

-- A segment that names an index.
abbrev pub Plain : List ℕ → Type 0
Plain s = (s ≢ []) × (s ≢ dot) × (s ≢ dot_dot)

abbrev pub Name : List ℕ → Type 0
Name s = NoSlash s × Plain s

-- The path of some segments.
unfoldable pub join : List (List ℕ) → List ℕ
join [] = []
join (s ∷ ss) = slash ∷ (s ++ join ss)

abbrev pub kept : List (Option (List ℕ)) → List (List ℕ)
kept [] = []
kept (none ∷ ss) = kept ss
kept (some s ∷ ss) = s ∷ kept ss

pub split-NoSlash : (buffer cs : List ℕ) → NoSlash buffer → All NoSlash (split_path buffer cs)
unfolding split_path
split-NoSlash buffer [] b = (b, tt)
split-NoSlash buffer (ch ∷ cs) b = elim (ℕ_discrete ch slash) [
  | yes y ↦ let rest = split-NoSlash [] cs tt in ground (arith, y, b, rest)
  | no n ↦
      let rest =
        split-NoSlash (buffer ++ ch ∷ []) cs
          (All-append (λ ch. ch ≢ slash) buffer (ch ∷ []) b (n, tt)) in
      ground (arith, n, rest)
]

-- Splitting a joined path gives its segments back.
pub split-join :
    (buffer s : List ℕ) (ss : List (List ℕ))
    → NoSlash s
    → All NoSlash ss
    → split_path buffer (s ++ join ss) ≡ (buffer ++ s) ∷ ss
unfolding split_path join
split-join buffer [] [] n a = ap (λ b. b ∷ []) (sym (append-nil buffer))
split-join buffer [] (t ∷ ss) n a = ground (arith, split-join [] t ss a.0 a.1, append-nil buffer)
split-join buffer (ch ∷ s) ss n a =
    ground (arith, n, split-join (buffer ++ ch ∷ []) s ss n.1 a, append_assoc buffer (ch ∷ []) s)

pub place-Plain :
    (past : List (Option (List ℕ))) (s : List ℕ)
    → Plain s
    → place_segment past s ≡ past ++ some s ∷ []
unfolding place_segment
place-Plain past s p =
    let a : strcmp s dot ≢ 0 = λ z. p.1 ((strcmp_iff s dot).0 z) in
    let b : strcmp s [] ≢ 0 = λ z. p.0 ((strcmp_iff s []).0 z) in
    let c : strcmp s dot_dot ≢ 0 = λ z. p.2 ((strcmp_iff s dot_dot).0 z) in ground (arith, a, b, c)

-- Every place of the second loop holds NULL or a name.
abbrev pub Tidy : List (Option (List ℕ)) → Type 0
Tidy ss = All Name (kept ss)

pub kept-append : (ss ts : List (Option (List ℕ))) → kept (ss ++ ts) ≡ kept ss ++ kept ts
kept-append [] ts = refl
kept-append (none ∷ ss) ts = kept-append ss ts
kept-append (some s ∷ ss) ts = ap (λ r. s ∷ r) (kept-append ss ts)

pub clear_last-Tidy : (ss : List (Option (List ℕ))) → Tidy ss → Tidy (clear_last ss)
unfolding clear_last
clear_last-Tidy [] t = tt
clear_last-Tidy (s ∷ []) t = tt
clear_last-Tidy (none ∷ u ∷ ss) t = clear_last-Tidy (u ∷ ss) t
clear_last-Tidy (some s ∷ u ∷ ss) t = (t.0, clear_last-Tidy (u ∷ ss) t.1)

pub snoc-Tidy :
    (ss : List (Option (List ℕ))) (o : Option (List ℕ))
    → Tidy ss
    → Tidy (o ∷ [])
    → Tidy (ss ++ o ∷ [])
snoc-Tidy ss o t u =
    subst (All Name) (sym (kept-append ss (o ∷ []))) (All-append Name (kept ss) (kept (o ∷ [])) t u)

-- The three kinds of segments.
pub data Kind (s : List ℕ) : Type 0 where
  idle : (strcmp s dot ≡ 0) ⊎ (strcmp s [] ≡ 0) → Kind s
  up : s ≡ dot_dot → Kind s
  plain : Plain s → Kind s

unfoldable pub kind : (s : List ℕ) → Kind s
kind s = elim (ℕ_discrete (strcmp s dot) 0) [
  | yes a ↦ idle (inl a)
  | no a ↦ elim (ℕ_discrete (strcmp s []) 0) [
    | yes b ↦ idle (inr b)
    | no b ↦ elim (ℕ_discrete (strcmp s dot_dot) 0) [
      | yes c ↦ up ((strcmp_iff s dot_dot).0 c)
      | no c ↦ plain (
        λ e. b ((strcmp_iff s []).1 e),
        λ e. a ((strcmp_iff s dot).1 e),
        λ e. c ((strcmp_iff s dot_dot).1 e),
      )
    ]
  ]
]

pub place-idle :
    (past : List (Option (List ℕ))) (s : List ℕ)
    → (strcmp s dot ≡ 0) ⊎ (strcmp s [] ≡ 0)
    → place_segment past s ≡ past ++ none ∷ []
unfolding place_segment
place-idle past s (inl a) = ground (arith, a)
place-idle past s (inr b) = ground (arith, b)

pub place-up :
    (past : List (Option (List ℕ))) → place_segment past dot_dot ≡ clear_last past ++ none ∷ []
unfolding place_segment strcmp differ
place-up past = refl

pub place-Tidy :
    (past : List (Option (List ℕ))) (s : List ℕ)
    → NoSlash s
    → Tidy past
    → Tidy (place_segment past s)
place-Tidy past s n t = elim (kind s) [
  | idle h ↦ subst Tidy (sym (place-idle past s h)) (snoc-Tidy past none t tt)
  | up e ↦
      subst (λ s. Tidy (place_segment past s)) (sym e)
        (subst Tidy (sym (place-up past))
          (snoc-Tidy (clear_last past) none (clear_last-Tidy past t) tt))
  | plain p ↦ subst Tidy (sym (place-Plain past s p)) (snoc-Tidy past (some s) t ((n, p), tt))
]

pub resolve-Tidy :
    (past : List (Option (List ℕ))) (ss : List (List ℕ))
    → All NoSlash ss
    → Tidy past
    → Tidy (resolve past ss)
unfolding resolve
resolve-Tidy past [] a t = t
resolve-Tidy past (s ∷ ss) a t =
    resolve-Tidy (place_segment past s) ss a.1 (place-Tidy past s a.0 t)

-- What the third loop returns, and how long it can be.
pub concat_segments_lem :
    (dest : List ℕ) (ss : List (Option (List ℕ))) (q : List ℕ)
    → concat_segments dest ss ≡ some q
    → length dest < max_path_size
    → (q ≡ dest ++ join (kept ss)) × (length q < max_path_size)
unfolding concat_segments join
concat_segments_lem dest [] q h l =
    let e : dest ≡ q = ground (arith, h) in
    (sym e ∙ sym (append-nil dest), subst (λ q. length q < max_path_size) e l)
concat_segments_lem dest (none ∷ ss) q h l = concat_segments_lem dest ss q h l
concat_segments_lem dest (some s ∷ ss) q h l =
    elim (dec_lt max_path_size (length dest + 1 + length s + 1)) [
      | yes b ↦ absurd (ground (arith, b, h))
      | no b ↦
          let len : length (dest ++ slash ∷ s) ≡ length dest + length (slash ∷ s) =
            length-append dest (slash ∷ s) in
          let r =
            concat_segments_lem (dest ++ slash ∷ s) ss q (ground (arith, b, h))
              (omega (arith, len, b)) in
          (r.0 ∙ append_assoc dest (slash ∷ s) (join (kept ss)), r.1)
    ]

-- It returns a path wherever one fits with its NUL.
pub concat_segments_fits :
    (dest : List ℕ) (ss : List (Option (List ℕ)))
    → length (dest ++ join (kept ss)) < max_path_size
    → concat_segments dest ss ≡ some (dest ++ join (kept ss))
unfolding concat_segments join
concat_segments_fits dest [] l = ap some (sym (append-nil dest))
concat_segments_fits dest (none ∷ ss) l = concat_segments_fits dest ss l
concat_segments_fits dest (some s ∷ ss) l =
    let e = append_assoc dest (slash ∷ s) (join (kept ss)) in
    let l1 = length-append dest (slash ∷ (s ++ join (kept ss))) in
    let l2 = length-append s (join (kept ss)) in
    let rest =
      concat_segments_fits (dest ++ slash ∷ s) ss
        (subst (λ q. length q < max_path_size) (sym e) l) in
    let small : ltb max_path_size (length dest + 1 + length s + 1) ≡ false =
      ground (arith, l, l1, l2) in
    ground (arith, small, rest, e)
