-- ===== src/Fs/Path/Dots.antt =====
-- What `PathConsolidate` of src/fs/path.c makes of "." and "..", beside the usual reading of them.
use hypnoticos.Base.{
  ℕ, ◌+◌, ◌≤◌, ◌<◌, ◌≡◌, refl, ◌⊎◌, inl, inr, Bool, true, false, Option, none, some, List, [], ◌∷◌,
  ◌++◌, ◌==◌, ltb, length, arith, All, ap, sym, ◌∙◌, subst, append-nil, length-append,
}
use hypnoticos.Libc.Text.{differ, strcmp, strcmp_iff}
use hypnoticos.Fs.Path.{
  max_path_size, slash, dot, dot_dot, split_path, clear_last, place_segment, resolve,
  concat_segments, or_root, consolidate_segments, path_consolidate,
}
use hypnoticos.Fs.Path.Segments.{
  NoSlash, Plain, Name, join, kept, kept-append, split-join, Kind, idle, up, plain, kind,
  place-idle, place-up, place-Plain, concat_segments_fits,
}
use hypnoticos.Fs.Path.Shape.{length-positive}

abbrev pub drop_last : List (List ℕ) → List (List ℕ)
drop_last [] = []
drop_last (s ∷ []) = []
drop_last (s ∷ t ∷ ss) = s ∷ drop_last (t ∷ ss)

-- The usual reading: "." and empty segments stay in a directory, ".." goes to its parent, and at
-- the root stays there.
abbrev pub enter : List (List ℕ) → (s : List ℕ) → Kind s → List (List ℕ)
enter at s (idle h) = at
enter at s (up h) = drop_last at
enter at s (plain p) = at ++ s ∷ []

unfoldable pub walk : List (List ℕ) → List (List ℕ) → List (List ℕ)
walk at [] = at
walk at (s ∷ ss) = walk (enter at s (kind s)) ss

abbrev pub ready : {s : List ℕ} → Kind s → Bool
ready (idle h) = false
ready (up h) = false
ready (plain p) = true

-- Each ".." stands first, where `r` is true, or directly behind a name.
abbrev pub Direct : Bool → List (List ℕ) → Type 0
Direct r [] = Unit
Direct r (s ∷ ss) = (s ≡ dot_dot → r ≡ true) × Direct (ready (kind s)) ss

-- There is no place yet, or the last one holds a name.
abbrev Ends : List (Option (List ℕ)) → Type 0
Ends past =
    (past ≡ []) ⊎ ((init : List (Option (List ℕ))) × (s : List ℕ) × (past ≡ init ++ some s ∷ []))

clear_last-append :
    (init : List (Option (List ℕ))) (o : Option (List ℕ))
    → clear_last (init ++ o ∷ []) ≡ init ++ none ∷ []
unfolding clear_last
clear_last-append [] o = refl
clear_last-append (p ∷ []) o = refl
clear_last-append (p ∷ q ∷ init) o = ap (λ r. p ∷ r) (clear_last-append (q ∷ init) o)

drop_last-append : (ss : List (List ℕ)) (s : List ℕ) → drop_last (ss ++ s ∷ []) ≡ ss
drop_last-append [] s = refl
drop_last-append (t ∷ []) s = refl
drop_last-append (t ∷ u ∷ ss) s = ap (λ r. t ∷ r) (drop_last-append (u ∷ ss) s)

kept-none : (past : List (Option (List ℕ))) → kept (past ++ none ∷ []) ≡ kept past
kept-none past = kept-append past (none ∷ []) ∙ append-nil (kept past)

kept-clear_last :
    (past : List (Option (List ℕ))) → Ends past → kept (clear_last past) ≡ drop_last (kept past)
unfolding clear_last
kept-clear_last past (inl e) = subst (λ p. kept (clear_last p) ≡ drop_last (kept p)) (sym e) refl
kept-clear_last past (inr (init, s, e)) =
    subst (λ p. kept (clear_last p) ≡ drop_last (kept p)) (sym e)
      (ap kept (clear_last-append init (some s))
        ∙ kept-none init
        ∙ sym (drop_last-append (kept init) s)
        ∙ ap drop_last (sym (kept-append init (some s ∷ []))))

-- While ".." stands as `Direct` says, one round keeps what the usual reading keeps.
kept-place :
    (past : List (Option (List ℕ))) (s : List ℕ) (k : Kind s)
    → (s ≡ dot_dot → Ends past)
    → kept (place_segment past s) ≡ enter (kept past) s k
kept-place past s (idle h) n = ap kept (place-idle past s h) ∙ kept-none past
kept-place past s (up e) n =
    ap (λ s. kept (place_segment past s)) e
    ∙ ap kept (place-up past)
    ∙ kept-none (clear_last past)
    ∙ kept-clear_last past (n e)
kept-place past s (plain p) n = ap kept (place-Plain past s p) ∙ kept-append past (some s ∷ [])

ready-Ends :
    (past : List (Option (List ℕ))) (s : List ℕ) (k : Kind s)
    → ready k ≡ true
    → Ends (place_segment past s)
ready-Ends past s (idle h) r = absurd (ground (arith, r))
ready-Ends past s (up e) r = absurd (ground (arith, r))
ready-Ends past s (plain p) r = inr (past, s, place-Plain past s p)

resolve-walk :
    (r : Bool) (past : List (Option (List ℕ))) (ss : List (List ℕ))
    → (r ≡ true → Ends past)
    → Direct r ss
    → kept (resolve past ss) ≡ walk (kept past) ss
unfolding resolve walk
resolve-walk r past [] n d = refl
resolve-walk r past (s ∷ ss) n d =
    resolve-walk (ready (kind s)) (place_segment past s) ss (ready-Ends past s (kind s)) d.1
    ∙ ap (λ at. walk at ss) (kept-place past s (kind s) (λ e. n (d.0 e)))

walk-root : walk [] ([] ∷ []) ≡ []
unfolding walk
walk-root = at (kind [])
  where
    at : (k : Kind []) → enter [] [] k ≡ []
    at (idle h) = refl
    at (up e) = refl
    at (plain p) = absurd (p.0 refl)

stay-root : some (slash ∷ []) ≡ some (or_root (join (walk [] (split_path [] []))))
unfolding split_path or_root join
stay-root = ap (λ at. some (or_root (join at))) (sym walk-root)

-- `PathConsolidate` of a path behind a slash, of at most FS_MAX_PATH_SIZE characters, in which each
-- ".." stands first or directly behind a name: if what the usual reading of the segments leads to is
-- shorter than FS_MAX_PATH_SIZE as a path, then that path is stored.
pub path_consolidate-walk :
    (cs : List ℕ)
    → length (slash ∷ cs) ≤ max_path_size
    → Direct true (split_path [] cs)
    → length (join (walk [] (split_path [] cs))) < max_path_size
    → path_consolidate (slash ∷ cs) ≡ some (or_root (join (walk [] (split_path [] cs))))
unfolding path_consolidate consolidate_segments
path_consolidate-walk [] l d f = stay-root
path_consolidate-walk (ch ∷ cs) l d f =
    let k = resolve-walk true [] (split_path [] (ch ∷ cs)) (λ t. inl refl) d in
    let c =
      concat_segments_fits [] (resolve [] (split_path [] (ch ∷ cs)))
        (subst (λ r. length (join r) < max_path_size) (sym k) f) in
    let more : (length (slash ∷ ch ∷ cs) == 1) ≡ false = ground arith in
    let fits : ltb max_path_size (length (slash ∷ ch ∷ cs)) ≡ false = ground (arith, l) in
    ground (arith, more, fits, c, k)

-- A path that fits is split into its segments.
path_consolidate-join :
    (s : List ℕ) (ss : List (List ℕ))
    → NoSlash s
    → All NoSlash ss
    → 0 < length s
    → length (join (s ∷ ss)) ≤ max_path_size
    → path_consolidate (join (s ∷ ss)) ≡ consolidate_segments (s ∷ ss)
unfolding path_consolidate join
path_consolidate-join s ss n a positive l =
    let same = split-join [] s ss n a in
    let len = length-append s (join ss) in
    let more : (length (slash ∷ (s ++ join ss)) == 1) ≡ false = ground (arith, positive, len) in
    let fits : ltb max_path_size (length (slash ∷ (s ++ join ss))) ≡ false = ground (arith, l) in
    ground (arith, more, fits, same)

resolve-two_up :
    (s t : List ℕ)
    → Plain s
    → Plain t
    → resolve [] (s ∷ t ∷ dot_dot ∷ dot_dot ∷ []) ≡ some s ∷ none ∷ none ∷ none ∷ []
unfolding resolve clear_last
resolve-two_up s t p q =
    let rest : List (Option (List ℕ)) → List (Option (List ℕ)) =
      λ past. resolve past (dot_dot ∷ dot_dot ∷ []) in
    ap (λ past. rest (place_segment past t)) (place-Plain [] s p)
    ∙ ap rest (place-Plain (some s ∷ []) t q)
    ∙ ap (λ past. place_segment past dot_dot) (place-up (some s ∷ some t ∷ []))
    ∙ place-up (some s ∷ none ∷ none ∷ [])

enter-Plain : (at : List (List ℕ)) (s : List ℕ) (k : Kind s) → Plain s → enter at s k ≡ at ++ s ∷ []
enter-Plain at s (idle (inl h)) p = absurd (p.1 ((strcmp_iff s dot).0 h))
enter-Plain at s (idle (inr h)) p = absurd (p.0 ((strcmp_iff s []).0 h))
enter-Plain at s (up h) p = absurd (p.2 h)
enter-Plain at s (plain q) p = refl

enter-up : (at : List (List ℕ)) (k : Kind dot_dot) → enter at dot_dot k ≡ drop_last at
unfolding strcmp differ
enter-up at (idle (inl h)) = absurd (omega (arith, h))
enter-up at (idle (inr h)) = absurd (omega (arith, h))
enter-up at (up h) = refl
enter-up at (plain q) = absurd (q.2 refl)

walk-two_up : (s t : List ℕ) → Plain s → Plain t → walk [] (s ∷ t ∷ dot_dot ∷ dot_dot ∷ []) ≡ []
unfolding walk
walk-two_up s t p q =
    let rest : List (List ℕ) → List (List ℕ) = λ at. walk at (dot_dot ∷ dot_dot ∷ []) in
    ap (λ at. rest (enter at t (kind t))) (enter-Plain [] s (kind s) p)
    ∙ ap rest (enter-Plain (s ∷ []) t (kind t) q)
    ∙ ap (λ at. enter at dot_dot (kind dot_dot)) (enter-up (s ∷ t ∷ []) (kind dot_dot))
    ∙ enter-up (s ∷ []) (kind dot_dot)

length-two_up :
    (s t : List ℕ) → length (join (s ∷ t ∷ dot_dot ∷ dot_dot ∷ [])) ≡ length s + length t + 8
unfolding join
length-two_up s t =
    let a = length-append s (slash ∷ (t ++ (slash ∷ dot_dot ++ slash ∷ dot_dot))) in
    let b = length-append t (slash ∷ dot_dot ++ slash ∷ dot_dot) in ground (arith, a, b)

dot_dot-NoSlash : NoSlash dot_dot
dot_dot-NoSlash = (λ e. absurd (omega (arith, e)), (λ e. absurd (omega (arith, e)), tt))

concat-one :
    (s : List ℕ)
    → length s ≤ 900
    → concat_segments [] (some s ∷ none ∷ none ∷ none ∷ []) ≡ some (slash ∷ s)
unfolding concat_segments
concat-one s l = ground (arith, l)

-- For two names of at most 900 characters together, PathConsolidate of "/s/t/../.." stores "/s",
-- where the usual reading leads to the root.
pub path_consolidate_two_up :
    (s t : List ℕ)
    → Name s
    → Name t
    → length s + length t ≤ 900
    → (path_consolidate (join (s ∷ t ∷ dot_dot ∷ dot_dot ∷ [])) ≡ some (slash ∷ s))
      × (walk [] (s ∷ t ∷ dot_dot ∷ dot_dot ∷ []) ≡ [])
unfolding consolidate_segments or_root
path_consolidate_two_up s t n m l =
    let len = length-two_up s t in
    let go =
      path_consolidate-join s (t ∷ dot_dot ∷ dot_dot ∷ []) n.0
        (m.0, (dot_dot-NoSlash, (dot_dot-NoSlash, tt))) (length-positive s n.1.0)
        (omega (arith, len, l)) in
    let r = resolve-two_up s t n.1 m.1 in
    let c = concat-one s (omega (arith, l)) in (go ∙ ground (arith, r, c), walk-two_up s t n.1 m.1)
