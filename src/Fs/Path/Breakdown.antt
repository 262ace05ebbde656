-- ===== src/Fs/Path/Breakdown.antt =====
-- The names that `PathBreakdown` of src/fs/path.c returns.
use hypnoticos.Base.{
  ℕ, ◌≡◌, refl, ◌≢◌, inl, inr, ◌⊎◌, none, some, List, [], ◌∷◌, ◌++◌, arith, All, ap, sym, ◌∙◌,
  append_assoc, append-nil, Option-cases,
}
use hypnoticos.Libc.Text.{differ, strcmp, strcmp_iff}
use hypnoticos.Fs.Path.{or_root, path_consolidate, flush, breakdown, path_breakdown}
use hypnoticos.Fs.Path.Segments.{NoSlash, Name, join}
use hypnoticos.Fs.Path.Shape.{path_consolidate-Canonical}

pub flush-some :
    {from : List ℕ} (buffer : List ℕ) (ss : List (List ℕ))
    → buffer ≢ []
    → from ≡ buffer
    → flush from ss ≡ buffer ∷ ss
unfolding flush
flush-some buffer ss n e =
    let z : strcmp buffer [] ≢ 0 = λ z. n ((strcmp_iff buffer []).0 z) in
    ap (λ b. flush b ss) e ∙ ground (arith, z)

pub breakdown-join :
    (buffer s : List ℕ) (ss : List (List ℕ))
    → NoSlash s
    → (buffer ++ s ≢ [])
    → All Name ss
    → breakdown buffer (s ++ join ss) ≡ (buffer ++ s) ∷ ss
unfolding breakdown join
breakdown-join buffer [] [] n f a = flush-some (buffer ++ []) [] f (sym (append-nil buffer))
breakdown-join buffer [] (t ∷ ss) n f a =
    ap (flush buffer) (breakdown-join [] t ss a.0.0 a.0.1.0 a.1)
    ∙ flush-some (buffer ++ []) (t ∷ ss) f (sym (append-nil buffer))
breakdown-join buffer (ch ∷ s) ss n f a =
    let e = append_assoc buffer (ch ∷ []) s in
    let rest = breakdown-join (buffer ++ ch ∷ []) s ss n.1 (λ z. f (sym e ∙ z)) a in
    ground (arith, n, rest, e)

pub breakdown-short : (ss : List (List ℕ)) → All Name ss → breakdown [] (or_root (join ss)) ≡ ss
unfolding breakdown or_root join flush strcmp differ
breakdown-short [] a = refl
breakdown-short (s ∷ ss) a = breakdown-join [] s ss a.0.0 a.0.1.0 a.1

-- Where `PathConsolidate` succeeds, `PathBreakdown` returns names whose joined path is the
-- consolidated one; elsewhere it returns NULL.
pub path_breakdown_names :
    (path : List ℕ)
    → ((path_consolidate path ≡ none) × (path_breakdown path ≡ none))
      ⊎ ((ss : List (List ℕ)) × (path_breakdown path ≡ some ss)
          × All Name ss
          × (path_consolidate path ≡ some (or_root (join ss))))
unfolding path_breakdown
path_breakdown_names path = elim (Option-cases (path_consolidate path)) [
  | inl n ↦ inl (n, ground (arith, n))
  | inr (q, h) ↦
      let (ss, a, e, l) = path_consolidate-Canonical path q h in
      let b : breakdown [] q ≡ ss = ap (breakdown []) e ∙ breakdown-short ss a in
      inr (ss, ground (arith, h, b), a, h ∙ ap some e)
]
