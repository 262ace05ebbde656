-- ===== src/Dispatcher/OpenIndices/Check.antt =====
-- What `DispatcherIndexLockCheck` of src/dispatcher/open-indices.c leaves of an exiting process's
-- locks.
use hypnoticos.Base.{
  ℕ, zero, suc, ◌+◌, ◌≤◌, ◌≡◌, refl, ◌≢◌, ◌∷◌, none, some, List, [], ◌++◌, ◌==◌, if◌then◌else◌,
  length, get_elem?, arith, All, All-append, All-left, All-right, ap, ap₂, subst, sym, ◌∙◌,
  ℕ_discrete, append_assoc, append-nil,
}
use hypnoticos.Dispatcher.OpenIndices.{OpenIndex, lock_done, check_from, lock_check}
use hypnoticos.Dispatcher.OpenIndices.Ids.{Distinct, Pairwise}

-- The loop as a pass over the list: an entry of the process is dropped, and the one behind it is
-- not looked at.
mutual
  pub sweep : ℕ → List OpenIndex → List OpenIndex
  sweep pid [] = []
  sweep pid (e ∷ es) = if e.pid == pid then spare pid es else e ∷ sweep pid es

  pub spare : ℕ → List OpenIndex → List OpenIndex
  spare pid [] = []
  spare pid (e ∷ es) = e ∷ sweep pid es

get-here :
    (pre es : List OpenIndex) (e : OpenIndex) → get_elem? (pre ++ e ∷ es) (length pre) ≡ some e
get-here [] es e = ground arith
get-here (p ∷ pre) es e = ground (arith, get-here pre es e)

get-end : (pre : List OpenIndex) → get_elem? pre (length pre) ≡ none
get-end [] = refl
get-end (p ∷ pre) = ground (arith, get-end pre)

lock_done-here :
    (pre es : List OpenIndex) (e : OpenIndex)
    → Pairwise (pre ++ e ∷ es)
    → lock_done e.open_index_id (pre ++ e ∷ es) ≡ pre ++ es
unfolding lock_done
lock_done-here [] es e w = ground arith
lock_done-here (p ∷ pre) es e w =
    let apart = (All-right (Distinct p) pre (e ∷ es) w.0).0.0 in
    let rest = lock_done-here pre es e w.1 in
    elim (ℕ_discrete p.open_index_id e.open_index_id) [
      | yes y ↦ absurd (apart (sym y))
      | no n ↦ ground (arith, n, rest)
    ]

drop-Pairwise :
    (pre es : List OpenIndex) (e : OpenIndex) → Pairwise (pre ++ e ∷ es) → Pairwise (pre ++ es)
drop-Pairwise [] es e w = w.1
drop-Pairwise (p ∷ pre) es e w = (
  All-append (Distinct p) pre es (All-left (Distinct p) pre (e ∷ es) w.0)
      (All-right (Distinct p) pre (e ∷ es) w.0).1,
  drop-Pairwise pre es e w.1,
)

length-snoc : (pre : List OpenIndex) (e : OpenIndex) → length (pre ++ e ∷ []) ≡ length pre + 1
length-snoc [] e = refl
length-snoc (p ∷ pre) e = ground (arith, length-snoc pre e)

check_from-end :
    (n i pid : ℕ) (es : List OpenIndex) → get_elem? es i ≡ none → check_from n i pid es ≡ es
unfolding check_from
check_from-end zero i pid es h = refl
check_from-end (suc n) i pid es h = ground (arith, h)

check_from-past : (n pid : ℕ) (es : List OpenIndex) → check_from n (length es + 1) pid es ≡ es
check_from-past n pid es = check_from-end n (length es + 1) pid es (past es)
  where
    past : (es : List OpenIndex) → get_elem? es (length es + 1) ≡ none
    past [] = refl
    past (e ∷ es) = ground (arith, past es)

check_from-keep :
    (n pid : ℕ) (pre es : List OpenIndex) (e : OpenIndex)
    → e.pid ≢ pid
    → check_from (suc n) (length pre) pid (pre ++ e ∷ es)
      ≡ check_from n (length pre + 1) pid (pre ++ e ∷ es)
unfolding check_from
check_from-keep n pid pre es e h = ground (arith, get-here pre es e, h)

check_from-drop :
    (n pid : ℕ) (pre es : List OpenIndex) (e : OpenIndex)
    → Pairwise (pre ++ e ∷ es)
    → e.pid ≡ pid
    → check_from (suc n) (length pre) pid (pre ++ e ∷ es)
      ≡ check_from n (length pre + 1) pid (pre ++ es)
unfolding check_from
check_from-drop n pid pre es e w h = ground (arith, get-here pre es e, h, lock_done-here pre es e w)

-- Going on behind an entry `e` that stays.
snoc-from :
    (n pid : ℕ) (pre es : List OpenIndex) (e : OpenIndex)
    → check_from n (length pre + 1) pid (pre ++ e ∷ es)
      ≡ check_from n (length (pre ++ e ∷ [])) pid ((pre ++ e ∷ []) ++ es)
snoc-from n pid pre es e =
    ap₂ (λ i xs. check_from n i pid xs) (sym (length-snoc pre e))
      (sym (append_assoc pre (e ∷ []) es))

Pairwise-snoc :
    (pre es : List OpenIndex) (e : OpenIndex)
    → Pairwise (pre ++ e ∷ es)
    → Pairwise ((pre ++ e ∷ []) ++ es)
Pairwise-snoc pre es e w = subst Pairwise (sym (append_assoc pre (e ∷ []) es)) w

sweep-drop :
    (pid : ℕ) (es : List OpenIndex) (e : OpenIndex)
    → e.pid ≡ pid
    → sweep pid (e ∷ es) ≡ spare pid es
unfolding sweep
sweep-drop pid es e h = ground (arith, h)

sweep-keep :
    (pid : ℕ) (es : List OpenIndex) (e : OpenIndex)
    → e.pid ≢ pid
    → sweep pid (e ∷ es) ≡ e ∷ sweep pid es
unfolding sweep
sweep-keep pid es e h = ground (arith, h)

-- After the entries `pre`, `n` rounds of the loop do what `sweep` does.
abbrev Sweeps : (n pid : ℕ) → Type 0
Sweeps n pid =
    (pre es : List OpenIndex)
    → Pairwise (pre ++ es)
    → length es ≤ n
    → check_from n (length pre) pid (pre ++ es) ≡ pre ++ sweep pid es

-- They do what `spare` does where the loop goes on one place further.
Sweeps-spare :
    (n pid : ℕ) (pre es : List OpenIndex)
    → Sweeps n pid
    → Pairwise (pre ++ es)
    → length es ≤ n + 1
    → check_from n (length pre + 1) pid (pre ++ es) ≡ pre ++ spare pid es
unfolding spare
Sweeps-spare n pid pre [] go w l =
    subst (λ xs. check_from n (length pre + 1) pid xs ≡ xs) (sym (append-nil pre))
      (check_from-past n pid pre)
Sweeps-spare n pid pre (e ∷ es) go w l =
    snoc-from n pid pre es e
    ∙ go (pre ++ e ∷ []) es (Pairwise-snoc pre es e w) (omega arith)
    ∙ append_assoc pre (e ∷ []) (sweep pid es)

check_from-Sweeps : (n pid : ℕ) → Sweeps n pid
unfolding sweep
check_from-Sweeps n pid pre [] w l =
    check_from-end n (length pre) pid (pre ++ [])
      (subst (λ xs. get_elem? xs (length pre) ≡ none) (sym (append-nil pre)) (get-end pre))
check_from-Sweeps zero pid pre (e ∷ es) w l = absurd (omega arith)
check_from-Sweeps (suc n) pid pre (e ∷ es) w l = elim (ℕ_discrete e.pid pid) [
  | yes y ↦
      check_from-drop n pid pre es e w y
      ∙ Sweeps-spare n pid pre es (check_from-Sweeps n pid) (drop-Pairwise pre es e w) (omega arith)
      ∙ ap (λ r. pre ++ r) (sym (sweep-drop pid es e y))
  | no ne ↦
      check_from-keep n pid pre es e ne
      ∙ snoc-from n pid pre es e
      ∙ check_from-Sweeps n pid (pre ++ e ∷ []) es (Pairwise-snoc pre es e w) (omega arith)
      ∙ append_assoc pre (e ∷ []) (sweep pid es)
      ∙ ap (λ r. pre ++ r) (sym (sweep-keep pid es e ne))
]

-- On a list with distinct ids and paths, the loop of `DispatcherIndexLockCheck` does one pass that
-- drops an entry of the process and then steps over the entry behind it, whosever that is.
pub lock_check-sweep :
    (pid : ℕ) (es : List OpenIndex) → Pairwise es → lock_check pid es ≡ sweep pid es
unfolding lock_check
lock_check-sweep pid es w = check_from-Sweeps (length es) pid [] es w (omega arith)

-- No two neighbours belong to the process.
abbrev pub Scattered : ℕ → List OpenIndex → Type 0
Scattered pid [] = Unit
Scattered pid (e ∷ []) = Unit
Scattered pid (e ∷ f ∷ es) = (e.pid ≡ pid → f.pid ≢ pid) × Scattered pid (f ∷ es)

Scattered-tail :
    (pid : ℕ) (e : OpenIndex) (es : List OpenIndex) → Scattered pid (e ∷ es) → Scattered pid es
Scattered-tail pid e [] s = tt
Scattered-tail pid e (f ∷ es) s = s.1

sweep-clean :
    (pid : ℕ) (es : List OpenIndex) → Scattered pid es → All (λ e. e.pid ≢ pid) (sweep pid es)
unfolding sweep spare
sweep-clean pid [] s = tt
sweep-clean pid (e ∷ []) s = ground arith
sweep-clean pid (e ∷ f ∷ es) s = elim (ℕ_discrete e.pid pid) [
  | yes y ↦
      subst (All (λ e. e.pid ≢ pid)) (sym (sweep-drop pid (f ∷ es) e y))
        (s.0 y, sweep-clean pid es (Scattered-tail pid f es s.1))
  | no n ↦
      subst (All (λ e. e.pid ≢ pid)) (sym (sweep-keep pid (f ∷ es) e n))
        (n, sweep-clean pid (f ∷ es) s.1)
]

-- Where no two neighbours of a list with distinct ids and paths belong to the process, none of its
-- locks is left.
pub lock_check_clean :
    (pid : ℕ) (es : List OpenIndex)
    → Pairwise es
    → Scattered pid es
    → All (λ e. e.pid ≢ pid) (lock_check pid es)
lock_check_clean pid es w s =
    subst (All (λ e. e.pid ≢ pid)) (sym (lock_check-sweep pid es w)) (sweep-clean pid es s)

sweep-leaves :
    (pid : ℕ) (pre es : List OpenIndex) (e f : OpenIndex)
    → All (λ e. e.pid ≢ pid) pre
    → e.pid ≡ pid
    → f.pid ≡ pid
    → sweep pid (pre ++ e ∷ f ∷ es) ≡ pre ++ f ∷ sweep pid es
unfolding spare
sweep-leaves pid [] es e f a p q = sweep-drop pid (f ∷ es) e p
sweep-leaves pid (g ∷ pre) es e f a p q =
    sweep-keep pid (pre ++ e ∷ f ∷ es) g a.0 ∙ ap (λ r. g ∷ r) (sweep-leaves pid pre es e f a.1 p q)

-- Where two neighbours of a list with distinct ids and paths belong to the process, and no entry
-- before them does, the second one stays locked.
pub lock_check_leaves :
    (pid : ℕ) (pre es : List OpenIndex) (e f : OpenIndex)
    → Pairwise (pre ++ e ∷ f ∷ es)
    → All (λ e. e.pid ≢ pid) pre
    → e.pid ≡ pid
    → f.pid ≡ pid
    → lock_check pid (pre ++ e ∷ f ∷ es) ≡ pre ++ f ∷ sweep pid es
lock_check_leaves pid pre es e f w a p q =
    lock_check-sweep pid (pre ++ e ∷ f ∷ es) w ∙ sweep-leaves pid pre es e f a p q
