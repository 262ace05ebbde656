-- ===== src/Dispatcher/Addresses.antt =====
-- The map from a process's virtual addresses to physical ones: src/dispatcher/memory.c. The calls of
-- `malloc` and `realloc`, whose results the code uses unchecked, are taken to succeed; whether
-- `MemoryPagingSetPage` succeeds is an argument.
use hypnoticos.Base.{
  ℕ, ◌+◌, ◌-◌, ◌%◌, ◌<◌, ◌≡◌, refl, ◌≢◌, Bool, true, ◌&&◌, ◌||◌, not, Option, none, some, List, [],
  ◌∷◌, ◌++◌, ◌==◌, if◌then◌else◌, add64, arith, All,
}

-- DispatcherProcessVa_t
pub record Va : Type 0 where
  pub va : ℕ
  pub pa : ℕ
  pub ignore : ℕ

-- DispatcherProcessCheckVa: 0 for an address that is not found, 1 for one that is found, 2 for one
-- that is found and is to be ignored.
unfoldable pub check_va : List Va → (va ignore : ℕ) → ℕ
check_va [] va ignore = 0
check_va (v ∷ vs) va ignore =
    let rest = check_va vs va ignore in
    if v.va == va then (if (ignore == 1) && (v.ignore == 1) then 2 else 1) else rest

-- DispatcherProcessMap: its result, and the map. The entry is added before the page is set.
unfoldable pub process_map : Bool → List Va → (va pa ignore : ℕ) → ℕ × List Va
process_map paged vs va pa ignore =
    if not (va % 4096 == 0) || not (pa % 4096 == 0)
    then (0, vs)
    else if not (check_va vs va ignore == 0)
    then (0, vs)
    else ((if paged then 1 else 0), vs ++ record { va = va; pa = pa; ignore = ignore } ∷ [])

-- The loop of `DispatcherProcessGetPa`, over the page of the address.
unfoldable pub find_pa : List Va → (page offset ignore : ℕ) → Option ℕ
find_pa [] page offset ignore = none
find_pa (v ∷ vs) page offset ignore =
    let rest = find_pa vs page offset ignore in
    if v.va == page
    then (if (ignore == 1) && (v.ignore == 1) then none else some (add64 v.pa offset))
    else rest

-- DispatcherProcessGetPa
unfoldable pub get_pa : List Va → (va ignore : ℕ) → Option ℕ
get_pa vs va ignore = find_pa vs (va - va % 4096) (va % 4096) ignore

-- The page has no entry.
abbrev pub Unmapped : ℕ → List Va → Type 0
Unmapped page vs = All (λ v. v.va ≢ page) vs

check_va-Unmapped : (vs : List Va) (va ignore : ℕ) → check_va vs va ignore ≡ 0 → Unmapped va vs
unfolding check_va
check_va-Unmapped [] va ignore h = tt
check_va-Unmapped (v ∷ vs) va ignore h = ground (arith, check_va-Unmapped vs va ignore)

Unmapped-check_va : (vs : List Va) (va ignore : ℕ) → Unmapped va vs → check_va vs va ignore ≡ 0
unfolding check_va
Unmapped-check_va [] va ignore a = refl
Unmapped-check_va (v ∷ vs) va ignore a = ground (arith, a.0, Unmapped-check_va vs va ignore a.1)

-- The last entry is found if no other one is for the page, and changes nothing for other pages.
find_pa_new :
    (vs : List Va) (v : Va) (offset ignore : ℕ)
    → Unmapped v.va vs
    → find_pa (vs ++ v ∷ []) v.va offset ignore
      ≡ (if (ignore == 1) && (v.ignore == 1) then none else some (add64 v.pa offset))
unfolding find_pa
find_pa_new [] v offset ignore a = ground arith
find_pa_new (u ∷ vs) v offset ignore a = ground (arith, a.0, find_pa_new vs v offset ignore a.1)

find_pa_old :
    (vs : List Va) (v : Va) (page offset ignore : ℕ)
    → v.va ≢ page
    → find_pa (vs ++ v ∷ []) page offset ignore ≡ find_pa vs page offset ignore
unfolding find_pa
find_pa_old [] v page offset ignore n = ground (arith, n)
find_pa_old (u ∷ vs) v page offset ignore n = ground (arith, find_pa_old vs v page offset ignore n)

process_map_new :
    (paged : Bool) (vs : List Va) (va pa ignore : ℕ)
    → va % 4096 ≡ 0
    → pa % 4096 ≡ 0
    → Unmapped va vs
    → (process_map paged vs va pa ignore).1
      ≡ vs ++ record { va = va; pa = pa; ignore = ignore } ∷ []
unfolding process_map
process_map_new paged vs va pa ignore a b u =
    let c = Unmapped-check_va vs va ignore u in ground (arith, a, b, c)

-- Of a page that has no entry, to an aligned address, where the page is set.
pub process_map_set :
    (vs : List Va) (va pa ignore : ℕ)
    → va % 4096 ≡ 0
    → pa % 4096 ≡ 0
    → Unmapped va vs
    → process_map true vs va pa ignore
      ≡ (1, vs ++ record { va = va; pa = pa; ignore = ignore } ∷ [])
unfolding process_map
process_map_set vs va pa ignore a b u =
    let c = Unmapped-check_va vs va ignore u in ground (arith, a, b, c)

-- After `DispatcherProcessMap` of a page that has no entry to an aligned address, even where it
-- returns 0 since the page cannot be set, `DispatcherProcessGetPa` of each address in the page gives
-- the physical address at the same offset, or NULL for a caller that ignores a page that is to be
-- ignored; and what it gives for every other page is as before.
pub process_map-get_pa :
    (paged : Bool) (vs : List Va) (va pa ignore offset caller : ℕ)
    → va % 4096 ≡ 0
    → pa % 4096 ≡ 0
    → Unmapped va vs
    → offset < 4096
    → (get_pa (process_map paged vs va pa ignore).1 (va + offset) caller
        ≡ (if (caller == 1) && (ignore == 1) then none else some (add64 pa offset)))
      × ((x : ℕ)
          → va ≢ x - x % 4096
          → get_pa (process_map paged vs va pa ignore).1 x caller ≡ get_pa vs x caller)
unfolding get_pa
process_map-get_pa paged vs va pa ignore offset caller a b u o =
    let v : Va = record { va = va; pa = pa; ignore = ignore } in
    let m = process_map_new paged vs va pa ignore a b u in
    let page : (va + offset) - (va + offset) % 4096 ≡ va = omega (arith, a, o) in
    let rest : (va + offset) % 4096 ≡ offset = omega (arith, a, o) in
    (
      rw (m, page, rest) (find_pa_new vs v offset caller u),
      λ x n. rw m (find_pa_old vs v (x - x % 4096) (x % 4096) caller n),
    )
