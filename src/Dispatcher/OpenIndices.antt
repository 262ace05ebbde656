-- ===== src/Dispatcher/OpenIndices.antt =====
-- src/dispatcher/open-indices.c: the list of the paths that processes have locked. Each function
-- holds `DispatcherOpenIndices_lock` from its start to its return, so it is one step.
pub mod Check
pub mod Exclusive
pub mod Ids
use hypnoticos.Base.{
  ℕ, zero, suc, ◌+◌, ◌∷◌, Bool, true, false, ◌&&◌, Option, none, some, List, [], ◌++◌, ◌==◌,
  if◌then◌else◌, length, get_elem?,
}
use hypnoticos.Fs.{FsIndex}
use hypnoticos.Libc.Text.{strcmp}

-- DispatcherOpenIndex_t; the process is given by its PID.
pub record OpenIndex : Type 0 where
  pub open_index_id : ℕ
  pub path : List ℕ
  pub pid : ℕ
  pub directory_data : Option (List FsIndex)

-- OPEN_INDICES_MAX_ID
abbrev pub open_indices_max_id : ℕ
open_indices_max_id = 10000

-- The search for the path.
unfoldable pub has_path : List OpenIndex → List ℕ → Bool
has_path [] path = false
has_path (e ∷ es) path = if strcmp e.path path == 0 then true else has_path es path

-- The inner loop of the search for an id: `fail`.
unfoldable pub id_taken : List OpenIndex → ℕ → Bool
id_taken [] id = false
id_taken (e ∷ es) id = let rest = id_taken es id in if e.open_index_id == id then true else rest

-- The outer loop, from `id` on for `n` rounds.
unfoldable pub find_id : List OpenIndex → (n id : ℕ) → Option ℕ
find_id es zero id = none
find_id es (suc n) id = let rest = find_id es n (id + 1) in if id_taken es id then rest else some id

-- The new entry.
abbrev pub new_index : ℕ → List ℕ → ℕ → OpenIndex
new_index id path pid = record { open_index_id = id; path = path; pid = pid; directory_data = none }

-- DispatcherIndexLockAttempt for the process `pid`; `entry_room` and `path_room` say whether the two
-- calls of `malloc` return memory.
unfoldable pub lock_attempt :
    (entry_room path_room : Bool) → ℕ → List ℕ → List OpenIndex → Option OpenIndex × List OpenIndex
lock_attempt entry_room path_room pid path es =
    if has_path es path
    then (none, es)
    else if entry_room
    then elim (find_id es 9999 1) [
      | none ↦ (none, es)
      | some id ↦
          if path_room
          then (some (new_index id path pid), es ++ new_index id path pid ∷ [])
          else (none, es)
    ]
    else (none, es)

-- DispatcherIndexLockRetrieve
pub lock_retrieve : ℕ → ℕ → List OpenIndex → Option OpenIndex
lock_retrieve pid id [] = none
lock_retrieve pid id (e ∷ es) =
    if (e.open_index_id == id) && (e.pid == pid) then some e else lock_retrieve pid id es

-- DispatcherIndexLockDone_Locked: from the entry with the id on, each place takes the next one's
-- entry, so that this entry drops out. The array keeps a NULL in its last two places.
unfoldable pub lock_done : ℕ → List OpenIndex → List OpenIndex
lock_done id [] = []
lock_done id (e ∷ es) = if e.open_index_id == id then es else e ∷ lock_done id es

-- The loop of `DispatcherIndexLockCheck` from index `i` on. `n` bounds the rounds: `i` grows in each
-- one, and the array does not, so its length is enough.
pub check_from : (n i : ℕ) → ℕ → List OpenIndex → List OpenIndex
check_from zero i pid es = es
check_from (suc n) i pid es = elim (get_elem? es i) [
  | none ↦ es
  | some e ↦ check_from n (i + 1) pid (if e.pid == pid then lock_done e.open_index_id es else es)
]

-- DispatcherIndexLockCheck
pub lock_check : ℕ → List OpenIndex → List OpenIndex
lock_check pid es = check_from (length es) 0 pid es
