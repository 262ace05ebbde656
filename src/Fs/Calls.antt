-- ===== src/Fs/Calls.antt =====
-- The file system's calls: read.c, write.c, list.c, new-index.c, details-get.c, new-root.c and init.c
-- of src/fs/, over the roots in `FsRoots`. The calls of `malloc` and `realloc` succeed here, but for
-- those that are arguments.
pub mod Laws
use hypnoticos.Base.{
  ℕ, Bool, true, false, Option, none, some, List, [], ◌∷◌, ◌++◌, ◌==◌, if◌then◌else◌, arith, ◌≡◌,
}
use hypnoticos.Storage.{Disk}
use hypnoticos.Fs.{FsIndex}
use hypnoticos.Fs.Path.{path_breakdown}
use hypnoticos.Fs.HypnoticFs.Files.{
  read, write, list, details_get, Created, created, refused, wild, create_index,
}

-- ROOT_TYPE_HYPNOTICFS
abbrev pub root_type_hypnoticfs : ℕ
root_type_hypnoticfs = 1

-- FsRoot_t, with its storage.
pub record Root : Type 0 where
  pub fs_type : ℕ
  pub disk : Disk

-- FsInit; the ROOT_TYPE_END behind the roots is left out.
pub fs_init : List Root
fs_init = []

-- FsNewRoot. A root of the type ROOT_TYPE_END, 0, is the end of the array.
unfoldable pub fs_new_root : (fs_type : ℕ) → Disk → List Root → List Root
fs_new_root fs_type storage roots =
    if fs_type == 0 then roots else roots ++ record { fs_type = fs_type; disk = storage } ∷ []

-- `&(FsRoots[0])`, where it is a HypnoticFS: the others end in the `default`.
unfoldable pub first_root : List Root → Option Disk
first_root [] = none
first_root (r ∷ rs) = if r.fs_type == root_type_hypnoticfs then some r.disk else none

-- The roots with another disk behind the first one.
unfoldable pub set_disk : Disk → List Root → List Root
set_disk d [] = []
set_disk d (r ∷ rs) = record r { disk = d } ∷ rs

-- What every call does first: `path_short` and the disk, or `none` where the call fails.
unfoldable pub enter : List Root → (path : List ℕ) → Option (List (List ℕ) × Disk)
enter roots path = elim (path_breakdown path) [
  | none ↦ none
  | some path_short ↦ elim (first_root roots) [ none ↦ none | some d ↦ some (path_short, d) ]
]

-- FsRead
unfoldable pub fs_read : List Root → (path : List ℕ) → (offset size : ℕ) → ℕ × List ℕ
fs_read roots path offset size = elim (enter roots path) [
  | none ↦ (0, [])
  | some (path_short, d) ↦ read d path_short offset size
]

-- FsWrite
unfoldable pub fs_write : Bool → List Root → (path : List ℕ) → (offset : ℕ) → List ℕ → ℕ × List Root
fs_write room roots path offset src = elim (enter roots path) [
  | none ↦ (0, roots)
  | some (path_short, d) ↦ let r = write room d path_short offset src in (r.0, set_disk r.1 roots)
]

-- FsList
unfoldable pub fs_list : Bool → (ℕ → Bool) → List Root → (path : List ℕ) → Option (List FsIndex)
fs_list room_list room roots path = elim (enter roots path) [
  | none ↦ none
  | some (path_short, d) ↦ list room_list room d path_short
]

-- FsDetailsGet
unfoldable pub fs_details_get : Bool → List Root → (path : List ℕ) → Option FsIndex
fs_details_get room roots path = elim (enter roots path) [
  | none ↦ none
  | some (path_short, d) ↦ details_get room d path_short
]

-- FsNewIndex
unfoldable pub fs_new_index : List Root → (path : List ℕ) → (type : ℕ) → Created
fs_new_index roots path type = elim (enter roots path) [
  | none ↦ refused
  | some (path_short, d) ↦ create_index d path_short type
]
