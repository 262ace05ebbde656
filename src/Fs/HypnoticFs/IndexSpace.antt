-- ===== src/Fs/HypnoticFs/IndexSpace.antt =====
-- The index space of src/fs/hypnoticfs/hypnoticfs.c.
use hypnoticos.Base.{
  ℕ, Bool, ◌&&◌, not, Option, none, some, List, [], ◌∷◌, ◌==◌, if◌then◌else◌, ltb, length,
}
use hypnoticos.Storage.{Disk, storage_write}
use hypnoticos.Fs.HypnoticFs.{
  index_start, type_empty, type_file, type_directory, filename_size, Index, encode, get_index_size,
  ScanResult, hit, miss, read_error, unending, scan_index, pad_name,
}
use hypnoticos.Fs.{FsIndex}
use hypnoticos.Libc.Text.{memcmp}

-- `memcmp(entry.name, buffer, HYPNOTICFS_FILENAME_SIZE) == 0`
unfoldable pub same_name : Index → List ℕ → Bool
same_name e s = memcmp e.name (pad_name s) filename_size == 0

-- A loop that returns where a read fails and goes on behind the loop where nothing is found: the
-- result of both is 0. (A loop without end needs a disk of about 2 ^ 64 bytes; it is taken as a failure.)
abbrev pub scan_value {ℓ} : {A : Type ℓ} → ScanResult A → Option A
scan_value (hit a) = some a
scan_value miss = none
scan_value read_error = none
scan_value unending = none

-- The body of the loop that looks for a directory of the path.
unfoldable pub directory_body : List ℕ → (parent_offset : ℕ) → ℕ → Index → Option ℕ
directory_body s parent_offset entry_offset e =
    if (e.type == type_directory) && (same_name e s && (e.parent_offset == parent_offset))
    then some entry_offset
    else none

-- The body of the loop that looks for the last part of the path.
unfoldable pub file_body : List ℕ → (parent_offset : ℕ) → ℕ → Index → Option (ℕ × Index)
file_body s parent_offset entry_offset e =
    if not (e.type == type_empty) && ((e.parent_offset == parent_offset) && same_name e s)
    then some (entry_offset, e)
    else none

-- The loops of `Fs_HypnoticFS_GetIndex` from a part of the path on.
unfoldable pub get_index_from : Disk → (parent_offset : ℕ) → List (List ℕ) → Option (ℕ × Index)
get_index_from d parent_offset [] = none
get_index_from d parent_offset (s ∷ []) =
    if ltb filename_size (length s)
    then none
    else scan_value (scan_index d (file_body s parent_offset))
get_index_from d parent_offset (s ∷ t ∷ ss) =
    if ltb filename_size (length s)
    then none
    else elim (scan_value (scan_index d (directory_body s parent_offset))) [
      | none ↦ none
      | some p ↦ get_index_from d p (t ∷ ss)
    ]

-- Fs_HypnoticFS_GetIndex: the offset of the entry and the entry, or `none` where it returns 0.
unfoldable pub get_index : Disk → List (List ℕ) → Option (ℕ × Index)
get_index d path_short =
    if ltb (get_index_size d) index_start then none else get_index_from d 0 path_short

unfoldable pub empty_body : ℕ → Index → Option ℕ
empty_body entry_offset e = if e.type == type_empty then some entry_offset else none

-- Fs_HypnoticFS_GetEmptyIndex
unfoldable pub get_empty_index : Disk → Option ℕ
get_empty_index d =
    if ltb (get_index_size d) index_start then none else scan_value (scan_index d empty_body)

-- Fs_HypnoticFS_UpdateIndex: the disk that it leaves, or `none` where it returns 0.
unfoldable pub update_index : Disk → ℕ → Index → Option Disk
update_index d index_data_offset e = storage_write d index_data_offset (encode e)

-- The text that `strcpy` reads from the array, up to its NUL; `none` for an array without NUL, as of a
-- name of 32 characters: there `strcpy` reads on behind the entry, in memory that is not known here.
unfoldable pub name_text : List ℕ → Option (List ℕ)
name_text [] = none
name_text (ch ∷ cs) =
    let rest = name_text cs in
    if ch == 0 then some [] else elim rest [ none ↦ none | some text ↦ some (ch ∷ text) ]

-- Fs_HypnoticFS_GenerateFsIndex; `room` says whether `malloc` returns memory. INDEX_TYPE_FILE is 1
-- and INDEX_TYPE_DIRECTORY is 2.
unfoldable pub generate_fs_index : Bool → Index → Option FsIndex
generate_fs_index room e =
    if room
    then if e.type == type_file
      then some (record { type = 1; size = e.size; name = name_text e.name })
      else if e.type == type_directory
      then some (record { type = 2; size = e.size; name = name_text e.name })
      else none
    else none
