-- ===== src/Fs/HypnoticFs/Space.antt =====
-- Room for data: `Fs_HypnoticFS_FindSpace` and `Fs_HypnoticFS_Resize` of
-- src/fs/hypnoticfs/hypnoticfs.c.
use hypnoticos.Base.{
  ℕ, zero, suc, Bool, ◌&&◌, ◌||◌, not, Option, none, some, ◌==◌, if◌then◌else◌, ltb, leb, add64,
  sub64,
}
use hypnoticos.Storage.{Disk, storage_read, storage_write, storage_get_max}
use hypnoticos.Fs.HypnoticFs.{
  index_start, type_empty, Index, get_index_size, ScanResult, hit, miss, read_error, unending,
  scan_index,
}
use hypnoticos.Fs.HypnoticFs.IndexSpace.{update_index}

-- The tests of the second pass, for one entry: a hit is `problem`.
unfoldable pub clash : (check_at : ℕ) → ℕ → Index → Option (Unit {0})
clash check_at entry_offset e =
    if not (e.type == type_empty)
      && ((e.offset == check_at)
          || ((ltb e.offset check_at && ltb check_at (add64 e.offset e.size))
              || (ltb check_at e.offset && leb (add64 e.offset e.size) check_at)))
    then some tt
    else none

-- What a check of one address comes to: the search returns, or goes on.
pub data Check : Type 0 where
  at_address : ℕ → Check
  fails : Check
  goes_on : Check

unfoldable pub check_of : ℕ → ScanResult (Unit {0}) → Check
check_of check_at (hit u) = goes_on
check_of check_at miss = at_address check_at
check_of check_at read_error = fails
check_of check_at unending = fails

-- The second pass.
unfoldable pub check_address : Disk → (check_at : ℕ) → Check
check_address d check_at = check_of check_at (scan_index d (clash check_at))

unfoldable pub or_check : Check → Check → Check
or_check (at_address a) c = at_address a
or_check fails c = fails
or_check goes_on c = c

-- The space before an entry.
unfoldable pub check_before : Disk → (size : ℕ) → Index → Check
check_before d size e =
    if ltb size (sub64 e.offset (get_index_size d))
    then check_address d (sub64 e.offset size)
    else goes_on

-- The space after an entry.
unfoldable pub check_after : Disk → (size : ℕ) → Index → Check
check_after d size e =
    if ltb (add64 (add64 e.offset e.size) size) (storage_get_max d)
    then check_address d (add64 (add64 e.offset e.size) size)
    else goes_on

-- The end of the first pass at an entry: `some none` is a return of 0.
unfoldable pub settle_check : Check → Option (Option ℕ)
settle_check (at_address a) = some (some a)
settle_check fails = some none
settle_check goes_on = none

-- The body of the first pass.
unfoldable pub space_body : Disk → (size : ℕ) → ℕ → Index → Option (Option ℕ)
space_body d size entry_offset e =
    if e.type == type_empty
    then none
    else settle_check (or_check (check_before d size e) (check_after d size e))

-- An entry in use.
unfoldable pub used_body : ℕ → Index → Option (Unit {0})
used_body entry_offset e = if e.type == type_empty then none else some tt

-- The end of `Fs_HypnoticFS_FindSpace` after the first pass; `used` is a hit if some entry is in use,
-- that is, if `all_are_empty` is 0.
unfoldable pub after_passes : Disk → (size : ℕ) → ScanResult (Unit {0}) → Option ℕ
after_passes d size miss =
    if ltb size (sub64 (storage_get_max d) (get_index_size d))
    then some (get_index_size d)
    else none
after_passes d size (hit u) = none
after_passes d size read_error = none
after_passes d size unending = none

unfoldable pub space_of : Disk → (size : ℕ) → ScanResult (Option ℕ) → Option ℕ
space_of d size (hit r) = r
space_of d size miss = after_passes d size (scan_index d used_body)
space_of d size read_error = none
space_of d size unending = none

-- The result 0 is the failure, for an address 0 as well.
unfoldable pub nonzero_offset : Option ℕ → Option ℕ
nonzero_offset none = none
nonzero_offset (some zero) = none
nonzero_offset (some (suc a)) = some (suc a)

-- Fs_HypnoticFS_FindSpace: `none` where it returns 0.
unfoldable pub find_space : Disk → (size : ℕ) → Option ℕ
find_space d size =
    if ltb (get_index_size d) index_start
    then none
    else nonzero_offset (space_of d size (scan_index d (space_body d size)))

-- The tests of `Fs_HypnoticFS_Resize`, for one entry: the current one is passed over.
unfoldable pub clash_other : (current check_at : ℕ) → ℕ → Index → Option (Unit {0})
clash_other current check_at entry_offset e =
    if (not (e.type == type_empty) && not (e.offset == current))
      && ((e.offset == check_at)
          || ((ltb e.offset check_at && leb check_at (add64 e.offset e.size))
              || (ltb check_at e.offset && leb (add64 e.offset e.size) check_at)))
    then some tt
    else none

unfoldable pub check_other : Disk → (current check_at : ℕ) → Check
check_other d current check_at = check_of check_at (scan_index d (clash_other current check_at))

-- What `Fs_HypnoticFS_Resize` leaves on the disk; the entry is the caller's one, and is only used
-- where it succeeds.
pub data Resized : Type 0 where
  failed : Disk → Resized
  resized : Disk → Index → Resized

-- The entry in the index space is written, with the caller's entry changed already.
unfoldable pub finish_resize : Disk → (index_data_offset : ℕ) → Index → Resized
finish_resize d index_data_offset e = elim (update_index d index_data_offset e) [
  | none ↦ failed d
  | some d' ↦ resized d' e
]

-- The data are moved, and then the entry is written; `room` says whether `malloc` returns memory.
unfoldable pub move_data :
    Bool → Disk → (index_data_offset : ℕ) → Index → (new_size new_offset : ℕ) → Resized
move_data room d index_data_offset e new_size new_offset =
    let e' : Index = record e { size = new_size; offset = new_offset } in
    if e.size == 0
    then finish_resize d index_data_offset e'
    else if room
    then elim (storage_read d e.offset e.size) [
      | none ↦ failed d
      | some bs ↦ elim (storage_write d new_offset bs) [
        | none ↦ failed d
        | some d' ↦ finish_resize d' index_data_offset e'
      ]
    ]
    else failed d

-- The rest of `Fs_HypnoticFS_Resize`, where there is no space before the entry or after it.
unfoldable pub resize_elsewhere :
    Bool → Disk → (index_data_offset : ℕ) → Index → (new_size : ℕ) → Resized
resize_elsewhere room d index_data_offset e new_size = elim (find_space d new_size) [
  | none ↦ failed d
  | some new_offset ↦ move_data room d index_data_offset e new_size new_offset
]

-- The space before the entry.
unfoldable pub resize_before :
    Bool → Disk → (index_data_offset : ℕ) → Index → (new_size : ℕ) → Resized
resize_before room d index_data_offset e new_size =
    let additional = sub64 new_size e.size in
    if ltb (add64 (get_index_size d) additional) e.offset
    then elim (check_other d e.offset (sub64 e.offset additional)) [
      | at_address a ↦ move_data room d index_data_offset e new_size a
      | fails ↦ failed d
      | goes_on ↦ resize_elsewhere room d index_data_offset e new_size
    ]
    else resize_elsewhere room d index_data_offset e new_size

-- The space after the entry.
unfoldable pub resize_after :
    Bool → Disk → (index_data_offset : ℕ) → Index → (new_size : ℕ) → Resized
resize_after room d index_data_offset e new_size =
    let end = add64 (add64 e.offset e.size) (sub64 new_size e.size) in
    if ltb end (storage_get_max d)
    then elim (check_other d e.offset end) [
      | at_address a ↦ finish_resize d index_data_offset (record e { size = new_size })
      | fails ↦ failed d
      | goes_on ↦ resize_before room d index_data_offset e new_size
    ]
    else resize_before room d index_data_offset e new_size

-- Fs_HypnoticFS_Resize
unfoldable pub resize : Bool → Disk → (index_data_offset : ℕ) → Index → (new_size : ℕ) → Resized
resize room d index_data_offset e new_size =
    if ltb (get_index_size d) index_start
    then failed d
    else if ltb new_size e.size
    then finish_resize d index_data_offset (record e { size = new_size })
    else resize_after room d index_data_offset e new_size
