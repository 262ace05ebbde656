-- ===== src/Fs/HypnoticFs/Files.antt =====
-- The operations of HypnoticFS: read.c, write.c, list.c, new-index.c and details-get.c of
-- src/fs/hypnoticfs/.
use hypnoticos.Base.{
  ℕ, zero, suc, Bool, true, false, ◌||◌, Option, none, some, List, [], ◌∷◌, ◌==◌, if◌then◌else◌,
  ltb, add64, sub64, length, replicate,
}
use hypnoticos.Storage.{Disk, storage_read, storage_write}
use hypnoticos.Fs.{FsIndex}
use hypnoticos.Fs.HypnoticFs.{
  index_start, index_entry_size, type_directory, filename_size, Index, get_index_size, read_entry,
  pad_name,
}
use hypnoticos.Fs.HypnoticFs.IndexSpace.{
  get_index, get_empty_index, update_index, generate_fs_index,
}
use hypnoticos.Fs.HypnoticFs.Space.{find_space, Resized, failed, resized, resize}

-- The size that `FsRead_HypnoticFS` reads.
unfoldable pub read_size : Index → (offset size : ℕ) → ℕ
read_size e offset size =
    if ltb e.size (add64 offset size) then sub64 e.size offset else add64 offset size

-- FsRead_HypnoticFS: its result, and the bytes that it stores from `dest` on.
unfoldable pub read : Disk → List (List ℕ) → (offset size : ℕ) → ℕ × List ℕ
read d path_short offset size = elim (get_index d path_short) [
  | none ↦ (0, [])
  | some (at, e) ↦ elim (storage_read d (add64 e.offset offset) (read_size e offset size)) [
    | none ↦ (0, replicate size 0)
    | some bs ↦ (read_size e offset size, bs)
  ]
]

-- The write of the data, and the result.
unfoldable pub write_data : Disk → Index → (offset : ℕ) → List ℕ → ℕ × Disk
write_data d e offset src = elim (storage_write d (add64 e.offset offset) src) [
  | none ↦ (0, d)
  | some d' ↦ (1, d')
]

-- What follows the resizing.
unfoldable pub after_resize : (offset : ℕ) → List ℕ → Resized → ℕ × Disk
after_resize offset src (failed d) = (0, d)
after_resize offset src (resized d e) = write_data d e offset src

-- FsWrite_HypnoticFS, of the bytes `src`; `room` is for the `malloc` of the resizing.
unfoldable pub write : Bool → Disk → List (List ℕ) → (offset : ℕ) → List ℕ → ℕ × Disk
write room d path_short offset src = elim (get_index d path_short) [
  | none ↦ (0, d)
  | some (at, e) ↦
      if ltb e.size (add64 offset (length src))
      then after_resize offset src (resize room d at e (add64 offset (length src)))
      else write_data d e offset src
]

-- FsDetailsGet_HypnoticFS
unfoldable pub details_get : Bool → Disk → List (List ℕ) → Option FsIndex
details_get room d path_short = elim (get_index d path_short) [
  | none ↦ none
  | some (at, e) ↦ generate_fs_index room e
]

-- The loop of `FsList_HypnoticFS` over the index space, on fuel; `parent` is 0 for the root, and
-- `room n` says whether `malloc` returns memory for the entry at offset `n`. The first entry of the
-- directory for which no struct can be made ends the list.
unfoldable pub list_from : ℕ → Disk → (parent : ℕ) → (ℕ → Bool) → (entry_offset : ℕ) → List FsIndex
list_from zero d parent room entry_offset = []
list_from (suc fuel) d parent room entry_offset =
    elim (ltb (add64 entry_offset index_entry_size) (get_index_size d)) [
      | false ↦ []
      | true ↦ elim (read_entry d entry_offset) [
        | none ↦ []
        | some e ↦ elim (e.parent_offset == parent) [
          | false ↦ list_from fuel d parent room (add64 entry_offset index_entry_size)
          | true ↦ elim (generate_fs_index (room entry_offset) e) [
            | none ↦ []
            | some f ↦ f ∷ list_from fuel d parent room (add64 entry_offset index_entry_size)
          ]
        ]
      ]
    ]

-- The rest of `FsList_HypnoticFS`, once the directory is known; `room_list` is for the `malloc` of
-- the array.
unfoldable pub list_directory : Bool → (ℕ → Bool) → Disk → (parent : ℕ) → Option (List FsIndex)
list_directory room_list room d parent =
    if ltb (get_index_size d) index_start
    then none
    else if room_list
    then some (list_from (suc (get_index_size d)) d parent room index_start)
    else none

-- FsList_HypnoticFS
unfoldable pub list : Bool → (ℕ → Bool) → Disk → List (List ℕ) → Option (List FsIndex)
list room_list room d [] = list_directory room_list room d 0
list room_list room d (s ∷ ss) = elim (get_index d (s ∷ ss)) [
  | none ↦ none
  | some (at, e) ↦
      if ltb at index_start
      then none
      else if e.type == type_directory
      then list_directory room_list room d at
      else none
]

-- `wild` is a read of `path_short` outside the array, for a path with no part.
pub data Created : Type 0 where
  created : Disk → Created
  refused : Created
  wild : Created

-- The loop over the levels of the path, `n` of them: each one looks up the whole path.
unfoldable pub check_parents : ℕ → Disk → List (List ℕ) → (parent_offset : ℕ) → Option ℕ
check_parents zero d path_short parent_offset = some parent_offset
check_parents (suc n) d path_short parent_offset = elim (get_index d path_short) [
  | none ↦ none
  | some (at, e) ↦ elim (e.type == type_directory) [
    | true ↦ check_parents n d path_short e.offset
    | false ↦ none
  ]
]

-- The new entry is written.
unfoldable pub write_index :
    Disk → (type parent_offset : ℕ) → (name : List ℕ) → (at offset : ℕ) → Created
write_index d type parent_offset name at offset =
    elim (update_index d at (record {
      type = type;
      parent_offset = parent_offset;
      size = 0;
      offset = offset;
      name = pad_name name;
    })) [ none ↦ refused | some d' ↦ created d' ]

-- From the test of the last part's length on.
unfoldable pub create_entry : Disk → (type parent_offset : ℕ) → (name : List ℕ) → Created
create_entry d type parent_offset name =
    if ltb filename_size (length name) || (length name == 0)
    then refused
    else elim (get_empty_index d) [
      | none ↦ refused
      | some at ↦ elim (find_space d 0) [
        | none ↦ refused
        | some offset ↦ write_index d type parent_offset name at offset
      ]
    ]

unfoldable pub last_part : List ℕ → List (List ℕ) → List ℕ
last_part s [] = s
last_part s (t ∷ ss) = last_part t ss

-- FsNewIndex_HypnoticFS
unfoldable pub create_index : Disk → List (List ℕ) → (type : ℕ) → Created
create_index d path_short type = elim (get_index d path_short) [
  | some (at, e) ↦ refused
  | none ↦ elim path_short [
    | [] ↦ wild
    | s ∷ ss ↦ elim (check_parents (length ss) d (s ∷ ss) 0) [
      | none ↦ refused
      | some parent_offset ↦ create_entry d type parent_offset (last_part s ss)
    ]
  ]
]
