-- ===== src/Tests/Disk.antt =====
-- The file system at a small disk, and page tables.
use hypnoticos.Base.{ℕ, ◌+◌, ◌≤◌, ◌≡◌, ◌≢◌, refl, ◌⊎◌, inl, true, some, List, [], ◌∷◌, arith}
use hypnoticos.Storage.{
  Disk, bytes_at, store_bytes, read_memory_disk, storage_read, write_memory_disk, storage_write,
  storage_get_max,
}
use hypnoticos.Storage.Laws.{Ends, written, storage_read-storage_write}
use hypnoticos.Fs.Path.{
  path_breakdown, breakdown, flush, path_consolidate, consolidate_segments, split_path, clear_last,
  place_segment, resolve, concat_segments, or_root,
}
use hypnoticos.Libc.Text.{memcmp, strcmp, differ}
use hypnoticos.Fs.HypnoticFs.{
  Index, encode, decode_entry, bytes_of, number_of, get_index_size, read_entry, unending,
  scan_entries, scan_index, pad_name,
}
use hypnoticos.Fs.HypnoticFs.Codec.{Fits}
use hypnoticos.Fs.HypnoticFs.IndexSpace.{
  same_name, directory_body, file_body, get_index_from, get_index, empty_body, get_empty_index,
  update_index,
}
use hypnoticos.Fs.HypnoticFs.Space.{
  clash, check_of, check_address, or_check, check_before, check_after, settle_check, space_body,
  used_body, after_passes, space_of, nonzero_offset, find_space, clash_other, check_other, Resized,
  failed, resized, finish_resize, resize_after, resize,
}
use hypnoticos.Fs.HypnoticFs.Files.{
  read, write, Created, created, refused, wild, check_parents, write_index, create_entry, last_part,
  create_index,
}
use hypnoticos.Fs.HypnoticFs.Scan.{EndsEarly, scan_index_done}
use hypnoticos.Fs.HypnoticFs.Lookup.{Resolves, get_index-Resolves}
use hypnoticos.Fs.HypnoticFs.Create.{Added, create_index-get_index}
use hypnoticos.Fs.HypnoticFs.Deep.{create_index-deep}
use hypnoticos.Fs.HypnoticFs.Reads.{OnDisk, contents, read_start}
use hypnoticos.Fs.HypnoticFs.Contents.{Rewritten, splice, write-read}
use hypnoticos.Fs.HypnoticFs.Growth.{Grown, resize-Grown}
use hypnoticos.Fs.HypnoticFs.Free.{Outside, find_space-Outside}
use hypnoticos.Fs.Calls.{
  Root, enter, first_root, set_disk, fs_read, fs_write, fs_details_get, fs_new_index,
}
use hypnoticos.Fs.Calls.Laws.{fs_new_index-fs_details_get, fs_write-fs_read}

-- An entry for a file in the root.
abbrev file_entry : (size offset : ℕ) → List ℕ → Index
file_entry size offset name = record {
  type = 1;
  parent_offset = 0;
  size = size;
  offset = offset;
  name = pad_name name;
}

abbrev entry_a : Index
entry_a = file_entry 4 300 (b'a' ∷ [])

-- An index space of three entries: the file "a", and two empty entries.
abbrev disk_1 : Disk
disk_1 = record {
  device_type = 1;
  size = 1000;
  bytes = store_bytes (store_bytes (λ n. 0) 11 (bytes_of 8 191)) 19 (encode entry_a);
}

abbrev path_a : List (List ℕ)
path_a = (b'a' ∷ []) ∷ []

size_1 : get_index_size disk_1 ≡ 191
unfolding get_index_size storage_read read_memory_disk bytes_at store_bytes number_of bytes_of
    encode pad_name
size_1 = refl

entry_1 : read_entry disk_1 19 ≡ some entry_a
unfolding read_entry storage_read read_memory_disk bytes_at store_bytes number_of bytes_of encode
    decode_entry pad_name
entry_1 = refl

found_a : get_index disk_1 path_a ≡ some (19, entry_a)
unfolding get_index_size read_entry scan_index scan_entries get_index get_index_from directory_body
    file_body same_name memcmp storage_read read_memory_disk bytes_at store_bytes number_of bytes_of
    encode decode_entry pad_name
found_a = refl

abbrev source : List ℕ
source = b'x' ∷ b'y' ∷ []

storage_read-storage_write_example :
    (storage_read (written disk_1 301 source) 301 2 ≡ some source)
    × ((at n : ℕ)
        → Ends at n
        → (at + n ≤ 301) ⊎ (303 ≤ at)
        → storage_read (written disk_1 301 source) at n ≡ storage_read disk_1 at n)
unfolding storage_write write_memory_disk
storage_read-storage_write_example =
    storage_read-storage_write disk_1 (written disk_1 301 source) 301 source (omega arith) refl

entry_a-Fits : Fits entry_a
unfolding pad_name
entry_a-Fits = record {
  type = omega arith;
  parent_offset = omega arith;
  size = omega arith;
  offset = omega arith;
  name = refl;
}

early_1 : EndsEarly (get_index_size disk_1)
early_1 = omega (arith, size_1)

get_index-Resolves_example : Resolves disk_1 0 path_a 19 entry_a
get_index-Resolves_example = get_index-Resolves disk_1 path_a 19 entry_a early_1 found_a

abbrev name_b : List ℕ
name_b = b'b' ∷ []

-- The disk that `create_index` leaves.
abbrev disk_of : Created → Disk
disk_of (created d) = d
disk_of refused = disk_1
disk_of wild = disk_1

abbrev disk_2 : Disk
disk_2 = disk_of (create_index disk_1 (name_b ∷ []) 1)

created_b : create_index disk_1 (name_b ∷ []) 1 ≡ created disk_2
unfolding create_index check_parents create_entry last_part write_index get_empty_index empty_body
    find_space nonzero_offset space_of space_body settle_check or_check check_before check_after
    check_address check_of clash after_passes used_body get_index_size read_entry scan_index
    scan_entries get_index get_index_from directory_body file_body same_name memcmp update_index
    storage_write write_memory_disk storage_get_max storage_read read_memory_disk bytes_at
    store_bytes number_of bytes_of encode decode_entry pad_name
created_b = refl

create_index-get_index_example : (at : ℕ) × (offset : ℕ) × Added disk_1 1 name_b at offset disk_2
create_index-get_index_example =
    create_index-get_index disk_1 disk_2 1 name_b early_1 (ground arith) (omega arith) created_b

create_index-deep_example : create_index disk_1 ((b'd' ∷ []) ∷ name_b ∷ []) 1 ≡ refused
create_index-deep_example = create_index-deep disk_1 (b'd' ∷ []) name_b [] 1

entry_a-OnDisk : OnDisk disk_1 entry_a
entry_a-OnDisk = (refl, omega arith, omega arith)

write-read_example :
    (d' : Disk) × (write true disk_1 path_a 1 source ≡ (1, d'))
    × Rewritten disk_1 path_a entry_a 1 source d'
write-read_example =
    write-read true disk_1 path_a 1 source 19 entry_a early_1 found_a entry_a-OnDisk
      (omega (arith, size_1)) (omega arith)

read_start_example : read disk_1 path_a 0 9 ≡ (4, bytes_at disk_1.bytes 300 4)
read_start_example = read_start disk_1 path_a 9 19 entry_a found_a entry_a-OnDisk (omega arith)

abbrev resized_disk : Resized → Disk
resized_disk (resized d e) = d
resized_disk (failed d) = d

abbrev resized_entry : Resized → Index
resized_entry (resized d e) = e
resized_entry (failed d) = entry_a

abbrev grown : Resized
grown = resize true disk_1 19 entry_a 6

grown_a : resize true disk_1 19 entry_a 6 ≡ resized (resized_disk grown) (resized_entry grown)
unfolding resize resize_after check_other check_of clash_other finish_resize get_index_size
    read_entry scan_index scan_entries update_index storage_write write_memory_disk storage_get_max
    storage_read read_memory_disk bytes_at store_bytes number_of bytes_of encode decode_entry
    pad_name
grown_a = refl

resize-Grown_example : Grown 19 entry_a 6 (resized_disk grown) (resized_entry grown)
resize-Grown_example =
    resize-Grown true disk_1 19 entry_a 6 (resized_disk grown) (resized_entry grown) entry_a-Fits
      (omega arith) (omega arith) (omega arith) early_1 grown_a

found_space : find_space disk_1 20 ≡ some 280
unfolding find_space nonzero_offset space_of space_body settle_check or_check check_before
    check_after check_address check_of clash after_passes used_body get_index_size read_entry
    scan_index scan_entries update_index storage_write write_memory_disk storage_get_max
    storage_read read_memory_disk bytes_at store_bytes number_of bytes_of encode decode_entry
    pad_name
found_space = refl

find_space-Outside_example : Outside entry_a 280
find_space-Outside_example =
    find_space-Outside disk_1 0 entry_a early_1 (omega (arith, size_1)) entry_1 (ground arith)
      (omega arith) 20 280 found_space

-- A file behind the first empty entry.
abbrev disk_3 : Disk
disk_3 = written disk_1 133 (encode entry_a)

abbrev second : Disk → Index
second d = decode_entry (bytes_at d.bytes 76 57)

abbrev root_1 : Root
root_1 = record { fs_type = 1; disk = disk_1 }

abbrev text_a : List ℕ
text_a = b'/' ∷ b'a' ∷ []

abbrev text_b : List ℕ
text_b = b'/' ∷ b'b' ∷ []

path_to_a : path_breakdown text_a ≡ some path_a
unfolding path_breakdown breakdown flush path_consolidate consolidate_segments split_path clear_last
    place_segment resolve concat_segments or_root strcmp differ
path_to_a = refl

path_to_b : path_breakdown text_b ≡ some (name_b ∷ [])
unfolding path_breakdown breakdown flush path_consolidate consolidate_segments split_path clear_last
    place_segment resolve concat_segments or_root strcmp differ
path_to_b = refl

-- The call of the file system is the one of HypnoticFS.
called_b : fs_new_index (root_1 ∷ []) text_b 1 ≡ created disk_2
unfolding fs_new_index enter first_root path_breakdown breakdown flush path_consolidate
    consolidate_segments split_path clear_last place_segment resolve concat_segments or_root strcmp
    differ
called_b = created_b

fs_new_index-fs_details_get_example :
    fs_details_get true (set_disk disk_2 (root_1 ∷ [])) text_b
    ≡ some (record { type = 1; size = 0; name = some name_b })
fs_new_index-fs_details_get_example =
    fs_new_index-fs_details_get root_1 [] text_b name_b 1 disk_2 refl path_to_b (inl refl)
      (ground arith, tt) (omega arith) early_1 called_b

fs_write-fs_read_example :
    (roots : List Root) × (fs_write true (root_1 ∷ []) text_a 1 source ≡ (1, roots))
    × (fs_read roots text_a 0 4 ≡ (4, splice 1 source (contents disk_1 entry_a)))
fs_write-fs_read_example =
    fs_write-fs_read true root_1 [] text_a path_a 1 source 19 entry_a refl path_to_a early_1 found_a
      entry_a-OnDisk (omega (arith, size_1)) (omega arith)

scan_index_done_example : scan_index disk_1 empty_body ≢ unending
scan_index_done_example = scan_index_done disk_1 empty_body (omega (arith, size_1)) early_1
