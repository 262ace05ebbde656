-- ===== src/Tests/Programs.antt =====
-- ELF files and their pages.
use hypnoticos.Base.{
  ℕ, ◌+◌, ◌*◌, ◌<◌, ◌≡◌, ◌≢◌, ◌↔◌, refl, true, none, some, List, [], ◌∷◌, ◌++◌, get_or, replicate,
  arith,
}
use hypnoticos.Storage.{bytes_at, store_bytes}
use hypnoticos.Fs.HypnoticFs.{number_of, bytes_of}
use hypnoticos.Storage.{Disk, read_memory_disk, storage_read}
use hypnoticos.Libc.Text.{memcmp, strcmp, differ}
use hypnoticos.Fs.{FsIndex}
use hypnoticos.Fs.Path.{
  path_breakdown, breakdown, flush, path_consolidate, consolidate_segments, split_path, clear_last,
  place_segment, resolve, concat_segments, or_root,
}
use hypnoticos.Fs.HypnoticFs.{
  Index, encode, decode_entry, get_index_size, read_entry, scan_entries, scan_index, pad_name,
}
use hypnoticos.Fs.HypnoticFs.IndexSpace.{
  same_name, file_body, get_index_from, get_index, name_text, generate_fs_index,
}
use hypnoticos.Fs.HypnoticFs.Files.{read, read_size, details_get}
use hypnoticos.Fs.Calls.{Root, enter, first_root, fs_read, fs_details_get}
use hypnoticos.Dispatcher.Process.{Process, dispatcher_find, run_process, set_rip}
use hypnoticos.Dispatcher.New.{
  stack_base, map_stack, stack_alloc_size, set_up_stack, step_pid, next_pid, set_up_init_data,
  pa_or_null, put_init_data, add_init_data, add_arguments,
}
use hypnoticos.Dispatcher.New.Pids.{IsPid, next_pid_free}
use hypnoticos.Dispatcher.New.Stack.{set_up_stack_behind}
use hypnoticos.Dispatcher.Start.{
  Supply, blank_process, pointers, with_arguments, add_array, fill_process, StartRun, refused,
  started, halted, endless, finish_start, after_set_up, start_image, start_format, start_file,
  new_from_format,
}
use hypnoticos.Dispatcher.Start.Started.{image_of, IsProgram, IsStarted, new_from_format-started}
use hypnoticos.Dispatcher.Addresses.{check_va, process_map, find_pa, get_pa}
use hypnoticos.Dispatcher.Load.{
  Space, Grant, add_page, mapped_page, allocate_page, allocate_pages, copy_file, page_count, loaded,
  load_at,
}
use hypnoticos.Dispatcher.Load.Copies.{copy_file_second}
use hypnoticos.Dispatcher.Elf.{
  field, detected, is_supported, no_magic, detect, can_read, ElfRun, halts, gave_up, set_up_done,
  unending, after_load, load_segment, load_header, after_headers, load_headers, set_up,
}
use hypnoticos.Dispatcher.Elf.Detect.{SomeMagic, IsExecutable, detect_iff}
use hypnoticos.Dispatcher.Elf.Headers.{IsBytes, IsLoadable, set_up_ends, set_up-IsLoadable}

-- Numbers with their widths, as bytes.
abbrev numbers : List (ℕ × ℕ) → List ℕ
numbers [] = []
numbers (p ∷ ps) = bytes_of p.0 p.1 ++ numbers ps

abbrev header : List (ℕ × ℕ)
header =
    (2, 2)
    ∷ (2, 0x3E)
    ∷ (4, 1)
    ∷ (8, 0x400000)
    ∷ (8, 64)
    ∷ (12, 0)
    ∷ (2, 64)
    ∷ (2, 56)
    ∷ (2, 1)
    ∷ (6, 0)
    ∷ []

abbrev program_header : List (ℕ × ℕ)
program_header =
    (4, 1) ∷ (4, 0) ∷ (8, 120) ∷ (8, 0x400000) ∷ (8, 0) ∷ (8, 4) ∷ (8, 4) ∷ (8, 0x1000) ∷ []

-- A file with one program header, for four bytes at the address 0x400000.
abbrev file : List ℕ
file =
    0x7F ∷ b'E' ∷ b'L' ∷ b'F' ∷ 2 ∷ 1 ∷ 1 ∷ 0 ∷ replicate 8 0
    ++ (numbers header ++ (numbers program_header ++ 1 ∷ 2 ∷ 3 ∷ 4 ∷ 5 ∷ []))

abbrev image : ℕ → ℕ
image n = get_or file n 0

abbrev grants : ℕ → ℕ → Grant
grants k i = record { address = some 0x9000; paged = true }

abbrev space : Space
space = record { map = []; alloc = []; bytes = λ n. 0 }

detect_iff_example :
    (detect image 125 ≡ detected) ↔ ((64 < 125) × SomeMagic image × IsExecutable image)
detect_iff_example = detect_iff image 125

detected_file : detect image 125 ≡ detected
unfolding detect no_magic is_supported field number_of bytes_at bytes_of
detected_file = refl

abbrev space_of_run : ElfRun → Space
space_of_run (set_up_done s) = s
space_of_run halts = space
space_of_run (gave_up s) = s
space_of_run unending = space

abbrev run : ElfRun
run = (set_up grants image 125 space).1

run_done : run ≡ set_up_done (space_of_run run)
unfolding set_up load_headers load_header load_segment can_read after_load after_headers load_at
    loaded allocate_pages allocate_page mapped_page process_map check_va page_count field number_of
    bytes_at bytes_of
run_done = refl

set_up-IsLoadable_example : IsLoadable image 125 64
unfolding field number_of bytes_at bytes_of
set_up-IsLoadable_example =
    set_up-IsLoadable grants image 125 space (space_of_run run) (omega arith) (omega arith) run_done
      0 (omega arith)

abbrev blank : ℕ → ℕ
blank n = 0

blank-IsBytes : IsBytes blank
blank-IsBytes n = omega arith

set_up_ends_example : (set_up grants blank 200 space).1 ≢ unending
set_up_ends_example = set_up_ends grants blank 200 space blank-IsBytes

copy_file_second_example :
    bytes_at (copy_file 0x400000 image (4096 + 8) (0x9000 ∷ 0xA000 ∷ []) space).bytes 0xA000 8
    ≡ bytes_at image 0 8
copy_file_second_example =
    copy_file_second 0x400000 image 8 0x9000 0xA000 [] space refl (omega arith) (omega arith)

-- The file on a disk, under the name "p".
abbrev program_entry : Index
program_entry = record {
  type = 1;
  parent_offset = 0;
  size = 125;
  offset = 300;
  name = pad_name (b'p' ∷ []);
}

abbrev program_disk : Disk
program_disk = record {
  device_type = 1;
  size = 1000;
  bytes =
      store_bytes (store_bytes (store_bytes (λ n. 0) 11 (bytes_of 8 191)) 19 (encode program_entry))
        300 file;
}

abbrev program_roots : List Root
program_roots = record { fs_type = 1; disk = program_disk } ∷ []

abbrev program_path : List ℕ
program_path = b'/' ∷ b'p' ∷ []

abbrev supply : Supply
supply = record {
  details = true;
  file = true;
  pages = λ i. record { address = some (0x10000 + i * 4096); paged = true };
  segments = grants;
  pml4 = 0x8000;
  stack = some 0x20000;
  stack_paged = λ i. true;
}

abbrev run_of : StartRun
run_of = new_from_format supply program_roots program_path [] 6 []

abbrev list_of : StartRun → List Process
list_of (started ps p s) = ps
list_of (refused ps) = ps
list_of halted = []
list_of endless = []

abbrev process_of : StartRun → Process
process_of (started ps p s) = p
process_of (refused ps) = blank_process 0 0
process_of halted = blank_process 0 0
process_of endless = blank_process 0 0

abbrev space_left : StartRun → Space
space_left (started ps p s) = s
space_left (refused ps) = space
space_left halted = space
space_left endless = space

runs : run_of ≡ started (list_of run_of) (process_of run_of) (space_left run_of)
unfolding add_page copy_file new_from_format start_file start_format start_image after_set_up
    finish_start fill_process add_array with_arguments pointers blank_process run_process set_rip
    dispatcher_find next_pid step_pid set_up_stack map_stack stack_alloc_size set_up_init_data
    put_init_data pa_or_null add_init_data add_arguments get_pa find_pa set_up load_headers
    load_header load_segment can_read after_load after_headers load_at loaded allocate_pages
    allocate_page mapped_page process_map check_va page_count detect no_magic is_supported field
    fs_details_get fs_read enter first_root path_breakdown breakdown flush path_consolidate
    consolidate_segments split_path clear_last place_segment resolve concat_segments or_root strcmp
    differ details_get generate_fs_index name_text read read_size get_index get_index_from file_body
    same_name memcmp get_index_size read_entry scan_index scan_entries storage_read read_memory_disk
    bytes_at store_bytes number_of bytes_of encode decode_entry pad_name
runs = refl

new_from_format-started_example :
    (f : FsIndex) × (fs_details_get true program_roots program_path ≡ some f)
    × (IsProgram program_roots program_path f
        × IsStarted supply
            (program_path ∷ [])
            6
            []
            (image_of (fs_read program_roots program_path 0 f.size))
            f.size
            (list_of run_of)
            (process_of run_of))
    × (dispatcher_find (process_of run_of).pid [] ≡ none)
new_from_format-started_example =
    new_from_format-started supply program_roots program_path [] 6 [] (list_of run_of)
      (process_of run_of) (space_left run_of) runs

next_pid_free_example :
    (new_pid : ℕ) × (next_pid 0xFFFF 0xFFFF [] ≡ some new_pid)
    × IsPid new_pid
    × (dispatcher_find new_pid [] ≡ none)
unfolding dispatcher_find
next_pid_free_example = next_pid_free 0xFFFF 1 [] (omega arith) (omega arith, omega arith) refl

set_up_stack_behind_example :
    (stack_alloc_size 4096 ≡ 4096)
    × ((set_up_stack (some 0x20000) (λ i. true) 4096 0 space).0 ≡ 1)
    × (get_pa (set_up_stack (some 0x20000) (λ i. true) 4096 0 space).2.map (stack_base + 4096) 1
        ≡ some (0x20000 + 4096))
set_up_stack_behind_example = set_up_stack_behind 0x20000 0 space 1 refl (omega arith) tt tt
