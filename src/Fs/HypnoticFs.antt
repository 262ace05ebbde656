-- ===== src/Fs/HypnoticFs.antt =====
-- HypnoticFS: include/hypnoticos/fs/hypnoticfs.h and src/fs/hypnoticfs/. The file system begins with
-- a magic number and the size of its index space; entries of 57 bytes fill the index space, and the
-- data follow behind it.
pub mod Codec
pub mod Files
pub mod IndexSpace
pub mod Listing
pub mod Lookup
pub mod Free
pub mod Growth
pub mod Reads
pub mod Scan
pub mod Create
pub mod Contents
pub mod Deep
pub mod Room
pub mod Space
pub mod Update
use hypnoticos.Base.{
  ℕ, zero, suc, ◌+◌, ◌*◌, ◌/◌, ◌%◌, ◌^◌, Bool, true, false, Option, none, some, List, [], ◌∷◌, ◌++◌,
  ◌==◌, if◌then◌else◌, ltb, add64, get_or, take, drop, length, replicate, ◌-◌,
}
use hypnoticos.Storage.{Disk, storage_read, storage_write}

-- MAGIC_SIZE
abbrev pub magic_size : ℕ
magic_size = 11

-- INDEX_START
abbrev pub index_start : ℕ
index_start = 19

abbrev pub type_empty : ℕ
type_empty = 0

abbrev pub type_file : ℕ
type_file = 1

abbrev pub type_directory : ℕ
type_directory = 2

-- HYPNOTICFS_FILENAME_SIZE
abbrev pub filename_size : ℕ
filename_size = 32

-- HypnoticFS_Index_t; `name` is the whole array.
pub record Index : Type 0 where
  pub type : ℕ
  pub parent_offset : ℕ
  pub size : ℕ
  pub offset : ℕ
  pub name : List ℕ

-- sizeof(HypnoticFS_Index_t), packed: 1 + 8 + 8 + 8 + 32
abbrev pub index_entry_size : ℕ
index_entry_size = 57

-- A number as `n` bytes in memory, the lowest first, and back.
unfoldable pub bytes_of : (n x : ℕ) → List ℕ
bytes_of zero x = []
bytes_of (suc n) x = x % 256 ∷ bytes_of n (x / 256)

unfoldable pub number_of : List ℕ → ℕ
number_of [] = 0
number_of (b ∷ bs) = b + 256 * number_of bs

-- The bytes of an entry in memory.
unfoldable pub encode : Index → List ℕ
encode e =
    bytes_of 1 e.type
    ++ (bytes_of 8 e.parent_offset ++ (bytes_of 8 e.size ++ (bytes_of 8 e.offset ++ e.name)))

unfoldable pub decode_entry : List ℕ → Index
decode_entry bs = record {
  type = number_of (take 1 bs);
  parent_offset = number_of (take 8 (drop 1 bs));
  size = number_of (take 8 (drop 9 bs));
  offset = number_of (take 8 (drop 17 bs));
  name = drop 25 bs;
}

-- Fs_HypnoticFS_GetIndexSize
unfoldable pub get_index_size : Disk → ℕ
get_index_size d = elim (storage_read d magic_size 8) [ none ↦ 0 | some bs ↦ number_of bs ]

-- The read of one entry.
unfoldable pub read_entry : Disk → ℕ → Option Index
read_entry d entry_offset = elim (storage_read d entry_offset index_entry_size) [
  | none ↦ none
  | some bs ↦ some (decode_entry bs)
]

-- What a loop over the index space comes to: `break` or `return` with a value, the end of the space,
-- or a read that fails.
pub data ScanResult {ℓ} (A : Type ℓ) : Type ℓ where
  hit : A → ScanResult A
  miss : ScanResult A
  read_error : ScanResult A
  unending : ScanResult A

-- The loops `for(entry_offset = INDEX_START; ..; entry_offset += sizeof(HypnoticFS_Index_t))`, on
-- fuel, from an offset on. What the body does with an entry is `body`: `none` goes on.
unfoldable pub scan_entries {ℓ} :
    {A : Type ℓ}
    → ℕ
    → Disk
    → (index_size : ℕ) → (ℕ → Index → Option A)
    → (entry_offset : ℕ) → ScanResult A
scan_entries zero d index_size body entry_offset = unending
scan_entries (suc fuel) d index_size body entry_offset =
    elim (ltb (add64 entry_offset index_entry_size) index_size) [
      | false ↦ miss
      | true ↦ elim (read_entry d entry_offset) [
        | none ↦ read_error
        | some entry ↦ elim (body entry_offset entry) [
          | some a ↦ hit a
          | none ↦ scan_entries fuel d index_size body (add64 entry_offset index_entry_size)
        ]
      ]
    ]

-- Each round is 57 bytes further, so the size of the index space is fuel enough.
unfoldable pub scan_index {ℓ} : {A : Type ℓ} → Disk → (ℕ → Index → Option A) → ScanResult A
scan_index d body = scan_entries (suc (get_index_size d)) d (get_index_size d) body index_start

-- The array `buffer` with a name: what `memset` and `memcpy` leave.
unfoldable pub pad_name : List ℕ → List ℕ
pad_name s = s ++ replicate (filename_size - length s) 0
