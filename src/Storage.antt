-- ===== src/Storage.antt =====
-- Storage devices: src/devices/storage/. The one kind of device is the memory disk.
pub mod Laws
use hypnoticos.Base.{
  ℕ, zero, suc, ◌+◌, ◌*◌, ◌%◌, ◌/◌, Bool, true, false, Option, none, some, List, [], ◌∷◌, ◌++◌,
  ◌==◌, if◌then◌else◌, ltb, add64, length,
}

-- DEVICE_TYPE_MEMORYDISK
abbrev pub device_type_memory_disk : ℕ
device_type_memory_disk = 1

-- A StorageDevice_t with its StorageDevice_MemoryDisk_t: `bytes n` is the byte at the address
-- `ptr + n`, on the disk where `n` is below `size`, and otherwise some other byte of memory.
pub record Disk : Type 0 where
  pub device_type : ℕ
  pub size : ℕ
  pub bytes : ℕ → ℕ

-- `memcpy` from the disk: `n` bytes from an offset on. Addresses wrap.
unfoldable pub bytes_at : (ℕ → ℕ) → (offset n : ℕ) → List ℕ
bytes_at bytes offset zero = []
bytes_at bytes offset (suc n) = bytes offset ∷ bytes_at bytes (add64 offset 1) n

-- `memcpy` to the disk.
unfoldable pub store_bytes : (ℕ → ℕ) → ℕ → List ℕ → ℕ → ℕ
store_bytes bytes offset [] = bytes
store_bytes bytes offset (b ∷ bs) =
    store_bytes (λ a. if a == offset then b else bytes a) (add64 offset 1) bs

-- StorageRead_MemoryDisk: `none` where it returns 0.
unfoldable pub read_memory_disk : Disk → (offset size : ℕ) → Option (List ℕ)
read_memory_disk d offset size =
    if ltb d.size (add64 offset size) then none else some (bytes_at d.bytes offset size)

-- StorageRead
unfoldable pub storage_read : Disk → (offset size : ℕ) → Option (List ℕ)
storage_read d offset size =
    if d.device_type == device_type_memory_disk then read_memory_disk d offset size else none

-- StorageWrite_MemoryDisk: the disk that it leaves, or `none` where it returns 0 and writes nothing.
unfoldable pub write_memory_disk : Disk → (offset : ℕ) → (source : List ℕ) → Option Disk
write_memory_disk d offset source =
    if ltb d.size (add64 offset (length source))
    then none
    else some (record d { bytes = store_bytes d.bytes offset source })

-- StorageWrite
unfoldable pub storage_write : Disk → (offset : ℕ) → (source : List ℕ) → Option Disk
storage_write d offset source =
    if d.device_type == device_type_memory_disk then write_memory_disk d offset source else none

-- StorageGetMax
unfoldable pub storage_get_max : Disk → ℕ
storage_get_max d = if d.device_type == device_type_memory_disk then d.size else 0

-- StorageDevices without its DEVICE_TYPE_END: StorageInit leaves no device, and StorageNew adds one
-- behind the others.
unfoldable pub storage_init : List Disk
storage_init = []

unfoldable pub storage_new : Disk → List Disk → List Disk
storage_new device devices = devices ++ device ∷ []
