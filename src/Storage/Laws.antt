-- ===== src/Storage/Laws.antt =====
-- Reads of src/devices/storage/ after writes, and the bounds of both.
use hypnoticos.Base.{
  ℕ, zero, suc, ◌+◌, ◌≤◌, ◌<◌, ◌≡◌, refl, ◌⊎◌, inl, some, List, [], ◌∷◌, ◌==◌, if◌then◌else◌, add64,
  word, length, arith, sym, ap, ap₂, subst, ◌∙◌, ℕ_discrete, dec_lt,
}
use hypnoticos.Storage.{
  Disk, device_type_memory_disk, bytes_at, store_bytes, read_memory_disk, storage_read,
  write_memory_disk, storage_write,
}

-- The range from `offset` on for `n` bytes ends before the end of the address space.
abbrev pub Ends : ℕ → ℕ → Type 0
Ends offset n = offset + n < word

-- A write changes no byte outside its range.
store_bytes_outside :
    (bytes : ℕ → ℕ) (offset a : ℕ) (source : List ℕ)
    → Ends offset (length source)
    → (a < offset) ⊎ (offset + length source ≤ a)
    → store_bytes bytes offset source a ≡ bytes a
unfolding store_bytes
store_bytes_outside bytes offset a [] e o = refl
store_bytes_outside bytes offset a (b ∷ bs) e o =
    let next : add64 offset 1 ≡ offset + 1 = omega (arith, e) in
    rw next (
      store_bytes_outside (λ a. if a == offset then b else bytes a) (offset + 1) a bs
        (omega (arith, e)) (ground (arith, o))
      ∙ ground (arith, o))

bytes_at_ext :
    (f g : ℕ → ℕ) (offset n : ℕ)
    → Ends offset n
    → ((a : ℕ) → offset ≤ a → a < offset + n → f a ≡ g a)
    → bytes_at f offset n ≡ bytes_at g offset n
unfolding bytes_at
bytes_at_ext f g offset zero e h = refl
bytes_at_ext f g offset (suc n) e h =
    let next : add64 offset 1 ≡ offset + 1 = omega (arith, e) in
    rw next (
      ap₂ (λ x xs. x ∷ xs) (h offset (omega arith) (omega arith))
        (bytes_at_ext f g (offset + 1) n (omega (arith, e))
          (λ a lo hi. h a (omega arith) (omega arith))))

-- A read of a range that a write does not touch.
pub bytes_at-store_outside :
    (bytes : ℕ → ℕ) (offset at n : ℕ) (source : List ℕ)
    → Ends offset (length source)
    → Ends at n
    → (at + n ≤ offset) ⊎ (offset + length source ≤ at)
    → bytes_at (store_bytes bytes offset source) at n ≡ bytes_at bytes at n
bytes_at-store_outside bytes offset at n source e f o =
    bytes_at_ext (store_bytes bytes offset source) bytes at n f
      (λ a lo hi. store_bytes_outside bytes offset a source e (ground (arith, o, lo, hi)))

-- A read of the range that was written.
pub bytes_at-store :
    (bytes : ℕ → ℕ) (offset : ℕ) (source : List ℕ)
    → Ends offset (length source)
    → bytes_at (store_bytes bytes offset source) offset (length source) ≡ source
unfolding bytes_at store_bytes
bytes_at-store bytes offset [] e = refl
bytes_at-store bytes offset (b ∷ bs) e =
    let next : add64 offset 1 ≡ offset + 1 = omega (arith, e) in
    let bytes' : ℕ → ℕ = λ a. if a == offset then b else bytes a in
    let after : ℕ → ℕ = store_bytes bytes' (offset + 1) bs in
    let written : after ≡ store_bytes bytes offset (b ∷ bs) =
      ap (λ n. store_bytes bytes' n bs) (sym next) in
    let here =
      store_bytes_outside bytes' (offset + 1) offset bs (omega (arith, e)) (inl (omega arith)) in
    let rest = bytes_at-store bytes' (offset + 1) bs (omega (arith, e)) in
    subst (λ m. bytes_at m offset (length (b ∷ bs)) ≡ b ∷ bs) written
      (ap₂ (λ x xs. x ∷ xs) (here ∙ ground arith)
        (subst (λ n. bytes_at after n (length bs) ≡ bs) (sym next) rest))

pub length-bytes_at : (bytes : ℕ → ℕ) (offset n : ℕ) → length (bytes_at bytes offset n) ≡ n
unfolding bytes_at
length-bytes_at bytes offset zero = refl
length-bytes_at bytes offset (suc n) = ap suc (length-bytes_at bytes (add64 offset 1) n)

-- A memory disk.
abbrev pub IsMemoryDisk : Disk → Type 0
IsMemoryDisk d = d.device_type ≡ device_type_memory_disk

pub storage_read_ok :
    (d : Disk) (offset n : ℕ)
    → IsMemoryDisk d
    → Ends offset n
    → offset + n ≤ d.size
    → storage_read d offset n ≡ some (bytes_at d.bytes offset n)
unfolding storage_read read_memory_disk
storage_read_ok d offset n k e l = ground (arith, k, e, l)

-- The disk with some bytes written.
abbrev pub written : Disk → ℕ → List ℕ → Disk
written d offset source = record d { bytes = store_bytes d.bytes offset source }

-- A write that does not wrap succeeds on a memory disk exactly where it ends on the disk.
pub storage_write_ok :
    (d : Disk) (offset : ℕ) (source : List ℕ)
    → IsMemoryDisk d
    → Ends offset (length source)
    → offset + length source ≤ d.size
    → storage_write d offset source ≡ some (written d offset source)
unfolding storage_write write_memory_disk
storage_write_ok d offset source k e l = ground (arith, k, e, l)

-- A write that succeeds is on a memory disk, and its wrapped end lies on the disk.
pub storage_write-some :
    (d d' : Disk) (offset : ℕ) (source : List ℕ)
    → storage_write d offset source ≡ some d'
    → IsMemoryDisk d × (add64 offset (length source) ≤ d.size) × (d' ≡ written d offset source)
unfolding storage_write write_memory_disk
storage_write-some d d' offset source h = elim (ℕ_discrete d.device_type device_type_memory_disk) [
  | no n ↦ absurd (ground (arith, n, h))
  | yes k ↦ elim (dec_lt d.size (add64 offset (length source))) [
    | yes l ↦ absurd (ground (arith, k, l, h))
    | no l ↦
        let e : written d offset source ≡ d' = ground (arith, k, l, h) in
        (k, omega (arith, l), sym e)
  ]
]

pub storage_read-some :
    (d : Disk) (offset n : ℕ) (bs : List ℕ)
    → storage_read d offset n ≡ some bs
    → IsMemoryDisk d × (add64 offset n ≤ d.size) × (bs ≡ bytes_at d.bytes offset n)
unfolding storage_read read_memory_disk
storage_read-some d offset n bs h = elim (ℕ_discrete d.device_type device_type_memory_disk) [
  | no k ↦ absurd (ground (arith, k, h))
  | yes k ↦ elim (dec_lt d.size (add64 offset n)) [
    | yes l ↦ absurd (ground (arith, k, l, h))
    | no l ↦
        let e : bytes_at d.bytes offset n ≡ bs = ground (arith, k, l, h) in
        (k, omega (arith, l), sym e)
  ]
]

-- Where a write succeeds and its end does not overflow 64 bits, a read of the same range returns
-- what was written, and a read of a range that ends before it or begins behind it, without an
-- overflow, returns what it returned before.
pub storage_read-storage_write :
    (d d' : Disk) (offset : ℕ) (source : List ℕ)
    → Ends offset (length source)
    → storage_write d offset source ≡ some d'
    → (storage_read d' offset (length source) ≡ some source)
      × ((at n : ℕ)
          → Ends at n
          → (at + n ≤ offset) ⊎ (offset + length source ≤ at)
          → storage_read d' at n ≡ storage_read d at n)
unfolding storage_read read_memory_disk
storage_read-storage_write d d' offset source e h =
    let w = storage_write-some d d' offset source h in
    let same = bytes_at-store d.bytes offset source e in
    let back : storage_read (written d offset source) offset (length source) ≡ some source =
      storage_read_ok (written d offset source) offset (length source) w.0 e (omega (arith, w.1, e))
      ∙ ap some same in
    (
      subst (λ d'. storage_read d' offset (length source) ≡ some source) (sym w.2) back,
      λ at n f o.
          let out = bytes_at-store_outside d.bytes offset at n source e f o in
          subst (λ d'. storage_read d' at n ≡ storage_read d at n) (sym w.2) (rw out),
    )
