-- ===== src/Fs/HypnoticFs/Reads.antt =====
-- What `FsRead_HypnoticFS` returns.
use hypnoticos.Base.{
  ℕ, ◌+◌, ◌-◌, ◌≤◌, ◌<◌, ◌≡◌, ap, ◌∙◌, subst, min, some, List, add64, word, arith, length,
}
use hypnoticos.Storage.{Disk, bytes_at, read_memory_disk, storage_read}
use hypnoticos.Storage.Laws.{Ends, IsMemoryDisk, storage_read_ok, length-bytes_at}
use hypnoticos.Fs.HypnoticFs.{Index}
use hypnoticos.Fs.HypnoticFs.IndexSpace.{get_index}
use hypnoticos.Fs.HypnoticFs.Files.{read_size, read}

-- The data of an entry lie on a memory disk, whose end is in the address space.
abbrev pub OnDisk : Disk → Index → Type 0
OnDisk d e = IsMemoryDisk d × (e.offset + e.size ≤ d.size) × (d.size < word)

abbrev pub contents : Disk → Index → List ℕ
contents d e = bytes_at d.bytes e.offset e.size

-- A read of an entry whose range is on the disk.
pub read_found :
    (d : Disk) (path_short : List (List ℕ)) (offset size n at : ℕ) (e : Index)
    → get_index d path_short ≡ some (at, e)
    → IsMemoryDisk d
    → read_size e offset size ≡ n
    → (e.offset + offset) + n ≤ d.size
    → d.size < word
    → read d path_short offset size ≡ (n, bytes_at d.bytes (e.offset + offset) n)
unfolding read
read_found d path_short offset size n at e g m r l w =
    let a : add64 e.offset offset ≡ e.offset + offset = omega (arith, l, w) in
    let s = storage_read_ok d (e.offset + offset) n m (omega (arith, l, w)) l in
    let s' : storage_read d (add64 e.offset offset) (read_size e offset size)
        ≡ some (bytes_at d.bytes (e.offset + offset) n) =
      rw (a, r) s in
    ground (arith, g, s', r)

-- A read from the start of an entry on the disk returns the bytes asked for, or all of them where the
-- entry has fewer.
pub read_start :
    (d : Disk) (path_short : List (List ℕ)) (size at : ℕ) (e : Index)
    → get_index d path_short ≡ some (at, e)
    → OnDisk d e
    → size < word
    → read d path_short 0 size ≡ (min size e.size, bytes_at d.bytes e.offset (min size e.size))
unfolding read_size
read_start d path_short size at e g (m, l, w) b =
    let n : read_size e 0 size ≡ min size e.size = grind (arith, b, l, w) in
    let z : e.offset + 0 ≡ e.offset = omega arith in
    subst (λ o. read d path_short 0 size ≡ (min size e.size, bytes_at d.bytes o (min size e.size)))
      z (read_found d path_short 0 size (min size e.size) at e g m n (omega (arith, l)) w)

-- A read that ends in the entry, from an offset on, returns and stores `offset + size` bytes, which
-- is `offset` bytes more than there is room for.
read_overruns :
    (d : Disk) (path_short : List (List ℕ)) (offset size at : ℕ) (e : Index)
    → get_index d path_short ≡ some (at, e)
    → OnDisk d e
    → offset + size ≤ e.size
    → (e.offset + offset) + (offset + size) ≤ d.size
    → ((read d path_short offset size).0 ≡ offset + size)
      × (length (read d path_short offset size).1 ≡ offset + size)
unfolding read_size
read_overruns d path_short offset size at e g (m, l, w) b c =
    let n : read_size e offset size ≡ offset + size = grind (arith, b, l, w) in
    let r = read_found d path_short offset size (offset + size) at e g m n c w in
    (
      ap (λ r. r.0) r,
      ap (λ r. length r.1) r ∙ length-bytes_at d.bytes (e.offset + offset) (offset + size),
    )

-- A read from behind the end of the entry on, for an offset whose sum with the size does not overflow
-- 64 bits, goes round the address space: it returns the entry's size less the offset, modulo 2 ^ 64.
read_behind :
    (d : Disk) (path_short : List (List ℕ)) (offset size at : ℕ) (e : Index)
    → get_index d path_short ≡ some (at, e)
    → OnDisk d e
    → e.size < offset
    → Ends offset size
    → (read d path_short offset size).0 ≡ e.size + word - offset
unfolding read read_size storage_read read_memory_disk
read_behind d path_short offset size at e g (m, l, w) b c =
    let n : read_size e offset size ≡ e.size + word - offset = grind (arith, b, l, w, c) in
    let a : add64 (add64 e.offset offset) (e.size + word - offset) ≤ d.size =
      omega (arith, l, w, b, c) in
    ground (arith, g, m, n, a)
