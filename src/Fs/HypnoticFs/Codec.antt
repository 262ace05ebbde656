-- ===== src/Fs/HypnoticFs/Codec.antt =====
-- The bytes of an entry of HypnoticFS, written and read back.
use hypnoticos.Base.{
  ℕ, zero, suc, ◌*◌, ◌/◌, ◌^◌, ◌≤◌, ◌<◌, ◌≡◌, refl, List, length, length-append, replicate,
  length-replicate, arith, word, ap, ◌-◌,
}
use hypnoticos.Fs.HypnoticFs.{
  Index, filename_size, index_entry_size, bytes_of, number_of, encode, decode_entry, pad_name,
}

length-bytes_of : (n x : ℕ) → length (bytes_of n x) ≡ n
unfolding bytes_of
length-bytes_of zero x = refl
length-bytes_of (suc n) x = ap suc (length-bytes_of n (x / 256))

pub number_of-bytes_of : (n x : ℕ) → x < 256 ^ n → number_of (bytes_of n x) ≡ x
unfolding bytes_of number_of
number_of-bytes_of zero x h = omega (arith, h)
number_of-bytes_of (suc n) x h =
    let power : 256 ^ suc n ≡ 256 * 256 ^ n = grind arith in
    let rest = number_of-bytes_of n (x / 256) (omega (arith, h, power)) in omega (arith, rest)

-- The fields of an entry fit their bytes.
pub record Fits (e : Index) : Type 0 where
  pub type : e.type < 256
  pub parent_offset : e.parent_offset < word
  pub size : e.size < word
  pub offset : e.offset < word
  pub name : length e.name ≡ filename_size

abbrev index_of : (type parent_offset size offset : ℕ) → List ℕ → Index
index_of t p s o n = record { type = t; parent_offset = p; size = s; offset = o; name = n }

index_path :
    {t t' p p' s s' o o' : ℕ} {n : List ℕ}
    → t ≡ t'
    → p ≡ p'
    → s ≡ s'
    → o ≡ o'
    → index_of t p s o n ≡ index_of t' p' s' o' n
index_path a b c d = cc

-- An entry that is written to memory and read back is the same entry.
pub decode_entry-encode : (e : Index) → Fits e → decode_entry (encode e) ≡ e
unfolding encode decode_entry bytes_of
decode_entry-encode e f =
    let t = number_of-bytes_of 1 e.type f.type in
    let p = number_of-bytes_of 8 e.parent_offset f.parent_offset in
    let s = number_of-bytes_of 8 e.size f.size in
    let o = number_of-bytes_of 8 e.offset f.offset in index_path t p s o

pub length-encode : (e : Index) → Fits e → length (encode e) ≡ index_entry_size
unfolding encode bytes_of
length-encode e f = omega (arith, f.name)

pub length-pad_name : (s : List ℕ) → length s ≤ filename_size → length (pad_name s) ≡ filename_size
unfolding pad_name
length-pad_name s l =
    let a = length-append s (replicate (filename_size - length s) 0) in
    let b = length-replicate (filename_size - length s) zero in omega (arith, a, b, l)
