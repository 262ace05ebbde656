-- ===== src/Fs/HypnoticFs/Contents.antt =====
-- A write into an entry of HypnoticFS, and the reads after it.
use hypnoticos.Base.{
  ℕ, zero, suc, ◌+◌, ◌-◌, ◌≤◌, ◌<◌, ◌≡◌, ◌⊎◌, inl, inr, refl, ap, ap₂, sym, ◌∙◌, subst, min, Bool,
  Option, none, some, Option-cases, List, [], ◌∷◌, ◌++◌, add64, word, arith, length, length-append,
  append_assoc, take, drop, ltb, if◌then◌else◌, dec_lt,
}
use hypnoticos.Storage.{Disk, bytes_at, store_bytes, storage_write}
use hypnoticos.Storage.Laws.{
  Ends, written, storage_write_ok, storage_read-storage_write, bytes_at-store,
  bytes_at-store_outside, length-bytes_at,
}
use hypnoticos.Fs.HypnoticFs.{
  magic_size, index_start, index_entry_size, filename_size, Index, get_index_size, read_entry,
  scan_index, scan_entries,
}
use hypnoticos.Fs.HypnoticFs.IndexSpace.{
  scan_value, directory_body, file_body, get_index_from, get_index,
}
use hypnoticos.Fs.HypnoticFs.Files.{read, write_data, write}
use hypnoticos.Fs.HypnoticFs.Scan.{EndsEarly, scan_ext}
use hypnoticos.Fs.HypnoticFs.Update.{get_index_size_same, read_entry_same}
use hypnoticos.Fs.HypnoticFs.Reads.{OnDisk, contents, read_start}

-- Two disks with the same index space.
abbrev pub SameIndex : Disk → Disk → Type 0
SameIndex d d' =
    (get_index_size d' ≡ get_index_size d)
    × ((p : ℕ)
        → index_start ≤ p
        → p + index_entry_size < get_index_size d
        → read_entry d' p ≡ read_entry d p)

pub scan_index_same {ℓ} :
    {A : Type ℓ} (d d' : Disk) (body : ℕ → Index → Option A)
    → EndsEarly (get_index_size d)
    → index_start ≤ get_index_size d
    → SameIndex d d'
    → scan_index d' body ≡ scan_index d body
unfolding scan_index
scan_index_same d d' body w l (n, same) =
    subst (λ n. scan_entries (suc n) d' n body index_start ≡ scan_index d body) (sym n)
      (scan_ext (suc (get_index_size d)) d d' (get_index_size d) body index_start w l same)

get_index_from_same :
    (d d' : Disk) (parent_offset : ℕ) (path_short : List (List ℕ))
    → EndsEarly (get_index_size d)
    → index_start ≤ get_index_size d
    → SameIndex d d'
    → get_index_from d' parent_offset path_short ≡ get_index_from d parent_offset path_short
unfolding get_index_from
get_index_from_same d d' parent_offset [] w l s = refl
get_index_from_same d d' parent_offset (name ∷ []) w l s =
    ap (λ r. if ltb filename_size (length name) then none else scan_value r)
      (scan_index_same d d' (file_body name parent_offset) w l s)
get_index_from_same d d' parent_offset (name ∷ t ∷ ss) w l s =
    let f : scan_value (scan_index d' (directory_body name parent_offset))
        ≡ scan_value (scan_index d (directory_body name parent_offset)) =
      ap scan_value (scan_index_same d d' (directory_body name parent_offset) w l s) in
    elim (Option-cases (scan_value (scan_index d (directory_body name parent_offset)))) [
      | inl n ↦ let n' = f ∙ n in ground (arith, n, n')
      | inr (p, n) ↦
          let n' = f ∙ n in
          let rest = get_index_from_same d d' p (t ∷ ss) w l s in ground (arith, n, n', rest)
    ]

-- The searches on two disks with the same index space are the same.
pub get_index_same :
    (d d' : Disk) (path_short : List (List ℕ))
    → EndsEarly (get_index_size d)
    → SameIndex d d'
    → get_index d' path_short ≡ get_index d path_short
unfolding get_index
get_index_same d d' path_short w s = elim (dec_lt (get_index_size d) index_start) [
  | yes l ↦
      let l' : get_index_size d' < index_start = omega (arith, s.0, l) in ground (arith, l, l')
  | no l ↦
      let l' : index_start ≤ get_index_size d' = omega (arith, s.0, l) in
      let f = get_index_from_same d d' 0 path_short w (omega (arith, l)) s in
      ground (arith, l, l', f)
]

-- A write behind the index space leaves the index space.
storage_write-SameIndex :
    (d d' : Disk) (offset : ℕ) (src : List ℕ)
    → get_index_size d ≤ offset
    → index_start ≤ offset
    → Ends offset (length src)
    → storage_write d offset src ≡ some d'
    → SameIndex d d'
storage_write-SameIndex d d' offset src l k e h =
    let r = (storage_read-storage_write d d' offset src e h).1 in
    (
      get_index_size_same d d' (r magic_size 8 (omega arith) (inl (omega (arith, k)))),
      λ p lo hi.
          read_entry_same d d' p
            (r p index_entry_size (omega (arith, hi, l, e)) (inl (omega (arith, hi, l)))),
    )

take_left : (n : ℕ) (xs ys : List ℕ) → length xs ≡ n → take n (xs ++ ys) ≡ xs
take_left zero [] ys l = refl
take_left zero (x ∷ xs) ys l = absurd (omega (arith, l))
take_left (suc n) [] ys l = absurd (omega (arith, l))
take_left (suc n) (x ∷ xs) ys l = ap (λ r. x ∷ r) (take_left n xs ys (omega (arith, l)))

drop_left : (n : ℕ) (xs ys : List ℕ) → length xs ≡ n → drop n (xs ++ ys) ≡ ys
drop_left zero [] ys l = refl
drop_left zero (x ∷ xs) ys l = absurd (omega (arith, l))
drop_left (suc n) [] ys l = absurd (omega (arith, l))
drop_left (suc n) (x ∷ xs) ys l = drop_left n xs ys (omega (arith, l))

-- A range is read in two parts.
bytes_at_split :
    (f : ℕ → ℕ) (at m n : ℕ)
    → Ends at (m + n)
    → bytes_at f at (m + n) ≡ bytes_at f at m ++ bytes_at f (at + m) n
unfolding bytes_at
bytes_at_split f at zero n e = ap₂ (λ a n. bytes_at f a n) (omega arith) (omega arith)
bytes_at_split f at (suc m) n e =
    let next : add64 at 1 ≡ at + 1 = omega (arith, e) in
    let rest = bytes_at_split f (at + 1) m n (omega (arith, e)) in
    let shift : at + suc m ≡ at + 1 + m = omega arith in
    let more : suc m + n ≡ suc (m + n) = omega arith in
    let head : bytes_at f at (suc (m + n))
        ≡ f at ∷ (bytes_at f (at + 1) m ++ bytes_at f (at + 1 + m) n) =
      subst
        (λ a.
          f at ∷ bytes_at f a (m + n) ≡ f at ∷ (bytes_at f (at + 1) m ++ bytes_at f (at + 1 + m) n))
        (sym next) (ap (λ r. f at ∷ r) rest) in
    ap (bytes_at f at) more
    ∙ (head ∙ ap₂ (λ a b. f at ∷ (bytes_at f a m ++ bytes_at f b n)) (sym next) (sym shift))

get_index_start :
    (d : Disk) (path_short : List (List ℕ)) (at : ℕ) (e : Index)
    → get_index d path_short ≡ some (at, e)
    → index_start ≤ get_index_size d
unfolding get_index
get_index_start d path_short at e g = elim (dec_lt (get_index_size d) index_start) [
  | yes l ↦ absurd (ground (arith, l, g))
  | no l ↦ omega (arith, l)
]

-- The bytes of a list from an offset on are replaced by others.
abbrev pub splice : (offset : ℕ) → (src : List ℕ) → List ℕ → List ℕ
splice offset src old = take offset old ++ (src ++ drop (offset + length src) old)

-- The data of an entry after a write into them.
contents_splice :
    (f : ℕ → ℕ) (base size offset : ℕ) (src : List ℕ)
    → base + size < word
    → offset + length src ≤ size
    → bytes_at (store_bytes f (base + offset) src) base size
      ≡ splice offset src (bytes_at f base size)
contents_splice f base size offset src w l =
    let rest = size - (offset + length src) in
    let g : ℕ → ℕ = store_bytes f (base + offset) src in
    let ends : Ends (base + offset) (length src) = omega (arith, w, l) in
    let total : size ≡ offset + (length src + rest) = omega (arith, l) in
    let cut : (f : ℕ → ℕ)
        → bytes_at f base size
          ≡ bytes_at f base offset
            ++ (bytes_at f (base + offset) (length src)
                ++ bytes_at f ((base + offset) + length src) rest) =
      λ f.
        ap (bytes_at f base) total
        ∙ (bytes_at_split f base offset (length src + rest) (omega (arith, w, l))
            ∙ ap (λ r. bytes_at f base offset ++ r)
                (bytes_at_split f (base + offset) (length src) rest (omega (arith, w, l)))) in
    let head : bytes_at g base offset ≡ bytes_at f base offset =
      bytes_at-store_outside f (base + offset) base offset src ends (omega (arith, w, l))
        (inl (omega arith)) in
    let tail : bytes_at g ((base + offset) + length src) rest
        ≡ bytes_at f ((base + offset) + length src) rest =
      bytes_at-store_outside f (base + offset) ((base + offset) + length src) rest src ends
        (omega (arith, w, l)) (inr (omega arith)) in
    let new =
      cut g
      ∙ ap₂ (λ a b. a ++ b) head
          (ap₂ (λ a b. a ++ b) (bytes_at-store f (base + offset) src ends) tail) in
    let a = bytes_at f base offset in
    let b = bytes_at f (base + offset) (length src) in
    let c = bytes_at f ((base + offset) + length src) rest in
    let la = length-bytes_at f base offset in
    let lb = length-bytes_at f (base + offset) (length src) in
    let t : take offset (bytes_at f base size) ≡ a =
      ap (take offset) (cut f) ∙ take_left offset a (b ++ c) la in
    let u : drop (offset + length src) (bytes_at f base size) ≡ c =
      ap (drop (offset + length src)) (cut f ∙ sym (append_assoc a b c))
      ∙ drop_left (offset + length src) (a ++ b) c (omega (arith, length-append a b, la, lb)) in
    new ∙ ap₂ (λ a c. a ++ (src ++ c)) (sym t) (sym u)

-- The data of two entries share no byte.
abbrev pub Apart : Index → Index → Type 0
Apart e f = (f.offset + f.size ≤ e.offset) ⊎ (e.offset + e.size ≤ f.offset)

-- What a write into the data of an entry leaves on the disk.
abbrev pub Rewritten : Disk → List (List ℕ) → Index → (offset : ℕ) → List ℕ → Disk → Type 0
Rewritten d path_short e offset src d' =
    (read d' path_short 0 e.size ≡ (e.size, splice offset src (contents d e)))
    × ((other : List (List ℕ)) (at : ℕ) (f : Index)
        → get_index d other ≡ some (at, f)
        → OnDisk d f
        → Apart e f
        → read d' other 0 f.size ≡ (f.size, contents d f))

write_in_place :
    (room : Bool) (d : Disk) (path_short : List (List ℕ)) (offset : ℕ) (src : List ℕ) (at : ℕ)
    (e : Index)
    → get_index d path_short ≡ some (at, e)
    → OnDisk d e
    → offset + length src ≤ e.size
    → write room d path_short offset src ≡ (1, written d (e.offset + offset) src)
unfolding write write_data
write_in_place room d path_short offset src at e g (m, l, w) b =
    let a : add64 e.offset offset ≡ e.offset + offset = omega (arith, l, w, b) in
    let s =
      storage_write_ok d (e.offset + offset) src m (omega (arith, l, w, b)) (omega (arith, l, b)) in
    let s' : storage_write d (add64 e.offset offset) src
        ≡ some (written d (e.offset + offset) src) =
      rw a s in
    ground (arith, g, b, l, w, s')

read_whole :
    (d : Disk) (path_short : List (List ℕ)) (at : ℕ) (e : Index)
    → get_index d path_short ≡ some (at, e)
    → OnDisk d e
    → read d path_short 0 e.size ≡ (e.size, contents d e)
read_whole d path_short at e g o =
    let n : min e.size e.size ≡ e.size = grind arith in
    subst (λ n. read d path_short 0 e.size ≡ (n, bytes_at d.bytes e.offset n)) n
      (read_start d path_short e.size at e g o (omega (arith, o.1, o.2)))

-- Where the index space ends 57 bytes before the end of the address space: a write that ends in the
-- data of the entry, where these lie behind the index space and on the disk, succeeds; then a read of the whole entry returns its data with the bytes written in their place,
-- and a read of another entry, whose data share no byte with them, returns what it had.
pub write-read :
    (room : Bool) (d : Disk) (path_short : List (List ℕ)) (offset : ℕ) (src : List ℕ) (at : ℕ)
    (e : Index)
    → EndsEarly (get_index_size d)
    → get_index d path_short ≡ some (at, e)
    → OnDisk d e
    → get_index_size d ≤ e.offset
    → offset + length src ≤ e.size
    → (d' : Disk) × (write room d path_short offset src ≡ (1, d'))
      × Rewritten d path_short e offset src d'
write-read room d path_short offset src at e v g (m, l, w) i b =
    let d' = written d (e.offset + offset) src in
    let start = get_index_start d path_short at e g in
    let ends : Ends (e.offset + offset) (length src) = omega (arith, l, w, b) in
    let ok = storage_write_ok d (e.offset + offset) src m ends (omega (arith, l, b)) in
    let same =
      storage_write-SameIndex d d' (e.offset + offset) src (omega (arith, i))
        (omega (arith, i, start)) ends ok in
    (
      d',
      write_in_place room d path_short offset src at e g (m, l, w) b,
      (
        read_whole d' path_short at e (get_index_same d d' path_short v same ∙ g) (m, l, w)
            ∙ ap (λ r. (e.size, r))
                (contents_splice d.bytes e.offset e.size offset src (omega (arith, l, w)) b),
        λ other at f h (m, k, w) apart.
            read_whole d' other at f (get_index_same d d' other v same ∙ h) (m, k, w)
            ∙ ap (λ r. (f.size, r))
                (bytes_at-store_outside d.bytes (e.offset + offset) f.offset f.size src ends
                  (omega (arith, k, w))
                  (elim apart [
                    | inl o ↦ inl (omega (arith, o))
                    | inr o ↦ inr (omega (arith, o, b))
                  ])),
      ),
    )
