-- ===== src/Fs/HypnoticFs/Update.antt =====
-- What `Fs_HypnoticFS_UpdateIndex` changes.
use hypnoticos.Base.{
  ℕ, ◌+◌, ◌≤◌, ◌≡◌, ◌⊎◌, inl, inr, ap, ◌∙◌, subst, none, some, List, arith, length,
}
use hypnoticos.Storage.{Disk, storage_read}
use hypnoticos.Storage.Laws.{Ends, storage_read-storage_write}
use hypnoticos.Fs.HypnoticFs.{
  magic_size, index_start, index_entry_size, Index, number_of, encode, decode_entry, get_index_size,
  read_entry,
}
use hypnoticos.Fs.HypnoticFs.Codec.{Fits, length-encode, decode_entry-encode}
use hypnoticos.Fs.HypnoticFs.IndexSpace.{update_index}

-- Writes outside a range change no read of the range.
abbrev pub SameAt : Disk → Disk → (at n : ℕ) → Type 0
SameAt d d' at n = storage_read d' at n ≡ storage_read d at n

pub get_index_size_same :
    (d d' : Disk) → SameAt d d' magic_size 8 → get_index_size d' ≡ get_index_size d
unfolding get_index_size
get_index_size_same d d' s = ap (λ r. elim r [ none ↦ 0 | some bs ↦ number_of bs ]) s

pub read_entry_same :
    (d d' : Disk) (at : ℕ) → SameAt d d' at index_entry_size → read_entry d' at ≡ read_entry d at
unfolding read_entry
read_entry_same d d' at s = ap (λ r. elim r [ none ↦ none | some bs ↦ some (decode_entry bs) ]) s

read_back :
    (d : Disk) (at : ℕ) (bs : List ℕ)
    → storage_read d at index_entry_size ≡ some bs
    → read_entry d at ≡ some (decode_entry bs)
unfolding read_entry
read_back d at bs h = ap (λ r. elim r [ none ↦ none | some bs ↦ some (decode_entry bs) ]) h

-- A disk with one entry replaced.
abbrev pub Updated : Disk → (at : ℕ) → Index → Disk → Type 0
Updated d at e d' =
    (get_index_size d' ≡ get_index_size d)
    × (read_entry d' at ≡ some e)
    × ((q : ℕ)
        → (q + index_entry_size ≤ at) ⊎ (at + index_entry_size ≤ q)
        → Ends q index_entry_size
        → read_entry d' q ≡ read_entry d q)

-- Where it succeeds, for an entry that fits its fields and an offset behind the start of the index
-- space from which 57 bytes end before the end of the address space: the entry is read back, the
-- size of the index space stays, and so does every entry that shares no byte with it.
pub update_index-Updated :
    (d d' : Disk) (at : ℕ) (e : Index)
    → Fits e
    → index_start ≤ at
    → Ends at index_entry_size
    → update_index d at e ≡ some d'
    → Updated d at e d'
unfolding update_index
update_index-Updated d d' at e f l w h =
    let n = length-encode e f in
    let ends : Ends at (length (encode e)) = omega (arith, w, n) in
    let r = storage_read-storage_write d d' at (encode e) ends h in
    let back : storage_read d' at index_entry_size ≡ some (encode e) =
      subst (λ n. storage_read d' at n ≡ some (encode e)) n r.0 in
    (
      get_index_size_same d d' (r.1 magic_size 8 (omega arith) (inl (omega (arith, l)))),
      read_back d' at (encode e) back ∙ ap some (decode_entry-encode e f),
      λ q o v.
          read_entry_same d d' q (
            r.1 q index_entry_size v
              (elim o [ inl l ↦ inl l | inr l ↦ inr (omega (arith, l, n)) ])),
    )
