-- ===== src/Fs/HypnoticFs/Growth.antt =====
-- What `Fs_HypnoticFS_Resize` and a write behind the end of an entry leave.
use hypnoticos.Base.{
  ℕ, ◌≤◌, ◌<◌, ◌≡◌, ◌⊎◌, inl, inr, refl, ap, sym, ◌∙◌, subst, Bool, Bool-cases, none, some,
  Option-cases, add64, sub64, word, arith, dec_lt, ℕ_discrete,
}
use hypnoticos.Storage.{Disk, storage_read, storage_write, storage_get_max}
use hypnoticos.Storage.Laws.{Ends}
use hypnoticos.Fs.HypnoticFs.{
  index_start, index_entry_size, Index, get_index_size, read_entry, ScanResult, hit, miss,
  read_error, unending, scan_index,
}
use hypnoticos.Fs.HypnoticFs.Codec.{Fits}
use hypnoticos.Fs.HypnoticFs.IndexSpace.{update_index}
use hypnoticos.Fs.HypnoticFs.Space.{
  Check, at_address, fails, goes_on, check_of, clash_other, check_other, find_space, failed,
  resized, finish_resize, move_data, resize_elsewhere, resize_before, resize_after, resize,
}
use hypnoticos.Fs.HypnoticFs.Scan.{EndsEarly}
use hypnoticos.Fs.HypnoticFs.Update.{update_index-Updated}
use hypnoticos.Fs.HypnoticFs.Room.{find_space_lt}

-- The entry of a new size that a resizing returns is the one in the index space.
abbrev pub Grown : (at : ℕ) → Index → (new_size : ℕ) → Disk → Index → Type 0
Grown at e new_size d' e' =
    (e'.type ≡ e.type)
    × (e'.parent_offset ≡ e.parent_offset)
    × (e'.name ≡ e.name)
    × (e'.size ≡ new_size)
    × (e'.offset < word)
    × (read_entry d' at ≡ some e')

Check-cases : (c : Check) → ((a : ℕ) × (c ≡ at_address a)) ⊎ ((c ≡ fails) ⊎ (c ≡ goes_on))
Check-cases (at_address a) = inl (a, refl)
Check-cases fails = inr (inl refl)
Check-cases goes_on = inr (inr refl)

check_of_at : (x a : ℕ) (r : ScanResult (Unit {0})) → check_of x r ≡ at_address a → a ≡ x
unfolding check_of
check_of_at x a (hit u) h = absurd (cc)
check_of_at x a miss h = cc
check_of_at x a read_error h = absurd (cc)
check_of_at x a unending h = absurd (cc)

check_other_lt :
    (d : Disk) (current x a : ℕ) → x < word → check_other d current x ≡ at_address a → a < word
unfolding check_other
check_other_lt d current x a l h =
    subst (λ n. n < word) (sym (check_of_at x a (scan_index d (clash_other current x)) h)) l

module _ (room : Bool) (d : Disk) (at : ℕ) (e : Index) (new_size : ℕ) (d' : Disk) (e' : Index)
    (fits : Fits e) (size : new_size < word) (start : index_start ≤ at)
    (ends : Ends at index_entry_size) (early : EndsEarly (get_index_size d)) where
  finish_resize-Grown :
      (d : Disk) (new_offset : ℕ)
      → new_offset < word
      → finish_resize d at (record e { size = new_size; offset = new_offset }) ≡ resized d' e'
      → Grown at e new_size d' e'
  unfolding finish_resize
  finish_resize-Grown d new_offset l h =
      let f : Index = record e { size = new_size; offset = new_offset } in
      let fits' : Fits f = record {
        type = fits.type;
        parent_offset = fits.parent_offset;
        size = size;
        offset = l;
        name = fits.name;
      } in
      elim (Option-cases (update_index d at f)) [
        | inl n ↦ absurd (ground (arith, n, h))
        | inr (x, u) ↦
            let r = ap (λ u. elim u [ none ↦ failed d | some d' ↦ resized d' f ]) (sym u) ∙ h in
            let same : (x ≡ d') × (f ≡ e') = (cc, cc) in
            let z = update_index-Updated d x at f fits' start ends u in
            subst (λ y. Grown at e new_size y e') same.0
              (subst (λ y. Grown at e new_size x y) same.1 (refl, refl, refl, refl, l, z.1))
      ]

  move_data-Grown :
      (new_offset : ℕ)
      → new_offset < word
      → move_data room d at e new_size new_offset ≡ resized d' e'
      → Grown at e new_size d' e'
  unfolding move_data
  move_data-Grown new_offset l h = elim (ℕ_discrete e.size 0) [
    | yes z ↦ finish_resize-Grown d new_offset l (ground (arith, z, h))
    | no z ↦ elim (Bool-cases room) [
      | inr r ↦ absurd (ground (arith, z, r, h))
      | inl r ↦ elim (Option-cases (storage_read d e.offset e.size)) [
        | inl s ↦ absurd (ground (arith, z, r, s, h))
        | inr (bs, s) ↦ elim (Option-cases (storage_write d new_offset bs)) [
          | inl t ↦ absurd (ground (arith, z, r, s, t, h))
          | inr (x, t) ↦ finish_resize-Grown x new_offset l (ground (arith, z, r, s, t, h))
        ]
      ]
    ]
  ]

  resize_elsewhere-Grown :
      resize_elsewhere room d at e new_size ≡ resized d' e' → Grown at e new_size d' e'
  unfolding resize_elsewhere
  resize_elsewhere-Grown h = elim (Option-cases (find_space d new_size)) [
    | inl n ↦ absurd (ground (arith, n, h))
    | inr (a, n) ↦ move_data-Grown a (find_space_lt d new_size a early n) (ground (arith, n, h))
  ]

  resize_before-Grown :
      resize_before room d at e new_size ≡ resized d' e' → Grown at e new_size d' e'
  unfolding resize_before
  resize_before-Grown h =
      let additional = sub64 new_size e.size in
      let x = sub64 e.offset additional in
      elim (dec_lt (add64 (get_index_size d) additional) e.offset) [
        | no l ↦ resize_elsewhere-Grown (ground (arith, l, h))
        | yes l ↦ elim (Check-cases (check_other d e.offset x)) [
          | inl (a, c) ↦
              move_data-Grown a (check_other_lt d e.offset x a (omega arith) c)
                (ground (arith, l, c, h))
          | inr (inl c) ↦ absurd (ground (arith, l, c, h))
          | inr (inr c) ↦ resize_elsewhere-Grown (ground (arith, l, c, h))
        ]
      ]

  resize_after-Grown : resize_after room d at e new_size ≡ resized d' e' → Grown at e new_size d' e'
  unfolding resize_after
  resize_after-Grown h =
      let end = add64 (add64 e.offset e.size) (sub64 new_size e.size) in
      elim (dec_lt end (storage_get_max d)) [
        | no l ↦ resize_before-Grown (ground (arith, l, h))
        | yes l ↦ elim (Check-cases (check_other d e.offset end)) [
          | inl (a, c) ↦ finish_resize-Grown d e.offset fits.offset (ground (arith, l, c, h))
          | inr (inl c) ↦ absurd (ground (arith, l, c, h))
          | inr (inr c) ↦ resize_before-Grown (ground (arith, l, c, h))
        ]
      ]

  -- Where a resizing succeeds, for an entry that fits its fields, in an index space that ends 57 bytes
  -- before the end of the address space: the entry that it returns has the new size, the type, the
  -- parent and the name of the old one, and is the entry that is then read in the index space.
  pub resize-Grown : resize room d at e new_size ≡ resized d' e' → Grown at e new_size d' e'
  unfolding resize
  resize-Grown h = elim (dec_lt (get_index_size d) index_start) [
    | yes l ↦ absurd (ground (arith, l, h))
    | no l ↦ elim (dec_lt new_size e.size) [
      | yes k ↦ finish_resize-Grown d e.offset fits.offset (ground (arith, l, k, h))
      | no k ↦ resize_after-Grown (ground (arith, l, k, h))
    ]
  ]
