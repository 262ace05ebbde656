-- ===== src/Fs/HypnoticFs/Create.antt =====
-- A new entry in the root of HypnoticFS, and the search for it.
use hypnoticos.Base.{
  ℕ, suc, ◌+◌, ◌≤◌, ◌<◌, ◌≡◌, ◌≢◌, inl, inr, refl, ap, sym, ◌∙◌, subst, true, none, some,
  Option-cases, List, [], ◌∷◌, arith, length, dec_lt, ℕ_discrete,
}
use hypnoticos.Storage.{Disk}
use hypnoticos.Libc.Text.{memcmp_self}
use hypnoticos.Fs.HypnoticFs.{
  index_start, index_entry_size, filename_size, type_empty, Index, get_index_size, read_entry, hit,
  scan_entries, scan_index, pad_name,
}
use hypnoticos.Fs.HypnoticFs.Codec.{Fits, length-pad_name}
use hypnoticos.Fs.HypnoticFs.IndexSpace.{
  same_name, scan_value, file_body, get_index_from, get_index, empty_body, get_empty_index,
  update_index,
}
use hypnoticos.Fs.HypnoticFs.Space.{find_space}
use hypnoticos.Fs.HypnoticFs.Files.{
  created, check_parents, write_index, create_entry, last_part, create_index,
}
use hypnoticos.Fs.HypnoticFs.Scan.{EndsEarly, scan-Found, scan_fresh}
use hypnoticos.Fs.HypnoticFs.Lookup.{scan_value-some}
use hypnoticos.Fs.HypnoticFs.Room.{find_space_lt}
use hypnoticos.Fs.HypnoticFs.Update.{Updated, update_index-Updated}

-- A new entry.
abbrev pub fresh_entry : (type parent_offset : ℕ) (name : List ℕ) (offset : ℕ) → Index
fresh_entry type parent_offset name offset = record {
  type = type;
  parent_offset = parent_offset;
  size = 0;
  offset = offset;
  name = pad_name name;
}

-- The calls that a creation makes.
pub record Steps (d : Disk) (type : ℕ) (name : List ℕ) (d' : Disk) : Type 0 where
  pub at : ℕ
  pub offset : ℕ
  pub short : length name ≤ filename_size
  pub absent : get_index d (name ∷ []) ≡ none
  pub empty : get_empty_index d ≡ some at
  pub space : find_space d 0 ≡ some offset
  pub update : update_index d at (fresh_entry type 0 name offset) ≡ some d'

write_index_created :
    (d : Disk) (type parent_offset : ℕ) (name : List ℕ) (at offset : ℕ) (d' : Disk)
    → write_index d type parent_offset name at offset ≡ created d'
    → update_index d at (fresh_entry type parent_offset name offset) ≡ some d'
unfolding write_index
write_index_created d type parent_offset name at offset d' h =
    elim (Option-cases (update_index d at (fresh_entry type parent_offset name offset))) [
      | inl n ↦ absurd (ground (arith, n, h))
      | inr (x, u) ↦ let same : x ≡ d' = ground (arith, u, h) in u ∙ ap some same
    ]

create_entry-Steps :
    (d : Disk) (type : ℕ) (name : List ℕ) (d' : Disk)
    → get_index d (name ∷ []) ≡ none
    → create_entry d type 0 name ≡ created d'
    → Steps d type name d'
unfolding create_entry
create_entry-Steps d type name d' n h = elim (dec_lt filename_size (length name)) [
  | yes k ↦ absurd (ground (arith, k, h))
  | no k ↦ elim (ℕ_discrete (length name) 0) [
    | yes z ↦ absurd (ground (arith, k, z, h))
    | no z ↦ elim (Option-cases (get_empty_index d)) [
      | inl e ↦ absurd (ground (arith, k, z, e, h))
      | inr (at, e) ↦ elim (Option-cases (find_space d 0)) [
        | inl f ↦ absurd (ground (arith, k, z, e, f, h))
        | inr (offset, f) ↦
            let u =
              write_index_created d type 0 name at offset d' (ground (arith, k, z, e, f, h)) in
            record {
              at = at;
              offset = offset;
              short = omega (arith, k);
              absent = n;
              empty = e;
              space = f;
              update = u;
            }
      ]
    ]
  ]
]

pub create_index-Steps :
    (d : Disk) (type : ℕ) (name : List ℕ) (d' : Disk)
    → create_index d (name ∷ []) type ≡ created d'
    → Steps d type name d'
unfolding create_index check_parents last_part
create_index-Steps d type name d' h = elim (Option-cases (get_index d (name ∷ []))) [
  | inl n ↦ create_entry-Steps d type name d' n (ground (arith, n, h))
  | inr (x, s) ↦ absurd (ground (arith, s, h))
]

empty_body_own :
    (p : ℕ) (e : Index) (p' : ℕ) → empty_body p e ≡ some p' → (p' ≡ p) × (e.type ≡ type_empty)
unfolding empty_body
empty_body_own p e p' h = ground (arith, h)

same_name_self :
    (e : Index) (s : List ℕ) → length s ≤ filename_size → e.name ≡ pad_name s → same_name e s ≡ true
unfolding same_name
same_name_self e s l n =
    let m = memcmp_self (pad_name s) filename_size (length-pad_name s l) in rw n (ground (arith, m))

file_body_fresh :
    (type : ℕ) (name : List ℕ) (offset at : ℕ)
    → type ≢ type_empty
    → length name ≤ filename_size
    → file_body name 0 at (fresh_entry type 0 name offset)
      ≡ some (at, fresh_entry type 0 name offset)
unfolding file_body
file_body_fresh type name offset at t l =
    let m = same_name_self (fresh_entry type 0 name offset) name l refl in ground (arith, m, t)

-- The offset of an empty entry.
empty_scan :
    (d : Disk) (at : ℕ)
    → get_empty_index d ≡ some at
    → (index_start ≤ get_index_size d) × (scan_index d empty_body ≡ hit at)
unfolding get_empty_index
empty_scan d at h = elim (dec_lt (get_index_size d) index_start) [
  | yes l ↦ absurd (ground (arith, l, h))
  | no l ↦ (omega (arith, l), scan_value-some (scan_index d empty_body) at (ground (arith, l, h)))
]

-- A search that fails, for a name that is short enough.
absent_scan :
    (d : Disk) (name : List ℕ) (r : ℕ × Index)
    → index_start ≤ get_index_size d
    → length name ≤ filename_size
    → get_index d (name ∷ []) ≡ none
    → scan_index d (file_body name 0) ≢ hit r
unfolding get_index get_index_from
absent_scan d name r l k h s =
    let f : scan_value (scan_index d (file_body name 0)) ≡ none = ground (arith, l, k, h) in
    let g : scan_value (scan_index d (file_body name 0)) ≡ some r = ap scan_value s in cc

present_scan :
    (d : Disk) (name : List ℕ) (r : ℕ × Index)
    → index_start ≤ get_index_size d
    → length name ≤ filename_size
    → scan_index d (file_body name 0) ≡ hit r
    → get_index d (name ∷ []) ≡ some r
unfolding get_index get_index_from
present_scan d name r l k s =
    let g : scan_value (scan_index d (file_body name 0)) ≡ some r = ap scan_value s in
    ground (arith, l, k, g)

-- A creation puts an entry in the place of an empty one.
abbrev pub Added : Disk → (type : ℕ) → (name : List ℕ) → (at offset : ℕ) → Disk → Type 0
Added d type name at offset d' =
    ((e : Index) × (read_entry d at ≡ some e) × (e.type ≡ type_empty))
    × (at + index_entry_size < get_index_size d)
    × (get_index d' (name ∷ []) ≡ some (at, fresh_entry type 0 name offset))
    × Updated d at (fresh_entry type 0 name offset) d'

Steps-Added :
    (d d' : Disk) (type : ℕ) (name : List ℕ)
    → EndsEarly (get_index_size d)
    → type ≢ type_empty
    → type < 256
    → (s : Steps d type name d') → Added d type name s.at s.offset d'
unfolding scan_index
Steps-Added d d' type name w t b s =
    let e = fresh_entry type 0 name s.offset in
    let fits : Fits e = record {
      type = b;
      parent_offset = omega arith;
      size = omega arith;
      offset = find_space_lt d 0 s.offset w s.space;
      name = length-pad_name name s.short;
    } in
    let z = empty_scan d s.at s.empty in
    let f =
      scan-Found (suc (get_index_size d)) d (get_index_size d) empty_body index_start s.at w z.0
        z.1 in
    let own = empty_body_own f.0 f.1 s.at f.5 in
    let lo : index_start ≤ s.at = omega (arith, f.2, own.0) in
    let hi : s.at + index_entry_size < get_index_size d = omega (arith, f.3, own.0) in
    let u = update_index-Updated d d' s.at e fits lo (omega (arith, hi, w)) s.update in
    let found_again =
      scan_fresh (suc (get_index_size d)) d d' (get_index_size d) empty_body (file_body name 0)
        index_start s.at e (s.at, e) w z.0 (λ p e p' h. (empty_body_own p e p' h).0) z.1
        (λ r h. absent_scan d name r z.0 s.short s.absent h)
        (λ p l. u.2 p (inl l) (omega (arith, l, hi, w))) u.1
        (file_body_fresh type name s.offset s.at t s.short) in
    let scan' : scan_index d' (file_body name 0) ≡ hit (s.at, e) =
      subst (λ n. scan_entries (suc n) d' n (file_body name 0) index_start ≡ hit (s.at, e))
        (sym u.0) found_again in
    (
      (f.1, subst (λ n. read_entry d n ≡ some f.1) (sym own.0) f.4, own.1),
      hi,
      present_scan d' name (s.at, e) (omega (arith, z.0, u.0)) s.short scan',
      u,
    )

-- An entry that is created in the root, of a type that is a byte and not 0, in an index space that
-- ends 57 bytes before the end of the address space, is found under its name, with its type and the
-- size 0. It stands in the place of an entry that was empty, and every entry that shares no byte with
-- it reads as before.
pub create_index-get_index :
    (d d' : Disk) (type : ℕ) (name : List ℕ)
    → EndsEarly (get_index_size d)
    → type ≢ type_empty
    → type < 256
    → create_index d (name ∷ []) type ≡ created d'
    → (at : ℕ) × (offset : ℕ) × Added d type name at offset d'
create_index-get_index d d' type name w t b h =
    let s = create_index-Steps d type name d' h in
    (s.at, s.offset, Steps-Added d d' type name w t b s)
