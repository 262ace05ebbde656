-- ===== src/Fs/HypnoticFs/Lookup.antt =====
-- What `Fs_HypnoticFS_GetIndex` finds.
use hypnoticos.Base.{
  ℕ, suc, ◌+◌, ◌≤◌, ◌<◌, ◌≡◌, ◌≢◌, ap, sym, ◌∙◌, subst, true, Option, some, List, [], ◌∷◌, arith,
  dec_lt, Option-cases, inl, inr, length, length-drop,
}
use hypnoticos.Storage.{Disk, storage_read}
use hypnoticos.Storage.Laws.{storage_read-some, length-bytes_at}
use hypnoticos.Libc.Text.{memcmp_sound}
use hypnoticos.Fs.HypnoticFs.{
  index_start, index_entry_size, filename_size, type_empty, type_directory, Index, decode_entry,
  get_index_size, read_entry, ScanResult, hit, miss, read_error, unending, scan_index, pad_name,
}
use hypnoticos.Fs.HypnoticFs.Codec.{length-pad_name}
use hypnoticos.Fs.HypnoticFs.IndexSpace.{
  same_name, scan_value, directory_body, file_body, get_index_from, get_index,
}
use hypnoticos.Fs.HypnoticFs.Scan.{EndsEarly, Found, scan-Found}

-- The entry at an offset of the index space.
abbrev pub HasEntry : Disk → ℕ → Index → Type 0
HasEntry d at e =
    (index_start ≤ at) × (at + index_entry_size < get_index_size d) × (read_entry d at ≡ some e)

-- An entry stands for a part of a path below a directory.
abbrev pub IsNamed : Index → (parent_offset : ℕ) → List ℕ → Type 0
IsNamed e parent_offset s =
    (e.parent_offset ≡ parent_offset) × (e.name ≡ pad_name s) × (length s ≤ filename_size)

-- A path leads from a directory to an entry: every part but the last one to a directory, and the
-- last one to an entry in use.
pub data Resolves (d : Disk) : (parent_offset : ℕ) → List (List ℕ) → ℕ → Index → Type 0 where
  last :
      (parent_offset : ℕ) (s : List ℕ) (at : ℕ) (e : Index)
      → HasEntry d at e
      → IsNamed e parent_offset s
      → e.type ≢ type_empty
      → Resolves d parent_offset (s ∷ []) at e
  below :
      (parent_offset : ℕ) (s t : List ℕ) (ss : List (List ℕ)) (p : ℕ) (f : Index) (at : ℕ)
      (e : Index)
      → HasEntry d p f
      → IsNamed f parent_offset s
      → f.type ≡ type_directory
      → Resolves d p (t ∷ ss) at e
      → Resolves d parent_offset (s ∷ t ∷ ss) at e

read_entry-some :
    (d : Disk) (at : ℕ) (e : Index)
    → read_entry d at ≡ some e
    → (bs : List ℕ) × (storage_read d at index_entry_size ≡ some bs) × (decode_entry bs ≡ e)
unfolding read_entry
read_entry-some d at e h = elim (Option-cases (storage_read d at index_entry_size)) [
  | inl n ↦ absurd (ground (arith, n, h))
  | inr (bs, r) ↦ let same : decode_entry bs ≡ e = ground (arith, r, h) in (bs, r, same)
]

pub read_entry_name :
    (d : Disk) (at : ℕ) (e : Index) → read_entry d at ≡ some e → length e.name ≡ filename_size
unfolding decode_entry
read_entry_name d at e h =
    let r = read_entry-some d at e h in
    let s = storage_read-some d at index_entry_size r.0 r.1 in
    let l = ap length s.2 ∙ length-bytes_at d.bytes at index_entry_size in
    let n : length (decode_entry r.0).name ≡ filename_size = omega (arith, length-drop 25 r.0, l) in
    subst (λ e. length e.name ≡ filename_size) r.2 n

same_name_sound :
    (e : Index) (s : List ℕ)
    → length e.name ≡ filename_size
    → length s ≤ filename_size
    → same_name e s ≡ true
    → e.name ≡ pad_name s
unfolding same_name
same_name_sound e s l k h =
    memcmp_sound e.name (pad_name s) filename_size l (length-pad_name s k) (ground (arith, h))

directory_body_sound :
    (s : List ℕ) (parent_offset at p : ℕ) (e : Index)
    → directory_body s parent_offset at e ≡ some p
    → (p ≡ at)
      × (e.type ≡ type_directory)
      × (same_name e s ≡ true)
      × (e.parent_offset ≡ parent_offset)
unfolding directory_body
directory_body_sound s parent_offset at p e h = ground (arith, h)

file_body_sound :
    (s : List ℕ) (parent_offset at p : ℕ) (e f : Index)
    → file_body s parent_offset at e ≡ some (p, f)
    → (p ≡ at)
      × (f ≡ e)
      × (e.type ≢ type_empty)
      × (same_name e s ≡ true)
      × (e.parent_offset ≡ parent_offset)
unfolding file_body
file_body_sound s parent_offset at p e f h = ground (arith, h)

pub scan_value-some {ℓ} :
    {A : Type ℓ} (r : ScanResult A) (a : A) → scan_value r ≡ some a → r ≡ hit a
scan_value-some (hit b) a h = let same : b ≡ a = cc in ap hit same
scan_value-some miss a h = absurd (cc)
scan_value-some read_error a h = absurd (cc)
scan_value-some unending a h = absurd (cc)

pub scan_index-Found {ℓ} :
    {A : Type ℓ} (d : Disk) (body : ℕ → Index → Option A) (a : A)
    → EndsEarly (get_index_size d)
    → index_start ≤ get_index_size d
    → scan_value (scan_index d body) ≡ some a
    → Found d (get_index_size d) body index_start a
unfolding scan_index
scan_index-Found d body a w l h =
    scan-Found (suc (get_index_size d)) d (get_index_size d) body index_start a w l
      (scan_value-some (scan_index d body) a h)

-- From a directory on.
get_index_from-Resolves :
    (d : Disk) (parent_offset : ℕ) (path_short : List (List ℕ)) (at : ℕ) (e : Index)
    → EndsEarly (get_index_size d)
    → index_start ≤ get_index_size d
    → get_index_from d parent_offset path_short ≡ some (at, e)
    → Resolves d parent_offset path_short at e
unfolding get_index_from
get_index_from-Resolves d parent_offset [] at e w l h = absurd (cc)
get_index_from-Resolves d parent_offset (s ∷ []) at e w l h =
    elim (dec_lt filename_size (length s)) [
      | yes k ↦ absurd (ground (arith, k, h))
      | no k ↦
          let short : length s ≤ filename_size = omega (arith, k) in
          let r : scan_value (scan_index d (file_body s parent_offset)) ≡ some (at, e) =
            ground (arith, k, h) in
          let f = scan_index-Found d (file_body s parent_offset) (at, e) w l r in
          let b = file_body_sound s parent_offset f.0 at f.1 e f.5 in
          let name = same_name_sound f.1 s (read_entry_name d f.0 f.1 f.4) short b.3 in
          let slot : HasEntry d f.0 f.1 = (f.2, f.3, f.4) in
          let named : IsNamed f.1 parent_offset s = (b.4, name, short) in
          subst (λ p. Resolves d parent_offset (s ∷ []) p e) (sym b.0)
            (subst (λ e. Resolves d parent_offset (s ∷ []) f.0 e) (sym b.1)
              (last parent_offset s f.0 f.1 slot named b.2))
    ]
get_index_from-Resolves d parent_offset (s ∷ t ∷ ss) at e w l h =
    elim (dec_lt filename_size (length s)) [
      | yes k ↦ absurd (ground (arith, k, h))
      | no k ↦ elim (Option-cases (scan_value (scan_index d (directory_body s parent_offset)))) [
        | inl n ↦ absurd (ground (arith, k, n, h))
        | inr (p, r) ↦
            let f = scan_index-Found d (directory_body s parent_offset) p w l r in
            let rest : get_index_from d p (t ∷ ss) ≡ some (at, e) = ground (arith, k, r, h) in
            let deeper = get_index_from-Resolves d p (t ∷ ss) at e w l rest in
            let b = directory_body_sound s parent_offset f.0 p f.1 f.5 in
            let name =
              same_name_sound f.1 s (read_entry_name d f.0 f.1 f.4) (omega (arith, k)) b.2 in
            let slot : HasEntry d p f.1 = subst (λ n. HasEntry d n f.1) (sym b.0) (f.2, f.3, f.4) in
            below parent_offset s t ss p f.1 at e slot (b.3, name, omega (arith, k)) b.1 deeper
      ]
    ]

-- For an index space that ends 57 bytes before the end of the address space: what the search for a
-- path returns is an entry to which the path leads from the root.
pub get_index-Resolves :
    (d : Disk) (path_short : List (List ℕ)) (at : ℕ) (e : Index)
    → EndsEarly (get_index_size d)
    → get_index d path_short ≡ some (at, e)
    → Resolves d 0 path_short at e
unfolding get_index
get_index-Resolves d path_short at e w h = elim (dec_lt (get_index_size d) index_start) [
  | yes l ↦ absurd (ground (arith, l, h))
  | no l ↦ get_index_from-Resolves d 0 path_short at e w (omega (arith, l)) (ground (arith, l, h))
]
