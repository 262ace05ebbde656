-- ===== src/Fs/Calls/Laws.antt =====
-- Calls of the file system one after another: src/fs/.
use hypnoticos.Base.{
  ℕ, zero, suc, ◌+◌, ◌-◌, ◌≤◌, ◌<◌, ◌≡◌, ◌≢◌, ◌⊎◌, inl, inr, refl, ap, sym, ◌∙◌, subst, Bool, true,
  Option, ne→==, none, some, List, [], ◌∷◌, ◌++◌, arith, length, replicate,
}
use hypnoticos.Storage.{Disk}
use hypnoticos.Fs.{FsIndex}
use hypnoticos.Fs.Path.{path_breakdown}
use hypnoticos.Fs.HypnoticFs.{
  type_file, type_directory, filename_size, Index, get_index_size, pad_name,
}
use hypnoticos.Fs.HypnoticFs.IndexSpace.{get_index, name_text, generate_fs_index}
use hypnoticos.Fs.HypnoticFs.Files.{read, write, created, refused, create_index, details_get}
use hypnoticos.Fs.HypnoticFs.Scan.{EndsEarly}
use hypnoticos.Fs.HypnoticFs.Create.{fresh_entry, create_index-get_index}
use hypnoticos.Fs.HypnoticFs.Reads.{OnDisk, contents}
use hypnoticos.Fs.HypnoticFs.Contents.{splice, write-read}
use hypnoticos.Fs.Calls.{
  root_type_hypnoticfs, Root, first_root, set_disk, enter, fs_read, fs_write, fs_details_get,
  fs_new_index,
}

-- No character is NUL.
abbrev pub IsText : List ℕ → Type 0
IsText [] = Unit
IsText (ch ∷ cs) = (ch ≢ 0) × IsText cs

name_text_append : (s : List ℕ) (n : ℕ) → n ≢ 0 → IsText s → name_text (s ++ replicate n 0) ≡ some s
unfolding name_text
name_text_append [] zero z t = absurd (z refl)
name_text_append [] (suc n) z t = refl
name_text_append (ch ∷ cs) n z (c, t) = rw (ne→== ch 0 c, name_text_append cs n z t) refl

enter_first :
    (r : Root) (rs : List Root) (path : List ℕ) (path_short : List (List ℕ))
    → r.fs_type ≡ root_type_hypnoticfs
    → path_breakdown path ≡ some path_short
    → enter (r ∷ rs) path ≡ some (path_short, r.disk)
unfolding enter first_root
enter_first r rs path path_short t p = ground (arith, t, p)

abbrev fs_index : (type size : ℕ) → Option (List ℕ) → FsIndex
fs_index type size name = record { type = type; size = size; name = name }

generate_fs_index-some :
    (e : Index)
    → (e.type ≡ type_file) ⊎ (e.type ≡ type_directory)
    → generate_fs_index true e ≡ some (fs_index e.type e.size (name_text e.name))
unfolding generate_fs_index
generate_fs_index-some e (inl t) =
    subst (λ k. generate_fs_index true e ≡ some (fs_index k e.size (name_text e.name))) (sym t)
      (ground (arith, t))
generate_fs_index-some e (inr t) =
    subst (λ k. generate_fs_index true e ≡ some (fs_index k e.size (name_text e.name))) (sym t)
      (ground (arith, t))

details_get-some :
    (d : Disk) (path_short : List (List ℕ)) (at : ℕ) (e : Index)
    → get_index d path_short ≡ some (at, e)
    → details_get true d path_short ≡ generate_fs_index true e
unfolding details_get
details_get-some d path_short at e g =
    ap (λ r. elim r [ none ↦ none | some (at, e) ↦ generate_fs_index true e ]) g

-- A new entry directly below the root, of a type of file or directory and with a name of at most 31
-- characters and without NUL, on a first root of HypnoticFS whose index space ends 57 bytes before the
-- end of the address space: where the creation succeeds, the details of the path are the type, the
-- size 0 and the name.
pub fs_new_index-fs_details_get :
    (r : Root) (rs : List Root) (path name : List ℕ) (type : ℕ) (d' : Disk)
    → r.fs_type ≡ root_type_hypnoticfs
    → path_breakdown path ≡ some (name ∷ [])
    → (type ≡ type_file) ⊎ (type ≡ type_directory)
    → IsText name
    → length name < filename_size
    → EndsEarly (get_index_size r.disk)
    → fs_new_index (r ∷ rs) path type ≡ created d'
    → fs_details_get true (set_disk d' (r ∷ rs)) path
      ≡ some (record { type = type; size = 0; name = some name })
unfolding fs_new_index fs_details_get pad_name set_disk
fs_new_index-fs_details_get r rs path name type d' k p t n short w h =
    let before = enter_first r rs path (name ∷ []) k p in
    let call =
      ap (λ x. elim x [ none ↦ refused | some (path_short, d) ↦ create_index d path_short type ])
        before in
    let c : create_index r.disk (name ∷ []) type ≡ created d' = sym call ∙ h in
    let a =
      create_index-get_index r.disk d' type name w (ground (arith, t)) (ground (arith, t)) c in
    let e = fresh_entry type 0 name a.1 in
    let m = name_text_append name (filename_size - length name) (omega (arith, short)) n in
    let details =
      details_get-some d' (name ∷ []) a.0 e a.2.2
      ∙ (generate_fs_index-some e t ∙ ap (λ n. some (fs_index type 0 n)) m) in
    let after = enter_first (record r { disk = d' }) rs path (name ∷ []) k p in
    ap (λ x. elim x [ none ↦ none | some (path_short, d) ↦ details_get true d path_short ]) after
    ∙ details

-- A write through a path and reads through paths, on a first root of HypnoticFS: where the path leads
-- to an entry whose data lie behind the index space and on the disk, and the write ends in the data,
-- it succeeds, and a read of the whole entry then returns its data with the bytes written in place.
pub fs_write-fs_read :
    (room : Bool) (r : Root) (rs : List Root) (path : List ℕ) (path_short : List (List ℕ))
    (offset : ℕ) (src : List ℕ) (at : ℕ) (e : Index)
    → r.fs_type ≡ root_type_hypnoticfs
    → path_breakdown path ≡ some path_short
    → EndsEarly (get_index_size r.disk)
    → get_index r.disk path_short ≡ some (at, e)
    → OnDisk r.disk e
    → get_index_size r.disk ≤ e.offset
    → offset + length src ≤ e.size
    → (roots : List Root) × (fs_write room (r ∷ rs) path offset src ≡ (1, roots))
      × (fs_read roots path 0 e.size ≡ (e.size, splice offset src (contents r.disk e)))
unfolding fs_write fs_read set_disk
fs_write-fs_read room r rs path path_short offset src at e k p w g o i b =
    let x = write-read room r.disk path_short offset src at e w g o i b in
    let before = enter_first r rs path path_short k p in
    let after = enter_first (record r { disk = x.0 }) rs path path_short k p in
    let wrote : ℕ × Disk → ℕ × List Root = λ y. (y.0, set_disk y.1 (r ∷ rs)) in
    (
      set_disk x.0 (r ∷ rs),
      ap (λ y. elim y [ none ↦ (0, r ∷ rs) | some (ps, d) ↦ wrote (write room d ps offset src) ])
            before
          ∙ ap wrote x.1,
      ap (λ y. elim y [ none ↦ (0, []) | some (ps, d) ↦ read d ps 0 e.size ]) after ∙ x.2.0,
    )
