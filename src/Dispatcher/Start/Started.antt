-- ===== src/Dispatcher/Start/Started.antt =====
-- The processes that DispatcherProcessNewFromFormat of src/dispatcher/new.c starts.
use hypnoticos.Base.{
  ℕ, ◌≡◌, ◌≢◌, inl, inr, refl, ap, sym, ◌∙◌, subst, Bool-cases, none, some, Option-cases, List, [],
  ◌∷◌, ◌++◌, get_or, length, ◌+◌, arith, ℕ_discrete,
}
use hypnoticos.Fs.{FsIndex}
use hypnoticos.Fs.Calls.{Root, fs_read, fs_details_get}
use hypnoticos.Dispatcher.Load.{Space, allocate_page}
use hypnoticos.Dispatcher.Elf.{
  Format, not_detected, unsupported, detected, detect, ElfRun, halts, gave_up, set_up_done,
  unending, set_up,
}
use hypnoticos.Dispatcher.New.{
  next_pid, InitData, set_up_init_data, add_init_data, add_arguments, set_up_stack,
}
use hypnoticos.Dispatcher.New.Pids.{next_pid_unused}
use hypnoticos.Dispatcher.Process.{Process, run_process, set_rip, dispatcher_find}
use hypnoticos.Dispatcher.Start.{
  Supply, init_heap_addr, pointers, with_arguments, add_array, blank_process, fill_process, started,
  finish_start, after_set_up, start_image, start_format, start_file, new_from_format,
}

-- What is known of a process that was started from an image.
abbrev pub Runs : List Process → List Process → Process → Type 0
Runs ps ps' p = (ps' ≡ ps ++ p ∷ []) × (p.run ≡ 1) × (p.save.rip ≢ 0)

finish_start-Runs :
    (supply : Supply) (ps ps' : List Process) (p q : Process) (s s' : Space)
    → finish_start supply ps p s ≡ started ps' q s'
    → Runs ps ps' q × (q.pid ≡ p.pid) × (q.save.rip ≡ p.save.rip)
unfolding finish_start run_process
finish_start-Runs supply ps ps' p q s s' h = elim (ℕ_discrete p.save.rip 0) [
  | yes z ↦ absurd (ground (arith, z, h))
  | no z ↦
      let r = set_up_stack supply.stack supply.stack_paged 4096 p.save.rsp s in
      let f : Process = run_process (record p { save = record p.save { rsp = r.1; rbp = r.1 } }) in
      elim (ℕ_discrete r.0 0) [
        | yes n ↦ absurd (ground (arith, z, n, h))
        | no n ↦
            let k : started (ps ++ f ∷ []) f r.2 ≡ started ps' q s' = ground (arith, z, n, h) in
            let list : ps ++ f ∷ [] ≡ ps' = cc in
            let same : f ≡ q = cc in
            (
              (
                sym list ∙ ap (λ f. ps ++ f ∷ []) same,
                ap (λ f. f.run) (sym same),
                subst (λ f. f.save.rip ≢ 0) same z,
              ),
              ap (λ f. f.pid) (sym same),
              ap (λ f. f.save.rip) (sym same),
            )
      ]
]

after_set_up-Runs :
    (supply : Supply) (ps ps' : List Process) (p q : Process) (r : ElfRun) (s' : Space)
    → after_set_up supply ps p r ≡ started ps' q s'
    → (s : Space) × (r ≡ set_up_done s)
      × (Runs ps ps' q × (q.pid ≡ p.pid) × (q.save.rip ≡ p.save.rip))
unfolding after_set_up
after_set_up-Runs supply ps ps' p q halts s' h = absurd (cc)
after_set_up-Runs supply ps ps' p q unending s' h = absurd (cc)
after_set_up-Runs supply ps ps' p q (gave_up s) s' h = absurd (cc)
after_set_up-Runs supply ps ps' p q (set_up_done s) s' h =
    (s, refl, finish_start-Runs supply ps ps' p q s s' h)

add_array_pid :
    (supply : Supply) (p q : Process) (x : List ℕ × InitData) (s s' : Space)
    → add_array supply p x s ≡ some (q, s')
    → q.pid ≡ p.pid
unfolding add_array with_arguments
add_array_pid supply p q (addrs, i) s s' h =
    let r = add_init_data (supply.pages (2 + length addrs)) i (pointers addrs) s in
    elim (Option-cases r.0) [
      | inl n ↦ absurd (ground (arith, n, h))
      | inr (x, n) ↦
          let made : Process × Space = (with_arguments p (length addrs) x.0, r.1) in
          let k : some made ≡ some (q, s') = ground (arith, n, h) in
          let same : with_arguments p (length addrs) x.0 ≡ q = cc in ap (λ q. q.pid) (sym same)
    ]

fill_process_pid :
    (supply : Supply) (arguments : List (List ℕ)) (p q : Process) (s : Space)
    → fill_process supply arguments p ≡ some (q, s)
    → q.pid ≡ p.pid
unfolding fill_process
fill_process_pid supply arguments p q s h =
    let empty : Space = record { map = []; alloc = []; bytes = λ n. 0 } in
    let heap = allocate_page (supply.pages 0) empty init_heap_addr 0 in
    let init = set_up_init_data (supply.pages 1) heap.1 in
    elim (Option-cases init.0) [
      | inl n ↦ absurd (ground (arith, n, h))
      | inr (i, n) ↦
          let r = add_arguments supply.pages 2 arguments i init.1 in
          elim (Option-cases r.0) [
            | inl m ↦ absurd (ground (arith, n, m, h))
            | inr (x, m) ↦ add_array_pid supply p q x r.1 s (ground (arith, n, m, h))
          ]
    ]

-- A process that was started from a file.
abbrev pub IsStarted :
    Supply
    → (arguments : List (List ℕ)) → (last_pid : ℕ) → List Process
    → (ℕ → ℕ)
    → ℕ
    → List Process
    → Process
    → Type 0
IsStarted supply arguments last_pid ps image size ps' q =
    Runs ps ps' q
    × (next_pid 0xFFFF last_pid ps ≡ some q.pid)
    × ((s : Space) × (s' : Space) × (set_up supply.segments image size s
          ≡ (q.save.rip, set_up_done s')))

start_image-IsStarted :
    (supply : Supply) (arguments : List (List ℕ)) (last_pid : ℕ) (ps ps' : List Process)
    (image : ℕ → ℕ) (size : ℕ) (q : Process) (s' : Space)
    → start_image supply arguments last_pid ps image size ≡ started ps' q s'
    → IsStarted supply arguments last_pid ps image size ps' q
unfolding start_image set_rip blank_process
start_image-IsStarted supply arguments last_pid ps ps' image size q s' h =
    elim (Option-cases (next_pid 0xFFFF last_pid ps)) [
      | inl n ↦ absurd (ground (arith, n, h))
      | inr (pid, n) ↦
          elim (Option-cases (fill_process supply arguments (blank_process pid supply.pml4))) [
            | inl f ↦ absurd (ground (arith, n, f, h))
            | inr ((p, s), f) ↦
                let r = set_up supply.segments image size s in
                let a =
                  after_set_up-Runs supply ps ps' (set_rip p r.0) q r.1 s'
                    (ground (arith, n, f, h)) in
                let i = fill_process_pid supply arguments (blank_process pid supply.pml4) p s f in
                (a.2.0, n ∙ ap some (sym (a.2.1 ∙ i)), (s, a.0, cc))
          ]
    ]

-- The bytes that were read, as an image.
abbrev pub image_of : ℕ × List ℕ → ℕ → ℕ
image_of r n = get_or r.1 n 0

-- A file of the file system that was read as a whole, and accepted.
abbrev pub IsProgram : List Root → (path : List ℕ) → FsIndex → Type 0
IsProgram roots path f =
    (f.type ≡ 1)
    × ((fs_read roots path 0 f.size).0 ≡ f.size)
    × (detect (image_of (fs_read roots path 0 f.size)) f.size ≡ detected)

start_format_detected :
    (supply : Supply) (arguments : List (List ℕ)) (last_pid : ℕ) (ps ps' : List Process)
    (image : ℕ → ℕ) (size : ℕ) (q : Process) (s' : Space) (format : Format)
    → start_format supply arguments last_pid ps image size format ≡ started ps' q s'
    → (format ≡ detected) × IsStarted supply arguments last_pid ps image size ps' q
unfolding start_format
start_format_detected supply arguments last_pid ps ps' image size q s' detected h =
    (refl, start_image-IsStarted supply arguments last_pid ps ps' image size q s' h)
start_format_detected supply arguments last_pid ps ps' image size q s' unsupported h = absurd (cc)
start_format_detected supply arguments last_pid ps ps' image size q s' not_detected h = absurd (cc)

start_file-IsProgram :
    (supply : Supply) (roots : List Root) (path : List ℕ) (arguments : List (List ℕ)) (last_pid : ℕ)
    (ps ps' : List Process) (f : FsIndex) (q : Process) (s' : Space)
    → start_file supply roots path arguments last_pid ps f ≡ started ps' q s'
    → IsProgram roots path f
      × IsStarted supply arguments last_pid ps (image_of (fs_read roots path 0 f.size)) f.size ps' q
unfolding start_file
start_file-IsProgram supply roots path arguments last_pid ps ps' f q s' h =
    let r = fs_read roots path 0 f.size in
    elim (ℕ_discrete f.type 1) [
      | no t ↦ absurd (ground (arith, t, h))
      | yes t ↦ elim (Bool-cases supply.file) [
        | inr m ↦ absurd (ground (arith, t, m, h))
        | inl m ↦ elim (ℕ_discrete r.0 f.size) [
          | no n ↦ absurd (ground (arith, t, m, n, h))
          | yes n ↦
              let x =
                start_format_detected supply arguments last_pid ps ps' (image_of r) f.size q s'
                  (detect (image_of r) f.size) (ground (arith, t, m, n, h)) in
              ((t, n, x.0), x.1)
        ]
      ]
    ]

-- A process that was started: its path is the one of a file, which was read as a whole and is an ELF
-- file that is accepted; the set-up from its image succeeded, and the process runs from the address
-- that it gave, which is not 0; its ID was the one of no process, and it stands in the list behind the
-- processes that were there.
pub new_from_format-started :
    (supply : Supply) (roots : List Root) (path : List ℕ) (argv : List (List ℕ)) (last_pid : ℕ)
    (ps ps' : List Process) (q : Process) (s' : Space)
    → new_from_format supply roots path argv last_pid ps ≡ started ps' q s'
    → (f : FsIndex) × (fs_details_get supply.details roots path ≡ some f)
      × (IsProgram roots path f
          × IsStarted supply
              (path ∷ argv)
              last_pid
              ps
              (image_of (fs_read roots path 0 f.size))
              f.size
              ps'
              q)
      × (dispatcher_find q.pid ps ≡ none)
unfolding new_from_format
new_from_format-started supply roots path argv last_pid ps ps' q s' h =
    elim (Option-cases (fs_details_get supply.details roots path)) [
      | inl n ↦ absurd (ground (arith, n, h))
      | inr (f, n) ↦
          let x =
            start_file-IsProgram supply roots path (path ∷ argv) last_pid ps ps' f q s'
              (ground (arith, n, h)) in
          (f, n, x, next_pid_unused 0xFFFF last_pid q.pid ps x.1.1)
    ]
