-- ===== src/Dispatcher/Start.antt =====
-- A new process from a file: DispatcherProcessNew and DispatcherProcessNewFromFormat of
-- src/dispatcher/new.c.
pub mod Started
use hypnoticos.Base.{
  ℕ, zero, suc, ◌+◌, ◌*◌, Bool, true, false, not, Option, none, some, List, [], ◌∷◌, ◌++◌, ◌==◌,
  if◌then◌else◌, length, get_or,
}
use hypnoticos.Fs.{FsIndex}
use hypnoticos.Fs.HypnoticFs.{bytes_of}
use hypnoticos.Fs.Calls.{Root, fs_read, fs_details_get}
use hypnoticos.Dispatcher.Load.{Space, Grant, allocate_page}
use hypnoticos.Dispatcher.Elf.{
  Format, not_detected, unsupported, detected, detect, ElfRun, halts, gave_up, set_up_done,
  unending, set_up,
}
use hypnoticos.Dispatcher.New.{
  next_pid, InitData, set_up_init_data, add_init_data, add_arguments, set_up_stack,
}
use hypnoticos.Dispatcher.Process.{Registers, awake, Process, run_process, set_rip}

-- What a call gets from outside: whether `malloc` returns memory for the details and for the file,
-- the pages of the new process and of the headers, the address of its PML4, and its stack with the
-- pages of it that are set.
pub record Supply : Type 0 where
  pub details : Bool
  pub file : Bool
  pub pages : ℕ → Grant
  pub segments : ℕ → ℕ → Grant
  pub pml4 : ℕ
  pub stack : Option ℕ
  pub stack_paged : ℕ → Bool

abbrev pub init_heap_addr : ℕ
init_heap_addr = 0x20000000

-- The process before its arguments are known: DispatcherProcessNew clears `save`.
unfoldable pub blank_process : (pid pml4 : ℕ) → Process
blank_process pid pml4 = record {
  pid = pid;
  save = record {
    rsp = 0;
    rbp = 0;
    cr3 = pml4;
    rip = 0;
    rflags = 0;
    rax = 0;
    rbx = 0;
    rcx = 0;
    rdx = 0;
    rsi = 0;
    rdi = 0;
    r8 = 0;
    r9 = 0;
    r10 = 0;
    r11 = 0;
    r12 = 0;
    r13 = 0;
    r14 = 0;
    r15 = 0;
  };
  run = 0;
  last_cycle = 0;
  lock = 0;
  suspend = awake;
  pending_exit = false;
  io = [];
}

-- The addresses of the arguments, as an array.
unfoldable pub pointers : List ℕ → List ℕ
pointers [] = []
pointers (a ∷ addrs) = bytes_of 8 a ++ pointers addrs

-- `rdi` and `rsi`
unfoldable pub with_arguments : Process → (argc argv : ℕ) → Process
with_arguments p argc argv = record p { save = record p.save { rdi = argc; rsi = argv } }

-- The array of the arguments is put behind them.
unfoldable pub add_array : Supply → Process → (List ℕ × InitData) → Space → Option (Process × Space)
add_array supply p (addrs, i) s =
    let r = add_init_data (supply.pages (2 + length addrs)) i (pointers addrs) s in
    elim r.0 [ none ↦ none | some x ↦ some (with_arguments p (length addrs) x.0, r.1) ]

-- DispatcherProcessNew from the process ID on; `arguments` are the name and what follows it. `none`
-- where it returns NULL. The page of the heap is not tested.
unfoldable pub fill_process :
    Supply → (arguments : List (List ℕ)) → Process → Option (Process × Space)
fill_process supply arguments p =
    let empty : Space = record { map = []; alloc = []; bytes = λ n. 0 } in
    let heap = allocate_page (supply.pages 0) empty init_heap_addr 0 in
    let init = set_up_init_data (supply.pages 1) heap.1 in
    elim init.0 [
      | none ↦ none
      | some i ↦
          let r = add_arguments supply.pages 2 arguments i init.1 in
          elim r.0 [ none ↦ none | some x ↦ add_array supply p x r.1 ]
    ]

-- The result of DispatcherProcessNewFromFormat, with the list of processes that it leaves: NULL, a
-- process that runs, a HALT, or a search for a process ID that does not end.
pub data StartRun : Type 0 where
  refused : List Process → StartRun
  started : List Process → Process → Space → StartRun
  halted : StartRun
  endless : StartRun

-- The stack, and the process runs. The process stands in the list already, behind the others.
unfoldable pub finish_start : Supply → List Process → Process → Space → StartRun
finish_start supply ps p s =
    if p.save.rip == 0
    then refused (ps ++ p ∷ [])
    else (let r = set_up_stack supply.stack supply.stack_paged 4096 p.save.rsp s in
        let q : Process = record p { save = record p.save { rsp = r.1; rbp = r.1 } } in
        if r.0 == 0
        then refused (ps ++ q ∷ [])
        else started (ps ++ run_process q ∷ []) (run_process q) r.2)

unfoldable pub after_set_up : Supply → List Process → Process → ElfRun → StartRun
after_set_up supply ps p halts = halted
after_set_up supply ps p unending = endless
after_set_up supply ps p (gave_up s) = refused (ps ++ p ∷ [])
after_set_up supply ps p (set_up_done s) = finish_start supply ps p s

-- A file that is an ELF file: the process is made, and the file is loaded.
unfoldable pub start_image :
    Supply
    → (arguments : List (List ℕ)) → (last_pid : ℕ) → List Process
    → (image : ℕ → ℕ) → (size : ℕ) → StartRun
start_image supply arguments last_pid ps image size = elim (next_pid 0xFFFF last_pid ps) [
  | none ↦ endless
  | some pid ↦ elim (fill_process supply arguments (blank_process pid supply.pml4)) [
    | none ↦ refused ps
    | some (p, s) ↦
        let r = set_up supply.segments image size s in after_set_up supply ps (set_rip p r.0) r.1
  ]
]

-- The format of the file that was read.
unfoldable pub start_format :
    Supply
    → (arguments : List (List ℕ)) → (last_pid : ℕ) → List Process
    → (image : ℕ → ℕ) → (size : ℕ) → Format
    → StartRun
start_format supply arguments last_pid ps image size detected =
    start_image supply arguments last_pid ps image size
start_format supply arguments last_pid ps image size unsupported = refused ps
start_format supply arguments last_pid ps image size not_detected = refused ps

-- The file is read.
unfoldable pub start_file :
    Supply
    → List Root
    → (path : List ℕ) → (arguments : List (List ℕ)) → (last_pid : ℕ) → List Process
    → FsIndex
    → StartRun
start_file supply roots path arguments last_pid ps f =
    let r = fs_read roots path 0 f.size in
    let image : ℕ → ℕ = λ n. get_or r.1 n 0 in
    if not (f.type == 1)
    then refused ps
    else if not supply.file
    then refused ps
    else if not (r.0 == f.size)
    then refused ps
    else start_format supply arguments last_pid ps image f.size (detect image f.size)

-- DispatcherProcessNewFromFormat, for the name `path` and the arguments behind it.
unfoldable pub new_from_format :
    Supply
    → List Root
    → (path : List ℕ) → (argv : List (List ℕ)) → (last_pid : ℕ) → List Process
    → StartRun
new_from_format supply roots path argv last_pid ps =
    elim (fs_details_get supply.details roots path) [
      | none ↦ refused ps
      | some f ↦ start_file supply roots path (path ∷ argv) last_pid ps f
    ]
