-- ===== src/Dispatcher/New.antt =====
-- New processes: src/dispatcher/new.c, and the init data of src/dispatcher/memory.c. The small
-- allocations of a new process are taken to succeed; those of pages are arguments.
pub mod Pids
pub mod Stack
use hypnoticos.Base.{
  ℕ, zero, suc, ◌+◌, ◌*◌, ◌/◌, ◌%◌, Bool, true, false, Option, none, some, List, [], ◌∷◌, ◌++◌,
  ◌==◌, if◌then◌else◌, ltb, add64, sub64, replicate, length,
}
use hypnoticos.Storage.{store_bytes, bytes_at}
use hypnoticos.Fs.HypnoticFs.{bytes_of}
use hypnoticos.Fs.{FsIndex}
use hypnoticos.Fs.Calls.{Root, fs_read, fs_details_get}
use hypnoticos.Dispatcher.Addresses.{Va, process_map, get_pa}
use hypnoticos.Dispatcher.Load.{Space, Grant, allocate_page}
use hypnoticos.Dispatcher.Process.{Registers, Suspend, awake, Process, dispatcher_find, run_process}

-- The address of the stack, and the one of the init data.
abbrev pub stack_base : ℕ
stack_base = 0xFFFFFF0000

abbrev pub init_data_default_addr : ℕ
init_data_default_addr = 0x1FFF0000

-- The loop of `DispatcherProcessSetUpStack`: `n` pages from the page `i` on.
unfoldable pub map_stack : ℕ → (ℕ → Bool) → (stack i : ℕ) → List Va → ℕ × List Va
map_stack zero paged stack i vs = (1, vs)
map_stack (suc n) paged stack i vs =
    let r = process_map (paged i) vs (add64 stack_base (i * 4096)) (add64 stack (i * 4096)) 0 in
    if r.0 == 0 then (0, r.1) else map_stack n paged stack (i + 1) r.1

-- The size of the stack's memory.
unfoldable pub stack_alloc_size : ℕ → ℕ
stack_alloc_size size = add64 size (size % 4096)

-- DispatcherProcessSetUpStack, where `malloc_align` returns `stack`: its result, the stack pointer,
-- and what it leaves. `rsp` is the old stack pointer.
unfoldable pub set_up_stack : Option ℕ → (ℕ → Bool) → (size rsp : ℕ) → Space → ℕ × ℕ × Space
set_up_stack none paged size rsp s = (0, rsp, s)
set_up_stack (some stack) paged size rsp s =
    let r = map_stack (size / 4096 + 1) paged stack 0 s.map in
    (
      r.0,
      sub64 (add64 stack_base (stack_alloc_size size)) 8,
      record s {
        map = r.1;
        bytes = store_bytes s.bytes stack (replicate (stack_alloc_size size) 0);
      },
    )

-- The next value of `last_pid`.
unfoldable pub step_pid : ℕ → ℕ
step_pid last_pid = if last_pid == 0xFFFF then 1 else last_pid + 1

-- The loop of `DispatcherProcessNew` for the process ID, on fuel: `none` where it is not done.
unfoldable pub next_pid : ℕ → (last_pid : ℕ) → List Process → Option ℕ
next_pid zero last_pid ps = none
next_pid (suc fuel) last_pid ps = elim (dispatcher_find (step_pid last_pid) ps) [
  | none ↦ some (step_pid last_pid)
  | some p ↦ next_pid fuel (step_pid last_pid) ps
]

-- `init_data_addr`, `init_data_size` and `init_data_ptr`
pub record InitData : Type 0 where
  pub addr : ℕ
  pub size : ℕ
  pub ptr : ℕ

-- DispatcherProcessSetUpInitData
unfoldable pub set_up_init_data : Grant → Space → Option InitData × Space
set_up_init_data g s =
    let r = allocate_page g s init_data_default_addr 0 in
    (
      elim r.0 [
        | none ↦ none
        | some ptr ↦
            some (record {
              addr = init_data_default_addr;
              size = 0x1000;
              ptr = init_data_default_addr;
            })
      ],
      r.1,
    )

-- `GET_PA`: NULL is 0.
unfoldable pub pa_or_null : Option ℕ → ℕ
pa_or_null none = 0
pa_or_null (some pa) = pa

-- The data are copied, with `additional` zeros behind them.
unfoldable pub put_init_data : InitData → (pa : ℕ) → List ℕ → Space → Option (ℕ × InitData) × Space
put_init_data i pa bs s =
    let additional = length bs % 8 in
    (
      some (i.ptr, record i { ptr = add64 (add64 i.ptr (length bs)) additional }),
      record s {
        bytes =
            store_bytes (store_bytes s.bytes pa bs) (add64 pa (length bs)) (replicate additional 0);
      },
    )

-- DispatcherProcessAddInitData of the bytes `bs`: the virtual address of the data.
unfoldable pub add_init_data : Grant → InitData → List ℕ → Space → Option (ℕ × InitData) × Space
add_init_data g i bs s =
    let pa = pa_or_null (get_pa s.map i.ptr 1) in
    if ltb (add64 i.addr i.size) (add64 i.ptr (length bs))
    then (let r = allocate_page g s (add64 i.addr i.size) 0 in
        elim r.0 [ none ↦ (none, r.1) | some ptr ↦ put_init_data i pa bs r.1 ])
    else put_init_data i pa bs s

-- The loop over the arguments: their addresses.
unfoldable pub add_arguments :
    (ℕ → Grant) → ℕ → List (List ℕ) → InitData → Space → Option (List ℕ × InitData) × Space
add_arguments grants k [] i s = (some ([], i), s)
add_arguments grants k (a ∷ as_) i s =
    let r = add_init_data (grants k) i (a ++ 0 ∷ []) s in
    elim r.0 [
      | none ↦ (none, r.1)
      | some x ↦
          let rest = add_arguments grants (k + 1) as_ x.1 r.1 in
          (elim rest.0 [ none ↦ none | some y ↦ some (x.0 ∷ y.0, y.1) ], rest.1)
    ]
