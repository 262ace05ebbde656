-- ===== src/Dispatcher/Process.antt =====
-- Processes: the fields of `DispatcherProcess_t` that src/dispatcher/dispatcher.c and done.c use,
-- and the suspensions of src/function/function.c and sleep.c.
pub mod Keeps
pub mod Sleep
use hypnoticos.Base.{
  ℕ, ◌+◌, ◌*◌, ◌%◌, Bool, true, false, Option, none, some, List, [], ◌∷◌, ◌++◌, ◌==◌, if◌then◌else◌,
  ltb, leb, word, add64,
}
use hypnoticos.Dispatcher.OpenIndices.{OpenIndex, lock_check}
use hypnoticos.Function.Read.{FunctionRead, State, Outcome, returned, halted, read_suspend_test}

-- DispatcherProcessSave_t
pub record Registers : Type 0 where
  pub rsp : ℕ
  pub rbp : ℕ
  pub cr3 : ℕ
  pub rip : ℕ
  pub rflags : ℕ
  pub rax : ℕ
  pub rbx : ℕ
  pub rcx : ℕ
  pub rdx : ℕ
  pub rsi : ℕ
  pub rdi : ℕ
  pub r8 : ℕ
  pub r9 : ℕ
  pub r10 : ℕ
  pub r11 : ℕ
  pub r12 : ℕ
  pub r13 : ℕ
  pub r14 : ℕ
  pub r15 : ℕ

-- `suspend` with `suspend_data`: DISPATCHER_SUSPEND_NONE, _SLEEP with its FunctionSleep_t, _READ.
-- (DISPATCHER_SUSPEND_EXIT goes with `pending_exit`, which the dispatcher looks at first.)
pub data Suspend : Type 0 where
  awake : Suspend
  sleeping : (tick : ℕ) (overflow : Bool) → Suspend
  reading : FunctionRead → Suspend

pub record Process : Type 0 where
  pub pid : ℕ
  pub save : Registers
  pub run : ℕ
  pub last_cycle : ℕ
  pub lock : ℕ
  pub suspend : Suspend
  pub pending_exit : Bool
  pub io : List ℕ

-- What the suspension tests and the end of a process use: memory, the key buffer, the clock
-- `IdtTicks`, and the locked paths.
pub record World : Type 0 where
  pub memory : ℕ → ℕ
  pub keys : List ℕ
  pub ticks : ℕ
  pub open_indices : List OpenIndex

-- DispatcherFind
unfoldable pub dispatcher_find : ℕ → List Process → Option Process
dispatcher_find pid [] = none
dispatcher_find pid (p ∷ ps) = if p.pid == pid then some p else dispatcher_find pid ps

-- The loop of `DispatcherProcessDone` that takes the process from the list.
pub remove_process : ℕ → List Process → List Process
remove_process pid [] = []
remove_process pid (p ∷ ps) =
    let rest = remove_process pid ps in if p.pid == pid then ps else p ∷ rest

-- DispatcherProcessDone: the locks of the process, and its place in the list.
pub process_done : Process → World → List Process → World × List Process
process_done p w ps =
    (record w { open_indices = lock_check p.pid w.open_indices }, remove_process p.pid ps)

-- The suspension that `KernelFunctionSleep` makes at the tick `ticks_current`; `none` for a process
-- that is suspended already, which stops the machine.
pub sleep : (ticks_current ticks : ℕ) → Process → Option Process
sleep ticks_current ticks p = elim p.suspend [
  | awake ↦
      let ticks_wait = (ticks * 10000) % word in
      let tick = add64 ticks_current ticks_wait in
      some (record p { suspend = sleeping tick (ltb tick ticks_current) })
  | sleeping tick overflow ↦ none
  | reading r ↦ none
]

-- KernelFunctionDone
pub lift_suspension : Process → ℕ → Process
lift_suspension p rax = record p { suspend = awake; save = record p.save { rax = rax } }

-- KernelFunctionSleep_SuspendTest
pub sleep_suspend_test : Process → (ticks_current tick : ℕ) → Bool → Process
sleep_suspend_test p ticks_current tick overflow =
    if overflow then p else (if leb tick ticks_current then lift_suspension p 0 else p)

-- What `read_suspend_test` leaves of the suspension.
pub after_read : Option FunctionRead → Suspend
after_read none = awake
after_read (some r) = reading r

-- The process and the rest of the system after a test of a read.
pub read_outcome : Process → World → Outcome → Option (Process × World)
read_outcome p w halted = none
read_outcome p w (returned s) = some (
  record p { suspend = after_read s.suspended; save = record p.save { rax = s.rax } },
  record w { memory = s.memory; keys = s.keys },
)

-- The `switch` of `KernelFunctionSuspendTest`.
unfoldable pub test_kind : Suspend → Process → World → Option (Process × World)
test_kind awake p w = some (p, w)
test_kind (sleeping tick overflow) p w = some (sleep_suspend_test p w.ticks tick overflow, w)
test_kind (reading r) p w = read_outcome p w (
    read_suspend_test
      (record { memory = w.memory; keys = w.keys; suspended = some r; rax = p.save.rax }) r)

-- KernelFunctionSuspendTest, called for a process that is suspended; `none` where the machine stops.
unfoldable pub suspend_test : Process → World → Option (Process × World)
suspend_test p w = test_kind p.suspend p w

-- DispatcherProcessAddIo
pub add_io : Process → ℕ → Process
add_io p port = record p { io = p.io ++ port ∷ [] }

-- DispatcherProcessRun
unfoldable pub run_process : Process → Process
run_process p = record p { run = 1 }

-- DispatcherProcessSetRip
unfoldable pub set_rip : Process → ℕ → Process
set_rip p rip = record p { save = record p.save { rip = rip } }
