-- ===== src/Function/Read.antt =====
-- `read` on the standard input: src/function/read.c. A process that calls it is suspended with a
-- `FunctionRead_t`, and the dispatcher's test of the suspension moves one key at a time from the key
-- buffer to the process.
pub mod Typed
use hypnoticos.Base.{
  ℕ, ◌+◌, ◌%◌, Bool, true, false, Option, none, some, List, [], ◌∷◌, ◌==◌, if◌then◌else◌, leb,
  add64, bit_and,
}
use hypnoticos.Keyboard.{buffer_get, buffer_get_keep}
use hypnoticos.Keyboard.Codes.{
  key_pressed, key_a, key_b, key_backspace, key_c, key_d, key_e, key_f, key_g, key_h, key_i, key_j,
  key_k, key_keypad_0, key_keypad_1, key_keypad_2, key_keypad_3, key_keypad_4, key_keypad_5,
  key_keypad_6, key_keypad_7, key_keypad_8, key_keypad_9, key_keypad_forwardslash,
  key_keypad_period, key_l, key_m, key_main_0, key_main_1, key_main_2, key_main_3, key_main_4,
  key_main_5, key_main_6, key_main_7, key_main_8, key_main_9, key_main_forwardslash,
  key_main_period, key_n, key_o, key_p, key_q, key_r, key_return, key_s, key_space, key_t, key_u,
  key_v, key_w, key_x, key_y, key_z,
}

-- The cases of the `switch` from KEY_SPACE on.
unfoldable pub other_char : ℕ → Option ℕ
other_char kb =
    if kb == key_space
    then some b' '
    else if kb == key_backspace
    then some 8
    else if kb == key_return
    then some 10
    else if kb == key_main_forwardslash
    then some b'/'
    else if kb == key_keypad_forwardslash
    then some b'/'
    else if kb == key_main_period
    then some b'.'
    else if kb == key_keypad_period
    then some b'.'
    else if kb == key_main_0
    then some b'0'
    else if kb == key_main_1
    then some b'1'
    else if kb == key_main_2
    then some b'2'
    else if kb == key_main_3
    then some b'3'
    else if kb == key_main_4
    then some b'4'
    else if kb == key_main_5
    then some b'5'
    else if kb == key_main_6
    then some b'6'
    else if kb == key_main_7
    then some b'7'
    else if kb == key_main_8
    then some b'8'
    else if kb == key_main_9
    then some b'9'
    else if kb == key_keypad_0
    then some b'0'
    else if kb == key_keypad_1
    then some b'1'
    else if kb == key_keypad_2
    then some b'2'
    else if kb == key_keypad_3
    then some b'3'
    else if kb == key_keypad_4
    then some b'4'
    else if kb == key_keypad_5
    then some b'5'
    else if kb == key_keypad_6
    then some b'6'
    else if kb == key_keypad_7
    then some b'7'
    else if kb == key_keypad_8
    then some b'8'
    else if kb == key_keypad_9
    then some b'9'
    else none

-- The `switch`: the character of a key, if it has one.
unfoldable pub key_char : ℕ → Option ℕ
key_char kb =
    if kb == key_a
    then some b'a'
    else if kb == key_b
    then some b'b'
    else if kb == key_c
    then some b'c'
    else if kb == key_d
    then some b'd'
    else if kb == key_e
    then some b'e'
    else if kb == key_f
    then some b'f'
    else if kb == key_g
    then some b'g'
    else if kb == key_h
    then some b'h'
    else if kb == key_i
    then some b'i'
    else if kb == key_j
    then some b'j'
    else if kb == key_k
    then some b'k'
    else if kb == key_l
    then some b'l'
    else if kb == key_m
    then some b'm'
    else if kb == key_n
    then some b'n'
    else if kb == key_o
    then some b'o'
    else if kb == key_p
    then some b'p'
    else if kb == key_q
    then some b'q'
    else if kb == key_r
    then some b'r'
    else if kb == key_s
    then some b's'
    else if kb == key_t
    then some b't'
    else if kb == key_u
    then some b'u'
    else if kb == key_v
    then some b'v'
    else if kb == key_w
    then some b'w'
    else if kb == key_x
    then some b'x'
    else if kb == key_y
    then some b'y'
    else if kb == key_z
    then some b'z'
    else other_char kb

-- FunctionRead_t; `buffer` is the physical address of the process's buffer.
pub record FunctionRead : Type 0 where
  pub fd : ℕ
  pub buffer : ℕ
  pub count : ℕ
  pub offset : ℕ

-- What the test can change: memory, the key buffer, and of the process the suspension
-- (`p->suspend_data`, `none` for DISPATCHER_SUSPEND_NONE) and the saved rax.
pub record State : Type 0 where
  pub memory : ℕ → ℕ
  pub keys : List ℕ
  pub suspended : Option FunctionRead
  pub rax : ℕ

pub data Outcome : Type 0 where
  returned : State → Outcome
  halted : Outcome

-- KernelFunctionDone
pub function_done : State → ℕ → State
function_done s rax = record s { suspended = none; rax = rax }

-- The store of a character, and the end of the call once `count` are there.
pub deliver : State → FunctionRead → ℕ → State
unfolding function_done
deliver s r output =
    let r' : FunctionRead = record r { offset = r.offset + 1 } in
    let s' : State = record s {
      memory = λ a. if a == add64 r.buffer r.offset then output else s.memory a;
      suspended = some r';
    } in
    if leb r'.count r'.offset then function_done s' r'.offset else s'

-- The test after a key has been taken from the buffer: `kb & KEY_PRESSED`, and the key without
-- that bit.
pub take_key : State → FunctionRead → ℕ → State
take_key s r kb =
    if bit_and kb key_pressed == 0
    then s
    else elim (key_char (kb % 128)) [ none ↦ s | some output ↦ deliver s r output ]

-- KernelFunctionRead_SuspendTest
pub read_suspend_test : State → FunctionRead → Outcome
read_suspend_test s r =
    if r.fd == 0
    then if buffer_get_keep s.keys == 0
      then returned s
      else returned (take_key (record s { keys = (buffer_get s.keys).1 }) r (buffer_get s.keys).0)
    else halted
