-- ===== src/Keyboard.antt =====
-- The key buffer of src/devices/keyboard.c: `KeyboardBuffer` is an array of 41 bytes, in which a
-- zero byte (KEY_EMPTY) marks the first free place.
pub mod Buffer
pub mod Codes
pub mod Fifo
pub mod Irq
pub mod Scancodes
use hypnoticos.Base.{
  ℕ, zero, suc, ◌+◌, ◌-◌, List, [], ◌∷◌, ◌==◌, if◌then◌else◌, get_or, set, replicate,
}

-- KEYBOARD_BUFFER_SIZE
abbrev pub buffer_size : ℕ
buffer_size = 40

-- KeyboardInitBuffer: `malloc` and `memset` of one byte more than the size.
pub init_buffer : List ℕ
init_buffer = replicate (buffer_size + 1) 0

-- The scan of `KeyboardBufferQueue`, over the places from `i` on; `n` places are left to look at.
first_empty : List ℕ → ℕ → ℕ → ℕ
first_empty buf i zero = i
first_empty [] i (suc n) = i
first_empty (k ∷ buf) i (suc n) = if k == 0 then i else first_empty buf (i + 1) n

-- KeyboardBufferQueue: a full buffer discards the key.
pub buffer_queue : List ℕ → ℕ → List ℕ
unfolding first_empty
buffer_queue buf key =
    let i = first_empty buf 0 buffer_size in if i == buffer_size then buf else set buf i key

-- `for (i ..; n rounds) KeyboardBuffer[i - 1] = KeyboardBuffer[i]`
shift_down : ℕ → ℕ → List ℕ → List ℕ
shift_down zero i buf = buf
shift_down (suc n) i buf = shift_down n (i + 1) (set buf (i - 1) (get_or buf i 0))

-- What `KeyboardBufferGet` leaves in the buffer.
pub after_get : List ℕ → List ℕ
unfolding shift_down
after_get buf = set (shift_down (buffer_size - 1) 1 buf) buffer_size 0

-- KeyboardBufferGet_Keep
pub buffer_get_keep : List ℕ → ℕ
buffer_get_keep buf = get_or buf 0 0

-- KeyboardBufferGet
pub buffer_get : List ℕ → ℕ × List ℕ
unfolding after_get
buffer_get buf = (get_or buf 0 0, after_get buf)
