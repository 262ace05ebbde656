-- ===== src/Keyboard/Irq.antt =====
-- `KeyboardIrq` of src/devices/keyboard.c: the bytes that it takes from the controller, and the key
-- that it queues for them.
pub mod Decode
use hypnoticos.Base.{
  ℕ, ◌+◌, Bool, true, false, ◌&&◌, ◌||◌, Option, none, some, List, [], ◌∷◌, ◌==◌, if◌then◌else◌,
}
use hypnoticos.Keyboard.{buffer_queue}
use hypnoticos.Keyboard.Scancodes.{Row, rows}

-- The bytes after the prefix 0xE0 or 0xE1. Each `&&` reads the next byte only if the one before it
-- was as expected. `port n` is what the n-th `IoPort8In(0x60)` of this interrupt returns.
unfoldable pub extended_bytes : (ℕ → ℕ) → List ℕ
extended_bytes port =
    if port 1 == 0x1D
    then if port 2 == 0x45
      then if port 3 == 0xE1
        then if port 4 == 0x9D
          then port 0 ∷ port 1 ∷ port 2 ∷ port 3 ∷ port 4 ∷ port 5 ∷ []
          else port 0 ∷ port 1 ∷ port 2 ∷ port 3 ∷ port 4 ∷ 0 ∷ []
        else port 0 ∷ port 1 ∷ port 2 ∷ port 3 ∷ 0 ∷ 0 ∷ []
      else port 0 ∷ port 1 ∷ port 2 ∷ 0 ∷ 0 ∷ 0 ∷ []
    else port 0 ∷ port 1 ∷ 0 ∷ 0 ∷ 0 ∷ 0 ∷ []

-- The array `key`.
unfoldable pub read_bytes : (ℕ → ℕ) → List ℕ
unfolding extended_bytes
read_bytes port =
    if (port 0 == 0xE0) || (port 0 == 0xE1)
    then extended_bytes port
    else port 0 ∷ 0 ∷ 0 ∷ 0 ∷ 0 ∷ 0 ∷ []

unfoldable pub same_bytes : List ℕ → List ℕ → Bool
same_bytes [] [] = true
same_bytes (a ∷ cs) (b ∷ bs) = (a == b) && same_bytes cs bs
same_bytes _ _ = false

-- The `else if` chain over some of the rows: the code of the first row that fits.
unfoldable pub find_code : List ℕ → List Row → Option ℕ
find_code bs [] = none
find_code bs (r ∷ rs) = if same_bytes bs r.bytes then some r.code else find_code bs rs

unfoldable pub decode : List ℕ → Option ℕ
unfolding find_code same_bytes rows
decode bs = find_code bs rows

-- KeyboardIrq: bytes that no row names queue nothing.
unfoldable pub keyboard_irq : (ℕ → ℕ) → List ℕ → List ℕ
keyboard_irq port buf = elim (decode (read_bytes port)) [
  | none ↦ buf
  | some code ↦ buffer_queue buf code
]
