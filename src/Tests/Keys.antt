-- ===== src/Tests/Keys.antt =====
-- Keys of src/devices/keyboard.c, and reads of them by src/function/read.c.
use hypnoticos.Base.{ℕ, zero, suc, ◌≡◌, refl, some, List, [], ◌∷◌, ◌++◌, arith, replicate}
use hypnoticos.Keyboard.Buffer.{AllKeys, holding}
use hypnoticos.Keyboard.Codes.{pressed, released, key_a, key_d, key_return}
use hypnoticos.Keyboard.Fifo.{Op, queue, get, run, fifo_run, run_fifo}
use hypnoticos.Keyboard.Scancodes.{modifier_rows, navigation_rows, main_rows, letter_rows, rows}
use hypnoticos.Keyboard.Irq.{same_bytes, find_code, decode}
use hypnoticos.Keyboard.Irq.Decode.{plain, make_break}
use hypnoticos.Function.Read.{key_char, other_char, returned}
use hypnoticos.Function.Read.Typed.{
  typed_key, typed, store_at, poll, reading, waiting, finished, poll_finishes,
}

abbrev forty_keys : List ℕ
forty_keys = 5 ∷ replicate 38 6 ++ 7 ∷ []

sixes-AllKeys : (n : ℕ) → AllKeys (replicate n 6)
sixes-AllKeys zero = tt
sixes-AllKeys (suc n) = (omega arith, sixes-AllKeys n)

abbrev ops : List Op
ops = queue 3 ∷ get ∷ get ∷ queue 4 ∷ queue 5 ∷ get ∷ []

run_fifo_example : run (holding (6 ∷ [])) ops ≡ fifo_run (6 ∷ []) ops
run_fifo_example = run_fifo (6 ∷ []) ops (omega arith, tt) (ground arith)

press_a : decode (plain 30) ≡ some (pressed key_a)
unfolding decode find_code same_bytes modifier_rows navigation_rows main_rows letter_rows rows
press_a = refl

release_a : decode (plain 158) ≡ some (released key_a)
release_a = ((make_break 30 (pressed key_a) (omega arith)).0 press_a).0

abbrev zeros : ℕ → ℕ
zeros a = 0

abbrev pressed_d : ℕ
pressed_d = pressed key_d

abbrev released_d : ℕ
released_d = released key_d

typed_d : typed (pressed_d ∷ released_d ∷ []) ≡ b'd' ∷ []
unfolding typed typed_key key_char other_char
typed_d = refl

typed_return : typed_key (pressed key_return) ≡ some 10
unfolding typed_key key_char other_char
typed_return = refl

poll_finishes_example :
    poll 3 (
      waiting zeros
        (holding (pressed_d ∷ released_d ∷ pressed key_return ∷ []))
        (reading 100 2 0)
        0)
    ≡ returned (
        finished
          (store_at 100 (typed (pressed_d ∷ released_d ∷ pressed key_return ∷ [])) zeros)
          (holding [])
          2)
poll_finishes_example =
    poll_finishes (pressed_d ∷ released_d ∷ []) (pressed key_return) 10 [] zeros 100 2 0 0
      (ground arith) (omega arith) typed_return (rw typed_d refl)
