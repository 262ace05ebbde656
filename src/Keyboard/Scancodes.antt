-- ===== src/Keyboard/Scancodes.antt =====
-- The scan codes that `KeyboardIrq` of src/devices/keyboard.c compares with, in the order of its
-- `else if` chain.
use hypnoticos.Base.{ℕ, List, [], ◌∷◌, ◌++◌}
use hypnoticos.Keyboard.Codes.{
  pressed, released, key_a, key_alt_left, key_alt_right, key_arrow_down, key_arrow_left,
  key_arrow_right, key_arrow_up, key_b, key_backslash, key_backspace, key_c, key_comma,
  key_ctrl_left, key_ctrl_right, key_d, key_delete, key_e, key_end, key_equals, key_esc, key_f,
  key_f1, key_f10, key_f11, key_f12, key_f2, key_f3, key_f4, key_f5, key_f6, key_f7, key_f8, key_f9,
  key_g, key_h, key_hash, key_home, key_i, key_insert, key_j, key_k, key_keypad_0, key_keypad_1,
  key_keypad_2, key_keypad_3, key_keypad_4, key_keypad_5, key_keypad_6, key_keypad_7, key_keypad_8,
  key_keypad_9, key_keypad_astericks, key_keypad_forwardslash, key_keypad_hyphen, key_keypad_period,
  key_keypad_plus, key_keypad_return, key_l, key_left_square, key_lock_caps, key_lock_num,
  key_lock_scroll, key_m, key_main_0, key_main_1, key_main_2, key_main_3, key_main_4, key_main_5,
  key_main_6, key_main_7, key_main_8, key_main_9, key_main_forwardslash, key_main_hyphen,
  key_main_period, key_n, key_o, key_p, key_page_down, key_page_up, key_pause, key_print_screen,
  key_q, key_r, key_return, key_right_quote, key_right_square, key_s, key_semicolon, key_shift_left,
  key_shift_right, key_space, key_t, key_tab, key_u, key_v, key_w, key_x, key_y, key_z,
}

-- One comparison: the six bytes of `key`, and the code to queue.
pub record Row : Type 0 where
  pub bytes : List ℕ
  pub code : ℕ

-- CHECK_KEY_IF_1 and the like: the bytes that are not named are compared with 0.
abbrev pub if_1 : ℕ → ℕ → Row
if_1 a k = record { bytes = a ∷ 0 ∷ 0 ∷ 0 ∷ 0 ∷ 0 ∷ []; code = k }

abbrev pub if_2 : ℕ → ℕ → ℕ → Row
if_2 a b k = record { bytes = a ∷ b ∷ 0 ∷ 0 ∷ 0 ∷ 0 ∷ []; code = k }

abbrev pub if_4 : ℕ → ℕ → ℕ → ℕ → ℕ → Row
if_4 a b c d k = record { bytes = a ∷ b ∷ c ∷ d ∷ 0 ∷ 0 ∷ []; code = k }

abbrev pub if_6 : ℕ → ℕ → ℕ → ℕ → ℕ → ℕ → ℕ → Row
if_6 a b c d e f k = record { bytes = a ∷ b ∷ c ∷ d ∷ e ∷ f ∷ []; code = k }

unfoldable pub modifier_rows : List Row
modifier_rows =
    if_1 0x01 (pressed key_esc)
    ∷ if_1 0x81 (released key_esc)
    ∷ if_1 0x0E (pressed key_backspace)
    ∷ if_1 0x8E (released key_backspace)
    ∷ if_1 0x0F (pressed key_tab)
    ∷ if_1 0x8F (released key_tab)
    ∷ if_1 0x1C (pressed key_return)
    ∷ if_1 0x9C (released key_return)
    ∷ if_2 0xE0 0x1C (pressed key_keypad_return)
    ∷ if_2 0xE0 0x9C (released key_keypad_return)
    ∷ if_1 0x1D (pressed key_ctrl_left)
    ∷ if_1 0x9D (released key_ctrl_left)
    ∷ if_2 0xE0 0x1D (pressed key_ctrl_right)
    ∷ if_2 0xE0 0x9D (released key_ctrl_right)
    ∷ if_1 0x2A (pressed key_shift_left)
    ∷ if_1 0xAA (released key_shift_left)
    ∷ if_1 0x36 (pressed key_shift_right)
    ∷ if_1 0xB6 (released key_shift_right)
    ∷ if_1 0x38 (pressed key_alt_left)
    ∷ if_1 0xB8 (released key_alt_left)
    ∷ if_2 0xE0 0x38 (pressed key_alt_right)
    ∷ if_2 0xE0 0xB8 (released key_alt_right)
    ∷ if_1 0x39 (pressed key_space)
    ∷ if_1 0xB9 (released key_space)
    ∷ if_1 0x3A (pressed key_lock_caps)
    ∷ if_1 0xBA (released key_lock_caps)
    ∷ if_1 0x45 (pressed key_lock_num)
    ∷ if_1 0xC5 (released key_lock_num)
    ∷ if_1 0x46 (pressed key_lock_scroll)
    ∷ if_1 0xC6 (released key_lock_scroll)
    ∷ if_6 0xE1 0x1D 0x45 0xE1 0x9D 0xC5 (pressed key_pause)
    ∷ if_1 0x3B (pressed key_f1)
    ∷ if_1 0xBB (released key_f1)
    ∷ if_1 0x3C (pressed key_f2)
    ∷ if_1 0xBC (released key_f2)
    ∷ if_1 0x3D (pressed key_f3)
    ∷ if_1 0xBD (released key_f3)
    ∷ if_1 0x3E (pressed key_f4)
    ∷ if_1 0xBE (released key_f4)
    ∷ if_1 0x3F (pressed key_f5)
    ∷ if_1 0xBF (released key_f5)
    ∷ if_1 0x40 (pressed key_f6)
    ∷ if_1 0xC0 (released key_f6)
    ∷ if_1 0x41 (pressed key_f7)
    ∷ if_1 0xC1 (released key_f7)
    ∷ if_1 0x42 (pressed key_f8)
    ∷ if_1 0xC2 (released key_f8)
    ∷ if_1 0x43 (pressed key_f9)
    ∷ if_1 0xC3 (released key_f9)
    ∷ if_1 0x44 (pressed key_f10)
    ∷ if_1 0xC4 (released key_f10)
    ∷ if_1 0x57 (pressed key_f11)
    ∷ if_1 0xD7 (released key_f11)
    ∷ if_1 0x58 (pressed key_f12)
    ∷ if_1 0xD8 (released key_f12)
    ∷ []

unfoldable pub navigation_rows : List Row
navigation_rows =
    if_2 0xE0 0x52 (pressed key_insert)
    ∷ if_2 0xE0 0xD2 (released key_insert)
    ∷ if_2 0xE0 0x53 (pressed key_delete)
    ∷ if_2 0xE0 0xD3 (released key_delete)
    ∷ if_2 0xE0 0x47 (pressed key_home)
    ∷ if_2 0xE0 0xC7 (released key_home)
    ∷ if_2 0xE0 0x4F (pressed key_end)
    ∷ if_2 0xE0 0xCF (released key_end)
    ∷ if_2 0xE0 0x49 (pressed key_page_up)
    ∷ if_2 0xE0 0xC9 (released key_page_up)
    ∷ if_2 0xE0 0x51 (pressed key_page_down)
    ∷ if_2 0xE0 0xD1 (released key_page_down)
    ∷ if_2 0xE0 0x48 (pressed key_arrow_up)
    ∷ if_2 0xE0 0xC8 (released key_arrow_up)
    ∷ if_2 0xE0 0x50 (pressed key_arrow_down)
    ∷ if_2 0xE0 0xD0 (released key_arrow_down)
    ∷ if_2 0xE0 0x4B (pressed key_arrow_left)
    ∷ if_2 0xE0 0xCB (released key_arrow_left)
    ∷ if_2 0xE0 0x4D (pressed key_arrow_right)
    ∷ if_2 0xE0 0xCD (released key_arrow_right)
    ∷ if_4 0xE0 0x2A 0xE0 0x37 (pressed key_print_screen)
    ∷ if_4 0xE0 0xB7 0xE0 0xAA (released key_print_screen)
    ∷ if_1 0x02 (pressed key_main_1)
    ∷ if_1 0x82 (released key_main_1)
    ∷ if_1 0x03 (pressed key_main_2)
    ∷ if_1 0x83 (released key_main_2)
    ∷ if_1 0x04 (pressed key_main_3)
    ∷ if_1 0x84 (released key_main_3)
    ∷ if_1 0x05 (pressed key_main_4)
    ∷ if_1 0x85 (released key_main_4)
    ∷ if_1 0x06 (pressed key_main_5)
    ∷ if_1 0x86 (released key_main_5)
    ∷ if_1 0x07 (pressed key_main_6)
    ∷ if_1 0x87 (released key_main_6)
    ∷ if_1 0x08 (pressed key_main_7)
    ∷ if_1 0x88 (released key_main_7)
    ∷ if_1 0x09 (pressed key_main_8)
    ∷ if_1 0x89 (released key_main_8)
    ∷ if_1 0x0A (pressed key_main_9)
    ∷ []

unfoldable pub main_rows : List Row
main_rows =
    if_1 0x8A (released key_main_9)
    ∷ if_1 0x0B (pressed key_main_0)
    ∷ if_1 0x8B (released key_main_0)
    ∷ if_1 0x29 (pressed key_right_quote)
    ∷ if_1 0xA9 (released key_right_quote)
    ∷ if_1 0x0C (pressed key_main_hyphen)
    ∷ if_1 0x8C (released key_main_hyphen)
    ∷ if_1 0x0D (pressed key_equals)
    ∷ if_1 0x8D (released key_equals)
    ∷ if_1 0x2B (pressed key_backslash)
    ∷ if_1 0xAB (released key_backslash)
    ∷ if_1 0x35 (pressed key_main_forwardslash)
    ∷ if_1 0xB5 (released key_main_forwardslash)
    ∷ if_1 0x34 (pressed key_main_period)
    ∷ if_1 0xB4 (released key_main_period)
    ∷ if_1 0x33 (pressed key_comma)
    ∷ if_1 0xB3 (released key_comma)
    ∷ if_1 0x1A (pressed key_left_square)
    ∷ if_1 0x9A (released key_left_square)
    ∷ if_1 0x1B (pressed key_right_square)
    ∷ if_1 0x9B (released key_right_square)
    ∷ if_1 0x52 (pressed key_keypad_0)
    ∷ if_1 0xD2 (released key_keypad_0)
    ∷ if_1 0x4F (pressed key_keypad_1)
    ∷ if_1 0xCF (released key_keypad_1)
    ∷ if_1 0x50 (pressed key_keypad_2)
    ∷ if_1 0xD0 (released key_keypad_2)
    ∷ if_1 0x51 (pressed key_keypad_3)
    ∷ if_1 0xD1 (released key_keypad_3)
    ∷ if_1 0x4B (pressed key_keypad_4)
    ∷ if_1 0xCB (released key_keypad_4)
    ∷ if_1 0x4C (pressed key_keypad_5)
    ∷ if_1 0xCC (released key_keypad_5)
    ∷ if_1 0x4D (pressed key_keypad_6)
    ∷ if_1 0xCD (released key_keypad_6)
    ∷ if_1 0x47 (pressed key_keypad_7)
    ∷ if_1 0xC7 (released key_keypad_7)
    ∷ if_1 0x48 (pressed key_keypad_8)
    ∷ if_1 0xC8 (released key_keypad_8)
    ∷ if_1 0x49 (pressed key_keypad_9)
    ∷ if_1 0xC9 (released key_keypad_9)
    ∷ if_1 0x4A (pressed key_keypad_hyphen)
    ∷ if_1 0xCA (released key_keypad_hyphen)
    ∷ if_1 0x4E (pressed key_keypad_plus)
    ∷ if_1 0xCE (released key_keypad_plus)
    ∷ if_1 0x37 (pressed key_keypad_astericks)
    ∷ if_1 0xB7 (released key_keypad_astericks)
    ∷ if_2 0xE0 0x35 (pressed key_keypad_forwardslash)
    ∷ if_2 0xE0 0xB5 (released key_keypad_forwardslash)
    ∷ if_1 0x10 (pressed key_q)
    ∷ if_1 0x90 (released key_q)
    ∷ if_1 0x11 (pressed key_w)
    ∷ if_1 0x91 (released key_w)
    ∷ if_1 0x12 (pressed key_e)
    ∷ if_1 0x92 (released key_e)
    ∷ if_1 0x13 (pressed key_r)
    ∷ if_1 0x93 (released key_r)
    ∷ if_1 0x14 (pressed key_t)
    ∷ if_1 0x94 (released key_t)
    ∷ []

unfoldable pub letter_rows : List Row
letter_rows =
    if_1 0x15 (pressed key_y)
    ∷ if_1 0x95 (released key_y)
    ∷ if_1 0x16 (pressed key_u)
    ∷ if_1 0x96 (released key_u)
    ∷ if_1 0x17 (pressed key_i)
    ∷ if_1 0x97 (released key_i)
    ∷ if_1 0x18 (pressed key_o)
    ∷ if_1 0x98 (released key_o)
    ∷ if_1 0x19 (pressed key_p)
    ∷ if_1 0x99 (released key_p)
    ∷ if_1 0x1E (pressed key_a)
    ∷ if_1 0x9E (released key_a)
    ∷ if_1 0x1F (pressed key_s)
    ∷ if_1 0x9F (released key_s)
    ∷ if_1 0x20 (pressed key_d)
    ∷ if_1 0xA0 (released key_d)
    ∷ if_1 0x21 (pressed key_f)
    ∷ if_1 0xA1 (released key_f)
    ∷ if_1 0x22 (pressed key_g)
    ∷ if_1 0xA2 (released key_g)
    ∷ if_1 0x23 (pressed key_h)
    ∷ if_1 0xA3 (released key_h)
    ∷ if_1 0x24 (pressed key_j)
    ∷ if_1 0xA4 (released key_j)
    ∷ if_1 0x25 (pressed key_k)
    ∷ if_1 0xA5 (released key_k)
    ∷ if_1 0x26 (pressed key_l)
    ∷ if_1 0xA6 (released key_l)
    ∷ if_1 0x2C (pressed key_z)
    ∷ if_1 0xAC (released key_z)
    ∷ if_1 0x2D (pressed key_x)
    ∷ if_1 0xAD (released key_x)
    ∷ if_1 0x2E (pressed key_c)
    ∷ if_1 0xAE (released key_c)
    ∷ if_1 0x2F (pressed key_v)
    ∷ if_1 0xAF (released key_v)
    ∷ if_1 0x30 (pressed key_b)
    ∷ if_1 0xB0 (released key_b)
    ∷ if_1 0x31 (pressed key_n)
    ∷ if_1 0xB1 (released key_n)
    ∷ if_1 0x32 (pressed key_m)
    ∷ if_1 0xB2 (released key_m)
    ∷ if_1 0x27 (pressed key_semicolon)
    ∷ if_1 0xA7 (released key_semicolon)
    ∷ if_1 0x28 (pressed key_hash)
    ∷ if_1 0xA8 (released key_hash)
    ∷ if_1 0x53 (pressed key_keypad_period)
    ∷ if_1 0xD3 (released key_keypad_period)
    ∷ []

unfoldable pub rows : List Row
unfolding modifier_rows navigation_rows main_rows letter_rows
rows = modifier_rows ++ (navigation_rows ++ (main_rows ++ letter_rows))
