-- ===== src/Keyboard/Codes.antt =====
-- The key codes of include/hypnoticos/keyboard-codes.h.
use hypnoticos.Base.{ℕ, bit_or}

abbrev pub key_pressed : ℕ
key_pressed = 0x80

abbrev pub key_released : ℕ
key_released = 0x00

abbrev pub key_empty : ℕ
key_empty = 0x00

abbrev pub key_esc : ℕ
key_esc = 0x01

abbrev pub key_backspace : ℕ
key_backspace = 0x02

abbrev pub key_tab : ℕ
key_tab = 0x03

abbrev pub key_return : ℕ
key_return = 0x04

abbrev pub key_keypad_return : ℕ
key_keypad_return = 0x05

abbrev pub key_ctrl_left : ℕ
key_ctrl_left = 0x06

abbrev pub key_ctrl_right : ℕ
key_ctrl_right = 0x07

abbrev pub key_shift_left : ℕ
key_shift_left = 0x08

abbrev pub key_shift_right : ℕ
key_shift_right = 0x09

abbrev pub key_alt_left : ℕ
key_alt_left = 0x0A

abbrev pub key_alt_right : ℕ
key_alt_right = 0x0B

abbrev pub key_space : ℕ
key_space = 0x0C

abbrev pub key_lock_caps : ℕ
key_lock_caps = 0x0D

abbrev pub key_lock_num : ℕ
key_lock_num = 0x0E

abbrev pub key_lock_scroll : ℕ
key_lock_scroll = 0x0F

abbrev pub key_pause : ℕ
key_pause = 0x10

abbrev pub key_f1 : ℕ
key_f1 = 0x11

abbrev pub key_f2 : ℕ
key_f2 = 0x12

abbrev pub key_f3 : ℕ
key_f3 = 0x13

abbrev pub key_f4 : ℕ
key_f4 = 0x14

abbrev pub key_f5 : ℕ
key_f5 = 0x15

abbrev pub key_f6 : ℕ
key_f6 = 0x16

abbrev pub key_f7 : ℕ
key_f7 = 0x17

abbrev pub key_f8 : ℕ
key_f8 = 0x18

abbrev pub key_f9 : ℕ
key_f9 = 0x19

abbrev pub key_f10 : ℕ
key_f10 = 0x1A

abbrev pub key_f11 : ℕ
key_f11 = 0x1B

abbrev pub key_f12 : ℕ
key_f12 = 0x1C

abbrev pub key_insert : ℕ
key_insert = 0x1D

abbrev pub key_delete : ℕ
key_delete = 0x1E

abbrev pub key_home : ℕ
key_home = 0x1F

abbrev pub key_end : ℕ
key_end = 0x20

abbrev pub key_page_up : ℕ
key_page_up = 0x21

abbrev pub key_page_down : ℕ
key_page_down = 0x22

abbrev pub key_arrow_up : ℕ
key_arrow_up = 0x23

abbrev pub key_arrow_down : ℕ
key_arrow_down = 0x24

abbrev pub key_arrow_left : ℕ
key_arrow_left = 0x25

abbrev pub key_arrow_right : ℕ
key_arrow_right = 0x26

abbrev pub key_print_screen : ℕ
key_print_screen = 0x27

abbrev pub key_main_1 : ℕ
key_main_1 = 0x30

abbrev pub key_main_2 : ℕ
key_main_2 = 0x31

abbrev pub key_main_3 : ℕ
key_main_3 = 0x32

abbrev pub key_main_4 : ℕ
key_main_4 = 0x33

abbrev pub key_main_5 : ℕ
key_main_5 = 0x34

abbrev pub key_main_6 : ℕ
key_main_6 = 0x35

abbrev pub key_main_7 : ℕ
key_main_7 = 0x36

abbrev pub key_main_8 : ℕ
key_main_8 = 0x37

abbrev pub key_main_9 : ℕ
key_main_9 = 0x38

abbrev pub key_main_0 : ℕ
key_main_0 = 0x39

abbrev pub key_right_quote : ℕ
key_right_quote = 0x3A

abbrev pub key_main_hyphen : ℕ
key_main_hyphen = 0x3B

abbrev pub key_equals : ℕ
key_equals = 0x3C

abbrev pub key_backslash : ℕ
key_backslash = 0x3D

abbrev pub key_main_forwardslash : ℕ
key_main_forwardslash = 0x3E

abbrev pub key_main_period : ℕ
key_main_period = 0x3F

abbrev pub key_comma : ℕ
key_comma = 0x40

abbrev pub key_left_square : ℕ
key_left_square = 0x41

abbrev pub key_right_square : ℕ
key_right_square = 0x42

abbrev pub key_keypad_0 : ℕ
key_keypad_0 = 0x43

abbrev pub key_keypad_1 : ℕ
key_keypad_1 = 0x44

abbrev pub key_keypad_2 : ℕ
key_keypad_2 = 0x45

abbrev pub key_keypad_3 : ℕ
key_keypad_3 = 0x46

abbrev pub key_keypad_4 : ℕ
key_keypad_4 = 0x47

abbrev pub key_keypad_5 : ℕ
key_keypad_5 = 0x48

abbrev pub key_keypad_6 : ℕ
key_keypad_6 = 0x49

abbrev pub key_keypad_7 : ℕ
key_keypad_7 = 0x4A

abbrev pub key_keypad_8 : ℕ
key_keypad_8 = 0x4B

abbrev pub key_keypad_9 : ℕ
key_keypad_9 = 0x4C

abbrev pub key_keypad_hyphen : ℕ
key_keypad_hyphen = 0x4D

abbrev pub key_keypad_plus : ℕ
key_keypad_plus = 0x4E

abbrev pub key_keypad_astericks : ℕ
key_keypad_astericks = 0x4F

abbrev pub key_keypad_forwardslash : ℕ
key_keypad_forwardslash = 0x50

abbrev pub key_q : ℕ
key_q = 0x51

abbrev pub key_w : ℕ
key_w = 0x52

abbrev pub key_e : ℕ
key_e = 0x53

abbrev pub key_r : ℕ
key_r = 0x54

abbrev pub key_t : ℕ
key_t = 0x55

abbrev pub key_y : ℕ
key_y = 0x56

abbrev pub key_u : ℕ
key_u = 0x57

abbrev pub key_i : ℕ
key_i = 0x58

abbrev pub key_o : ℕ
key_o = 0x59

abbrev pub key_p : ℕ
key_p = 0x5A

abbrev pub key_a : ℕ
key_a = 0x5B

abbrev pub key_s : ℕ
key_s = 0x5C

abbrev pub key_d : ℕ
key_d = 0x5D

abbrev pub key_f : ℕ
key_f = 0x5E

abbrev pub key_g : ℕ
key_g = 0x5F

abbrev pub key_h : ℕ
key_h = 0x60

abbrev pub key_j : ℕ
key_j = 0x61

abbrev pub key_k : ℕ
key_k = 0x62

abbrev pub key_l : ℕ
key_l = 0x63

abbrev pub key_z : ℕ
key_z = 0x64

abbrev pub key_x : ℕ
key_x = 0x65

abbrev pub key_c : ℕ
key_c = 0x66

abbrev pub key_v : ℕ
key_v = 0x67

abbrev pub key_b : ℕ
key_b = 0x68

abbrev pub key_n : ℕ
key_n = 0x69

abbrev pub key_m : ℕ
key_m = 0x6A

abbrev pub key_semicolon : ℕ
key_semicolon = 0x6B

abbrev pub key_hash : ℕ
key_hash = 0x6C

abbrev pub key_keypad_period : ℕ
key_keypad_period = 0x6D

-- k | KEY_PRESSED
abbrev pub pressed : ℕ → ℕ
pressed k = bit_or k key_pressed

-- k | KEY_RELEASED
abbrev pub released : ℕ → ℕ
released k = bit_or k key_released
