-- ===== src/Keyboard/Irq/Decode.antt =====
-- What the scan code table decodes, and what the interrupt can queue.
use hypnoticos.Base.{
  ℕ, ◌+◌, ◌-◌, ◌≤◌, ◌<◌, ◌≡◌, ◌≢◌, ◌↔◌, ◌⊎◌, refl, sym, ap, ◌∙◌, Bool, true, false, ◌&&◌, ◌||◌, not,
  Option, none, some, List, [], ◌∷◌, ◌++◌, arith, all_below, all_below_sound, ◌==◌, if◌then◌else◌,
  ltb, get_or, length,
}
use hypnoticos.Keyboard.{buffer_size, buffer_queue}
use hypnoticos.Keyboard.Buffer.{AllKeys, holding, buffer_queue-append}
use hypnoticos.Keyboard.Codes.{pressed, released, key_print_screen, key_ctrl_right}
use hypnoticos.Keyboard.Scancodes.{Row, rows}
use hypnoticos.Keyboard.Irq.{read_bytes, same_bytes, find_code, decode, keyboard_irq}

-- A test that every row passes.
all_rows : (List ℕ → ℕ → Bool) → List Row → Bool
all_rows p [] = true
all_rows p (r ∷ rs) = p r.bytes r.code && all_rows p rs

same_bytes_sound : (cs bs : List ℕ) → same_bytes cs bs ≡ true → cs ≡ bs
unfolding same_bytes
same_bytes_sound [] [] h = refl
same_bytes_sound [] (b ∷ bs) h = cc
same_bytes_sound (a ∷ cs) [] h = cc
same_bytes_sound (a ∷ cs) (b ∷ bs) h = ground (arith, same_bytes_sound cs bs)

-- What every row passes, the decoded pair passes.
find_code_all :
    (p : List ℕ → ℕ → Bool) (bs : List ℕ) (c : ℕ) (rs : List Row)
    → all_rows p rs ≡ true
    → find_code bs rs ≡ some c
    → p bs c ≡ true
unfolding all_rows find_code
find_code_all p bs c [] a h = cc
find_code_all p bs c (r ∷ rs) a h =
    ground (arith, same_bytes_sound bs r.bytes, find_code_all p bs c rs)

decode_all :
    (p : List ℕ → ℕ → Bool) (bs : List ℕ) (c : ℕ)
    → all_rows p rows ≡ true
    → decode bs ≡ some c
    → p bs c ≡ true
unfolding decode
decode_all p bs c a h = find_code_all p bs c rows a h

valid_codes : all_rows (λ _ c. ltb 0 c && ltb c 256) rows ≡ true
unfolding all_rows rows
valid_codes = refl

-- The byte of `key` at index `i`.
abbrev byte : ℕ → List ℕ → ℕ
byte i bs = get_or bs i 0

-- The rows of KEY_PRINT_SCREEN want a third byte after a second one that is not 0x1D.
print_screen_rows :
    all_rows
      (λ bs c.
        not ((c == pressed key_print_screen) || (c == released key_print_screen))
        || (not (byte 1 bs == 0x1D) && not (byte 2 bs == 0)))
      rows
    ≡ true
unfolding all_rows rows
print_screen_rows = refl

third_byte :
    (port : ℕ → ℕ)
    → ((byte 1 (read_bytes port) == 0x1D) ≡ true) ⊎ ((byte 2 (read_bytes port) == 0) ≡ true)
unfolding read_bytes
third_byte port = ground arith

-- No sequence of bytes from the controller makes `KeyboardIrq` recognise Print Screen, pressed or
-- released: the bytes after 0xE0 0x2A and 0xE0 0xB7 are never read.
pub print_screen_never :
    (port : ℕ → ℕ)
    → (decode (read_bytes port) ≢ some (pressed key_print_screen))
      × (decode (read_bytes port) ≢ some (released key_print_screen))
print_screen_never port = (
  λ e. ground (arith, third_byte port, decode_all _ _ _ print_screen_rows e),
  λ e. ground (arith, third_byte port, decode_all _ _ _ print_screen_rows e),
)

ctrl_right_rows :
    all_rows
      (λ bs c.
        not (c == pressed key_ctrl_right)
        || ((byte 0 bs == 0xE0) && (byte 1 bs == 0x1D) && (byte 2 bs == 0)))
      rows
    ≡ true
unfolding all_rows rows
ctrl_right_rows = refl

ctrl_right_bytes :
    (port : ℕ → ℕ)
    → port 0 ≡ 0xE0
    → port 1 ≡ 0x1D
    → port 2 ≡ 0
    → read_bytes port ≡ 0xE0 ∷ 0x1D ∷ 0 ∷ 0 ∷ 0 ∷ 0 ∷ []
unfolding read_bytes
ctrl_right_bytes port e f g = ground arith

ctrl_right_third :
    (port : ℕ → ℕ) → port 0 ≡ 0xE0 → port 1 ≡ 0x1D → byte 2 (read_bytes port) ≡ port 2
unfolding read_bytes
ctrl_right_third port e f = ground arith

ctrl_right_decodes : decode (0xE0 ∷ 0x1D ∷ 0 ∷ 0 ∷ 0 ∷ 0 ∷ []) ≡ some (pressed key_ctrl_right)
unfolding decode
ctrl_right_decodes = refl

-- The press of the right control key, which the controller sends as 0xE0 0x1D, is recognised
-- exactly when the read that follows these two bytes returns 0.
pub ctrl_right_needs_zero :
    (port : ℕ → ℕ)
    → port 0 ≡ 0xE0
    → port 1 ≡ 0x1D
    → (decode (read_bytes port) ≡ some (pressed key_ctrl_right)) ↔ (port 2 ≡ 0)
ctrl_right_needs_zero port e f = (
  λ d. ground (arith, ctrl_right_third port e f, decode_all _ _ _ ctrl_right_rows d),
  λ g. ap decode (ctrl_right_bytes port e f g) ∙ ctrl_right_decodes,
)

-- The code of the first row with this code: its bytes.
find_bytes : ℕ → List Row → List ℕ
find_bytes c [] = []
find_bytes c (r ∷ rs) = if r.code == c then r.bytes else find_bytes c rs

codes_differ : all_rows (λ bs c. same_bytes (find_bytes c rows) bs) rows ≡ true
unfolding all_rows rows find_bytes same_bytes
codes_differ = refl

-- Two byte sequences that decode to the same key code are the same sequence.
pub decode_injective : (cs bs : List ℕ) (c : ℕ) → decode cs ≡ some c → decode bs ≡ some c → cs ≡ bs
decode_injective cs bs c p q =
    sym (same_bytes_sound _ _ (decode_all _ cs c codes_differ p))
    ∙ same_bytes_sound _ _ (decode_all _ bs c codes_differ q)

-- A key that is recognised has a code between 1 and 255.
pub decode_code : (bs : List ℕ) (c : ℕ) → decode bs ≡ some c → (c ≢ 0) × (c < 256)
decode_code bs c e = ground (arith, decode_all _ bs c valid_codes e)

-- An interrupt leaves a buffer of fewer than 40 keys holding the same keys, with the decoded key
-- behind them if the bytes are those of a key.
pub keyboard_irq-holding :
    (port : ℕ → ℕ) (ks : List ℕ)
    → AllKeys ks
    → length ks < buffer_size
    → keyboard_irq port (holding ks)
      ≡ holding (elim (decode (read_bytes port)) [ none ↦ ks | some c ↦ ks ++ c ∷ [] ])
unfolding keyboard_irq
keyboard_irq-holding port ks a h = split (decode (read_bytes port))
  where
    split :
        (d : Option ℕ)
        → (elim d [ none ↦ holding ks | some code ↦ buffer_queue (holding ks) code ])
          ≡ holding (elim d [ none ↦ ks | some c ↦ ks ++ c ∷ [] ])
    split none = refl
    split (some c) = buffer_queue-append ks c a h

-- Whether the second code is that of the release of the first one's key.
abbrev is_release_of : Option ℕ → Option ℕ → Bool
is_release_of (some c) (some d) = d + 128 == c
is_release_of (some c) none = false
is_release_of none d = true

is_release_of_sound :
    (o o' : Option ℕ) (c : ℕ)
    → is_release_of o o' ≡ true
    → o ≡ some c
    → (o' ≡ some (c - 128)) × (128 ≤ c)
is_release_of_sound o o' c h e = ground arith

abbrev pub plain : ℕ → List ℕ
plain b = b ∷ 0 ∷ 0 ∷ 0 ∷ 0 ∷ 0 ∷ []

abbrev pub prefixed : ℕ → List ℕ
prefixed b = 0xE0 ∷ b ∷ 0 ∷ 0 ∷ 0 ∷ 0 ∷ []

plain_table :
    all_below 128 (λ b. is_release_of (decode (plain b)) (decode (plain (b + 128)))) ≡ true
unfolding all_below decode
plain_table = refl

prefixed_table :
    all_below 128 (λ b. is_release_of (decode (prefixed b)) (decode (prefixed (b + 128)))) ≡ true
unfolding all_below decode
prefixed_table = refl

-- A make code below 128, plain or after 0xE0, is recognised as the press of a key, and then the
-- break code 128 above it is recognised as the release of the same key.
pub make_break :
    (b c : ℕ)
    → b < 128
    → (decode (plain b) ≡ some c → (decode (plain (b + 128)) ≡ some (c - 128)) × (128 ≤ c))
      × (decode (prefixed b) ≡ some c → (decode (prefixed (b + 128)) ≡ some (c - 128)) × (128 ≤ c))
make_break b c h = (
  is_release_of_sound _ _ c (all_below_sound 128 _ b plain_table h),
  is_release_of_sound _ _ c (all_below_sound 128 _ b prefixed_table h),
)
