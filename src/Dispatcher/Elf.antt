-- ===== src/Dispatcher/Elf.antt =====
-- ELF files: src/dispatcher/format-elf.c. The file is `image`, where `image n` is the byte at
-- `data + n`, and its size.
pub mod Headers
pub mod Detect
use hypnoticos.Base.{
  ℕ, zero, suc, ◌+◌, ◌*◌, ◌-◌, Bool, true, false, ◌&&◌, ◌||◌, not, Option, none, some, List, [],
  ◌∷◌, ◌==◌, if◌then◌else◌, ltb, leb, add64,
}
use hypnoticos.Storage.{bytes_at}
use hypnoticos.Fs.HypnoticFs.{number_of}
use hypnoticos.Dispatcher.Load.{Space, Grant, load_at}

-- `n` bytes of the file as a number.
unfoldable pub field : (ℕ → ℕ) → (at n : ℕ) → ℕ
field image at n = number_of (bytes_at image at n)

-- DISPATCHER_DETECT_FORMAT_NOT_DETECTED, _DETECTED_UNSUPPORTED and _DETECTED
pub data Format : Type 0 where
  not_detected : Format
  unsupported : Format
  detected : Format

-- The tests of the header behind its magic number.
unfoldable pub is_supported : (ℕ → ℕ) → Bool
is_supported image =
    (field image 4 1 == 2)
    && ((field image 5 1 == 1)
        && ((field image 6 1 == 1)
            && ((field image 7 1 == 0)
                && ((field image 16 2 == 2)
                    && ((field image 18 2 == 0x3E)
                        && ((field image 20 4 == 1) && leb 64 (field image 52 2)))))))

-- The four tests for the magic number, "\x7FELF", of which all must hold for a file that is refused.
unfoldable pub no_magic : (ℕ → ℕ) → Bool
no_magic image =
    not (field image 0 1 == 0x7F)
    && (not (field image 1 1 == b'E')
        && (not (field image 2 1 == b'L') && not (field image 3 1 == b'F')))

-- DispatcherFormatElfDetect
unfoldable pub detect : (ℕ → ℕ) → (size : ℕ) → Format
detect image size =
    if leb size 64
    then not_detected
    else if no_magic image
    then not_detected
    else if is_supported image
    then detected
    else unsupported

-- sizeof(DispatcherFormatElfProgramHeader_t)
abbrev pub program_header_size : ℕ
program_header_size = 56

-- DispatcherFormatElfRead: whether it returns. Otherwise it stops the machine.
unfoldable pub can_read : (size start n : ℕ) → Bool
can_read size start n = ltb (add64 start n) size

-- What `DispatcherFormatElfSetUp` comes to: `HALT` stops the machine.
pub data ElfRun : Type 0 where
  halts : ElfRun
  gave_up : Space → ElfRun
  set_up_done : Space → ElfRun
  unending : ElfRun

-- One round: the end of the loop, or the process for the next round.
pub data HeaderRound : Type 0 where
  ends : ElfRun → HeaderRound
  goes_on : Space → HeaderRound

unfoldable pub after_load : ℕ × Space → HeaderRound
after_load r = if r.0 == 0 then ends (gave_up r.1) else goes_on r.1

-- A header of the type PROGRAM_HEADER_LOAD, at `start`.
unfoldable pub load_segment : (ℕ → Grant) → (ℕ → ℕ) → (size start : ℕ) → Space → HeaderRound
load_segment grants image size start s =
    let offset = field image (add64 start 8) 8 in
    let file_size = field image (add64 start 32) 8 in
    if not (file_size == 0) && not (can_read size offset file_size)
    then ends halts
    else after_load (
        load_at grants s (field image (add64 start 16) 8) (λ n. image (add64 offset n)) file_size
          (field image (add64 start 40) 8))

unfoldable pub load_header : (ℕ → Grant) → (ℕ → ℕ) → (size start : ℕ) → Space → HeaderRound
load_header grants image size start s =
    if not (can_read size start program_header_size)
    then ends halts
    else if not (field image (add64 start 48) 4 == 0x1000)
    then ends halts
    else if field image start 4 == 1
    then load_segment grants image size start s
    else ends halts

-- The end of the loop over the headers.
unfoldable pub after_headers : (start max : ℕ) → Space → ElfRun
after_headers start max s = if start == max then set_up_done s else gave_up s

-- The loop over the headers, on fuel; `grants k` is for the pages of the header `k`.
unfoldable pub load_headers :
    ℕ → (ℕ → ℕ → Grant) → (ℕ → ℕ) → (size entry_size max start k : ℕ) → Space → ElfRun
load_headers zero grants image size entry_size max start k s = unending
load_headers (suc fuel) grants image size entry_size max start k s = elim (ltb start max) [
  | false ↦ after_headers start max s
  | true ↦ elim (load_header (grants k) image size start s) [
    | ends r ↦ r
    | goes_on s' ↦
        load_headers fuel grants image size entry_size max (add64 start entry_size) (k + 1) s'
  ]
]

-- The fields of the file's header that the set-up uses.
abbrev pub entry_point : (ℕ → ℕ) → ℕ
entry_point image = field image 24 8

abbrev pub header_offset : (ℕ → ℕ) → ℕ
header_offset image = field image 32 8

abbrev pub header_entry_size : (ℕ → ℕ) → ℕ
header_entry_size image = field image 54 2

abbrev pub header_count : (ℕ → ℕ) → ℕ
header_count image = field image 56 2

-- DispatcherFormatElfSetUp: the new rip, and the rest. There is a round for each header at most, so
-- that the number of headers and one more is fuel enough.
unfoldable pub set_up : (ℕ → ℕ → Grant) → (ℕ → ℕ) → (size : ℕ) → Space → ℕ × ElfRun
set_up grants image size s = (
  entry_point image,
  if header_offset image == 0
      then halts
      else load_headers (suc (header_count image)) grants image size (header_entry_size image)
          (add64 (header_offset image) (header_entry_size image * header_count image))
          (header_offset image) 0 s,
)
