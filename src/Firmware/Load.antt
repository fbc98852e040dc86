-- ===== src/Firmware/Load.antt =====
-- Reading a firmware file line by line (loadFromHexFile and the constructor of FlashMem in
-- df10ch_setup_pkg/firmware.py).
use mathlib.Core.Option.{map}
use df10ch_atmolight_control.Prelude.{
  ℕ, zero, suc, ◌+◌, ◌-◌, ◌*◌, List, [], ◌∷◌, ◌++◌, Text, Option, none, some, Bool, true, false,
  ◌&&◌, ◌||◌, not, ltb, leb, ◌==◌, length, take, drop, if◌then◌else◌,
}
use df10ch_atmolight_control.Prelude.Int.{ℤ, pos, negsuc}
use df10ch_atmolight_control.Result.{Failure, Result, ok, err, ◌>>=◌, or_raise, flash, value_error}
use df10ch_atmolight_control.Firmware.{FlashMem, new_mem, insert}

-- `line[start : start + n]`
abbrev pub text_slice : Text → ℕ → ℕ → Text
text_slice line start n = take n (drop start line)

abbrev pub is_space : ℕ → Bool
is_space c = c == 32 || (leb 9 c && leb c 13)

-- `string.rstrip(line)`
unfoldable pub rstrip : Text → Text
rstrip [] = []
rstrip (c ∷ t) = elim (rstrip t) [
  | [] ↦ if is_space c then [] else c ∷ []
  | d ∷ rest ↦ c ∷ d ∷ rest
]

abbrev pub add_word : Text → List Text → List Text
add_word [] ws = ws
add_word (c ∷ w) ws = (c ∷ w) ∷ ws

-- `string.split(text)`, with the word that has been begun.
unfoldable pub words_from : Text → Text → List Text
words_from word [] = add_word word []
words_from word (c ∷ t) =
    let ended = words_from [] t in
    let longer = words_from (word ++ c ∷ []) t in if is_space c then add_word word ended else longer

unfoldable pub hex_digit : ℕ → Option ℕ
hex_digit c =
    if leb b'0' c && leb c b'9'
    then some (c - b'0')
    else if leb b'a' c && leb c b'f'
    then some (c - b'a' + 10)
    else if leb b'A' c && leb c b'F'
    then some (c - b'A' + 10)
    else none

unfoldable pub hex_from : ℕ → Text → Option ℕ
hex_from n [] = some n
hex_from n (c ∷ t) = elim (hex_digit c) [ none ↦ none | some d ↦ hex_from (n * 16 + d) t ]

unfoldable pub parse_digits : Text → Option ℕ
parse_digits [] = none
parse_digits (c ∷ t) = hex_from 0 (c ∷ t)

unfoldable pub skip_blanks : Text → Text
skip_blanks [] = []
skip_blanks (c ∷ t) = let rest = skip_blanks t in if is_space c then rest else c ∷ t

-- A `0x` is passed over if a digit follows it.
unfoldable pub drop_prefix : Text → Text
drop_prefix (z ∷ x ∷ d ∷ t) =
    if z == b'0' && (x == b'x' || x == b'X')
    then elim (hex_digit d) [ none ↦ z ∷ x ∷ d ∷ t | some v ↦ d ∷ t ]
    else z ∷ x ∷ d ∷ t
drop_prefix t = t

-- What stands behind the sign.
unfoldable pub parse_unsigned : Text → Option ℕ
parse_unsigned t = parse_digits (rstrip (drop_prefix (skip_blanks t)))

abbrev pub negated : ℕ → ℤ
negated zero = pos 0
negated (suc n) = negsuc n

unfoldable pub parse_signed : Text → Option ℤ
parse_signed [] = none
parse_signed (c ∷ t) =
    if c == b'-'
    then map negated (parse_unsigned t)
    else if c == b'+'
    then map pos (parse_unsigned t)
    else map pos (parse_unsigned (c ∷ t))

-- `int(text, 16)`: digits with blanks around them, a sign and a prefix.
unfoldable pub parse_hex : Text → Option ℤ
parse_hex t = parse_signed (skip_blanks t)

-- A FirmwareFlashError at this line.
abbrev pub syntax_error : ℕ → Failure
syntax_error lineno = flash (some lineno)

abbrev pub hex_at : ℕ → Text → ℕ → ℕ → Result ℤ
hex_at lineno line start n = or_raise (parse_hex (text_slice line start n)) (syntax_error lineno)

-- A bytearray takes no negative number; nothing catches that ValueError.
abbrev pub byte_value : ℤ → Result ℕ
byte_value (pos n) = ok n
byte_value (negsuc n) = err value_error

-- The `for i in range(n)` over the bytes of a line.
unfoldable pub load_bytes : ℕ → Text → ℕ → ℕ → ℕ → FlashMem → Result FlashMem
load_bytes lineno line addr zero i mem = ok mem
load_bytes lineno line addr (suc n) i mem = do
  value ← hex_at lineno line (i * 2 + 9) 2
  byte ← byte_value value
  mem' ← insert (addr + i) byte mem
  load_bytes lineno line addr n (i + 1) mem'

-- `self.target, self.version = string.split(line[1:])`
abbrev pub set_info : ℕ → List Text → FlashMem → Result FlashMem
set_info lineno (target ∷ version ∷ []) mem =
    ok (record mem { target = some target; version = some version })
set_info lineno _ mem = err (syntax_error lineno)

-- What becomes of the file after a line: it is read on, or the `break` ends it.
pub data Next : Type 0 where
  go_on stop : FlashMem → Next

abbrev pub is_zero : ℤ → Bool
is_zero (pos n) = n == 0
is_zero (negsuc n) = false

-- The bytes of a line for an address. (With a minus sign the file can give an address below 0, and
-- the source then makes a page below 0. The pages of the model are at natural numbers: such a line
-- is outside of it, and ends it here.)
abbrev pub load_at : ℕ → Text → ℤ → ℕ → FlashMem → Result Next
load_at lineno line (pos addr) n mem = do
  mem' ← load_bytes lineno line addr n 0 mem
  ok (go_on mem')
load_at lineno line (negsuc addr) n mem = err value_error

-- A line with this number of bytes, none if it is not above 0.
abbrev pub load_count : ℕ → Text → ℤ → ℤ → FlashMem → Result Next
load_count lineno line addr (negsuc n) mem = ok (go_on mem)
load_count lineno line addr (pos n) mem =
    if ltb 0 n
    then if ltb (length line) (9 + 2 * n)
      then err (syntax_error lineno)
      else load_at lineno line addr n mem
    else ok (go_on mem)

unfoldable pub load_data : ℕ → Text → FlashMem → Result Next
load_data lineno line mem = do
  n ← hex_at lineno line 1 2
  addr ← hex_at lineno line 3 4
  kind ← hex_at lineno line 7 2
  if not (is_zero kind) then ok (stop mem) else load_count lineno line addr n mem

-- A line that is stripped: empty, a comment, the target's line, or data.
unfoldable pub load_line : ℕ → Text → FlashMem → Result Next
load_line lineno [] mem = ok (go_on mem)
load_line lineno (kind ∷ rest) mem =
    if kind == b'#'
    then ok (go_on mem)
    else if kind == b'@'
    then (do mem' ← set_info lineno (words_from [] rest) mem; ok (go_on mem'))
    else if ltb (length (kind ∷ rest)) 9 || not (kind == b':')
    then err (syntax_error lineno)
    else load_data lineno (kind ∷ rest) mem

unfoldable pub load_lines : ℕ → List Text → FlashMem → Result FlashMem
load_lines lineno [] mem = ok mem
load_lines lineno (line ∷ lines) mem = do
  next ← load_line lineno (rstrip line) mem
  elim next [ go_on mem' ↦ load_lines (lineno + 1) lines mem' | stop mem' ↦ ok mem' ]

abbrev pub lacks_info : FlashMem → Bool
lacks_info mem = elim mem.target [
  | none ↦ true
  | some t ↦ elim mem.version [ none ↦ true | some v ↦ false ]
]

-- The constructor: `lines` is what the file holds, or `none` if it cannot be read.
unfoldable pub load_firmware : Option (List Text) → ℕ → Bool → Result FlashMem
load_firmware none page_size info_must_exist = err (flash none)
load_firmware (some lines) page_size info_must_exist = do
  mem ← load_lines 1 lines (new_mem page_size)
  if info_must_exist && lacks_info mem then err (flash none) else ok mem
