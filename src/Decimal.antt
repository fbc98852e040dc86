-- ===== src/Decimal.antt =====
-- The texts that the driver builds and takes apart (df10ch_setup_pkg/device_drv.py): `format` of a
-- number, `int` of digits, and `string.split`.
use Prim.Native.Char.{code}
use df10ch_atmolight_control.Prelude.{
  ℕ, zero, suc, ◌+◌, ◌-◌, ◌*◌, ◌/◌, ◌%◌, ◌<◌, ◌≡◌, ◌≢◌, refl, ap, ◌∙◌, Option, none, some, List, [],
  ◌∷◌, ◌++◌, ◌&&◌, String, Text, All, arith, ltb, leb, ◌==◌, if◌then◌else◌,
}
use df10ch_atmolight_control.Prelude.Int.{ℤ, pos, negsuc}
use df10ch_atmolight_control.Result.{Result, ok, err, value_error, or_raise}

-- The characters of a literal.
abbrev pub codes : String → Text
codes String.[] = []
codes (String.◌∷◌ c s) = code c ∷ codes s

-- The digits of `n` before `rest`; `fuel` bounds their number.
unfoldable pub digits_from : ℕ → ℕ → Text → Text
digits_from zero n rest = rest
digits_from (suc fuel) n rest =
    let digit = 48 + n % 10 in
    let longer = digits_from fuel (n / 10) (digit ∷ rest) in
    if ltb n 10 then digit ∷ rest else longer

unfoldable pub print_nat : ℕ → Text
unfolding digits_from
print_nat n = digits_from (suc n) n []

unfoldable pub print_int : ℤ → Text
unfolding print_nat
print_int (pos n) = print_nat n
print_int (negsuc n) = b'-' ∷ print_nat (suc n)

unfoldable pub parse_from : ℕ → Text → Option ℕ
parse_from n [] = some n
parse_from n (c ∷ t) =
    let rest = parse_from (n * 10 + (c - 48)) t in if leb 48 c && leb c 57 then rest else none

-- `int(text)`, on texts of digits. (The blanks and the sign that `int` also takes stand in no area
-- name.)
unfoldable pub parse_nat : Text → Result ℕ
unfolding parse_from
parse_nat [] = err value_error
parse_nat (c ∷ t) = or_raise (parse_from 0 (c ∷ t)) value_error

abbrev pub cons_head : ℕ → List Text → List Text
cons_head c [] = (c ∷ []) ∷ []
cons_head c (w ∷ ws) = (c ∷ w) ∷ ws

-- `string.split(text, sep)`
unfoldable pub split_on : ℕ → Text → List Text
split_on sep [] = [] ∷ []
split_on sep (c ∷ t) = let rest = split_on sep t in if c == sep then [] ∷ rest else cons_head c rest

parse-digits_from :
    (fuel n : ℕ) (rest : Text)
    → n < fuel
    → parse_from 0 (digits_from fuel n rest) ≡ parse_from n rest
unfolding digits_from parse_from
parse-digits_from zero n rest h = absurd (omega arith)
parse-digits_from (suc fuel) n rest h = ground (
  arith,
  parse-digits_from fuel (n / 10) ((48 + n % 10) ∷ rest),
  ap (λ k. parse_from k rest) (digit_value n),
  ap (λ k. parse_from k rest) (last_digit n),
)
  where
    digit_value : (n : ℕ) → n / 10 * 10 + (48 + n % 10 - 48) ≡ n
    digit_value n = omega arith

    last_digit : (n : ℕ) → 48 + n % 10 - 48 ≡ n % 10
    last_digit n = omega arith

digits_from-ne-nil : (fuel n c : ℕ) (rest : Text) → digits_from fuel n (c ∷ rest) ≢ []
unfolding digits_from
digits_from-ne-nil zero n c rest = λ h. cc
digits_from-ne-nil (suc fuel) n c rest =
    ground (arith, digits_from-ne-nil fuel (n / 10) (48 + n % 10) (c ∷ rest))

print_nat-ne-nil : (n : ℕ) → print_nat n ≢ []
unfolding print_nat
print_nat-ne-nil n = ground (arith, digits_from-ne-nil n (n / 10) (48 + n % 10) [])

parse_nat-ne-nil : (t : Text) → t ≢ [] → parse_nat t ≡ or_raise (parse_from 0 t) value_error
unfolding parse_nat
parse_nat-ne-nil [] h = absurd (h refl)
parse_nat-ne-nil (c ∷ t) h = refl

-- Reading back the digits of a number gives the number.
pub parse-print : (n : ℕ) → parse_nat (print_nat n) ≡ ok n
unfolding parse_from
parse-print n =
    parse_nat-ne-nil (print_nat n) (print_nat-ne-nil n)
    ∙ ap (λ o. or_raise o value_error) (parse-digits n)
  where
    parse-digits : (n : ℕ) → parse_from 0 (print_nat n) ≡ some n
    parse-digits n = unfold print_nat in parse-digits_from (suc n) n [] (omega arith)

-- No character of the text is `sep`.
abbrev pub Avoids : ℕ → Text → Type 0
Avoids sep = All (λ c. c ≢ sep)

digits_from-Avoids :
    (fuel n : ℕ) (rest : Text) → Avoids b'-' rest → Avoids b'-' (digits_from fuel n rest)
unfolding digits_from
digits_from-Avoids zero n rest h = h
digits_from-Avoids (suc fuel) n rest h =
    ground (arith, digits_from-Avoids fuel (n / 10) ((48 + n % 10) ∷ rest) (digit n, h))
  where
    digit : (n : ℕ) → 48 + n % 10 ≢ b'-'
    digit n = omega arith

pub print_nat-Avoids : (n : ℕ) → Avoids b'-' (print_nat n)
unfolding print_nat
print_nat-Avoids n = digits_from-Avoids (suc n) n [] tt

pub split_on-Avoids : (sep : ℕ) (t : Text) → Avoids sep t → split_on sep t ≡ t ∷ []
unfolding split_on
split_on-Avoids sep [] h = refl
split_on-Avoids sep (c ∷ t) h = ground (arith, split_on-Avoids sep t h.1)

-- A text with one separator is split there.
pub split_on-append :
    (sep : ℕ) (s t : Text) → Avoids sep s → Avoids sep t → split_on sep (s ++ sep ∷ t) ≡ s ∷ t ∷ []
unfolding split_on
split_on-append sep [] t h k = ground (arith, split_on-Avoids sep t k)
split_on-append sep (c ∷ s) t h k = ground (arith, split_on-append sep s t h.1 k)
