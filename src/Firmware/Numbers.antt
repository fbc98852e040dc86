-- ===== src/Firmware/Numbers.antt =====
-- The numbers of a hex file: `int(text, 16)` on texts without a minus sign
-- (df10ch_setup_pkg/firmware.py).
use mathlib.Core.Option.{map}
use df10ch_atmolight_control.Prelude.{
  ℕ, zero, suc, ◌<◌, ◌≤◌, ◌≡◌, ◌≢◌, refl, Bool, true, false, [], ◌∷◌, Text, Option, none, some,
  arith, ◌==◌, ==_iff, take, drop, length, if◌then◌else◌, Option-cases, inl, inr, ◌⊎◌,
}
use df10ch_atmolight_control.Prelude.Int.{ℤ, pos, negsuc}
use df10ch_atmolight_control.Decimal.{Avoids}
use df10ch_atmolight_control.Firmware.Load.{
  is_space, rstrip, hex_digit, hex_from, parse_digits, skip_blanks, drop_prefix, parse_unsigned,
  parse_signed, negated, parse_hex, text_slice,
}

hex_digit-lt : (c d : ℕ) → hex_digit c ≡ some d → d < 16
unfolding hex_digit
hex_digit-lt c d h = ground arith

pub parse_digits-lt_256 : (t : Text) (v : ℕ) → length t ≤ 2 → parse_digits t ≡ some v → v < 256
unfolding parse_digits hex_from
parse_digits-lt_256 [] v l h = absurd (cc)
parse_digits-lt_256 (a ∷ []) v l h = elim (Option-cases (hex_digit a)) [
  | inl bad ↦ absurd (ground arith)
  | inr (d, e) ↦ ground (arith, hex_digit-lt a d e)
]
parse_digits-lt_256 (a ∷ b ∷ []) v l h = elim (Option-cases (hex_digit a)) [
  | inl bad ↦ absurd (ground arith)
  | inr (d, e) ↦ elim (Option-cases (hex_digit b)) [
    | inl bad ↦ absurd (ground arith)
    | inr (d', e') ↦ ground (arith, hex_digit-lt a d e, hex_digit-lt b d' e')
  ]
]
parse_digits-lt_256 (a ∷ b ∷ c ∷ t) v l h = absurd (omega arith)

length-skip_blanks : (t : Text) → length (skip_blanks t) ≤ length t
unfolding skip_blanks
length-skip_blanks [] = omega arith
length-skip_blanks (c ∷ t) = by_space (is_space c) (length-skip_blanks t)
  where
    by_space :
        (b : Bool)
        → length (skip_blanks t) ≤ length t
        → length (if b then skip_blanks t else c ∷ t) ≤ suc (length t)
    by_space true k = omega (arith, k)
    by_space false k = omega (arith, k)

length-drop_prefix : (t : Text) → length (drop_prefix t) ≤ length t
unfolding drop_prefix
length-drop_prefix [] = omega arith
length-drop_prefix (z ∷ []) = omega arith
length-drop_prefix (z ∷ x ∷ []) = omega arith
length-drop_prefix (z ∷ x ∷ d ∷ t) = ground arith

length-rstrip : (t : Text) → length (rstrip t) ≤ length t
unfolding rstrip
length-rstrip [] = omega arith
length-rstrip (c ∷ t) = by_rest (rstrip t) (length-rstrip t)
  where
    by_rest :
        (u : Text)
        → length u ≤ length t
        → length (elim u as (λ x. Text) [
          | [] ↦ if is_space c then [] else c ∷ []
          | d ∷ rest ↦ c ∷ d ∷ rest
        ])
          ≤ suc (length t)
    by_rest [] h = ground arith
    by_rest (d ∷ rest) h = omega (arith, h)

Avoids-skip_blanks : (sep : ℕ) (t : Text) → Avoids sep t → Avoids sep (skip_blanks t)
unfolding skip_blanks
Avoids-skip_blanks sep [] h = tt
Avoids-skip_blanks sep (c ∷ t) h = by_space (is_space c) (Avoids-skip_blanks sep t h.1)
  where
    by_space :
        (b : Bool) → Avoids sep (skip_blanks t) → Avoids sep (if b then skip_blanks t else c ∷ t)
    by_space true k = k
    by_space false k = h

pub Avoids-rstrip : (sep : ℕ) (t : Text) → Avoids sep t → Avoids sep (rstrip t)
unfolding rstrip
Avoids-rstrip sep [] h = tt
Avoids-rstrip sep (c ∷ t) h = by_rest (rstrip t) (Avoids-rstrip sep t h.1)
  where
    by_space : (b : Bool) → Avoids sep (if b then [] else c ∷ [])
    by_space true = tt
    by_space false = (h.0, tt)

    by_rest :
        (u : Text)
        → Avoids sep u
        → Avoids sep (elim u as (λ x. Text) [
          | [] ↦ if is_space c then [] else c ∷ []
          | d ∷ rest ↦ c ∷ d ∷ rest
        ])
    by_rest [] k = by_space (is_space c)
    by_rest (d ∷ rest) k = (h.0, k)

Avoids-drop : (sep n : ℕ) (t : Text) → Avoids sep t → Avoids sep (drop n t)
Avoids-drop sep zero t h = h
Avoids-drop sep (suc n) [] h = tt
Avoids-drop sep (suc n) (c ∷ t) h = Avoids-drop sep n t h.1

Avoids-take : (sep n : ℕ) (t : Text) → Avoids sep t → Avoids sep (take n t)
Avoids-take sep zero t h = tt
Avoids-take sep (suc n) [] h = tt
Avoids-take sep (suc n) (c ∷ t) h = (h.0, Avoids-take sep n t h.1)

pub Avoids-text_slice :
    (sep start n : ℕ) (t : Text) → Avoids sep t → Avoids sep (text_slice t start n)
Avoids-text_slice sep start n t h = Avoids-take sep n (drop start t) (Avoids-drop sep start t h)

-- A number that is not negative and has this property.
abbrev pub IsPos : (ℕ → Type 0) → ℤ → Type 0
IsPos P (pos n) = P n
IsPos P (negsuc n) = ⊥

abbrev pub Holds : {A : Type 0} → (A → Type 0) → Option A → Type 0
Holds P none = Unit {0}
Holds P (some a) = P a

Holds-map_pos : (P : ℕ → Type 0) (o : Option ℕ) → Holds P o → Holds (IsPos P) (map pos o)
Holds-map_pos P none h = tt
Holds-map_pos P (some n) h = h

module _ (P : ℕ → Type 0) (bound : ℕ)
    (digits : (u : Text) → length u ≤ bound → Holds P (parse_digits u)) where
  parse_unsigned-Holds : (t : Text) → length t ≤ bound → Holds P (parse_unsigned t)
  unfolding parse_unsigned
  parse_unsigned-Holds t h = digits (rstrip (drop_prefix (skip_blanks t))) (
      omega (
        arith,
        h,
        length-rstrip (drop_prefix (skip_blanks t)),
        length-drop_prefix (skip_blanks t),
        length-skip_blanks t,
      ))

  parse_signed-Holds :
      (t : Text) → Avoids b'-' t → length t ≤ bound → Holds (IsPos P) (parse_signed t)
  unfolding parse_signed
  parse_signed-Holds [] h k = tt
  parse_signed-Holds (c ∷ t) h k = by_sign (c == b'-') (c == b'+') refl
    where
      by_sign :
          (minus plus : Bool)
          → (c == b'-') ≡ minus
          → Holds (IsPos P) (
              if minus
              then map negated (parse_unsigned t)
              else if plus
              then map pos (parse_unsigned t)
              else map pos (parse_unsigned (c ∷ t)))
      by_sign true plus e = absurd (h.0 ((==_iff c b'-').0 e))
      by_sign false true e =
          Holds-map_pos P (parse_unsigned t) (parse_unsigned-Holds t (omega arith))
      by_sign false false e =
          Holds-map_pos P (parse_unsigned (c ∷ t)) (parse_unsigned-Holds (c ∷ t) k)

  -- On a text without a minus sign, a number that is parsed is not negative.
  pub parse_hex-Holds :
      (t : Text) → Avoids b'-' t → length t ≤ bound → Holds (IsPos P) (parse_hex t)
  unfolding parse_hex
  parse_hex-Holds t h k =
      parse_signed-Holds (skip_blanks t) (Avoids-skip_blanks b'-' t h)
        (omega (arith, k, length-skip_blanks t))

-- A line that is no data, or has no minus sign.
abbrev pub IsPlain : Text → Type 0
IsPlain [] = Unit {0}
IsPlain (c ∷ t) = (c ≢ b':') ⊎ Avoids b'-' (c ∷ t)

pub rstrip-IsPlain : (t : Text) → IsPlain t → IsPlain (rstrip t)
unfolding rstrip
rstrip-IsPlain [] h = tt
rstrip-IsPlain (c ∷ t) h = by_rest (rstrip t) (Avoids-rstrip b'-' t) h
  where
    by_space : (b : Bool) → (c ≢ b':') ⊎ (c ≢ b'-') → IsPlain (if b then [] else c ∷ [])
    by_space true k = tt
    by_space false (inl k) = inl k
    by_space false (inr k) = inr (k, tt)

    by_rest :
        (u : Text)
        → (Avoids b'-' t → Avoids b'-' u)
        → (c ≢ b':') ⊎ Avoids b'-' (c ∷ t)
        → IsPlain (elim u as (λ x. Text) [
          | [] ↦ if is_space c then [] else c ∷ []
          | d ∷ rest ↦ c ∷ d ∷ rest
        ])
    by_rest [] k (inl other) = by_space (is_space c) (inl other)
    by_rest [] k (inr avoids) = by_space (is_space c) (inr avoids.0)
    by_rest (d ∷ rest) k (inl other) = inl other
    by_rest (d ∷ rest) k (inr avoids) = inr (avoids.0, k avoids.1)
