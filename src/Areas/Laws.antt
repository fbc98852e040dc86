-- ===== src/Areas/Laws.antt =====
-- Area names and codes are read back from one another.
use df10ch_atmolight_control.Prelude.{
  ℕ, ◌+◌, ◌*◌, ◌/◌, ◌%◌, ◌<◌, ◌≡◌, refl, ◌∙◌, Option, some, none, [], ◌∷◌, ◌++◌, Text, arith, ltb,
  if◌then◌else◌, lt→ltb, text_eq, true, false, get_elem?, Option-cases, ltb→lt, Bool, not, ◌&&◌,
  ◌==◌, subst, get_elem?-some-lt, Bool-cases, inl, inr,
}
use df10ch_atmolight_control.Prelude.Bits.{all_below, all_below_sound}
use df10ch_atmolight_control.Prelude.Int.{ℤ, pos}
use df10ch_atmolight_control.Result.{Result, ok, err}
use df10ch_atmolight_control.Decimal.{
  print_nat, parse-print, print_nat-Avoids, split_on-append, split_on-Avoids, Avoids,
}
use df10ch_atmolight_control.Areas.{
  area_name, area_code, area_index, area_number, area_names, num_base_areas,
}

area_number-print : (name : Text) (n : ℕ) → area_number (name ∷ print_nat (n + 1) ∷ []) ≡ ok (pos n)
unfolding area_number
area_number-print name n = rw (parse-print (n + 1)) (ground arith)

-- What area_code makes of a base name and its index.
numbered :
    (name : Text) (idx n color : ℕ)
    → Avoids b'-' name
    → area_index name ≡ ok idx
    → idx < 4
    → area_code (name ++ b'-' ∷ print_nat (n + 1)) color ≡ ok (idx * 4 + color % 4, pos n)
numbered name idx n color a e h =
    unfold area_code in
    rw (split_on-append b'-' name (print_nat (n + 1)) a (print_nat-Avoids (n + 1)))
      (rw e (rw (lt→ltb idx 4 h) (rw (area_number-print name n))))

unnumbered :
    (name : Text) (idx color : ℕ)
    → Avoids b'-' name
    → area_index name ≡ ok idx
    → ltb idx 4 ≡ false
    → area_code name color ≡ ok (idx * 4 + color % 4, pos 0)
unnumbered name idx color a e h =
    unfold area_code in rw (split_on-Avoids b'-' name a) (rw e (rw h refl))

plain : Text → Bool
plain [] = true
plain (c ∷ t) = not (c == b'-') && plain t

plain→Avoids : (t : Text) → plain t ≡ true → Avoids b'-' t
unfolding plain
plain→Avoids [] h = tt
plain→Avoids (c ∷ t) h = ground (arith, plain→Avoids t)

found_at : Result ℕ → ℕ → Bool
found_at (ok j) i = j == i
found_at (err e) i = false

found_at→eq : (r : Result ℕ) (i : ℕ) → found_at r i ≡ true → r ≡ ok i
unfolding found_at
found_at→eq (ok j) i h = ground arith
found_at→eq (err e) i h = cc

-- The name has no dash, and `index` finds it at `i`.
name_test : Option Text → ℕ → Bool
unfolding plain found_at
name_test none i = true
name_test (some name) i = plain name && found_at (area_index name) i

name_table : all_below num_base_areas (λ i. name_test (get_elem? area_names i) i) ≡ true
unfolding all_below name_test area_index text_eq
name_table = refl

name_test-some :
    (name : Text) (i : ℕ)
    → name_test (some name) i ≡ true
    → Avoids b'-' name × (area_index name ≡ ok i)
unfolding name_test
name_test-some name i h = ground (arith, plain→Avoids name, found_at→eq (area_index name) i)

name_facts :
    (i : ℕ) (name : Text)
    → get_elem? area_names i ≡ some name
    → Avoids b'-' name × (area_index name ≡ ok i)
name_facts i name h = name_test-some name i (
    subst (λ o. name_test o i ≡ true) h
      (all_below_sound num_base_areas _ i name_table (get_elem?-some-lt area_names i name h)))

-- How area_name builds the name, by the kind of area.
named_numbered :
    (code n : ℕ) (area : Text)
    → area_name code n ≡ some area
    → ltb (code / 4) 4 ≡ true
    → (name : Text) × (get_elem? area_names (code / 4) ≡ some name)
      × (area ≡ name ++ b'-' ∷ print_nat (n + 1))
named_numbered code n area h below = elim (Option-cases (get_elem? area_names (code / 4))) [
  | inl missing ↦ absurd (unfold area_name in ground arith)
  | inr (name, e) ↦ (name, e, unfold area_name in ground arith)
]

named_plain :
    (code n : ℕ) (area : Text)
    → area_name code n ≡ some area
    → ltb (code / 4) 4 ≡ false
    → get_elem? area_names (code / 4) ≡ some area
unfolding area_name
named_plain code n area h above = ground arith

-- A name that area_name builds from a code and a number gives back the code, and the number where
-- the area has one.
pub area_code-area_name :
    (code n : ℕ) (area : Text)
    → area_name code n ≡ some area
    → area_code area (code % 4) ≡ ok (code, if ltb (code / 4) 4 then pos n else pos 0)
area_code-area_name code n area h = elim (Bool-cases (ltb (code / 4) 4)) [
  | inl below ↦
      let (name, e, built) = named_numbered code n area h below in
      let (avoids, index) = name_facts (code / 4) name e in
      rw (below, built)
        (numbered name (code / 4) n (code % 4) avoids index (ltb→lt _ _ below) ∙ rebuilt (pos n))
  | inr above ↦
      let (avoids, index) = name_facts (code / 4) area (named_plain code n area h above) in
      rw above (unnumbered area (code / 4) (code % 4) avoids index above ∙ rebuilt (pos 0))
]
  where
    rebuilt :
        (z : ℤ) → ◌≡◌ {A = Result (ℕ × ℤ)} (ok (code / 4 * 4 + code % 4 % 4, z)) (ok (code, z))
    rebuilt z = ground arith
