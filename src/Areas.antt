-- ===== src/Areas.antt =====
-- Area and colour names and the codes that the EEPROM holds for them
-- (df10ch_setup_pkg/device_drv.py: NumBaseAreas to AreaCode).
pub mod Laws
use df10ch_atmolight_control.Prelude.{
  ℕ, zero, suc, ◌+◌, ◌*◌, ◌/◌, ◌%◌, ◌-◌, List, [], ◌∷◌, ◌++◌, Text, text_eq, ltb, length, get_elem?,
  if◌then◌else◌, Option, none, some,
}
use df10ch_atmolight_control.Prelude.Int.{ℤ, pos, negsuc, sub_ℕ}
use df10ch_atmolight_control.Result.{Result, ok, err, ◌>>=◌, at, value_error}
use df10ch_atmolight_control.Decimal.{codes, print_nat, parse_nat, split_on}

abbrev pub area_names : List Text
area_names =
    codes "Top"
    ∷ codes "Bottom"
    ∷ codes "Left"
    ∷ codes "Right"
    ∷ codes "Center"
    ∷ codes "TopLeft"
    ∷ codes "TopRight"
    ∷ codes "BottomLeft"
    ∷ codes "BottomRight"
    ∷ []

abbrev pub max_areas : List ℕ
max_areas = 30 ∷ 30 ∷ 30 ∷ 30 ∷ 1 ∷ 1 ∷ 1 ∷ 1 ∷ 1 ∷ []

abbrev pub color_names : List Text
color_names = codes "red" ∷ codes "green" ∷ codes "blue" ∷ []

-- `names.index(name)`
unfoldable pub index_of : Text → List Text → Result ℕ
index_of name [] = err value_error
index_of name (n ∷ ns) =
    let later = (do i ← index_of name ns; ok (suc i)) in if text_eq n name then ok 0 else later

abbrev pub num_base_areas : ℕ
num_base_areas = length area_names

unfoldable pub area_index : Text → Result ℕ
unfolding index_of
area_index area = index_of area area_names

-- `None` is `none`: the caller tests for it. An index below 4 or below the number of areas is in
-- range, so no lookup in the table of names raises.
unfoldable pub area_name : ℕ → ℕ → Option Text
area_name code area_num =
    let area_idx = code / 4 in
    if ltb area_idx 4
    then (elim (get_elem? area_names area_idx) [
      | none ↦ none
      | some name ↦ some (name ++ b'-' ∷ print_nat (area_num + 1))
    ])
    else if ltb area_idx num_base_areas
    then get_elem? area_names area_idx
    else none

unfoldable pub color_index : Text → Result ℕ
unfolding index_of
color_index name = index_of name color_names

unfoldable pub color_name : ℕ → Result Text
color_name code = at color_names (code % 4)

-- The number of an area with a number, which is one less than the name shows.
unfoldable pub area_number : List Text → Result ℤ
area_number parts = do digits ← at parts 1; n ← parse_nat digits; ok (sub_ℕ n 1)

unfoldable pub area_code : Text → ℕ → Result (ℕ × ℤ)
area_code area color = do
  let parts = split_on b'-' area
  base ← at parts 0
  area_idx ← area_index base
  area_num ← (if ltb area_idx 4 then area_number parts else ok (pos 0))
  ok (area_idx * 4 + color % 4, area_num)
