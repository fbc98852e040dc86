-- ===== src/Tests/Shown.antt =====
-- The sheets of the main window, the image of the edge weighting, and the areas' brightness.
use df10ch_atmolight_control.Prelude.{
  Text, arith, ℕ, text_eq, ◌≡◌, refl, List, [], ◌∷◌, ◌*◌, ◌/◌, ◌-◌, max, false, ◌==◌, if◌then◌else◌,
}
use df10ch_atmolight_control.Prelude.Int.{pos, negsuc}
use df10ch_atmolight_control.Result.{ok, err, zero_division}
use df10ch_atmolight_control.Screen.{borders}
use df10ch_atmolight_control.Screen.Weight.{Shades}
use df10ch_atmolight_control.Screen.Cached.{
  Weighting, Use, minus_one, ShowsFresh, use_all, show_edge_weighting, configure, show, hide_image,
  show_after-ShowsFresh,
}
use df10ch_atmolight_control.Screen.Marked.{MarksSelected}
use df10ch_atmolight_control.WhiteCal.Shown.{
  ShowsLevel, IsGrey, grey_level, set_bright, set_bright-ShowsLevel,
}
use df10ch_atmolight_control.Main.{
  ShowsChosen, empty_dialog, sheets, add_sheets, click_all, add_sheet, display_sheet, click, forget,
  clicks-ShowChosen,
}
use df10ch_atmolight_control.Decimal.{codes}
use df10ch_atmolight_control.Tests.Sliders.{whole, set_map, set_levels, calibration}
use df10ch_atmolight_control.Tests.Dialogs.{view}
use df10ch_atmolight_control.Tests.Screen.{counts, sizes}

-- Tenths in place of floats.
abbrev pub tenths : Shades ℕ
tenths = record {
  tenth = elim [ pos n ↦ n | negsuc n ↦ 0 ];
  ratio = λ m n. if n == 0 then err zero_division else ok (10 * m / n);
  power = λ x y. ok x;
  complement = λ x. 10 - x;
  larger = max;
  nothing = 0;
  level = λ x. x * 25;
}

abbrev pub no_image : Weighting
no_image = record {
  borders = borders counts sizes;
  edge_weighting = minus_one;
  weight_limit = pos 0;
  image = [];
  shown = false;
}

abbrev uses : List Use
uses =
    show (pos 80) (pos 12)
    ∷ hide_image
    ∷ configure (borders counts sizes)
    ∷ show (pos 60) (pos 12)
    ∷ show (pos 60) (pos 20)
    ∷ []

show_after-ShowsFresh_example :
    ShowsFresh tenths
      (pos 60)
      (pos 20)
      (use_all tenths uses no_image)
      (show_edge_weighting tenths (pos 60) (pos 20) (use_all tenths uses no_image))
show_after-ShowsFresh_example =
    show_after-ShowsFresh tenths uses no_image (pos 60) (pos 20) refl (λ k. absurd (cc))

clicks-ShowChosen_example : ShowsChosen (
    click_all (2 ∷ 0 ∷ 9 ∷ 4 ∷ []) (
      add_sheets (codes "Devices" ∷ codes "Mapping" ∷ codes "Common Brightness" ∷ []) empty_dialog))
clicks-ShowChosen_example =
    clicks-ShowChosen (codes "Devices") (codes "Mapping" ∷ codes "Common Brightness" ∷ [])
      (2 ∷ 0 ∷ 9 ∷ 4 ∷ [])

last_clicked :
    (click_all (2 ∷ 3 ∷ []) (add_sheets sheets empty_dialog)).packed
    ≡ codes "White Calibration" ∷ []
unfolding click_all click display_sheet add_sheets add_sheet forget sheets text_eq
last_clicked = refl

grey_test : grey_level 171 ≡ codes "#ABABAB"
unfolding grey_level
grey_test = refl

set_bright-ShowsLevel_example :
    (c : Text) × IsGrey whole set_map set_levels c 255
    × ShowsLevel whole set_map set_levels c calibration view.shapes
        (set_bright whole set_map set_levels (calibration, view)).1.1
    × MarksSelected (set_bright whole set_map set_levels (calibration, view)).1.1
set_bright-ShowsLevel_example =
    set_bright-ShowsLevel whole set_map set_levels calibration view
      ((refl, λ e. refl), ((refl, λ e. refl), tt)) (omega arith)
