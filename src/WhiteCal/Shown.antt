-- ===== src/WhiteCal/Shown.antt =====
-- The white calibration sheet together with the areas on the screen (setBright, loadValues, selectArea
-- and the callbacks of df10ch_setup_pkg/white_cal_dlg.py).
use df10ch_atmolight_control.Prelude.{
  ◌<◌, ◌||◌, subst, ℕ, ◌+◌, ◌/◌, ◌%◌, ◌≡◌, refl, sym, ap, List, [], ◌∷◌, ◌++◌, Text, text_eq,
  text_eq→eq, Bool, true, false, not, ◌&&◌, if◌then◌else◌, Option, none, some, is_set, ltb, All,
  arith,
}
use df10ch_atmolight_control.Firmware.Load.{hex_from, hex_digit as hex_value}
use df10ch_atmolight_control.Result.{ok}
use df10ch_atmolight_control.Exec.{Exec, pure, ◌>>=◌, ◌>>◌}
use df10ch_atmolight_control.Decimal.{codes}
use df10ch_atmolight_control.Controller.Payload.{ChannelRec}
use df10ch_atmolight_control.Screen.View.{
  Shape, View, yellow, paint, take_tag, init_areas, hide_edge_weighting, unselect, raise_shape,
  select_area, act, act_all, init, select,
}
use df10ch_atmolight_control.Screen.Marked.{MarksSelected, act_all-MarksSelected}
use df10ch_atmolight_control.WhiteCal.{Floats, Calibration, find_recs, load_all}
use df10ch_atmolight_control.WhiteCal.Adjust.{update}
use df10ch_atmolight_control.WhiteCal.Adjust

-- `{0:02X}` of a number below 256.
abbrev hex_digit : ℕ → ℕ
hex_digit n = if ltb n 10 then 48 + n else 55 + n

unfoldable pub grey_level : ℕ → Text
grey_level n =
    let two = hex_digit (n / 16) ∷ hex_digit (n % 16) ∷ [] in codes "#" ++ (two ++ (two ++ two))

module _ {L F : Type 0} (floats : Floats F)
    (set_channel_map : Text → ℕ → List ChannelRec → Exec L (Unit {0}))
    (set_brightness : Text → ℕ → List ℕ → Exec L (Unit {0})) where
  -- The sheet and the areas' dialog.
  abbrev pub Both : Type 0
  Both = Calibration L F × View

  abbrev pub on_sheet : {A : Type 0} → Exec (Calibration L F) A → Exec Both A
  on_sheet m (s, v) = let (r, s') = m s in (r, (s', v))

  abbrev pub on_areas : (View → View) → Exec Both (Unit {0})
  on_areas f (s, v) = (ok tt, (s, f v))

  -- The areas in the grey of the brightness, and the selected one highlighted.
  unfoldable pub light_areas : Calibration L F → View → View
  light_areas s v =
      let lit = init_areas (grey_level (floats.rounded (floats.scaled s.bright 255))) v in
      elim s.selected_area [
        | none ↦ lit
        | some area ↦ if not s.select_all && is_set (some area) then select_area area lit else lit
      ]

  unfoldable pub set_bright : Exec Both (Unit {0})
  set_bright (s, v) = on_sheet (update floats set_channel_map set_brightness) (s, light_areas s v)

  unfoldable pub select_shown : Text → Exec Both (Unit {0})
  select_shown area (s, v) = elim (find_recs area s.areas_map) [
    | none ↦ (ok tt, (s, v))
    | some recs ↦
        on_sheet (Adjust.select_area floats set_channel_map set_brightness area)
          (s, select_area area v)
  ]

  abbrev pub select_last : Option Text → Exec Both (Unit {0})
  select_last none b = (ok tt, b)
  select_last (some area) b = if is_set (some area) then select_shown area b else (ok tt, b)

  unfoldable pub show_values : Exec Both (Unit {0})
  show_values (s, v) =
      (on_sheet (load_all floats set_channel_map set_brightness none s.configs)
          >>= λ (failed, area).
              if failed
              then pure tt
              else on_areas hide_edge_weighting >> (select_last area >> set_bright))
        (record s { areas_map = [] }, v)

  unfoldable pub cb_select_all : Bool → Exec Both (Unit {0})
  cb_select_all all (s, v) = set_bright (record s { select_all = all }, v)

  unfoldable pub cb_set_bright : F → Exec Both (Unit {0})
  cb_set_bright bright (s, v) = set_bright (record s { bright = bright }, v)

  abbrev pub IsFilled : Text → Shape → Type 0
  IsFilled c x = x.fill ≡ c

  paint-IsFilled : (c : Text) (xs : List Shape) → All (IsFilled c) (paint c xs)
  unfolding paint
  paint-IsFilled c [] = tt
  paint-IsFilled c (x ∷ xs) = (refl, paint-IsFilled c xs)

  -- Whether an area is on the screen.
  abbrev pub has_tag : Text → List Shape → Bool
  has_tag area [] = false
  has_tag area (x ∷ xs) = text_eq x.tag area || has_tag area xs

  has_tag-paint : (area c : Text) (xs : List Shape) → has_tag area (paint c xs) ≡ has_tag area xs
  unfolding paint
  has_tag-paint area c [] = refl
  has_tag-paint area c (x ∷ xs) = ap (λ b. text_eq x.tag area || b) (has_tag-paint area c xs)

  abbrev SplitsFilled : Text → Text → Bool → Option (Shape × List Shape) → Type 0
  SplitsFilled c area has none = has ≡ false
  SplitsFilled c area has (some (x, others)) =
      (has ≡ true) × (x.tag ≡ area) × IsFilled c x × All (IsFilled c) others

  take_tag-SplitsFilled :
      (c area : Text) (xs : List Shape)
      → All (IsFilled c) xs
      → SplitsFilled c area (has_tag area xs) (take_tag area xs)
  unfolding take_tag
  take_tag-SplitsFilled c area [] h = refl
  take_tag-SplitsFilled c area (x ∷ xs) h =
      by_tag (text_eq x.tag area) refl (has_tag area xs) (take_tag area xs)
        (take_tag-SplitsFilled c area xs h.1)
    where
      by_tag :
          (b : Bool)
          → text_eq x.tag area ≡ b
          → (has : Bool) (later : Option (Shape × List Shape)) → SplitsFilled c area has later
          → SplitsFilled c area (b || has) (
              if b then some (x, xs) else elim later as (λ o. Option (Shape × List Shape)) [
                | none ↦ none
                | some p ↦ some (p.0, x ∷ p.1)
              ])
      by_tag true e has later g = (refl, text_eq→eq x.tag area e, h.0, h.1)
      by_tag false e has none g = g
      by_tag false e has (some (y, ys)) (is, same, filled, others) =
          (is, same, filled, (h.0, others))

  IsFilled-last :
      (c : Text) (xs : List Shape) (x : Shape)
      → All (IsFilled c) xs
      → IsFilled c x
      → All (IsFilled c) (xs ++ x ∷ [])
  IsFilled-last c [] x h k = (k, tt)
  IsFilled-last c (y ∷ ys) x h k = (h.0, IsFilled-last c ys x h.1 k)

  -- The area that is to be highlighted: the selected one, if it has a name and is on the screen, and
  -- not all areas are adjusted.
  abbrev pub highlighted : Calibration L F → List Shape → Option Text
  highlighted s xs = if s.select_all then none else elim s.selected_area [
    | none ↦ none
    | some area ↦ if is_set (some area) && has_tag area xs then some area else none
  ]

  -- A grey whose three parts have this value, as two hexadecimal digits.
  abbrev pub IsGrey : Text → ℕ → Type 0
  IsGrey c level =
      (x : ℕ) × (y : ℕ) × (c ≡ b'#' ∷ x ∷ y ∷ x ∷ y ∷ x ∷ y ∷ [])
      × (hex_from 0 (x ∷ y ∷ []) ≡ some level)

  -- What the areas show of a color, where these shapes were shown before.
  abbrev pub ShowsLevel : Text → Calibration L F → List Shape → View → Type 0
  ShowsLevel c s before v =
      All (IsFilled c) v.shapes × (v.background ≡ c) × (v.selected_area ≡ highlighted s before)

  hex_digit-value : (n : ℕ) → n < 16 → hex_value (hex_digit n) ≡ some n
  unfolding hex_value
  hex_digit-value n h = ground arith

  grey_level-IsGrey : (level : ℕ) → level < 256 → IsGrey (grey_level level) level
  unfolding grey_level hex_from
  grey_level-IsGrey level h = (
    hex_digit (level / 16),
    hex_digit (level % 16),
    refl,
    rw (hex_digit-value (level / 16) (omega arith), hex_from)
        (rw (hex_digit-value (level % 16) (omega arith)) (ap some (omega arith))),
  )

  selected-ShowsLevel :
      (c area : Text) (s : Calibration L F) (v : View)
      → s.selected_area ≡ some area
      → s.select_all ≡ false
      → is_set (some area) ≡ true
      → ShowsLevel c s v.shapes (select_area area (init_areas c v))
  unfolding select_area init_areas unselect
  selected-ShowsLevel c area s v chosen one named =
      by_found (has_tag area v.shapes) refl (take_tag area (paint c v.shapes)) (
        subst (λ b. SplitsFilled c area b (take_tag area (paint c v.shapes)))
          (has_tag-paint area c v.shapes)
          (take_tag-SplitsFilled c area (paint c v.shapes) (paint-IsFilled c v.shapes)))
    where
      lit : View
      lit = record v { shapes = paint c v.shapes; background = c; selected_area = none }

      by_found :
          (has : Bool)
          → has_tag area v.shapes ≡ has
          → (o : Option (Shape × List Shape)) → SplitsFilled c area has o
          → ShowsLevel c s v.shapes
              (elim o as (λ x. View) [ none ↦ lit | some p ↦ raise_shape p.0 p.1 lit ])
      by_found has e none g = (paint-IsFilled c v.shapes, refl, rw (one, chosen, named, e, g) refl)
      by_found has e (some (x, others)) (is, same, filled, rest) = (
        IsFilled-last c others (record x { outline = yellow }) rest filled,
        refl,
        rw (one, chosen, named, e, is) (ap some same),
      )

  light_areas-ShowsLevel :
      (s : Calibration L F) (v : View)
      → MarksSelected v
      → ShowsLevel
          (grey_level (floats.rounded (floats.scaled s.bright 255)))
          s
          v.shapes
          (light_areas s v)
        × MarksSelected (light_areas s v)
  unfolding light_areas init_areas act_all act paint
  light_areas-ShowsLevel s v h = by_selected s.selected_area refl
    where
      c : Text
      c = grey_level (floats.rounded (floats.scaled s.bright 255))

      plain :
          highlighted s v.shapes ≡ none
          → ShowsLevel c s v.shapes (init_areas c v) × MarksSelected (init_areas c v)
      plain e = ((paint-IsFilled c v.shapes, refl, sym e), act_all-MarksSelected (init c ∷ []) v h)

      by_test :
          (area : Text) (b : Bool)
          → s.selected_area ≡ some area
          → (not s.select_all && is_set (some area)) ≡ b
          → (let shown = if b then select_area area (init_areas c v) else init_areas c v in
              ShowsLevel c s v.shapes shown × MarksSelected shown)
      by_test area true e test = (
        selected-ShowsLevel c area s v e (ground arith) (ground arith),
        act_all-MarksSelected (init c ∷ select area ∷ []) v h,
      )
      by_test area false e test = plain (rw e (not_shown s.select_all (is_set (some area)) test))
        where
          not_shown :
              (all set : Bool)
              → (not all && set) ≡ false
              → (if all then none else if set && has_tag area v.shapes then some area else none)
                ≡ none
          not_shown true set k = refl
          not_shown false true k = absurd (cc)
          not_shown false false k = refl

      by_selected :
          (o : Option Text)
          → s.selected_area ≡ o
          → (let shown = elim o as (λ x. View) [
            | none ↦ init_areas c v
            | some area ↦
                if not s.select_all && is_set (some area)
                then select_area area (init_areas c v)
                else init_areas c v
          ] in
              ShowsLevel c s v.shapes shown × MarksSelected shown)
      by_selected none e = plain (rw e (ground arith))
      by_selected (some area) e = by_test area (not s.select_all && is_set (some area)) e refl

  -- Setting the brightness, also where a controller raises, for a brightness that comes to a level
  -- below 256: every area and the background has one grey, whose parts are that level in two
  -- hexadecimal digits; the area that is selected on the screen is the one selected in the sheet, if
  -- it has a name and is on the screen and the sheet does not adjust all areas, and none otherwise;
  -- and if only the selected area was outlined in another color than grey, so it is afterwards.
  pub set_bright-ShowsLevel :
      (s : Calibration L F) (v : View)
      → MarksSelected v
      → floats.rounded (floats.scaled s.bright 255) < 256
      → (c : Text) × IsGrey c (floats.rounded (floats.scaled s.bright 255))
        × ShowsLevel c s v.shapes (set_bright (s, v)).1.1
        × MarksSelected (set_bright (s, v)).1.1
  unfolding set_bright
  set_bright-ShowsLevel s v h few =
      let level = floats.rounded (floats.scaled s.bright 255) in
      let (shows, marks) = light_areas-ShowsLevel s v h in
      (grey_level level, grey_level-IsGrey level few, shows, marks)
