-- ===== src/Screen.antt =====
-- Where the areas lie on the screen: the geometry of configAreas
-- (df10ch_setup_pkg/areas_dlg.py).
pub mod View
pub mod Marked
pub mod Weight
pub mod Cached
pub mod Polygons
pub mod Window
pub mod Canvas
pub mod Tags
pub mod Shown
use df10ch_atmolight_control.Prelude.{
  ℕ, zero, suc, ◌+◌, ◌-◌, ◌*◌, ◌/◌, List, [], ◌∷◌, ltb, ◌==◌, ◌&&◌, ◌||◌, if◌then◌else◌, Bool,
}
use df10ch_atmolight_control.Result.{Result, ok, err, ◌>>=◌, at, zero_division, value_error}
use df10ch_atmolight_control.Areas.{area_index}
use df10ch_atmolight_control.Decimal.{codes}

-- How many areas of each kind there are.
pub record Counts : Type 0 where
  pub top : ℕ
  pub bottom : ℕ
  pub left : ℕ
  pub right : ℕ
  pub center : ℕ
  pub top_left : ℕ
  pub top_right : ℕ
  pub bottom_left : ℕ
  pub bottom_right : ℕ

unfoldable pub counts_of : List ℕ → Result Counts
counts_of num_areas = do
  top_left ← area_index (codes "TopLeft") >>= at num_areas
  top_right ← area_index (codes "TopRight") >>= at num_areas
  bottom_left ← area_index (codes "BottomLeft") >>= at num_areas
  bottom_right ← area_index (codes "BottomRight") >>= at num_areas
  center ← area_index (codes "Center") >>= at num_areas
  top ← area_index (codes "Top") >>= at num_areas
  bottom ← area_index (codes "Bottom") >>= at num_areas
  left ← area_index (codes "Left") >>= at num_areas
  right ← area_index (codes "Right") >>= at num_areas
  ok (record {
    top = top;
    bottom = bottom;
    left = left;
    right = right;
    center = center;
    top_left = top_left;
    top_right = top_right;
    bottom_left = bottom_left;
    bottom_right = bottom_right;
  })

-- The canvas and the analyze window.
pub record Sizes : Type 0 where
  pub width : ℕ
  pub height : ℕ
  pub a_width : ℕ
  pub a_height : ℕ

-- An overscan of more than half of the dialog does not occur: overscan is at most 200 of 1000.
-- (A canvas of negative size: the image of that size cannot be made, which raises ValueError.)
unfoldable pub sizes_of : ℕ → ℕ → ℕ → ℕ → Result Sizes
sizes_of dialog_width dialog_height overscan analyze_size =
    if dialog_width == 0
    then err zero_division
    else if ltb dialog_width (2 * (dialog_width * overscan / 1000))
        || ltb dialog_height (2 * (dialog_height * overscan / 1000))
    then err value_error
    else ok (record {
      width = dialog_width - 2 * (dialog_width * overscan / 1000);
      height = dialog_height - 2 * (dialog_height * overscan / 1000);
      a_width = (analyze_size + 1) * 64;
      a_height = (analyze_size + 1) * 64 * dialog_height / dialog_width;
    })

-- The size of the areas along a border of `s` areas, and where the last one starts.
unfoldable pub step : ℕ → ℕ → ℕ
step length s = if s == 0 then 0 else length / s

unfoldable pub last_at : ℕ → ℕ → ℕ
last_at length s = if s == 0 then 0 else length * (s - 1) / s

-- `if size and size < depth: depth = size`
abbrev pub at_most : ℕ → ℕ → ℕ
at_most size depth = if ltb 0 size && ltb size depth then size else depth

-- `if last > depth: depth = last`
abbrev pub at_least : ℕ → ℕ → ℕ
at_least last depth = if ltb depth last then last else depth

pub record Borders : Type 0 where
  pub sizes : Sizes
  pub open sizes use *
  pub s_top : ℕ
  pub s_bottom : ℕ
  pub s_left : ℕ
  pub s_right : ℕ
  pub top_size_x : ℕ
  pub top_last_x : ℕ
  pub bottom_size_x : ℕ
  pub bottom_last_x : ℕ
  pub left_size_y : ℕ
  pub left_last_y : ℕ
  pub right_size_y : ℕ
  pub right_last_y : ℕ
  pub top_size_y : ℕ
  pub bottom_size_y : ℕ
  pub left_size_x : ℕ
  pub right_size_x : ℕ

unfoldable pub borders : Counts → Sizes → Borders
borders n z =
    let s_top = n.top + n.top_left + n.top_right in
    let s_bottom = n.bottom + n.bottom_left + n.bottom_right in
    let s_left = n.left + n.top_left + n.bottom_left in
    let s_right = n.right + n.top_right + n.bottom_right in
    record {
      sizes = z;
      s_top = s_top;
      s_bottom = s_bottom;
      s_left = s_left;
      s_right = s_right;
      top_size_x = step z.a_width s_top;
      top_last_x = last_at z.a_width s_top;
      bottom_size_x = step z.a_width s_bottom;
      bottom_last_x = last_at z.a_width s_bottom;
      left_size_y = step z.a_height s_left;
      left_last_y = last_at z.a_height s_left;
      right_size_y = step z.a_height s_right;
      right_last_y = last_at z.a_height s_right;
      top_size_y =
          at_most (step z.a_height s_right) (at_most (step z.a_height s_left) (z.a_height / 2));
      bottom_size_y =
          at_least (last_at z.a_height s_right)
            (at_least (last_at z.a_height s_left) (z.a_height - z.a_height / 2));
      left_size_x =
          at_most (step z.a_width s_bottom) (at_most (step z.a_width s_top) (z.a_width / 2));
      right_size_x =
          at_least (last_at z.a_width s_bottom)
            (at_least (last_at z.a_width s_top) (z.a_width - z.a_width / 2));
    }
