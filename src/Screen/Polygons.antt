-- ===== src/Screen/Polygons.antt =====
-- The polygons of the areas in the analyze window (configAreas of df10ch_setup_pkg/areas_dlg.py):
-- each is the list of its points' coordinates, x and y in turn.
use df10ch_atmolight_control.Prelude.{
  ℕ, zero, suc, ◌+◌, ◌-◌, ◌*◌, ◌/◌, List, [], ◌∷◌, ◌++◌, ltb, ◌==◌, ◌&&◌, if◌then◌else◌, Option,
  none, some,
}
use df10ch_atmolight_control.Result.{Result, ok, err, ◌>>=◌, zero_division, index_error}
use df10ch_atmolight_control.Screen.{Counts, Sizes, Borders}

abbrev pub Polygon : Type 0
Polygon = List ℕ

abbrev pub or_inner : Option Polygon → Polygon → Polygon
or_inner none inner = inner
or_inner (some p) inner = p

-- The loop along a border: an area that a corner has not set lies between two steps.
unfoldable pub along : (ℕ → Option Polygon) → (ℕ → ℕ → Polygon) → (ℕ → ℕ) → ℕ → ℕ → ℕ → List Polygon
along preset inner next zero i x = []
along preset inner next (suc n) i x =
    or_inner (preset i) (inner x (next i)) ∷ along preset inner next n (i + 1) (next i)

-- The areas at the ends of a border where the corner next to it has no area of its own: the last is
-- set after the first.
unfoldable pub ends_of : ℕ → ℕ → ℕ → Polygon → Polygon → Polygon → ℕ → Option Polygon
ends_of count before after single first last i =
    if after == 0 && (ltb 1 count && i == count - 1)
    then some last
    else if before == 0 && (i == 0)
    then (if count == 1 then some single else if ltb 1 count then some first else none)
    else none

-- The polygon of a single area, where there is one.
abbrev pub present : ℕ → Polygon → List Polygon
present count p = if count == 0 then [] else p ∷ []

module _ (n : Counts) (b : Borders) where
  unfoldable pub top_polygons : List Polygon
  top_polygons =
      let w = b.a_width in
      along
        (ends_of n.top n.top_left n.top_right
          (0 ∷ 0 ∷ w ∷ 0 ∷ b.right_size_x ∷ b.top_size_y ∷ b.left_size_x ∷ b.top_size_y ∷ [])
          (0 ∷ 0 ∷ b.top_size_x ∷ 0 ∷ b.top_size_x ∷ b.top_size_y ∷ b.left_size_x ∷ b.top_size_y
            ∷ [])
          (w ∷ 0 ∷ b.right_size_x ∷ b.top_size_y ∷ b.top_last_x ∷ b.top_size_y ∷ b.top_last_x ∷ 0
            ∷ []))
        (λ x x2. x ∷ 0 ∷ x2 ∷ 0 ∷ x2 ∷ b.top_size_y ∷ x ∷ b.top_size_y ∷ [])
        (λ i. w * (i + n.top_left + 1) / b.s_top) n.top 0
        (if n.top_left == 0 then 0 else b.top_size_x)

  unfoldable pub bottom_polygons : List Polygon
  bottom_polygons =
      let w = b.a_width in
      let h = b.a_height in
      let y = b.bottom_size_y in
      along
        (ends_of n.bottom n.bottom_left n.bottom_right
          (0 ∷ h ∷ b.left_size_x ∷ y ∷ b.right_size_x ∷ y ∷ w ∷ h ∷ [])
          (0 ∷ h ∷ b.left_size_x ∷ y ∷ b.bottom_size_x ∷ y ∷ b.bottom_size_x ∷ h ∷ [])
          (w ∷ h ∷ b.bottom_last_x ∷ h ∷ b.bottom_last_x ∷ y ∷ b.right_size_x ∷ y ∷ []))
        (λ x x2. x ∷ h ∷ x ∷ y ∷ x2 ∷ y ∷ x2 ∷ h ∷ [])
        (λ i. w * (i + n.bottom_left + 1) / b.s_bottom) n.bottom 0
        (if n.bottom_left == 0 then 0 else b.bottom_size_x)

  unfoldable pub left_polygons : List Polygon
  left_polygons =
      let h = b.a_height in
      let x = b.left_size_x in
      along
        (ends_of n.left n.top_left n.bottom_left
          (0 ∷ 0 ∷ x ∷ b.top_size_y ∷ x ∷ b.bottom_size_y ∷ 0 ∷ h ∷ [])
          (0 ∷ 0 ∷ x ∷ b.top_size_y ∷ x ∷ b.left_size_y ∷ 0 ∷ b.left_size_y ∷ [])
          (0 ∷ h ∷ 0 ∷ b.left_last_y ∷ x ∷ b.left_last_y ∷ x ∷ b.bottom_size_y ∷ []))
        (λ y y2. 0 ∷ y ∷ x ∷ y ∷ x ∷ y2 ∷ 0 ∷ y2 ∷ []) (λ i. h * (i + n.top_left + 1) / b.s_left)
        n.left 0 (if n.top_left == 0 then 0 else b.left_size_y)

  -- The inner areas reach to the width of the canvas, not to that of the analyze window.
  unfoldable pub right_polygons : List Polygon
  right_polygons =
      let w = b.a_width in
      let h = b.a_height in
      let x = b.right_size_x in
      along
        (ends_of n.right n.top_right n.bottom_right
          (w ∷ 0 ∷ w ∷ h ∷ x ∷ b.bottom_size_y ∷ x ∷ b.top_size_y ∷ [])
          (w ∷ 0 ∷ w ∷ b.right_size_y ∷ x ∷ b.right_size_y ∷ x ∷ b.top_size_y ∷ [])
          (w ∷ h ∷ x ∷ b.bottom_size_y ∷ x ∷ b.right_last_y ∷ w ∷ b.right_last_y ∷ []))
        (λ y y2. b.width ∷ y ∷ b.width ∷ y2 ∷ x ∷ y2 ∷ x ∷ y ∷ [])
        (λ i. h * (i + n.top_right + 1) / b.s_right) n.right 0
        (if n.top_right == 0 then 0 else b.right_size_y)

  -- The corners and the center, where they have an area.
  unfoldable pub corner_polygons : List Polygon
  corner_polygons =
      let w = b.a_width in
      let h = b.a_height in
      present n.top_left (
        0 ∷ 0 ∷ b.top_size_x ∷ 0 ∷ b.top_size_x ∷ b.top_size_y ∷ b.left_size_x ∷ b.top_size_y
        ∷ b.left_size_x ∷ b.left_size_y ∷ 0 ∷ b.left_size_y ∷ [])
      ++ (present n.top_right (
            w ∷ 0 ∷ w ∷ b.right_size_y ∷ b.right_size_x ∷ b.right_size_y ∷ b.right_size_x
            ∷ b.top_size_y ∷ b.top_last_x ∷ b.top_size_y ∷ b.top_last_x ∷ 0 ∷ [])
          ++ (present n.bottom_left (
                0 ∷ h ∷ 0 ∷ b.left_last_y ∷ b.left_size_x ∷ b.left_last_y ∷ b.left_size_x
                ∷ b.bottom_size_y ∷ b.bottom_size_x ∷ b.bottom_size_y ∷ b.bottom_size_x ∷ h ∷ [])
              ++ (present n.bottom_right (
                    w ∷ h ∷ b.bottom_last_x ∷ h ∷ b.bottom_last_x ∷ b.bottom_size_y ∷ b.right_size_x
                    ∷ b.bottom_size_y ∷ b.right_size_x ∷ b.right_last_y ∷ w ∷ b.right_last_y ∷ [])
                  ++ present n.center (
                      b.left_size_x ∷ b.top_size_y ∷ b.right_size_x ∷ b.top_size_y ∷ b.right_size_x
                      ∷ b.bottom_size_y ∷ b.left_size_x ∷ b.bottom_size_y ∷ []))))

-- `cvX`, `cvY` and `cvXY`: from the window to the canvas.
unfoldable pub cv_x : Sizes → ℕ → Result ℕ
cv_x z x = if z.a_width == 0 then err zero_division else ok (z.width * x / z.a_width)

unfoldable pub cv_y : Sizes → ℕ → Result ℕ
cv_y z y = if z.a_height == 0 then err zero_division else ok (z.height * y / z.a_height)

unfoldable pub cv_xy : Sizes → Polygon → Result Polygon
cv_xy z [] = ok []
cv_xy z (x ∷ []) = do px ← cv_x z x; err index_error
cv_xy z (x ∷ y ∷ rest) = do
  px ← cv_x z x
  py ← cv_y z y
  points ← cv_xy z rest
  ok (px ∷ py ∷ points)
