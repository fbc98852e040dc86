-- ===== src/Screen/Canvas.antt =====
-- The polygons that configAreas creates on the canvas, with their tags
-- (df10ch_setup_pkg/areas_dlg.py).
use df10ch_atmolight_control.Prelude.{ℕ, ◌+◌, List, [], ◌∷◌, ◌++◌, Text, ◌==◌, if◌then◌else◌}
use df10ch_atmolight_control.Result.{Result, ok, ◌>>=◌}
use df10ch_atmolight_control.Decimal.{codes, print_nat}
use df10ch_atmolight_control.Screen.{Counts, Sizes, Borders, counts_of, sizes_of, borders}
use df10ch_atmolight_control.Screen.Polygons.{
  Polygon, top_polygons, bottom_polygons, left_polygons, right_polygons, corner_polygons, cv_xy,
}

abbrev pub Item : Type 0
Item = Text × Polygon

-- `"Top-{0}".format(i + 1)` and its like, for the areas from `i`.
unfoldable pub tag_areas : Text → ℕ → List Polygon → List Item
tag_areas name i [] = []
tag_areas name i (p ∷ ps) = (name ++ b'-' ∷ print_nat (i + 1), p) ∷ tag_areas name (i + 1) ps

abbrev pub tag_of : ℕ → Text → List Text
tag_of count name = if count == 0 then [] else name ∷ []

-- The corners that have an area, and the center, in the order of `corner_polygons`.
unfoldable pub corner_tags : Counts → List Text
corner_tags n =
    tag_of n.top_left (codes "TopLeft")
    ++ (tag_of n.top_right (codes "TopRight")
        ++ (tag_of n.bottom_left (codes "BottomLeft")
            ++ (tag_of n.bottom_right (codes "BottomRight") ++ tag_of n.center (codes "Center"))))

unfoldable pub tag_corners : List Text → List Polygon → List Item
tag_corners [] ps = []
tag_corners (t ∷ ts) [] = []
tag_corners (t ∷ ts) (p ∷ ps) = (t, p) ∷ tag_corners ts ps

unfoldable pub window_items : Counts → Borders → List Item
window_items n b =
    tag_corners (corner_tags n) (corner_polygons n b)
    ++ (tag_areas (codes "Top") 0 (top_polygons n b)
        ++ (tag_areas (codes "Bottom") 0 (bottom_polygons n b)
            ++ (tag_areas (codes "Left") 0 (left_polygons n b)
                ++ tag_areas (codes "Right") 0 (right_polygons n b))))

-- Each polygon in the canvas's coordinates.
unfoldable pub create_items : Sizes → List Item → Result (List Item)
create_items z [] = ok []
create_items z ((tag, p) ∷ items) = do
  points ← cv_xy z p
  rest ← create_items z items
  ok ((tag, points) ∷ rest)

-- `configAreas` in a dialog of this size.
unfoldable pub config_areas : ℕ → ℕ → List ℕ → ℕ → ℕ → Result (List Item)
config_areas dialog_width dialog_height num_areas overscan analyze_size = do
  counts ← counts_of num_areas
  sizes ← sizes_of dialog_width dialog_height overscan analyze_size
  create_items sizes (window_items counts (borders counts sizes))
