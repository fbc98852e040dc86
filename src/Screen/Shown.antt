-- ===== src/Screen/Shown.antt =====
-- Configuring the areas shows every area once (configAreas of df10ch_setup_pkg/areas_dlg.py).
use native.Mathlib.Nat.{le-div_iff_mul-le, mul-le-mul_left}
use df10ch_atmolight_control.Prelude.{
  ltb, ◌||◌, ℕ, zero, suc, ◌+◌, ◌*◌, ◌/◌, ◌<◌, ◌≤◌, ◌≡◌, refl, ap, ◌∙◌, ◌-◌, List, [], ◌∷◌, ◌++◌,
  Text, ◌==◌, Option, some, All, arith, Option-cases, inl, inr, false,
}
use df10ch_atmolight_control.Result.{ok}
use df10ch_atmolight_control.Screen.{Counts, Sizes, Borders, counts_of, sizes_of, borders}
use df10ch_atmolight_control.Screen.Polygons.{
  Polygon, along, top_polygons, bottom_polygons, left_polygons, right_polygons, corner_polygons,
  present, cv_x, cv_y, cv_xy,
}
use df10ch_atmolight_control.Screen.Window.{ends_of-All}
use df10ch_atmolight_control.Screen.Canvas.{
  Item, tag_areas, tag_corners, window_items, create_items, config_areas,
}
use df10ch_atmolight_control.Screen.Tags.{
  tags, some_all, all_names, SingleCorners, window_items-named, create_items-tags,
}

-- A list of points: as many x as y coordinates.
abbrev IsPoints : Polygon → Type 0
IsPoints [] = Unit {0}
IsPoints (x ∷ []) = ⊥
IsPoints (x ∷ y ∷ rest) = IsPoints rest

abbrev HavePoints : List Item → Type 0
HavePoints [] = Unit {0}
HavePoints ((tag, p) ∷ items) = IsPoints p × HavePoints items

HavePoints-append : (xs ys : List Item) → HavePoints xs → HavePoints ys → HavePoints (xs ++ ys)
HavePoints-append [] ys h k = k
HavePoints-append (x ∷ xs) ys h k = (h.0, HavePoints-append xs ys h.1 k)

along-IsPoints :
    (preset : ℕ → Option Polygon) (inner : ℕ → ℕ → Polygon) (next : ℕ → ℕ) (n i x : ℕ)
    → ((j : ℕ) (p : Polygon) → preset j ≡ some p → IsPoints p)
    → ((a b : ℕ) → IsPoints (inner a b))
    → All IsPoints (along preset inner next n i x)
unfolding along
along-IsPoints preset inner next zero i x h k = tt
along-IsPoints preset inner next (suc n) i x h k = (
  (elim (Option-cases (preset i)) [ inl e ↦ rw e (k x (next i)) | inr (p, e) ↦ rw e (h i p e) ]),
  along-IsPoints preset inner next n (i + 1) (next i) h k,
)

tag_areas-HavePoints :
    (name : Text) (i : ℕ) (ps : List Polygon) → All IsPoints ps → HavePoints (tag_areas name i ps)
unfolding tag_areas
tag_areas-HavePoints name i [] h = tt
tag_areas-HavePoints name i (p ∷ ps) h = (h.0, tag_areas-HavePoints name (i + 1) ps h.1)

tag_corners-HavePoints :
    (ts : List Text) (ps : List Polygon) → All IsPoints ps → HavePoints (tag_corners ts ps)
unfolding tag_corners
tag_corners-HavePoints [] ps h = tt
tag_corners-HavePoints (t ∷ ts) [] h = tt
tag_corners-HavePoints (t ∷ ts) (p ∷ ps) h = (h.0, tag_corners-HavePoints ts ps h.1)

present-IsPoints :
    (count : ℕ) (p : Polygon) (ps : List Polygon)
    → IsPoints p
    → All IsPoints ps
    → All IsPoints (present count p ++ ps)
present-IsPoints count p ps h k = ground arith

cv_xy-returns :
    (z : Sizes) (p : Polygon)
    → 0 < z.a_width
    → 0 < z.a_height
    → IsPoints p
    → (q : Polygon) × (cv_xy z p ≡ ok q)
unfolding cv_xy cv_x cv_y
cv_xy-returns z [] w h k = ([], refl)
cv_xy-returns z (x ∷ []) w h k = absurd k
cv_xy-returns z (x ∷ y ∷ rest) w h k =
    let (q, e) = cv_xy-returns z rest w h k in
    let w' : (z.a_width == 0) ≡ false = ground arith in
    let h' : (z.a_height == 0) ≡ false = ground arith in
    (z.width * x / z.a_width ∷ z.height * y / z.a_height ∷ q, rw (w', h', e) refl)

create_items-returns :
    (z : Sizes) (items : List Item)
    → 0 < z.a_width
    → 0 < z.a_height
    → HavePoints items
    → (made : List Item) × (create_items z items ≡ ok made)
unfolding create_items
create_items-returns z [] w h k = ([], refl)
create_items-returns z ((tag, p) ∷ items) w h k =
    let (q, e) = cv_xy-returns z p w h k.0 in
    let (made, e') = create_items-returns z items w h k.1 in ((tag, q) ∷ made, rw (e, e') refl)

module _ (n : Counts) (b : Borders) where
  top-IsPoints : All IsPoints (top_polygons n b)
  unfolding top_polygons
  top-IsPoints =
      along-IsPoints _ _ _ n.top 0 _
        (λ j p e. ends_of-All IsPoints n.top n.top_left n.top_right _ _ _ j p tt tt tt e)
        (λ x y. tt)

  bottom-IsPoints : All IsPoints (bottom_polygons n b)
  unfolding bottom_polygons
  bottom-IsPoints =
      along-IsPoints _ _ _ n.bottom 0 _
        (λ j p e. ends_of-All IsPoints n.bottom n.bottom_left n.bottom_right _ _ _ j p tt tt tt e)
        (λ x y. tt)

  left-IsPoints : All IsPoints (left_polygons n b)
  unfolding left_polygons
  left-IsPoints =
      along-IsPoints _ _ _ n.left 0 _
        (λ j p e. ends_of-All IsPoints n.left n.top_left n.bottom_left _ _ _ j p tt tt tt e)
        (λ x y. tt)

  right-IsPoints : All IsPoints (right_polygons n b)
  unfolding right_polygons
  right-IsPoints =
      along-IsPoints _ _ _ n.right 0 _
        (λ j p e. ends_of-All IsPoints n.right n.top_right n.bottom_right _ _ _ j p tt tt tt e)
        (λ x y. tt)

  center-IsPoints : (p : Polygon) → IsPoints p → All IsPoints (present n.center p)
  center-IsPoints p h = ground arith

  corners-IsPoints : All IsPoints (corner_polygons n b)
  unfolding corner_polygons
  corners-IsPoints = present-IsPoints n.top_left _ _ tt (
      present-IsPoints n.top_right _ _ tt (
        present-IsPoints n.bottom_left _ _ tt
          (present-IsPoints n.bottom_right _ _ tt (center-IsPoints _ tt))))

  window_items-HavePoints : HavePoints (window_items n b)
  unfolding window_items
  window_items-HavePoints = HavePoints-append _ _ (tag_corners-HavePoints _ _ corners-IsPoints) (
      HavePoints-append _ _ (tag_areas-HavePoints _ 0 _ top-IsPoints) (
        HavePoints-append _ _ (tag_areas-HavePoints _ 0 _ bottom-IsPoints) (
          HavePoints-append _ _ (tag_areas-HavePoints _ 0 _ left-IsPoints)
            (tag_areas-HavePoints _ 0 _ right-IsPoints))))

overscan-fits : (size overscan : ℕ) → overscan ≤ 500 → 2 * (size * overscan / 1000) ≤ size
overscan-fits size overscan h =
    let p : size * overscan ≤ size * 500 = mul-le-mul_left size h in omega (arith, p)

le→not_ltb : (a b : ℕ) → b ≤ a → ltb a b ≡ false
le→not_ltb a b h = ground arith

-- In a dialog that is not more than 64 times as wide as high, with an overscan of at most 500 per
-- mille on each side, configuring the areas succeeds for any
-- counts of the nine kinds with at most one area in each corner and in the center: the polygons on
-- the canvas have exactly the names of the areas as tags, each once, in the order of creation.
pub config_areas-named :
    (dialog_width dialog_height overscan analyze_size : ℕ) (num_areas : List ℕ) (n : Counts)
    → 0 < dialog_width
    → overscan ≤ 500
    → dialog_width ≤ (analyze_size + 1) * 64 * dialog_height
    → counts_of num_areas ≡ ok n
    → SingleCorners n
    → (made : List Item) × (config_areas dialog_width dialog_height num_areas overscan analyze_size
        ≡ ok made)
      × (some_all (tags made) ≡ all_names n)
unfolding config_areas sizes_of
config_areas-named dialog_width dialog_height overscan analyze_size num_areas n wide inside high e
      single =
    let z : Sizes = record {
      width = dialog_width - 2 * (dialog_width * overscan / 1000);
      height = dialog_height - 2 * (dialog_height * overscan / 1000);
      a_width = (analyze_size + 1) * 64;
      a_height = (analyze_size + 1) * 64 * dialog_height / dialog_width;
    } in
    let some_width : (dialog_width == 0) ≡ false = ground arith in
    let fits : (ltb dialog_width (2 * (dialog_width * overscan / 1000))
          || ltb dialog_height (2 * (dialog_height * overscan / 1000)))
        ≡ false =
      rw
        (
          le→not_ltb _ _ (overscan-fits dialog_width overscan inside),
          le→not_ltb _ _ (overscan-fits dialog_height overscan inside),
        )
        refl in
    let tall : 0 < z.a_height = (le-div_iff_mul-le wide).1 (omega arith) in
    let (made, e') =
      create_items-returns z (window_items n (borders n z)) (omega arith) tall
        (window_items-HavePoints n (borders n z)) in
    (
      made,
      rw (e, some_width, fits, e') refl,
      ap some_all (create_items-tags z _ made e') ∙ window_items-named n (borders n z) single,
    )
