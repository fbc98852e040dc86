-- ===== src/Screen/Tags.antt =====
-- The tags on the canvas are the names of the areas (configAreas of
-- df10ch_setup_pkg/areas_dlg.py and AreaName of df10ch_setup_pkg/device_drv.py).
use df10ch_atmolight_control.Prelude.{
  ℕ, zero, suc, ◌+◌, ◌≤◌, ◌≡◌, refl, ap, ap₂, sym, ◌∙◌, List, [], ◌∷◌, ◌++◌, Text, ◌==◌, Option,
  some, arith, length, Bool-cases, inl, inr,
}
use df10ch_atmolight_control.Result.{ok}
use df10ch_atmolight_control.Decimal.{codes, print_nat}
use df10ch_atmolight_control.Areas.{area_name}
use df10ch_atmolight_control.Screen.{Counts, Sizes, Borders}
use df10ch_atmolight_control.Screen.Polygons.{
  Polygon, along, top_polygons, bottom_polygons, left_polygons, right_polygons, corner_polygons,
  present,
}
use df10ch_atmolight_control.Screen.Canvas.{
  Item, tag_areas, tag_of, corner_tags, tag_corners, window_items, create_items,
}

abbrev pub tags : List Item → List Text
tags [] = []
tags ((tag, p) ∷ items) = tag ∷ tags items

tags-append : (xs ys : List Item) → tags (xs ++ ys) ≡ tags xs ++ tags ys
tags-append [] ys = refl
tags-append ((tag, p) ∷ xs) ys = ap (λ t. tag ∷ t) (tags-append xs ys)

-- The names of `count` areas with this code, from number `i`.
abbrev pub names_from : ℕ → ℕ → ℕ → List (Option Text)
names_from code i zero = []
names_from code i (suc count) = area_name code i ∷ names_from code (i + 1) count

abbrev pub corner_names : Counts → List (Option Text)
corner_names n =
    names_from 20 0 n.top_left
    ++ (names_from 24 0 n.top_right
        ++ (names_from 28 0 n.bottom_left
            ++ (names_from 32 0 n.bottom_right ++ names_from 16 0 n.center)))

abbrev pub border_names : Counts → List (Option Text)
border_names n =
    names_from 0 0 n.top
    ++ (names_from 4 0 n.bottom ++ (names_from 8 0 n.left ++ names_from 12 0 n.right))

-- The names of all areas of a layout, with the codes of the areas in the order of creation.
abbrev pub all_names : Counts → List (Option Text)
all_names n = corner_names n ++ border_names n

length-along :
    (preset : ℕ → Option Polygon) (inner : ℕ → ℕ → Polygon) (next : ℕ → ℕ) (n i x : ℕ)
    → length (along preset inner next n i x) ≡ n
unfolding along
length-along preset inner next zero i x = refl
length-along preset inner next (suc n) i x =
    ap suc (length-along preset inner next n (i + 1) (next i))

pub create_items-tags :
    (z : Sizes) (items made : List Item) → create_items z items ≡ ok made → tags made ≡ tags items
unfolding create_items
create_items-tags z [] [] h = refl
create_items-tags z [] (m ∷ made) h = absurd (cc)
create_items-tags z ((tag, p) ∷ items) [] h = absurd (ground arith)
create_items-tags z ((tag, p) ∷ items) ((t, q) ∷ made) h =
    ground (arith, create_items-tags z items made)

abbrev pub some_all : List Text → List (Option Text)
some_all [] = []
some_all (t ∷ ts) = some t ∷ some_all ts

some_all-append : (xs ys : List Text) → some_all (xs ++ ys) ≡ some_all xs ++ some_all ys
some_all-append [] ys = refl
some_all-append (x ∷ xs) ys = ap (λ t. some x ∷ t) (some_all-append xs ys)

numbered-tags :
    (name : Text) (code n i : ℕ) (ps : List Polygon)
    → ((j : ℕ) → area_name code j ≡ some (name ++ b'-' ∷ print_nat (j + 1)))
    → length ps ≡ n
    → some_all (tags (tag_areas name i ps)) ≡ names_from code i n
unfolding tag_areas
numbered-tags name code zero i [] h k = refl
numbered-tags name code zero i (p ∷ ps) h k = absurd (omega arith)
numbered-tags name code (suc n) i [] h k = absurd (omega arith)
numbered-tags name code (suc n) i (p ∷ ps) h k =
    ap₂ (λ a b. a ∷ b) (sym (h i)) (numbered-tags name code n (i + 1) ps h (omega arith))

corner-tags :
    (count : ℕ) (name : Text) (p : Polygon) (ts : List Text) (ps : List Polygon)
    → tags (tag_corners (tag_of count name ++ ts) (present count p ++ ps))
      ≡ tag_of count name ++ tags (tag_corners ts ps)
unfolding tag_corners
corner-tags count name p ts ps = elim (Bool-cases (count == 0)) [
  | inl e ↦ rw e refl
  | inr e ↦ rw e refl
]

one_name :
    (count code : ℕ) (name : Text)
    → count ≤ 1
    → area_name code 0 ≡ some name
    → some_all (tag_of count name) ≡ names_from code 0 count
one_name zero code name h e = refl
one_name (suc zero) code name h e = rw e refl
one_name (suc (suc count)) code name h e = absurd (omega arith)

-- At most one area in each corner and in the center.
abbrev pub SingleCorners : Counts → Type 0
SingleCorners n =
    (n.top_left ≤ 1)
    × (n.top_right ≤ 1)
    × (n.bottom_left ≤ 1)
    × (n.bottom_right ≤ 1)
    × (n.center ≤ 1)

named_before :
    (count code : ℕ) (name : Text) (ts : List Text) (names : List (Option Text))
    → count ≤ 1
    → area_name code 0 ≡ some name
    → some_all ts ≡ names
    → some_all (tag_of count name ++ ts) ≡ names_from code 0 count ++ names
named_before count code name ts names h e k =
    some_all-append (tag_of count name) ts ∙ ap₂ (λ a b. a ++ b) (one_name count code name h e) k

module _ (n : Counts) (b : Borders) where
  corners-named : SingleCorners n → some_all (corner_tags n) ≡ corner_names n
  unfolding corner_tags
  corners-named (tl, tr, bl, br, c) =
      named_before n.top_left 20 (codes "TopLeft") _ _ tl (unfold area_name in refl) (
        named_before n.top_right 24 (codes "TopRight") _ _ tr (unfold area_name in refl) (
          named_before n.bottom_left 28 (codes "BottomLeft") _ _ bl (unfold area_name in refl) (
            named_before n.bottom_right 32 (codes "BottomRight") _ _ br (unfold area_name in refl)
              (one_name n.center 16 (codes "Center") c (unfold area_name in refl)))))

  corner-last :
      (count : ℕ) (name : Text) (p : Polygon)
      → tags (tag_corners (tag_of count name) (present count p)) ≡ tag_of count name
  unfolding tag_corners
  corner-last count name p = elim (Bool-cases (count == 0)) [
    | inl e ↦ rw e refl
    | inr e ↦ rw e refl
  ]

  corners-tags : tags (tag_corners (corner_tags n) (corner_polygons n b)) ≡ corner_tags n
  unfolding corner_tags corner_polygons
  corners-tags =
      corner-tags n.top_left _ _ _ _
      ∙ ap (λ t. tag_of n.top_left (codes "TopLeft") ++ t)
          (corner-tags n.top_right _ _ _ _
            ∙ ap (λ t. tag_of n.top_right (codes "TopRight") ++ t)
                (corner-tags n.bottom_left _ _ _ _
                  ∙ ap (λ t. tag_of n.bottom_left (codes "BottomLeft") ++ t)
                      (corner-tags n.bottom_right _ _ _ _
                        ∙ ap (λ t. tag_of n.bottom_right (codes "BottomRight") ++ t)
                            (corner-last n.center _ _))))

  border-named :
      (name : Text) (code count : ℕ) (ps : List Polygon) (rest : List Item)
      (names : List (Option Text))
      → ((j : ℕ) → area_name code j ≡ some (name ++ b'-' ∷ print_nat (j + 1)))
      → length ps ≡ count
      → some_all (tags rest) ≡ names
      → some_all (tags (tag_areas name 0 ps ++ rest)) ≡ names_from code 0 count ++ names
  border-named name code count ps rest names h k e =
      ap some_all (tags-append (tag_areas name 0 ps) rest)
      ∙ (some_all-append (tags (tag_areas name 0 ps)) (tags rest)
          ∙ ap₂ (λ a b. a ++ b) (numbered-tags name code count 0 ps h k) e)

  length-borders :
      (length (top_polygons n b) ≡ n.top)
      × (length (bottom_polygons n b) ≡ n.bottom)
      × (length (left_polygons n b) ≡ n.left)
      × (length (right_polygons n b) ≡ n.right)
  unfolding top_polygons bottom_polygons left_polygons right_polygons
  length-borders = (
    length-along _ _ _ n.top 0 _,
    length-along _ _ _ n.bottom 0 _,
    length-along _ _ _ n.left 0 _,
    length-along _ _ _ n.right 0 _,
  )

  borders-named :
      some_all (
        tags (
          tag_areas (codes "Top") 0 (top_polygons n b)
          ++ (tag_areas (codes "Bottom") 0 (bottom_polygons n b)
              ++ (tag_areas (codes "Left") 0 (left_polygons n b)
                  ++ tag_areas (codes "Right") 0 (right_polygons n b)))))
      ≡ border_names n
  borders-named =
      let (top, bottom, left, right) = length-borders in
      border-named (codes "Top") 0 n.top _ _ _ (λ j. unfold area_name in refl) top
        (border-named (codes "Bottom") 4 n.bottom _ _ _ (λ j. unfold area_name in refl) bottom
          (border-named (codes "Left") 8 n.left _ _ _ (λ j. unfold area_name in refl) left
            (numbered-tags (codes "Right") 12 n.right 0 _ (λ j. unfold area_name in refl) right)))

  pub window_items-named : SingleCorners n → some_all (tags (window_items n b)) ≡ all_names n
  unfolding window_items
  window_items-named single =
      let corners = tag_corners (corner_tags n) (corner_polygons n b) in
      ap some_all (tags-append corners _)
      ∙ (some_all-append (tags corners) _
          ∙ ap₂ (λ x y. x ++ y) (ap some_all corners-tags ∙ corners-named single) borders-named)
