-- ===== src/Screen/View.antt =====
-- The areas on the canvas that the sheets color and select (the methods of AreasDialog in
-- df10ch_setup_pkg/areas_dlg.py that come after configAreas). The image of the edge weighting is an
-- item of the canvas of its own and stays out of the list.
use df10ch_atmolight_control.Prelude.{
  is_set, same_text, ℕ, zero, suc, List, [], ◌∷◌, ◌++◌, Text, text_eq, Bool, false, Option, none,
  some, if◌then◌else◌,
}
use df10ch_atmolight_control.Decimal.{codes}

pub record Shape : Type 0 where
  pub tag : Text
  pub fill : Text
  pub outline : Text

-- In the order in which they are drawn.
pub record View : Type 0 where
  pub shapes : List Shape
  pub background : Text
  pub weight_shown : Bool
  pub selected_area : Option Text

abbrev pub grey : Text
grey = codes "#808080"

abbrev pub yellow : Text
yellow = codes "yellow"

-- `itemconfigure` of every item.
unfoldable pub paint : Text → List Shape → List Shape
paint color [] = []
paint color (x ∷ xs) = record x { fill = color; outline = grey } ∷ paint color xs

unfoldable pub paint_tag : Text → Text → List Shape → List Shape
paint_tag area color [] = []
paint_tag area color (x ∷ xs) =
    (if text_eq x.tag area then record x { fill = color } else x) ∷ paint_tag area color xs

unfoldable pub outline_tag : Text → List Shape → List Shape
outline_tag area [] = []
outline_tag area (x ∷ xs) =
    (if text_eq x.tag area then record x { outline = grey } else x) ∷ outline_tag area xs

-- The first item with this tag, and the others.
unfoldable pub take_tag : Text → List Shape → Option (Shape × List Shape)
take_tag area [] = none
take_tag area (x ∷ xs) =
    let later = take_tag area xs in
    if text_eq x.tag area
    then some (x, xs)
    else elim later [ none ↦ none | some (y, ys) ↦ some (y, x ∷ ys) ]

unfoldable pub reset_areas : View → View
reset_areas v = record v {
  shapes = paint [] v.shapes;
  background = codes "black";
  selected_area = none;
}

unfoldable pub init_areas : Text → View → View
init_areas color v = record v {
  shapes = paint color v.shapes;
  background = color;
  selected_area = none;
}

unfoldable pub set_area_color : Text → Text → View → View
set_area_color area color v = record v { shapes = paint_tag area color v.shapes }

unfoldable pub hide_edge_weighting : View → View
hide_edge_weighting v = record v { weight_shown = false }

unfoldable pub unselect : View → View
unselect v = elim v.selected_area [
  | none ↦ v
  | some area ↦ if is_set (some area) then record v { shapes = outline_tag area v.shapes } else v
]

-- `tag_raise` draws an item last.
abbrev pub raise_shape : Shape → List Shape → View → View
raise_shape x others v = record v {
  shapes = others ++ record x { outline = yellow } ∷ [];
  selected_area = some x.tag;
}

unfoldable pub select_area : Text → View → View
select_area area v =
    if same_text v.selected_area area then v else elim (take_tag area (unselect v).shapes) [
      | none ↦ unselect v
      | some (x, others) ↦ raise_shape x others (unselect v)
    ]

unfoldable pub take_at : ℕ → List Shape → Option (Shape × List Shape)
take_at place [] = none
take_at zero (x ∷ xs) = some (x, xs)
take_at (suc place) (x ∷ xs) = elim (take_at place xs) [
  | none ↦ none
  | some (y, ys) ↦ some (y, x ∷ ys)
]

-- A click: `closest` is the place of the shape that `find_closest` gives, if it is not the image.
-- The sheets are told in every case.
unfoldable pub cb_select_area : Option ℕ → View → View
cb_select_area closest v = elim closest [
  | none ↦ v
  | some place ↦ elim (take_at place (unselect v).shapes) [
    | none ↦ v
    | some (x, others) ↦ raise_shape x others (unselect v)
  ]
]

-- What the sheets and the user do to the areas, one after the other.
pub data Action : Type 0 where
  reset hide : Action
  init select : Text → Action
  color : Text → Text → Action
  click : Option ℕ → Action

unfoldable pub act : Action → View → View
act reset v = reset_areas v
act hide v = hide_edge_weighting v
act (init c) v = init_areas c v
act (select area) v = select_area area v
act (color area c) v = set_area_color area c v
act (click closest) v = cb_select_area closest v

unfoldable pub act_all : List Action → View → View
act_all [] v = v
act_all (a ∷ actions) v = act_all actions (act a v)
