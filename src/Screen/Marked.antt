-- ===== src/Screen/Marked.antt =====
-- Which area is highlighted (df10ch_setup_pkg/areas_dlg.py).
use df10ch_atmolight_control.Prelude.{
  ℕ, zero, suc, ◌≡◌, refl, List, [], ◌∷◌, Text, text_eq, text_eq_refl, text_eq→eq, Bool, true,
  false, Option, none, some, if◌then◌else◌, Bool-cases, inl, inr, All, is_set, same_text,
}
use df10ch_atmolight_control.Screen.View.{
  Shape, View, Action, grey, paint, paint_tag, outline_tag, take_tag, take_at, reset_areas,
  init_areas, set_area_color, hide_edge_weighting, unselect, raise_shape, select_area,
  cb_select_area, act, act_all, reset, hide, init, select, color, click,
}

abbrev pub IsNamed : Shape → Type 0
IsNamed x = is_set (some x.tag) ≡ true

-- A shape that is not the selected one is outlined in grey.
abbrev pub IsMarked : Option Text → Shape → Type 0
IsMarked selected x = IsNamed x × (same_text selected x.tag ≡ false → x.outline ≡ grey)

abbrev pub MarksSelected : View → Type 0
MarksSelected v = All (IsMarked v.selected_area) v.shapes

abbrev IsPlain : Shape → Type 0
IsPlain x = IsNamed x × (x.outline ≡ grey)

paint-IsMarked :
    (selected other : Option Text) (c : Text) (xs : List Shape)
    → All (IsMarked selected) xs
    → All (IsMarked other) (paint c xs)
unfolding paint
paint-IsMarked selected other c [] h = tt
paint-IsMarked selected other c (x ∷ xs) h =
    ((h.0.0, λ e. refl), paint-IsMarked selected other c xs h.1)

paint_tag-IsMarked :
    (selected : Option Text) (area c : Text) (xs : List Shape)
    → All (IsMarked selected) xs
    → All (IsMarked selected) (paint_tag area c xs)
unfolding paint_tag
paint_tag-IsMarked selected area c [] h = tt
paint_tag-IsMarked selected area c (x ∷ xs) h =
    (by_tag (text_eq x.tag area), paint_tag-IsMarked selected area c xs h.1)
  where
    by_tag : (b : Bool) → IsMarked selected (if b then record x { fill = c } else x)
    by_tag true = h.0
    by_tag false = h.0

outline_tag-IsPlain :
    (area : Text) (xs : List Shape)
    → All (IsMarked (some area)) xs
    → All IsPlain (outline_tag area xs)
unfolding outline_tag
outline_tag-IsPlain area [] h = tt
outline_tag-IsPlain area (x ∷ xs) h =
    (by_tag (text_eq x.tag area) refl, outline_tag-IsPlain area xs h.1)
  where
    apart : text_eq x.tag area ≡ false → text_eq area x.tag ≡ false
    apart e = elim (Bool-cases (text_eq area x.tag)) [
      | inl same ↦
          let same' = rw (text_eq→eq area x.tag same, text_eq_refl x.tag) at e in absurd (cc)
      | inr differ ↦ differ
    ]

    by_tag :
        (b : Bool) → text_eq x.tag area ≡ b → IsPlain (if b then record x { outline = grey } else x)
    by_tag true e = (h.0.0, refl)
    by_tag false e = (h.0.0, h.0.1 (apart e))

IsPlain-All :
    (selected : Option Text) (xs : List Shape)
    → ((x : Shape) → IsNamed x → same_text selected x.tag ≡ false)
    → All (IsMarked selected) xs
    → All IsPlain xs
IsPlain-All selected [] none_is h = tt
IsPlain-All selected (x ∷ xs) none_is h =
    ((h.0.0, h.0.1 (none_is x h.0.0)), IsPlain-All selected xs none_is h.1)

named_differs : (x : Shape) → IsNamed x → text_eq [] x.tag ≡ false
named_differs x named = by_name x.tag named
  where
    by_name : (t : Text) → is_set (some t) ≡ true → text_eq [] t ≡ false
    by_name [] e = absurd (cc)
    by_name (c ∷ cs) e = unfold text_eq in refl

unselect-IsPlain : (v : View) → MarksSelected v → All IsPlain (unselect v).shapes
unfolding unselect
unselect-IsPlain v h = by_selected v.selected_area h
  where
    by_selected :
        (selected : Option Text)
        → All (IsMarked selected) v.shapes
        → All IsPlain
            (elim selected as (λ x. View) [
              | none ↦ v
              | some area ↦
                  if is_set (some area) then record v { shapes = outline_tag area v.shapes } else v
            ]).shapes
    by_selected none marked = IsPlain-All none v.shapes (λ x named. refl) marked
    by_selected (some []) marked = IsPlain-All (some []) v.shapes named_differs marked
    by_selected (some (c ∷ cs)) marked = outline_tag-IsPlain (c ∷ cs) v.shapes marked

-- What is taken from a list, and what is left.
abbrev SplitsPlain : Option (Shape × List Shape) → Type 0
SplitsPlain none = Unit {0}
SplitsPlain (some (x, others)) = IsPlain x × All IsPlain others

take_tag-SplitsPlain :
    (area : Text) (xs : List Shape) → All IsPlain xs → SplitsPlain (take_tag area xs)
unfolding take_tag
take_tag-SplitsPlain area [] h = tt
take_tag-SplitsPlain area (x ∷ xs) h =
    by_tag (text_eq x.tag area) (take_tag area xs) (take_tag-SplitsPlain area xs h.1)
  where
    by_tag :
        (b : Bool) (later : Option (Shape × List Shape))
        → SplitsPlain later
        → SplitsPlain (
            if b then some (x, xs) else elim later as (λ o. Option (Shape × List Shape)) [
              | none ↦ none
              | some p ↦ some (p.0, x ∷ p.1)
            ])
    by_tag true later g = h
    by_tag false none g = tt
    by_tag false (some (y, ys)) g = (g.0, (h.0, g.1))

take_at-SplitsPlain :
    (place : ℕ) (xs : List Shape) → All IsPlain xs → SplitsPlain (take_at place xs)
unfolding take_at
take_at-SplitsPlain place [] h = tt
take_at-SplitsPlain zero (x ∷ xs) h = h
take_at-SplitsPlain (suc place) (x ∷ xs) h =
    by_later (take_at place xs) (take_at-SplitsPlain place xs h.1)
  where
    by_later :
        (later : Option (Shape × List Shape))
        → SplitsPlain later
        → SplitsPlain (elim later as (λ o. Option (Shape × List Shape)) [
          | none ↦ none
          | some p ↦ some (p.0, x ∷ p.1)
        ])
    by_later none g = tt
    by_later (some (y, ys)) g = (g.0, (h.0, g.1))

raise_shape-MarksSelected :
    (x : Shape) (others : List Shape) (v : View)
    → IsPlain x
    → All IsPlain others
    → MarksSelected (raise_shape x others v)
raise_shape-MarksSelected x [] v plain h =
    ((plain.0, λ e. let e' = rw (text_eq_refl x.tag) at e in absurd (cc)), tt)
raise_shape-MarksSelected x (y ∷ ys) v plain h =
    ((h.0.0, λ e. h.0.1), raise_shape-MarksSelected x ys v plain h.1)

plain-IsMarked :
    (selected : Option Text) (xs : List Shape) → All IsPlain xs → All (IsMarked selected) xs
plain-IsMarked selected [] h = tt
plain-IsMarked selected (x ∷ xs) h = ((h.0.0, λ e. h.0.1), plain-IsMarked selected xs h.1)

select_area-MarksSelected :
    (area : Text) (v : View) → MarksSelected v → MarksSelected (select_area area v)
unfolding select_area
select_area-MarksSelected area v h = by_same (same_text v.selected_area area)
  where
    plain : All IsPlain (unselect v).shapes
    plain = unselect-IsPlain v h

    by_found :
        (o : Option (Shape × List Shape))
        → SplitsPlain o
        → MarksSelected (elim o as (λ x. View) [
          | none ↦ unselect v
          | some p ↦ raise_shape p.0 p.1 (unselect v)
        ])
    by_found none g = plain-IsMarked (unselect v).selected_area (unselect v).shapes plain
    by_found (some (x, others)) g = raise_shape-MarksSelected x others (unselect v) g.0 g.1

    by_same :
        (b : Bool)
        → MarksSelected (
            if b then v else elim (take_tag area (unselect v).shapes) as (λ x. View) [
              | none ↦ unselect v
              | some p ↦ raise_shape p.0 p.1 (unselect v)
            ])
    by_same true = h
    by_same false = by_found (take_tag area (unselect v).shapes) (take_tag-SplitsPlain area _ plain)

cb_select_area-MarksSelected :
    (closest : Option ℕ) (v : View) → MarksSelected v → MarksSelected (cb_select_area closest v)
unfolding cb_select_area
cb_select_area-MarksSelected none v h = h
cb_select_area-MarksSelected (some place) v h =
    by_found (take_at place (unselect v).shapes)
      (take_at-SplitsPlain place _ (unselect-IsPlain v h))
  where
    by_found :
        (o : Option (Shape × List Shape))
        → SplitsPlain o
        → MarksSelected
            (elim o as (λ x. View) [ none ↦ v | some p ↦ raise_shape p.0 p.1 (unselect v) ])
    by_found none g = h
    by_found (some (x, others)) g = raise_shape-MarksSelected x others (unselect v) g.0 g.1

act-MarksSelected : (a : Action) (v : View) → MarksSelected v → MarksSelected (act a v)
unfolding act reset_areas init_areas set_area_color hide_edge_weighting
act-MarksSelected reset v h = paint-IsMarked v.selected_area none [] v.shapes h
act-MarksSelected hide v h = h
act-MarksSelected (init c) v h = paint-IsMarked v.selected_area none c v.shapes h
act-MarksSelected (select area) v h = select_area-MarksSelected area v h
act-MarksSelected (color area c) v h = paint_tag-IsMarked v.selected_area area c v.shapes h
act-MarksSelected (click closest) v h = cb_select_area-MarksSelected closest v h

-- Whatever the sheets and the user do to the areas, in any order: if every area has a name and only
-- the selected one may be outlined in another color than grey, this stays so.
pub act_all-MarksSelected :
    (actions : List Action) (v : View) → MarksSelected v → MarksSelected (act_all actions v)
unfolding act_all
act_all-MarksSelected [] v h = h
act_all-MarksSelected (a ∷ actions) v h =
    act_all-MarksSelected actions (act a v) (act-MarksSelected a v h)
