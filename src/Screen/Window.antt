-- ===== src/Screen/Window.antt =====
-- Which areas lie in the analyze window (configAreas of df10ch_setup_pkg/areas_dlg.py).
use native.Mathlib.Nat.{div-le_self, div-le_of_le-mul, mul-le-mul_left, mul_comm}
use df10ch_atmolight_control.Prelude.{
  ℕ, zero, suc, ◌+◌, ◌-◌, ◌*◌, ◌/◌, ◌<◌, ◌≤◌, ◌≡◌, refl, List, [], ◌∷◌, ◌++◌, ◌==◌, if◌then◌else◌,
  Option, none, some, All, arith, Option-cases, inl, inr,
}
use df10ch_atmolight_control.Screen.{
  Counts, Sizes, Borders, step, last_at, at_most, at_least, borders,
}
use df10ch_atmolight_control.Screen.Polygons.{
  Polygon, along, ends_of, top_polygons, bottom_polygons, left_polygons, right_polygons,
  corner_polygons, present,
}

-- Every point of the polygon is in a window of this size.
abbrev pub InWindow : ℕ → ℕ → Polygon → Type 0
InWindow w h [] = Unit {0}
InWindow w h (x ∷ []) = x ≤ w
InWindow w h (x ∷ y ∷ rest) = (x ≤ w) × (y ≤ h) × InWindow w h rest

part-le : (l k s : ℕ) → k ≤ s → l * k / s ≤ l
part-le l k s h =
    let scaled : l * k ≤ l * s = mul-le-mul_left l h in
    div-le_of_le-mul s (rw (mul_comm s l) scaled)

step-le : (l s : ℕ) → step l s ≤ l
unfolding step
step-le l s = ground (arith, div-le_self l s)

last_at-le : (l s : ℕ) → last_at l s ≤ l
unfolding last_at
last_at-le l s = ground (arith, part-le l (s - 1) s)

half-le : (l : ℕ) → l / 2 ≤ l
half-le l = omega arith

at_most-le : (size depth l : ℕ) → depth ≤ l → at_most size depth ≤ l
at_most-le size depth l h = ground arith

at_least-le : (last depth l : ℕ) → last ≤ l → depth ≤ l → at_least last depth ≤ l
at_least-le last depth l h k = ground arith

module _ (P : Polygon → Type 0) where
  pub ends_of-All :
      (count before after : ℕ) (single first last : Polygon) (i : ℕ) (p : Polygon)
      → P single
      → P first
      → P last
      → ends_of count before after single first last i ≡ some p
      → P p
  unfolding ends_of
  ends_of-All count before after single first last i p one start end h = ground arith

  along-All :
      (preset : ℕ → Option Polygon) (inner : ℕ → ℕ → Polygon) (next : ℕ → ℕ) (l n i x : ℕ)
      → ((j : ℕ) (p : Polygon) → preset j ≡ some p → P p)
      → ((x x2 : ℕ) → x ≤ l → x2 ≤ l → P (inner x x2))
      → ((j : ℕ) → j < i + n → next j ≤ l)
      → x ≤ l
      → All P (along preset inner next n i x)
  unfolding along
  along-All preset inner next l zero i x hp hi hn hx = tt
  along-All preset inner next l (suc n) i x hp hi hn hx =
      let here : next i ≤ l = hn i (omega arith) in
      (
        (elim (Option-cases (preset i)) [
          | inl e ↦ rw e (hi x (next i) hx here)
          | inr (p, e) ↦ rw e (hp i p e)
        ]),
        along-All preset inner next l n (i + 1) (next i) hp hi (λ j h. hn j (omega arith)) here,
      )

unset : {A : Type 0} {o : Option A} {a : A} → o ≡ none → o ≡ some a → ⊥
unset h k = cc

ends_of-none :
    (count before after : ℕ) (single first last : Polygon) (i : ℕ)
    → 0 < before
    → 0 < after
    → ends_of count before after single first last i ≡ none
unfolding ends_of
ends_of-none count before after single first last i h k = ground arith

-- What holds of the borders of these counts.
record Inside (n : Counts) (b : Borders) : Type 0 where
  s_top_eq : b.s_top ≡ n.top + n.top_left + n.top_right
  s_bottom_eq : b.s_bottom ≡ n.bottom + n.bottom_left + n.bottom_right
  s_left_eq : b.s_left ≡ n.left + n.top_left + n.bottom_left
  s_right_eq : b.s_right ≡ n.right + n.top_right + n.bottom_right
  top_size_x_le : b.top_size_x ≤ b.a_width
  top_last_x_le : b.top_last_x ≤ b.a_width
  bottom_size_x_le : b.bottom_size_x ≤ b.a_width
  bottom_last_x_le : b.bottom_last_x ≤ b.a_width
  left_size_x_le : b.left_size_x ≤ b.a_width
  right_size_x_le : b.right_size_x ≤ b.a_width
  left_size_y_le : b.left_size_y ≤ b.a_height
  left_last_y_le : b.left_last_y ≤ b.a_height
  right_size_y_le : b.right_size_y ≤ b.a_height
  right_last_y_le : b.right_last_y ≤ b.a_height
  top_size_y_le : b.top_size_y ≤ b.a_height
  bottom_size_y_le : b.bottom_size_y ≤ b.a_height

borders-Inside : (n : Counts) (z : Sizes) → Inside n (borders n z)
unfolding borders
borders-Inside n z =
    let w = z.a_width in
    let h = z.a_height in
    let s_top = n.top + n.top_left + n.top_right in
    let s_bottom = n.bottom + n.bottom_left + n.bottom_right in
    let s_left = n.left + n.top_left + n.bottom_left in
    let s_right = n.right + n.top_right + n.bottom_right in
    record {
      s_top_eq = refl;
      s_bottom_eq = refl;
      s_left_eq = refl;
      s_right_eq = refl;
      top_size_x_le = step-le w s_top;
      top_last_x_le = last_at-le w s_top;
      bottom_size_x_le = step-le w s_bottom;
      bottom_last_x_le = last_at-le w s_bottom;
      left_size_x_le =
          at_most-le (step w s_bottom) _ w (at_most-le (step w s_top) (w / 2) w (half-le w));
      right_size_x_le =
          at_least-le (last_at w s_bottom) _ w (last_at-le w s_bottom)
            (at_least-le (last_at w s_top) (w - w / 2) w (last_at-le w s_top) (omega arith));
      left_size_y_le = step-le h s_left;
      left_last_y_le = last_at-le h s_left;
      right_size_y_le = step-le h s_right;
      right_last_y_le = last_at-le h s_right;
      top_size_y_le =
          at_most-le (step h s_right) _ h (at_most-le (step h s_left) (h / 2) h (half-le h));
      bottom_size_y_le =
          at_least-le (last_at h s_right) _ h (last_at-le h s_right)
            (at_least-le (last_at h s_left) (h - h / 2) h (last_at-le h s_left) (omega arith));
    }

module _ (n : Counts) (b : Borders) (inside : Inside n b) where
  abbrev Fits : Polygon → Type 0
  Fits = InWindow b.a_width b.a_height

  start-le : (count size l : ℕ) → size ≤ l → (if count == 0 then 0 else size) ≤ l
  start-le count size l h = ground arith

  top-InWindow : All Fits (top_polygons n b)
  unfolding top_polygons
  top-InWindow =
      along-All Fits _ _ _ b.a_width n.top 0 _
        (λ j p e.
          ends_of-All Fits n.top n.top_left n.top_right _ _ _ j p (ground arith) (ground arith)
            (ground arith) e)
        (λ x x2 h k. ground arith)
        (λ j h. part-le b.a_width (j + n.top_left + 1) b.s_top (omega (arith, inside.s_top_eq)))
        (start-le n.top_left b.top_size_x b.a_width inside.top_size_x_le)

  bottom-InWindow : All Fits (bottom_polygons n b)
  unfolding bottom_polygons
  bottom-InWindow =
      along-All Fits _ _ _ b.a_width n.bottom 0 _
        (λ j p e.
          ends_of-All Fits n.bottom n.bottom_left n.bottom_right _ _ _ j p (ground arith)
            (ground arith) (ground arith) e)
        (λ x x2 h k. ground arith)
        (λ j h.
          part-le b.a_width (j + n.bottom_left + 1) b.s_bottom (omega (arith, inside.s_bottom_eq)))
        (start-le n.bottom_left b.bottom_size_x b.a_width inside.bottom_size_x_le)

  left-InWindow : All Fits (left_polygons n b)
  unfolding left_polygons
  left-InWindow =
      along-All Fits _ _ _ b.a_height n.left 0 _
        (λ j p e.
          ends_of-All Fits n.left n.top_left n.bottom_left _ _ _ j p (ground arith) (ground arith)
            (ground arith) e)
        (λ x x2 h k. ground arith)
        (λ j h. part-le b.a_height (j + n.top_left + 1) b.s_left (omega (arith, inside.s_left_eq)))
        (start-le n.top_left b.left_size_y b.a_height inside.left_size_y_le)

  present-All :
      (count : ℕ) (p : Polygon) (ps : List Polygon)
      → Fits p
      → All Fits ps
      → All Fits (present count p ++ ps)
  present-All count p ps h k = ground arith

  corners-InWindow : All Fits (corner_polygons n b)
  unfolding corner_polygons
  corners-InWindow = present-All n.top_left _ _ (ground arith) (
      present-All n.top_right _ _ (ground arith) (
        present-All n.bottom_left _ _ (ground arith)
          (present-All n.bottom_right _ _ (ground arith) (center-InWindow n.center))))
    where
      center-InWindow :
          (count : ℕ)
          → All Fits (
              present count (
                b.left_size_x ∷ b.top_size_y ∷ b.right_size_x ∷ b.top_size_y ∷ b.right_size_x
                ∷ b.bottom_size_y ∷ b.left_size_x ∷ b.bottom_size_y ∷ []))
      center-InWindow count = ground arith

-- For any numbers of areas and any sizes: every point of the areas of the top, bottom and left
-- border, of the corners and of the center is in the analyze window.
pub areas-InWindow :
    (n : Counts) (z : Sizes)
    → (let b = borders n z in
        All (InWindow z.a_width z.a_height) (top_polygons n b)
        × All (InWindow z.a_width z.a_height) (bottom_polygons n b)
        × All (InWindow z.a_width z.a_height) (left_polygons n b)
        × All (InWindow z.a_width z.a_height) (corner_polygons n b))
unfolding borders
areas-InWindow n z =
    let b = borders n z in
    let inside = borders-Inside n z in
    (
      top-InWindow n b inside,
      bottom-InWindow n b inside,
      left-InWindow n b inside,
      corners-InWindow n b inside,
    )

-- Where the right border has corners at both ends and the canvas is wider than the analyze window,
-- no area of the right border is in the window: its edge stands at the canvas's width.
pub right_outside :
    (n : Counts) (z : Sizes)
    → 0 < n.top_right
    → 0 < n.bottom_right
    → z.a_width < z.width
    → All (λ p. ¬ InWindow z.a_width z.a_height p) (right_polygons n (borders n z))
unfolding right_polygons borders
right_outside n z corner corner' wide =
    along-All _ _ _ _ z.a_height n.right 0 _
      (λ j p e.
        absurd (unset (ends_of-none n.right n.top_right n.bottom_right _ _ _ j corner corner') e))
      (λ x x2 h k in_window. (let left = in_window.0 in omega arith))
      (λ j h.
        part-le z.a_height (j + n.top_right + 1) (n.right + n.top_right + n.bottom_right)
          (omega arith))
      (ground (arith, step-le z.a_height (n.right + n.top_right + n.bottom_right)))
