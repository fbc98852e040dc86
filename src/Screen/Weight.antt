-- ===== src/Screen/Weight.antt =====
-- The image of the edge weighting (calcEdgeWeighting of
-- df10ch_setup_pkg/areas_dlg.py). The floats of Python are a parameter.
use df10ch_atmolight_control.Prelude.{
  ℕ, zero, suc, ◌+◌, ◌-◌, ◌*◌, ◌/◌, ◌≤◌, ◌≡◌, refl, List, [], ◌∷◌, ◌++◌, ltb, ◌==◌, ◌&&◌, not, Bool,
  true, false, if◌then◌else◌, All, length, length-append, subst, not_ltb→le, ◌⊎◌, ap, ◌∙◌, arith,
  inl, inr,
}
use df10ch_atmolight_control.Prelude.Int.{ℤ, pos, negsuc}
use df10ch_atmolight_control.Result.{Result, ok, err, ◌>>=◌, ◌>>◌, >>=-eq-ok, ok-injective}
use df10ch_atmolight_control.Screen.{Borders}
use df10ch_atmolight_control.Screen.Polygons.{Polygon, cv_x, cv_y}

-- `n / 10.0`, `float(m) / float(n)`, `pow`, `1.0 - x`, `max`, `0.0`, and `int(255.0 * x)`.
pub record Shades (F : Type 0) : Type 0 where
  pub tenth : ℤ → F
  pub ratio : ℕ → ℕ → Result F
  pub power : F → F → Result F
  pub complement : F → F
  pub larger : F → F → F
  pub nothing : F
  pub level : F → ℕ

-- A pixel of the analyze window, as a rectangle of the image.
pub record Pixel : Type 0 where
  pub corners : Polygon
  pub fill : ℕ
  pub outline : ℕ

module _ {F : Type 0} (shades : Shades F) (b : Borders) where
  -- The weight grows to a border, if there are areas and the pixel is in that half.
  abbrev pub raised : Bool → Result F → F → Result F
  raised false border weight = ok weight
  raised true border weight = elim border [ err e ↦ err e | ok v ↦ ok (shades.larger weight v) ]

  -- (The left border's weight is the first, so it needs no `max`.)
  abbrev pub first_weight : Bool → Result F → Result F
  first_weight false border = ok shades.nothing
  first_weight true border = border

  unfoldable pub weight_at : F → F → ℕ → ℕ → Result F
  weight_at w y_norm y x = do
    x_norm ← shades.ratio x (b.a_width - 1)
    left ←
        first_weight (not (b.s_left == 0) && ltb x (b.a_width / 2))
          (shades.power (shades.complement x_norm) w)
    right ←
        raised (not (b.s_right == 0) && not (ltb x (b.a_width / 2))) (shades.power x_norm w) left
    top ←
        raised (not (b.s_top == 0) && ltb y (b.a_height / 2))
          (shades.power (shades.complement y_norm) w) right
    raised (not (b.s_bottom == 0) && not (ltb y (b.a_height / 2))) (shades.power y_norm w) top

  -- Below the limit a pixel is black.
  abbrev pub above_limit : ℕ → ℕ → ℕ
  above_limit weight_limit bright = if ltb bright weight_limit then 0 else bright

  abbrev pub darker : ℕ → ℕ
  darker bright = if ltb 32 bright then bright - 32 else 0

  unfoldable pub draw_pixel : F → F → ℕ → ℕ → ℕ → Result Pixel
  draw_pixel w y_norm weight_limit y x = do
    weight ← weight_at w y_norm y x
    px ← cv_x b.sizes x
    px2 ← cv_x b.sizes (x + 1)
    py ← cv_y b.sizes y
    py2 ← cv_y b.sizes (y + 1)
    ok (record {
      corners = px ∷ py ∷ px2 ∷ py ∷ px2 ∷ py2 ∷ px ∷ py2 ∷ [];
      fill = above_limit weight_limit (shades.level weight);
      outline = darker (above_limit weight_limit (shades.level weight));
    })

  -- `n` pixels of a row from the place `x` on.
  unfoldable pub draw_row : F → F → ℕ → ℕ → ℕ → ℕ → Result (List Pixel)
  draw_row w y_norm weight_limit y zero x = ok []
  draw_row w y_norm weight_limit y (suc n) x = do
    p ← draw_pixel w y_norm weight_limit y x
    rest ← draw_row w y_norm weight_limit y n (x + 1)
    ok (p ∷ rest)

  -- The powers of a row's place are computed before its pixels, where a border has areas.
  abbrev pub checked : ℕ → Result F → Result (Unit {0})
  checked zero border = ok tt
  checked (suc s) (ok v) = ok tt
  checked (suc s) (err e) = err e

  unfoldable pub draw_rows : F → ℕ → ℕ → ℕ → Result (List Pixel)
  draw_rows w weight_limit zero y = ok []
  draw_rows w weight_limit (suc n) y = do
    y_norm ← shades.ratio y (b.a_height - 1)
    checked b.s_top (shades.power (shades.complement y_norm) w)
    checked b.s_bottom (shades.power y_norm w)
    row ← draw_row w y_norm weight_limit y b.a_width 0
    rest ← draw_rows w weight_limit n (y + 1)
    ok (row ++ rest)

  -- A negative limit leaves every pixel, like the limit 0.
  abbrev pub limit_of : ℤ → ℕ
  limit_of (pos n) = n
  limit_of (negsuc n) = 0

  unfoldable pub calc_edge_weighting : ℤ → ℤ → Result (List Pixel)
  calc_edge_weighting edge_weighting weight_limit =
      draw_rows (shades.tenth edge_weighting) (limit_of weight_limit) b.a_height 0

  abbrev pub IsLimited : ℕ → Pixel → Type 0
  IsLimited weight_limit p = ((p.fill ≡ 0) ⊎ (weight_limit ≤ p.fill)) × (p.outline ≤ p.fill)

  above_limit-cases : (limit f : ℕ) → (above_limit limit f ≡ 0) ⊎ (limit ≤ above_limit limit f)
  above_limit-cases limit f = by_test (ltb f limit) refl
    where
      by_test :
          (t : Bool) → ltb f limit ≡ t → ((if t then 0 else f) ≡ 0) ⊎ (limit ≤ (if t then 0 else f))
      by_test true e = inl refl
      by_test false e = inr (not_ltb→le f limit e)

  darker-le : (f : ℕ) → darker f ≤ f
  darker-le f = ground arith

  draw_pixel-IsLimited :
      (w y_norm : F) (weight_limit y x : ℕ) (p : Pixel)
      → draw_pixel w y_norm weight_limit y x ≡ ok p
      → IsLimited weight_limit p
  unfolding draw_pixel
  draw_pixel-IsLimited w y_norm weight_limit y x p h =
      let (weight, e, h1) = >>=-eq-ok (weight_at w y_norm y x) _ h in
      let (px, e1, h2) = >>=-eq-ok (cv_x b.sizes x) _ h1 in
      let (px2, e2, h3) = >>=-eq-ok (cv_x b.sizes (x + 1)) _ h2 in
      let (py, e3, h4) = >>=-eq-ok (cv_y b.sizes y) _ h3 in
      let (py2, e4, h5) = >>=-eq-ok (cv_y b.sizes (y + 1)) _ h4 in
      let same : record {
        corners = px ∷ py ∷ px2 ∷ py ∷ px2 ∷ py2 ∷ px ∷ py2 ∷ [];
        fill = above_limit weight_limit (shades.level weight);
        outline = darker (above_limit weight_limit (shades.level weight));
      }
          ≡ p =
        ok-injective h5 in
      subst (IsLimited weight_limit) same (
        above_limit-cases weight_limit (shades.level weight),
        darker-le (above_limit weight_limit (shades.level weight)),
      )

  abbrev pub IsDrawn : ℕ → ℕ → List Pixel → Type 0
  IsDrawn weight_limit n ps = (length ps ≡ n) × All (IsLimited weight_limit) ps

  draw_row-IsDrawn :
      (w y_norm : F) (weight_limit y n x : ℕ) (ps : List Pixel)
      → draw_row w y_norm weight_limit y n x ≡ ok ps
      → IsDrawn weight_limit n ps
  unfolding draw_row
  draw_row-IsDrawn w y_norm weight_limit y zero x ps h =
      subst (IsDrawn weight_limit 0) (ok-injective h) (refl, tt)
  draw_row-IsDrawn w y_norm weight_limit y (suc n) x ps h =
      let (p, e, h1) = >>=-eq-ok (draw_pixel w y_norm weight_limit y x) _ h in
      let (rest, e1, h2) = >>=-eq-ok (draw_row w y_norm weight_limit y n (x + 1)) _ h1 in
      let (count, drawn) = draw_row-IsDrawn w y_norm weight_limit y n (x + 1) rest e1 in
      subst (IsDrawn weight_limit (suc n)) (ok-injective h2)
        (ap suc count, (draw_pixel-IsLimited w y_norm weight_limit y x p e, drawn))

  IsLimited-append :
      (weight_limit : ℕ) (ps qs : List Pixel)
      → All (IsLimited weight_limit) ps
      → All (IsLimited weight_limit) qs
      → All (IsLimited weight_limit) (ps ++ qs)
  IsLimited-append weight_limit [] qs h k = k
  IsLimited-append weight_limit (p ∷ ps) qs h k = (h.0, IsLimited-append weight_limit ps qs h.1 k)

  draw_rows-IsDrawn :
      (w : F) (weight_limit n y : ℕ) (ps : List Pixel)
      → draw_rows w weight_limit n y ≡ ok ps
      → IsDrawn weight_limit (n * b.a_width) ps
  unfolding draw_rows
  draw_rows-IsDrawn w weight_limit zero y ps h =
      subst (IsDrawn weight_limit (0 * b.a_width)) (ok-injective h) (omega arith, tt)
  draw_rows-IsDrawn w weight_limit (suc n) y ps h =
      let (y_norm, e, h1) = >>=-eq-ok (shades.ratio y (b.a_height - 1)) _ h in
      let (u, e1, h2) =
        >>=-eq-ok (checked b.s_top (shades.power (shades.complement y_norm) w)) _ h1 in
      let (v, e2, h3) = >>=-eq-ok (checked b.s_bottom (shades.power y_norm w)) _ h2 in
      let (row, e3, h4) = >>=-eq-ok (draw_row w y_norm weight_limit y b.a_width 0) _ h3 in
      let (rest, e4, h5) = >>=-eq-ok (draw_rows w weight_limit n (y + 1)) _ h4 in
      let (count, drawn) = draw_row-IsDrawn w y_norm weight_limit y b.a_width 0 row e3 in
      let (counts, drawns) = draw_rows-IsDrawn w weight_limit n (y + 1) rest e4 in
      subst (IsDrawn weight_limit (suc n * b.a_width)) (ok-injective h5) (
        length-append row rest ∙ rw (count, counts) (add_rows n b.a_width),
        IsLimited-append weight_limit row rest drawn drawns,
      )
    where
      add_rows : (k m : ℕ) → m + k * m ≡ suc k * m
      add_rows k m = grind arith

  -- If the weighting can be computed, one rectangle is drawn for each pixel of the analyze window;
  -- each is black or at least as bright as the limit, and its outline is not brighter than itself.
  calc_edge_weighting-IsDrawn :
      (edge_weighting weight_limit : ℤ) (ps : List Pixel)
      → calc_edge_weighting edge_weighting weight_limit ≡ ok ps
      → IsDrawn (limit_of weight_limit) (b.a_height * b.a_width) ps
  unfolding calc_edge_weighting
  calc_edge_weighting-IsDrawn edge_weighting weight_limit ps h =
      draw_rows-IsDrawn (shades.tenth edge_weighting) (limit_of weight_limit) b.a_height 0 ps h
