-- ===== src/Screen/Cached.antt =====
-- The image of the edge weighting as it is kept and shown (showEdgeWeighting, hideEdgeWeighting and
-- configAreas of df10ch_setup_pkg/areas_dlg.py).
use df10ch_atmolight_control.Prelude.{
  ◌≡◌, ◌≢◌, refl, List, [], ◌∷◌, ◌==◌, ◌&&◌, ==_iff, ==_refl, Bool, true, false, if◌then◌else◌, ◌⊎◌,
  inl, inr, arith, ap, subst, sym, ◌∙◌, Bool-cases,
}
use df10ch_atmolight_control.Prelude.Int.{ℤ, pos, negsuc}
use df10ch_atmolight_control.Result.{Result, ok, err, Failure, Result-cases}
use df10ch_atmolight_control.Exec.{Exec, ◌>>=◌}
use df10ch_atmolight_control.Screen.{Borders}
use df10ch_atmolight_control.Screen.Weight.{Shades, Pixel, calc_edge_weighting}

-- Equality of two integers.
unfoldable pub same_int : ℤ → ℤ → Bool
same_int (pos m) (pos n) = m == n
same_int (negsuc m) (negsuc n) = m == n
same_int (pos m) (negsuc n) = false
same_int (negsuc m) (pos n) = false

same_int→eq : (x y : ℤ) → same_int x y ≡ true → x ≡ y
unfolding same_int
same_int→eq (pos m) (pos n) h = ap pos ((==_iff m n).0 h)
same_int→eq (negsuc m) (negsuc n) h = ap negsuc ((==_iff m n).0 h)
same_int→eq (pos m) (negsuc n) h = absurd (cc)
same_int→eq (negsuc m) (pos n) h = absurd (cc)

same_int_refl : (x : ℤ) → same_int x x ≡ true
unfolding same_int
same_int_refl (pos n) = ==_refl n
same_int_refl (negsuc n) = ==_refl n

-- What `edgeWeighting` is as long as no image was calculated for the areas.
abbrev pub minus_one : ℤ
minus_one = negsuc 0

-- The image is what was pasted to the canvas; what a calculation that raised has drawn is not pasted,
-- and the next one draws over it.
pub record Weighting : Type 0 where
  pub borders : Borders
  pub edge_weighting : ℤ
  pub weight_limit : ℤ
  pub image : List Pixel
  pub shown : Bool

-- configAreas begins a new image, which is black and hidden. The limit stays.
unfoldable pub begin_image : Borders → Weighting → Weighting
begin_image b s = record s { borders = b; edge_weighting = minus_one; image = []; shown = false }

unfoldable pub hide : Weighting → Weighting
hide s = record s { shown = false }

-- What the sheets do with the image, one after the other.
pub data Use : Type 0 where
  configure : Borders → Use
  show : ℤ → ℤ → Use
  hide_image : Use

module _ {F : Type 0} (shades : Shades F) where
  -- The end of calcEdgeWeighting: the image is pasted and its parameters are kept.
  unfoldable pub calc_image : ℤ → ℤ → Exec Weighting (Unit {0})
  calc_image e limit s = elim (calc_edge_weighting shades s.borders e limit) [
    | err f ↦ (err f, s)
    | ok image ↦ (ok tt, record s { edge_weighting = e; weight_limit = limit; image = image })
  ]

  abbrev pub show_current : ℤ → Exec Weighting (Unit {0})
  show_current e s = (ok tt, if same_int s.edge_weighting e then record s { shown = true } else s)

  unfoldable pub show_edge_weighting : ℤ → ℤ → Exec Weighting (Unit {0})
  show_edge_weighting e limit s =
      if same_int s.edge_weighting e && same_int s.weight_limit limit
      then show_current e s
      else (calc_image e limit >>= λ u. show_current e) s

  -- A use that raises ends with the state it has reached.
  unfoldable pub use_one : Use → Weighting → Weighting
  use_one (configure b) s = begin_image b s
  use_one (show e limit) s = (show_edge_weighting e limit s).1
  use_one hide_image s = hide s

  unfoldable pub use_all : List Use → Weighting → Weighting
  use_all [] s = s
  use_all (u ∷ us) s = use_all us (use_one u s)

  -- Where an image was calculated, it is the one of the parameters that are kept.
  abbrev pub IsCurrent : Weighting → Type 0
  IsCurrent s =
      s.edge_weighting ≢ minus_one
      → calc_edge_weighting shades s.borders s.edge_weighting s.weight_limit ≡ ok s.image

  -- The image is shown, and is the one that a calculation gives now; or the calculation raises, and
  -- so does the call, which changes nothing.
  abbrev pub ShowsFresh : ℤ → ℤ → Weighting → Result (Unit {0}) × Weighting → Type 0
  ShowsFresh e limit s (r, s') =
      ((r ≡ ok tt)
        × (calc_edge_weighting shades s.borders e limit ≡ ok s'.image)
        × (s'.shown ≡ true)
        × (s'.borders ≡ s.borders))
      ⊎ ((f : Failure) × (calc_edge_weighting shades s.borders e limit ≡ err f)
          × (r ≡ err f)
          × (s' ≡ s))

  -- What a call does for a weighting that is not -1, and what it keeps for any.
  abbrev Fresh : ℤ → ℤ → Weighting → Result (Unit {0}) × Weighting → Type 0
  Fresh e limit s after = (e ≢ minus_one → ShowsFresh e limit s after) × IsCurrent after.1

  show_current-drawn :
      (e : ℤ) (s : Weighting)
      → s.edge_weighting ≡ e
      → show_current e s ≡ (ok tt, record s { shown = true })
  show_current-drawn e s h =
      ap (λ t. (ok tt, if t then record s { shown = true } else s))
        (subst (λ x. same_int x e ≡ true) (sym h) (same_int_refl e))

  kept-Fresh :
      (e limit : ℤ) (s : Weighting)
      → IsCurrent s
      → s.edge_weighting ≡ e
      → s.weight_limit ≡ limit
      → Fresh e limit s (show_current e s)
  kept-Fresh e limit s h same same' = subst (Fresh e limit s) (sym (show_current-drawn e s same)) (
    λ other. inl (
      refl,
      subst (λ l. calc_edge_weighting shades s.borders e l ≡ ok s.image) same'
          (subst (λ x. calc_edge_weighting shades s.borders x s.weight_limit ≡ ok s.image) same
            (h (λ k. other (sym same ∙ k)))),
      refl,
      refl,
    ),
    h,
  )

  drawn-Fresh :
      (e limit : ℤ) (s : Weighting) (image : List Pixel)
      → calc_edge_weighting shades s.borders e limit ≡ ok image
      → Fresh e limit s
          (show_current e (record s { edge_weighting = e; weight_limit = limit; image = image }))
  drawn-Fresh e limit s image drawn =
      subst (Fresh e limit s)
        (sym (
          show_current-drawn e
            (record s { edge_weighting = e; weight_limit = limit; image = image }) refl))
        (λ other. inl (refl, drawn, refl, refl), λ other. drawn)

  calc_image-ok :
      (e limit : ℤ) (s : Weighting) (image : List Pixel)
      → calc_edge_weighting shades s.borders e limit ≡ ok image
      → calc_image e limit s
        ≡ (ok tt, record s { edge_weighting = e; weight_limit = limit; image = image })
  unfolding calc_image
  calc_image-ok e limit s image drawn = rw (drawn, calc_image) refl

  calc_image-err :
      (e limit : ℤ) (s : Weighting) (f : Failure)
      → calc_edge_weighting shades s.borders e limit ≡ err f
      → calc_image e limit s ≡ (err f, s)
  unfolding calc_image
  calc_image-err e limit s f raised = rw (raised, calc_image) refl

  show-drawn :
      (e limit : ℤ) (s t : Weighting)
      → (same_int s.edge_weighting e && same_int s.weight_limit limit) ≡ false
      → calc_image e limit s ≡ (ok tt, t)
      → show_edge_weighting e limit s ≡ show_current e t
  unfolding show_edge_weighting
  show-drawn e limit s t other drawn = rw (other, drawn) refl

  show-raised :
      (e limit : ℤ) (s : Weighting) (f : Failure)
      → (same_int s.edge_weighting e && same_int s.weight_limit limit) ≡ false
      → calc_image e limit s ≡ (err f, s)
      → show_edge_weighting e limit s ≡ (err f, s)
  unfolding show_edge_weighting
  show-raised e limit s f other raised = rw (other, raised) refl

  show-Fresh :
      (e limit : ℤ) (s : Weighting) → IsCurrent s → Fresh e limit s (show_edge_weighting e limit s)
  unfolding show_edge_weighting
  show-Fresh e limit s h =
      elim (Bool-cases (same_int s.edge_weighting e && same_int s.weight_limit limit)) [
        | inl same ↦ rw same (
            kept-Fresh e limit s h (same_int→eq s.edge_weighting e (ground arith))
              (same_int→eq s.weight_limit limit (ground arith)))
        | inr other ↦ elim (Result-cases (calc_edge_weighting shades s.borders e limit)) [
          | inl (image, drawn) ↦
              subst (Fresh e limit s)
                (sym (show-drawn e limit s _ other (calc_image-ok e limit s image drawn)))
                (drawn-Fresh e limit s image drawn)
          | inr (f, raised) ↦
              subst (Fresh e limit s)
                (sym (show-raised e limit s f other (calc_image-err e limit s f raised)))
                (λ k. inr (f, raised, refl, refl), h)
        ]
      ]

  use_one-IsCurrent : (u : Use) (s : Weighting) → IsCurrent s → IsCurrent (use_one u s)
  unfolding use_one begin_image hide
  use_one-IsCurrent (configure b) s h = λ other. absurd (other refl)
  use_one-IsCurrent (show e limit) s h = (show-Fresh e limit s h).1
  use_one-IsCurrent hide_image s h = h

  use_all-IsCurrent : (us : List Use) (s : Weighting) → IsCurrent s → IsCurrent (use_all us s)
  unfolding use_all
  use_all-IsCurrent [] s h = h
  use_all-IsCurrent (u ∷ us) s h = use_all-IsCurrent us (use_one u s) (use_one-IsCurrent u s h)

  -- Whatever was configured, shown and hidden before, from a state where nothing was calculated yet:
  -- showing the edge weighting for a weighting other than -1 shows the image that a calculation for
  -- the areas of now gives, though the source calculates only when the parameters differ from those
  -- that it keeps; where that calculation raises, the call raises the same and changes nothing.
  pub show_after-ShowsFresh :
      (us : List Use) (s : Weighting) (e limit : ℤ)
      → s.edge_weighting ≡ minus_one
      → e ≢ minus_one
      → ShowsFresh e limit (use_all us s) (show_edge_weighting e limit (use_all us s))
  show_after-ShowsFresh us s e limit fresh other =
      (show-Fresh e limit (use_all us s) (use_all-IsCurrent us s (λ k. absurd (k fresh)))).0 other

  -- The same, where nothing was calculated yet.
  pub fresh-ShowsFresh :
      (s : Weighting) (e limit : ℤ)
      → s.edge_weighting ≡ minus_one
      → e ≢ minus_one
      → ShowsFresh e limit s (show_edge_weighting e limit s)
  fresh-ShowsFresh s e limit fresh other = (show-Fresh e limit s (λ k. absurd (k fresh))).0 other

  -- But -1 with the limit that is kept is taken for what was calculated: the new areas' black image is
  -- shown, and nothing is calculated.
  show_minus_one :
      (s : Weighting)
      → s.edge_weighting ≡ minus_one
      → show_edge_weighting minus_one s.weight_limit s ≡ (ok tt, record s { shown = true })
  unfolding show_edge_weighting
  show_minus_one s fresh =
      let both : (same_int s.edge_weighting minus_one && same_int s.weight_limit s.weight_limit)
          ≡ true =
        rw
          (
            subst (λ x. same_int x minus_one ≡ true) (sym fresh) (same_int_refl minus_one),
            same_int_refl s.weight_limit,
          )
          refl in
      rw both (show_current-drawn minus_one s fresh)
