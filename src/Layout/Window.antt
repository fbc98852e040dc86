-- ===== src/Layout/Window.antt =====
-- The buttons of the layout sheet together with the areas on the screen (cbApply and
-- cbShowEdgeWeighting of df10ch_setup_pkg/layout_dlg.py, configAreas of
-- df10ch_setup_pkg/areas_dlg.py).
use df10ch_atmolight_control.Prelude.{
  ℕ, ◌≡◌, refl, ap, sym, ◌∙◌, subst, List, true, false, length, inl, inr, ◌⊎◌,
}
use df10ch_atmolight_control.Prelude.Int.{pos}
use df10ch_atmolight_control.Result.{Result, ok, err, Failure, value_error}
use df10ch_atmolight_control.Exec.{Exec, pure, lift, modify, ◌>>=◌, ◌>>◌}
use df10ch_atmolight_control.Areas.{num_base_areas}
use df10ch_atmolight_control.Layout.{Layout, Entries, apply_values, entries_of}
use df10ch_atmolight_control.Layout.RoundTrip.{apply_values-entries_of}
use df10ch_atmolight_control.Screen.{Borders, counts_of, sizes_of, borders}
use df10ch_atmolight_control.Screen.Canvas.{Item, config_areas}
use df10ch_atmolight_control.Screen.Weight.{Shades, calc_edge_weighting}
use df10ch_atmolight_control.Screen.Cached.{
  Weighting, begin_image, minus_one, show_edge_weighting, fresh-ShowsFresh,
}

module _ (width height : ℕ) where
  -- The measures of the areas, for a dialog of this size.
  unfoldable pub borders_of : Layout → Result Borders
  borders_of l = elim (counts_of l.num_areas) [
    | err f ↦ err f
    | ok counts ↦ elim (sizes_of width height l.overscan l.analyze_size) [
      | err f ↦ err f
      | ok sizes ↦ ok (borders counts sizes)
    ]
  ]

  -- Where the new image cannot be made, the old one has been deleted from the canvas.
  unfoldable pub measure : Layout → Exec Weighting Borders
  measure l s = elim (borders_of l) [
    | ok b ↦ (ok b, s)
    | err value_error ↦ (err value_error, record s { shown = false })
    | err f ↦ (err f, s)
  ]

  -- What configAreas does to the image: the parameters of the last one are void at once; the new one
  -- is there before the polygons are created.
  unfoldable pub configure_areas : Layout → Exec Weighting (Unit {0})
  configure_areas l = do
    modify (λ s. record s { edge_weighting = minus_one })
    b ← measure l
    modify (begin_image b)
    items ← lift (config_areas width height l.num_areas l.overscan l.analyze_size)
    pure tt

  module _ {F : Type 0} (shades : Shades F) where
    -- The layout sheet and the image.
    abbrev pub Both : Type 0
    Both = Layout × Weighting

    abbrev pub on_layout : Exec Layout (Unit {0}) → Exec Both (Unit {0})
    on_layout m (l, s) = let (r, l') = m l in (r, (l', s))

    abbrev pub on_areas : Exec Weighting (Unit {0}) → Exec Both (Unit {0})
    on_areas m (l, s) = let (r, s') = m s in (r, (l, s'))

    unfoldable pub cb_apply : Entries → Exec Both (Unit {0})
    cb_apply v = on_layout (apply_values v) >> (λ (l, s). on_areas (configure_areas l) (l, s))

    unfoldable pub cb_show_edge_weighting : Entries → Exec Both (Unit {0})
    cb_show_edge_weighting v = cb_apply v >> (λ (l, s).
        on_areas (show_edge_weighting shades (pos l.edge_weighting) (pos l.weight_limit)) (l, s))

    measure-ok :
        (l : Layout) (s : Weighting) (b : Borders) → borders_of l ≡ ok b → measure l s ≡ (ok b, s)
    unfolding measure
    measure-ok l s b measured = rw (measured, measure) refl

    configure_areas-ok :
        (l : Layout) (s : Weighting) (b : Borders) (items : List Item)
        → borders_of l ≡ ok b
        → config_areas width height l.num_areas l.overscan l.analyze_size ≡ ok items
        → configure_areas l s ≡ (ok tt, begin_image b (record s { edge_weighting = minus_one }))
    unfolding configure_areas
    configure_areas-ok l s b items measured created =
        rw (measure-ok l (record s { edge_weighting = minus_one }) b measured, created) refl

    cb_apply-entries_of :
        (l before : Layout) (s s' : Weighting)
        → length l.num_areas ≡ num_base_areas
        → length before.num_areas ≡ num_base_areas
        → configure_areas l s ≡ (ok tt, s')
        → cb_apply (entries_of l) (before, s) ≡ (ok tt, (l, s'))
    unfolding cb_apply
    cb_apply-entries_of l before s s' h k configured =
        rw (apply_values-entries_of l before h k, cb_apply) (rw configured refl)

    cb_show-applied :
        (l before : Layout) (s s' : Weighting)
        → cb_apply (entries_of l) (before, s) ≡ (ok tt, (l, s'))
        → cb_show_edge_weighting (entries_of l) (before, s)
          ≡ on_areas
              (show_edge_weighting shades (pos l.edge_weighting) (pos l.weight_limit))
              (l, s')
    unfolding cb_show_edge_weighting
    cb_show-applied l before s s' applied = rw applied refl

    -- The layout is taken over, and its image is shown; or its calculation raises, and the image of
    -- the new areas is hidden.
    pub record ShowsLayout (l : Layout) (b : Borders) (t : Result (Unit {0}) × Both) : Type 0 where
      pub taken_over : t.1.0 ≡ l
      pub measured : t.1.1.borders ≡ b
      pub outcome :
          ((t.0 ≡ ok tt)
            × (calc_edge_weighting shades b (pos l.edge_weighting) (pos l.weight_limit)
                ≡ ok t.1.1.image)
            × (t.1.1.shown ≡ true))
          ⊎ ((f : Failure) × (calc_edge_weighting shades b
                  (pos l.edge_weighting)
                  (pos l.weight_limit)
                ≡ err f)
              × (t.0 ≡ err f)
              × (t.1.1.shown ≡ false))

    show-ShowsLayout :
        (l : Layout) (s : Weighting)
        → s.edge_weighting ≡ minus_one
        → s.shown ≡ false
        → ShowsLayout l s.borders (
            on_areas
              (show_edge_weighting shades (pos l.edge_weighting) (pos l.weight_limit))
              (l, s))
    show-ShowsLayout l s fresh hidden =
        elim (fresh-ShowsFresh shades s (pos l.edge_weighting) (pos l.weight_limit) fresh
          (λ k. absurd (cc))) [
            | inl (returns, drawn, shown, kept) ↦ record {
              taken_over = refl;
              measured = kept;
              outcome = inl (returns, drawn, shown);
            }
            | inr (f, raised, raises, same) ↦ record {
              taken_over = refl;
              measured = ap (λ t. t.borders) same;
              outcome = inr (f, raised, raises, ap (λ t. t.shown) same ∙ hidden);
            }
          ]

    -- Where the entries of the sheet are those of a layout and the areas of that layout can be
    -- created: the button takes over that layout, and shows the image that is calculated for its
    -- areas, weighting and limit, whatever was shown before; where the calculation raises, so does
    -- the button, and the image of the new areas is hidden.
    pub cb_show-ShowsLayout :
        (l before : Layout) (s : Weighting) (b : Borders) (items : List Item)
        → length l.num_areas ≡ num_base_areas
        → length before.num_areas ≡ num_base_areas
        → borders_of l ≡ ok b
        → config_areas width height l.num_areas l.overscan l.analyze_size ≡ ok items
        → ShowsLayout l b (cb_show_edge_weighting (entries_of l) (before, s))
    cb_show-ShowsLayout l before s b items h k measured created =
        let after = begin_image b (record s { edge_weighting = minus_one }) in
        subst (ShowsLayout l b)
          (sym (
            cb_show-applied l before s after (
              cb_apply-entries_of l before s after h k
                (configure_areas-ok l s b items measured created))))
          (unfold begin_image in show-ShowsLayout l after refl refl)
