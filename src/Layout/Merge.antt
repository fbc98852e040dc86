-- ===== src/Layout/Merge.antt =====
-- Merging the configurations of several controllers into one layout
-- (df10ch_setup_pkg/layout_dlg.py).
use df10ch_atmolight_control.Prelude.{
  ℕ, ◌≤◌, ◌≡◌, refl, List, [], ◌∷◌, Text, ltb, if◌then◌else◌, arith,
}
use df10ch_atmolight_control.Result.{ok}
use df10ch_atmolight_control.Areas.{max_areas}
use df10ch_atmolight_control.Protocol.{
  max_overscan, max_analyze_size, min_edge_weighting, max_edge_weighting, max_weight_limit,
}
use df10ch_atmolight_control.Config.{Config}
use df10ch_atmolight_control.Config.Bounds.{Below, InRange}
use df10ch_atmolight_control.Config.Registry.{Configs}
use df10ch_atmolight_control.Layout.{
  Layout, empty_layout, merge_areas, merge_configs, set_layout_from_config,
}

-- The bounds that the entry fields of the sheet have.
pub record LayoutInRange (l : Layout) : Type 0 where
  pub areas_below : Below l.num_areas max_areas
  pub overscan_le : l.overscan ≤ max_overscan
  pub analyze_size_le : l.analyze_size ≤ max_analyze_size
  pub edge_weighting_ge : min_edge_weighting ≤ l.edge_weighting
  pub edge_weighting_le : l.edge_weighting ≤ max_edge_weighting
  pub weight_limit_le : l.weight_limit ≤ max_weight_limit

abbrev pub ConfigsInRange : Configs → Type 0
ConfigsInRange [] = Unit {0}
ConfigsInRange ((id, config) ∷ rest) = InRange config.settings × ConfigsInRange rest

merge_areas-Below :
    (areas counts most : List ℕ)
    → Below areas most
    → Below counts most
    → (merged : List ℕ) × (merge_areas areas counts ≡ ok merged) × Below merged most
unfolding merge_areas
merge_areas-Below [] [] [] a c = ([], refl, tt)
merge_areas-Below [] [] (m ∷ most) a c = absurd a
merge_areas-Below [] (n ∷ counts) [] a c = absurd c
merge_areas-Below [] (n ∷ counts) (m ∷ most) a c = absurd a
merge_areas-Below (x ∷ areas) [] [] a c = absurd a
merge_areas-Below (x ∷ areas) [] (m ∷ most) a c = absurd c
merge_areas-Below (x ∷ areas) (n ∷ counts) [] a c = absurd a
merge_areas-Below (x ∷ areas) (n ∷ counts) (m ∷ most) a c =
    let (merged, e, h) = merge_areas-Below areas counts most a.1 c.1 in
    ((if ltb x n then n else x) ∷ merged, rw e refl, ground (arith, h))

Below-refl : (xs : List ℕ) → Below xs xs
Below-refl [] = tt
Below-refl (x ∷ xs) = (omega arith, Below-refl xs)

Below-trans : (xs ys zs : List ℕ) → Below xs ys → Below ys zs → Below xs zs
Below-trans [] [] zs h k = k
Below-trans [] (y ∷ ys) zs h k = absurd h
Below-trans (x ∷ xs) [] zs h k = absurd h
Below-trans (x ∷ xs) (y ∷ ys) [] h k = absurd k
Below-trans (x ∷ xs) (y ∷ ys) (z ∷ zs) h k = (omega arith, Below-trans xs ys zs h.1 k.1)

-- What is merged is at least both.
merge_areas-above :
    (areas counts merged most : List ℕ)
    → Below areas most
    → Below counts most
    → merge_areas areas counts ≡ ok merged
    → Below areas merged × Below counts merged
unfolding merge_areas
merge_areas-above [] [] [] most a c e = (tt, tt)
merge_areas-above [] [] (x ∷ merged) most a c e = absurd (cc)
merge_areas-above [] (n ∷ counts) merged [] a c e = absurd c
merge_areas-above [] (n ∷ counts) merged (m ∷ most) a c e = absurd a
merge_areas-above (x ∷ areas) [] merged [] a c e = absurd a
merge_areas-above (x ∷ areas) [] merged (m ∷ most) a c e = absurd c
merge_areas-above (x ∷ areas) (n ∷ counts) merged [] a c e = absurd a
merge_areas-above (x ∷ areas) (n ∷ counts) [] (m ∷ most) a c e = absurd (ground arith)
merge_areas-above (x ∷ areas) (n ∷ counts) (z ∷ merged) (m ∷ most) a c e =
    ground (arith, merge_areas-above areas counts merged most a.1 c.1)

-- Every configuration has at most the counts of the layout.
abbrev pub CoveredBy : Layout → Configs → Type 0
CoveredBy l [] = Unit {0}
CoveredBy l ((id, config) ∷ rest) = Below config.num_areas l.num_areas × CoveredBy l rest

-- The layout after one configuration.
abbrev pub taken : Config → List ℕ → Layout
taken config merged = record {
  num_areas = merged;
  overscan = config.overscan;
  analyze_size = config.analyze_size;
  edge_weighting = config.edge_weighting;
  weight_limit = config.weight_limit;
}

taken-InRange :
    (config : Config) (areas : List ℕ)
    → InRange config.settings
    → Below areas max_areas
    → (merged : List ℕ) × (merge_areas areas config.num_areas ≡ ok merged)
      × LayoutInRange (taken config merged)
      × Below areas merged
      × Below config.num_areas merged
taken-InRange config areas h k =
    let (merged, e, below) = merge_areas-Below areas config.num_areas max_areas k h.areas_below in
    let (above, above') =
      merge_areas-above areas config.num_areas merged max_areas k h.areas_below e in
    (
      merged,
      e,
      record {
        areas_below = below;
        overscan_le = h.overscan_le;
        analyze_size_le = h.analyze_size_le;
        edge_weighting_ge = h.edge_weighting_ge;
        edge_weighting_le = h.edge_weighting_le;
        weight_limit_le = h.weight_limit_le;
      },
      above,
      above',
    )

merge_configs-InRange :
    (configs : Configs) (l : Layout)
    → ConfigsInRange configs
    → LayoutInRange l
    → (m : Layout) × (merge_configs configs l ≡ ok m)
      × LayoutInRange m
      × CoveredBy m configs
      × Below l.num_areas m.num_areas
unfolding merge_configs
merge_configs-InRange [] l h k = (l, refl, k, tt, Below-refl l.num_areas)
merge_configs-InRange ((id, config) ∷ rest) l h k =
    let (merged, e, range, above, above') = taken-InRange config l.num_areas h.0 k.areas_below in
    let (m, e', range', covered, larger) =
      merge_configs-InRange rest (taken config merged) h.1 range in
    (
      m,
      rw e e',
      range',
      (Below-trans config.num_areas merged m.num_areas above' larger, covered),
      Below-trans l.num_areas merged m.num_areas above larger,
    )

-- If every configuration is in range and there is one, then the layout is built without an
-- exception, it is in range too, and it has at least as many areas of each kind as any configuration.
pub set_layout_from_config-InRange :
    (id : Text) (config : Config) (rest : Configs)
    → ConfigsInRange ((id, config) ∷ rest)
    → (l : Layout) × (set_layout_from_config ((id, config) ∷ rest) ≡ ok l)
      × LayoutInRange l
      × CoveredBy l ((id, config) ∷ rest)
unfolding set_layout_from_config merge_configs
set_layout_from_config-InRange id config rest h =
    let (merged, e, range, above, above') =
      taken-InRange config empty_layout.num_areas h.0 (omega arith) in
    let (m, e', range', covered, larger) =
      merge_configs-InRange rest (taken config merged) h.1 range in
    (m, rw e e', range', (Below-trans config.num_areas merged m.num_areas above' larger, covered))
