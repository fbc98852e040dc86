-- ===== src/Layout/RoundTrip.antt =====
-- A layout goes to the configurations and to the entry fields and back
-- (df10ch_setup_pkg/layout_dlg.py).
use df10ch_atmolight_control.Prelude.{
  ℕ, zero, suc, ◌+◌, ◌≡◌, refl, ap, sym, ◌∙◌, List, [], ◌∷◌, ◌++◌, Text, set, get_elem?, replicate,
  length, arith, get_elem?-middle, some,
}
use df10ch_atmolight_control.Result.{Result, ok}
use df10ch_atmolight_control.Decimal.{print_nat, parse-print}
use df10ch_atmolight_control.Areas.{num_base_areas}
use df10ch_atmolight_control.Config.{Config}
use df10ch_atmolight_control.Config.Registry.{Configs}
use df10ch_atmolight_control.Layout.{
  Layout, apply_areas, apply_values, entries_of, print_all, merge_areas, merge_configs,
  set_layout_from_config, copy_areas, put_layout, set_config_from_layout,
}

-- Every configuration has a count for each kind of area.
abbrev pub HaveCounts : Configs → Type 0
HaveCounts [] = Unit {0}
HaveCounts ((id, config) ∷ rest) = (length config.num_areas ≡ num_base_areas) × HaveCounts rest

merge_areas_self : (areas : List ℕ) → merge_areas areas areas ≡ ok areas
unfolding merge_areas
merge_areas_self [] = refl
merge_areas_self (a ∷ areas) = rw (merge_areas_self areas) (ground arith)

merge_areas-zeros :
    (n : ℕ) (areas : List ℕ) → length areas ≡ n → merge_areas (replicate n 0) areas ≡ ok areas
unfolding merge_areas
merge_areas-zeros zero [] h = refl
merge_areas-zeros zero (a ∷ areas) h = absurd (omega arith)
merge_areas-zeros (suc n) [] h = absurd (omega arith)
merge_areas-zeros (suc n) (a ∷ areas) h =
    rw (merge_areas-zeros n areas (omega arith)) (ground arith)

copy_areas-eq :
    (areas counts : List ℕ) → length areas ≡ length counts → copy_areas areas counts ≡ ok areas
unfolding copy_areas
copy_areas-eq [] [] h = refl
copy_areas-eq [] (c ∷ counts) h = absurd (omega arith)
copy_areas-eq (a ∷ areas) [] h = absurd (omega arith)
copy_areas-eq (a ∷ areas) (c ∷ counts) h = rw (copy_areas-eq areas counts (omega arith)) refl

-- The configurations after the layout was put into each.
abbrev pub laid_out : Layout → Configs → Configs
laid_out l [] = []
laid_out l ((id, config) ∷ rest) =
    (
      id,
      record config {
        settings = record config.settings {
          num_areas = l.num_areas;
          overscan = l.overscan;
          analyze_size = l.analyze_size;
          edge_weighting = l.edge_weighting;
          weight_limit = l.weight_limit;
        };
      },
    )
    ∷ laid_out l rest

set_config-laid_out :
    (l : Layout) (configs : Configs)
    → length l.num_areas ≡ num_base_areas
    → HaveCounts configs
    → set_config_from_layout l configs ≡ ok (laid_out l configs)
unfolding set_config_from_layout put_layout
set_config-laid_out l [] h k = refl
set_config-laid_out l ((id, config) ∷ rest) h k =
    rw (copy_areas-eq l.num_areas config.num_areas (h ∙ sym k.0))
      (rw (set_config-laid_out l rest h k.1) refl)

merge-laid_out : (l : Layout) (configs : Configs) → merge_configs (laid_out l configs) l ≡ ok l
unfolding merge_configs
merge-laid_out l [] = refl
merge-laid_out l ((id, config) ∷ rest) = rw (merge_areas_self l.num_areas) (merge-laid_out l rest)

-- A layout that is put into the configurations, at least one, comes back from them. Nothing else of
-- a configuration changes.
pub set_layout-set_config :
    (l : Layout) (id : Text) (config : Config) (rest : Configs)
    → length l.num_areas ≡ num_base_areas
    → HaveCounts ((id, config) ∷ rest)
    → (set_config_from_layout l ((id, config) ∷ rest) ≡ ok (laid_out l ((id, config) ∷ rest)))
      × (set_layout_from_config (laid_out l ((id, config) ∷ rest)) ≡ ok l)
unfolding set_layout_from_config merge_configs
set_layout-set_config l id config rest h k = (
  set_config-laid_out l ((id, config) ∷ rest) h k,
  rw (merge_areas-zeros num_base_areas l.num_areas h) (merge-laid_out l rest),
)

print_all-append : (xs ys : List ℕ) → print_all (xs ++ ys) ≡ print_all xs ++ print_all ys
print_all-append [] ys = refl
print_all-append (x ∷ xs) ys = ap (λ t. print_nat x ∷ t) (print_all-append xs ys)

length-print_all : (xs : List ℕ) → length (print_all xs) ≡ length xs
length-print_all [] = refl
length-print_all (x ∷ xs) = ap suc (length-print_all xs)

set-middle :
    (pre rest : List ℕ) (x y i : ℕ) → length pre ≡ i → set (pre ++ x ∷ rest) i y ≡ pre ++ y ∷ rest
set-middle [] rest x y zero h = refl
set-middle [] rest x y (suc i) h = absurd (omega arith)
set-middle (p ∷ pre) rest x y zero h = absurd (omega arith)
set-middle (p ∷ pre) rest x y (suc i) h = ap (λ t. p ∷ t) (set-middle pre rest x y i (omega arith))

append-step : (pre rest : List ℕ) (x : ℕ) → (pre ++ x ∷ []) ++ rest ≡ pre ++ x ∷ rest
append-step [] rest x = refl
append-step (p ∷ pre) rest x = ap (λ t. p ∷ t) (append-step pre rest x)

length-step : (pre : List ℕ) (x : ℕ) → length (pre ++ x ∷ []) ≡ length pre + 1
length-step [] x = refl
length-step (p ∷ pre) x = omega (arith, length-step pre x)

abbrev shown : Layout → Result (Unit {0}) × Layout
shown l = (ok tt, l)

-- The loop over the counts, when those before `i` are set.
apply_areas-eq :
    (n i : ℕ) (pre new old : List ℕ) (l : Layout)
    → length pre ≡ i
    → length new ≡ n
    → length old ≡ n
    → l.num_areas ≡ pre ++ old
    → apply_areas n i (print_all (pre ++ new)) l ≡ (ok tt, record l { num_areas = pre ++ new })
unfolding apply_areas
apply_areas-eq zero i pre [] [] l h k m e =
    ap (λ (areas : List ℕ). shown (record l { num_areas = areas })) e
apply_areas-eq zero i pre (x ∷ new) old l h k m e = absurd (omega arith)
apply_areas-eq zero i pre [] (y ∷ old) l h k m e = absurd (omega arith)
apply_areas-eq (suc n) i pre [] old l h k m e = absurd (omega arith)
apply_areas-eq (suc n) i pre (x ∷ new) [] l h k m e = absurd (omega arith)
apply_areas-eq (suc n) i pre (x ∷ new) (y ∷ old) l h k m e =
    let l' : Layout = record l { num_areas = set l.num_areas i x } in
    let text_at : get_elem? (print_all (pre ++ x ∷ new)) i ≡ some (print_nat x) =
      rw (print_all-append pre (x ∷ new)) (
        get_elem?-middle (print_all pre) (print_all new) (print_nat x) i
          (length-print_all pre ∙ h)) in
    let set_eq : l'.num_areas ≡ (pre ++ x ∷ []) ++ old =
      rw e (set-middle pre old y x i h ∙ sym (append-step pre old x)) in
    let later =
      apply_areas-eq n (i + 1) (pre ++ x ∷ []) new old l' (omega (arith, length-step pre x))
        (omega arith) (omega arith) set_eq in
    rw (text_at, parse-print x) (rw (append-step pre new x) at later)

-- What the sheet shows of a layout is read back as that layout, whatever the layout was before.
pub apply_values-entries_of :
    (l before : Layout)
    → length l.num_areas ≡ num_base_areas
    → length before.num_areas ≡ num_base_areas
    → apply_values (entries_of l) before ≡ (ok tt, l)
unfolding apply_values entries_of
apply_values-entries_of l before h k =
    rw
      (
        apply_areas-eq num_base_areas 0 [] l.num_areas before.num_areas before refl h k refl,
        parse-print l.overscan,
        parse-print l.analyze_size,
        parse-print l.edge_weighting,
        parse-print l.weight_limit,
      )
      refl
