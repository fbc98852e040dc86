-- ===== src/Layout.antt =====
-- The layout sheet (df10ch_setup_pkg/layout_dlg.py): the layout of the areas, which is the same for
-- all controllers. The entry fields are texts; drawing the areas is left to `Screen`.
pub mod Merge
pub mod RoundTrip
pub mod Window
use df10ch_atmolight_control.Prelude.{
  ℕ, zero, suc, ◌+◌, List, [], ◌∷◌, Text, ltb, set, replicate, if◌then◌else◌,
}
use df10ch_atmolight_control.Result.{Result, ok, err, at, index_error, ◌>>=◌ as ◌>>=ᵣ◌}
use df10ch_atmolight_control.Exec.{Exec, pure, lift, modify, ◌>>=◌, ◌>>◌}
use df10ch_atmolight_control.Decimal.{print_nat, parse_nat}
use df10ch_atmolight_control.Areas.{num_base_areas}
use df10ch_atmolight_control.Config.{Config}
use df10ch_atmolight_control.Config.Registry.{Configs}

pub record Layout : Type 0 where
  pub num_areas : List ℕ
  pub overscan : ℕ
  pub analyze_size : ℕ
  pub edge_weighting : ℕ
  pub weight_limit : ℕ

abbrev pub empty_layout : Layout
empty_layout = record {
  num_areas = replicate num_base_areas 0;
  overscan = 0;
  analyze_size = 0;
  edge_weighting = 0;
  weight_limit = 0;
}

-- What stands in the entry fields.
pub record Entries : Type 0 where
  pub var_num_areas : List Text
  pub var_overscan : Text
  pub var_analyze_size : Text
  pub var_weight : Text
  pub var_weight_limit : Text

-- The loop over the area counts from `i`: each is set as soon as it is read.
unfoldable pub apply_areas : ℕ → ℕ → List Text → Exec Layout (Unit {0})
apply_areas zero i texts = pure tt
apply_areas (suc n) i texts = do
  text ← lift (at texts i)
  count ← lift (parse_nat text)
  modify (λ l. record l { num_areas = set l.num_areas i count })
  apply_areas n (i + 1) texts

-- A text that is no number raises, and what was read before it stays. (`int` is modelled on digits:
-- a sign or blanks that a user types are outside of the model.)
unfoldable pub apply_values : Entries → Exec Layout (Unit {0})
unfolding apply_areas
apply_values v = do
  apply_areas num_base_areas 0 v.var_num_areas
  overscan ← lift (parse_nat v.var_overscan)
  modify (λ l. record l { overscan = overscan })
  analyze_size ← lift (parse_nat v.var_analyze_size)
  modify (λ l. record l { analyze_size = analyze_size })
  edge_weighting ← lift (parse_nat v.var_weight)
  modify (λ l. record l { edge_weighting = edge_weighting })
  weight_limit ← lift (parse_nat v.var_weight_limit)
  modify (λ l. record l { weight_limit = weight_limit })

abbrev pub print_all : List ℕ → List Text
print_all [] = []
print_all (n ∷ ns) = print_nat n ∷ print_all ns

-- What setLayoutFromConfig puts into the entry fields.
unfoldable pub entries_of : Layout → Entries
entries_of l = record {
  var_num_areas = print_all l.num_areas;
  var_overscan = print_nat l.overscan;
  var_analyze_size = print_nat l.analyze_size;
  var_weight = print_nat l.edge_weighting;
  var_weight_limit = print_nat l.weight_limit;
}

-- The larger of two counts, for each area of the layout.
unfoldable pub merge_areas : List ℕ → List ℕ → Result (List ℕ)
merge_areas [] counts = ok []
merge_areas (a ∷ areas) [] = err index_error
merge_areas (a ∷ areas) (c ∷ counts) =
    merge_areas areas counts >>=ᵣ λ rest. ok ((if ltb a c then c else a) ∷ rest)

-- The loop over the configurations: the last one's sizes and weights, and the largest counts.
unfoldable pub merge_configs : Configs → Layout → Result Layout
merge_configs [] l = ok l
merge_configs ((id, config) ∷ rest) l = merge_areas l.num_areas config.num_areas >>=ᵣ λ num_areas.
    merge_configs rest (record {
      num_areas = num_areas;
      overscan = config.overscan;
      analyze_size = config.analyze_size;
      edge_weighting = config.edge_weighting;
      weight_limit = config.weight_limit;
    })

unfoldable pub set_layout_from_config : Configs → Result Layout
set_layout_from_config configs = merge_configs configs empty_layout

-- `config.numAreas[i] = self.numAreas[i]`
unfoldable pub copy_areas : List ℕ → List ℕ → Result (List ℕ)
copy_areas [] counts = ok counts
copy_areas (a ∷ areas) [] = err index_error
copy_areas (a ∷ areas) (c ∷ counts) = copy_areas areas counts >>=ᵣ λ rest. ok (a ∷ rest)

unfoldable pub put_layout : Layout → Config → Result Config
put_layout l config = copy_areas l.num_areas config.num_areas >>=ᵣ λ num_areas. ok (record config {
  settings = record config.settings {
    num_areas = num_areas;
    overscan = l.overscan;
    analyze_size = l.analyze_size;
    edge_weighting = l.edge_weighting;
    weight_limit = l.weight_limit;
  };
})

unfoldable pub set_config_from_layout : Layout → Configs → Result Configs
set_config_from_layout l [] = ok []
set_config_from_layout l ((id, config) ∷ rest) = put_layout l config >>=ᵣ λ config'.
    set_config_from_layout l rest >>=ᵣ λ rest'. ok ((id, config') ∷ rest')
