-- ===== src/Tests/Dialogs.antt =====
-- The layout, the areas on the screen, and the edits of the channel map.
use df10ch_atmolight_control.Prelude.{
  ℕ, ◌≡◌, refl, List, [], ◌∷◌, Text, text_eq, true, none, some, arith,
}
use df10ch_atmolight_control.Result.{ok}
use df10ch_atmolight_control.Exec.{Exec, pure}
use df10ch_atmolight_control.Decimal.{codes}
use df10ch_atmolight_control.Areas.{color_index, index_of, area_index}
use df10ch_atmolight_control.Controller.Payload.{ChannelRec}
use df10ch_atmolight_control.Config.{Config, Settings, MapRec}
use df10ch_atmolight_control.Config.Registry.{Configs, find_config, find_entry}
use df10ch_atmolight_control.Config.Bounds.{InRange}
use df10ch_atmolight_control.Layout.{
  Layout, empty_layout, entries_of, apply_values, set_layout_from_config, set_config_from_layout,
}
use df10ch_atmolight_control.Layout.Merge.{LayoutInRange, CoveredBy, set_layout_from_config-InRange}
use df10ch_atmolight_control.Layout.RoundTrip.{
  laid_out, set_layout-set_config, apply_values-entries_of,
}
use df10ch_atmolight_control.Screen.{Counts, counts_of}
use df10ch_atmolight_control.Screen.Canvas.{Item, config_areas}
use df10ch_atmolight_control.Screen.Tags.{tags, some_all, all_names}
use df10ch_atmolight_control.Screen.Shown.{config_areas-named}
use df10ch_atmolight_control.Screen.View.{
  Shape, View, Action, grey, act_all, init, select, click, color,
}
use df10ch_atmolight_control.Screen.Marked.{MarksSelected, act_all-MarksSelected}
use df10ch_atmolight_control.MapDialog.{Sheet, Row, cb_set_color}
use df10ch_atmolight_control.MapDialog.Edits.{mapped, remapped, cb_set_color-remapped}

abbrev pub settings : Settings
settings = record {
  config_version = 2;
  num_areas = 5 ∷ 3 ∷ 0 ∷ 0 ∷ 1 ∷ 0 ∷ 0 ∷ 0 ∷ 0 ∷ [];
  num_req_channels = 0;
  overscan = 20;
  analyze_size = 1;
  edge_weighting = 80;
  weight_limit = 12;
}

abbrev used : MapRec
used = record { area = codes "Top-1"; color = 0; gamma = 22; white_cal = 900 }

abbrev pub config : Config
config = record {
  id = codes "A";
  settings = settings;
  pwm_res = 1110;
  common_pwm_res = 255;
  pwm_freq = 100;
  common_bright = 200;
  versions = record { usb = 0x0101; pwm = 0x0102; config = some 2 };
  channel_map = (codes " 1.1", none) ∷ (codes " 1.2", some used) ∷ [];
}

abbrev pub configs : Configs
configs = (codes "A", config) ∷ (codes "B", record config { id = codes "B" }) ∷ []

abbrev pub layout : Layout
layout = record {
  num_areas = 4 ∷ 2 ∷ 2 ∷ 2 ∷ 0 ∷ 1 ∷ 1 ∷ 0 ∷ 0 ∷ [];
  overscan = 35;
  analyze_size = 2;
  edge_weighting = 60;
  weight_limit = 0;
}

pub settings-InRange : InRange settings
settings-InRange = record {
  areas_below = (
    omega arith,
    (
      omega arith,
      (
        omega arith,
        (
          omega arith,
          (omega arith, (omega arith, (omega arith, (omega arith, (omega arith, tt))))),
        ),
      ),
    ),
  );
  requests_le = omega arith;
  overscan_le = omega arith;
  analyze_size_le = omega arith;
  edge_weighting_ge = omega arith;
  edge_weighting_le = omega arith;
  weight_limit_le = omega arith;
}

set_layout_from_config-InRange_example :
    (l : Layout) × (set_layout_from_config configs ≡ ok l) × LayoutInRange l × CoveredBy l configs
set_layout_from_config-InRange_example =
    set_layout_from_config-InRange (codes "A") config
      ((codes "B", record config { id = codes "B" }) ∷ [])
      (settings-InRange, (settings-InRange, tt))

set_layout-set_config_example :
    (set_config_from_layout layout configs ≡ ok (laid_out layout configs))
    × (set_layout_from_config (laid_out layout configs) ≡ ok layout)
set_layout-set_config_example =
    set_layout-set_config layout (codes "A") config
      ((codes "B", record config { id = codes "B" }) ∷ []) refl (refl, (refl, tt))

apply_values-entries_of_example : apply_values (entries_of layout) empty_layout ≡ (ok tt, layout)
apply_values-entries_of_example = apply_values-entries_of layout empty_layout refl refl

abbrev pub counts : Counts
counts = record {
  top = 4;
  bottom = 2;
  left = 2;
  right = 2;
  center = 0;
  top_left = 1;
  top_right = 1;
  bottom_left = 0;
  bottom_right = 0;
}

pub counts_test : counts_of layout.num_areas ≡ ok counts
unfolding counts_of area_index text_eq
counts_test = refl

config_areas-named_example :
    (made : List Item) × (config_areas 600 450 layout.num_areas 35 1 ≡ ok made)
    × (some_all (tags made) ≡ all_names counts)
config_areas-named_example =
    config_areas-named 600 450 35 1 layout.num_areas counts (omega arith) (omega arith)
      (omega arith) counts_test (omega arith, omega arith, omega arith, omega arith, omega arith)

abbrev shape : Text → Shape
shape tag = record { tag = tag; fill = []; outline = grey }

abbrev pub view : View
view = record {
  shapes = shape (codes "Top-1") ∷ shape (codes "Top-2") ∷ [];
  background = codes "black";
  weight_shown = true;
  selected_area = none;
}

abbrev actions : List Action
actions =
    select (codes "Top-1")
    ∷ click (some 0)
    ∷ color (codes "Top-2") (codes "red")
    ∷ init (codes "blue")
    ∷ select (codes "Top-2")
    ∷ []

act_all-MarksSelected_example : MarksSelected (act_all actions view)
act_all-MarksSelected_example =
    act_all-MarksSelected actions view ((refl, λ e. refl), ((refl, λ e. refl), tt))

abbrev set_map : Text → ℕ → List ChannelRec → Exec (Unit {0}) (Unit {0})
set_map id start entries = pure tt

abbrev row : Row
row = record {
  ctrl_id = codes "B";
  port_name = codes " 1.2";
  area = some (codes "Top-1");
  color = some (codes "red");
}

abbrev sheet : Sheet (Unit {0})
sheet = record {
  lights = tt;
  configs = configs;
  actual_idx = some 0;
  actual_ctrl_id = some (codes "B");
  actual_port_name = some (codes " 1.2");
  actual_area = some (codes "Top-1");
  actual_color = some (codes "red");
  channel_list = row ∷ [];
}

config_test : find_config (codes "B") configs ≡ some (record config { id = codes "B" })
unfolding find_config text_eq
config_test = refl

entry_test : find_entry (codes " 1.2") config.channel_map ≡ some (some used)
unfolding find_entry text_eq
entry_test = refl

blue_test : color_index (codes "blue") ≡ ok 2
unfolding color_index index_of text_eq
blue_test = refl

cb_set_color-remapped_example :
    mapped (cb_set_color set_map (codes "blue") sheet).1.configs (codes "B") (codes " 1.2")
    ≡ remapped
        (codes "B")
        (codes " 1.2")
        (some (record { area = codes "Top-1"; color = 2; gamma = 22; white_cal = 900 }))
        configs
        (codes "B")
        (codes " 1.2")
cb_set_color-remapped_example =
    cb_set_color-remapped set_map sheet 0 (codes "B") (codes " 1.2") b'T' (codes "op-1")
      (record config { id = codes "B" }) (some used) b'b' (codes "lue") 2 row refl refl refl refl
      refl config_test entry_test blue_test (codes "B") (codes " 1.2")
