-- ===== src/Tests/Sheet.antt =====
-- The channel mapping sheet.
use df10ch_atmolight_control.Prelude.{ℕ, ◌<◌, ◌≡◌, refl, List, [], ◌∷◌, Text, arith, some, none}
use df10ch_atmolight_control.Exec.{Exec, pure}
use df10ch_atmolight_control.Decimal.{codes}
use df10ch_atmolight_control.Controller.Payload.{ChannelRec}
use df10ch_atmolight_control.MapDialog.{Sheet, Row, cb_next, cb_prev}
use df10ch_atmolight_control.MapDialog.Selection.{cb_next-cb_prev}

abbrev set_map : Text → ℕ → List ChannelRec → Exec (Unit {0}) (Unit {0})
set_map id start entries = pure tt

abbrev unused : Text → Row
unused name = record { ctrl_id = codes "A"; port_name = name; area = none; color = none }

abbrev sheet : Sheet (Unit {0})
sheet = record {
  lights = tt;
  configs = [];
  actual_idx = some 1;
  actual_ctrl_id = none;
  actual_port_name = none;
  actual_area = none;
  actual_color = none;
  channel_list = unused (codes "J3.1") ∷ unused (codes "J3.2") ∷ [];
}

cb_next-cb_prev_example :
    ((j : ℕ) × ((cb_next set_map sheet).1.actual_idx ≡ some j) × (j < 2))
    × ((k : ℕ) × ((cb_prev set_map sheet).1.actual_idx ≡ some k) × (k < 2))
    × ((cb_prev set_map (cb_next set_map sheet).1).1.actual_idx ≡ some 1)
    × ((cb_next set_map (cb_prev set_map sheet).1).1.actual_idx ≡ some 1)
cb_next-cb_prev_example = cb_next-cb_prev set_map sheet 1 refl (omega arith)
