-- ===== src/Tests/Sliders.antt =====
-- The white calibration.
use df10ch_atmolight_control.Prelude.{
  ℕ, ◌*◌, ◌/◌, refl, List, [], ◌∷◌, Text, false, none, some, ◌==◌, if◌then◌else◌,
}
use df10ch_atmolight_control.Result.{ok, err, zero_division}
use df10ch_atmolight_control.Exec.{Exec, pure}
use df10ch_atmolight_control.Decimal.{codes, print_nat}
use df10ch_atmolight_control.Controller.Payload.{ChannelRec}
use df10ch_atmolight_control.WhiteCal.{Floats, Calibration, Requests, request_outputs}
use df10ch_atmolight_control.WhiteCal.Adjust.{update}
use df10ch_atmolight_control.WhiteCal.Channels.{Sends, used_count, request_outputs-Sends}
use df10ch_atmolight_control.WhiteCal.Kept.{LooksLike, update-LooksLike}
use df10ch_atmolight_control.Tests.Dialogs.{config, configs}

-- Whole numbers in place of floats.
abbrev pub whole : Floats ℕ
whole = record {
  tenth = λ n. n / 10;
  ratio = λ m n. if n == 0 then err zero_division else ok (m / n);
  power = λ x y. ok x;
  scaled = λ x n. x * n;
  rounded = λ x. x;
  truncated = λ x. x;
  print_float = print_nat;
  parse_float = λ text. some 2;
}

abbrev pub set_map : Text → ℕ → List ChannelRec → Exec (Unit {0}) (Unit {0})
set_map id start entries = pure tt

abbrev pub set_levels : Text → ℕ → List ℕ → Exec (Unit {0}) (Unit {0})
set_levels id start levels = pure tt

abbrev no_requests : Requests
no_requests = record { entries = []; brights = []; req_channel = 0; areas = []; area = none }

request_outputs-Sends_example :
    Sends
      (used_count config.channel_map)
      (request_outputs whole set_map set_levels 1 (codes "A") config.channel_map no_requests)
request_outputs-Sends_example =
    request_outputs-Sends whole set_map set_levels 1 (codes "A") config.channel_map no_requests
      (refl, (refl, (refl, tt)))

abbrev pub calibration : Calibration (Unit {0}) ℕ
calibration = record {
  lights = tt;
  configs = configs;
  areas_map =
      (
        codes "Top-1",
        (record { ctrl_id = codes "A"; port_name = codes " 1.2"; req_channel = 0 }) ∷ [],
      )
      ∷ [];
  selected_area = some (codes "Top-1");
  select_all = false;
  bright = 1;
  gammas = codes "2" ∷ codes "2" ∷ codes "2" ∷ [];
  white_cals = 1 ∷ 1 ∷ 1 ∷ [];
}

update-LooksLike_example : LooksLike (update whole set_map set_levels calibration).1.configs configs
update-LooksLike_example = update-LooksLike whole set_map set_levels calibration
