-- ===== src/Tests/Settings.antt =====
-- The configuration.
use df10ch_atmolight_control.Prelude.{ℕ, ◌≡◌, refl, List, [], ◌∷◌, arith, replicate}
use df10ch_atmolight_control.Result.{ok, ◌>>=◌}
use df10ch_atmolight_control.Protocol.{port_name_map}
use df10ch_atmolight_control.Config.{Settings}
use df10ch_atmolight_control.Config.Bounds.{InRange, decode_settings-InRange}
use df10ch_atmolight_control.Config.Total.{Returns, decoding-Returns}
use df10ch_atmolight_control.Config.Decode.{
  is_valid_id, read_areas, read_tail, read_settings, decode_settings, decode_ports,
}

-- A version 2 EEPROM that claims too much.
abbrev eedata : List ℕ
eedata =
    0xA1 ∷ 0xA0 ∷ 2 ∷ 0 ∷ 5 ∷ 99 ∷ 0 ∷ 0 ∷ 7 ∷ 0 ∷ 0 ∷ 0 ∷ 0 ∷ 0 ∷ 250 ∷ 9 ∷ 3 ∷ replicate 181 0xFF

abbrev read_back : Settings
read_back = record {
  config_version = 2;
  num_areas = 5 ∷ 30 ∷ 0 ∷ 0 ∷ 1 ∷ 0 ∷ 0 ∷ 0 ∷ 0 ∷ [];
  num_req_channels = 0;
  overscan = 200;
  analyze_size = 5;
  edge_weighting = 10;
  weight_limit = 12;
}

decode_settings_test : decode_settings eedata ≡ ok read_back
unfolding decode_settings is_valid_id read_settings read_areas read_tail
decode_settings_test = refl

decode_settings-InRange_example : InRange read_back
decode_settings-InRange_example = decode_settings-InRange eedata read_back decode_settings_test

decoding-Returns_example : Returns (do
  valid ← is_valid_id eedata
  settings ← decode_settings eedata
  decode_ports valid eedata settings 1110 [] port_name_map)
decoding-Returns_example = decoding-Returns eedata 1110 [] (omega arith)
