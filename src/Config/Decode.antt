-- ===== src/Config/Decode.antt =====
-- What ControllerConfig.read makes of the EEPROM's bytes and the channel map
-- (df10ch_setup_pkg/device_drv.py).
use df10ch_atmolight_control.Prelude.{
  ℕ, zero, suc, ◌+◌, ◌*◌, ◌%◌, List, [], ◌∷◌, Text, Option, none, some, min, ltb, ◌==◌, Bool,
  if◌then◌else◌,
}
use df10ch_atmolight_control.Result.{Result, ok, ◌>>=◌, at, word_at}
use df10ch_atmolight_control.Protocol.{
  Port, nchannels, config_valid_id, min_gamma_val, max_gamma_val, min_overscan, max_overscan,
  min_edge_weighting, max_edge_weighting, min_weight_limit, max_weight_limit, min_analyze_size,
  max_analyze_size, default_weight_limit,
}
use df10ch_atmolight_control.Protocol.Ports.{drives}
use df10ch_atmolight_control.Areas.{max_areas, num_base_areas, area_name}
use df10ch_atmolight_control.Controller.Payload.{ChannelRec}
use df10ch_atmolight_control.Config.{Settings, MapRec, ChannelMap, default_settings, clamp}

-- The number of bytes that are read.
abbrev pub eedata_size : ℕ
eedata_size = 9 + num_base_areas + nchannels * 6

-- The area counts from `p`, each at most its maximum.
unfoldable pub read_areas : List ℕ → ℕ → List ℕ → Result (List ℕ)
read_areas eedata p [] = ok []
read_areas eedata p (most ∷ rest) = do
  count ← at eedata p
  counts ← read_areas eedata (p + 1) rest
  ok (min count most ∷ counts)

-- The settings behind the records: version 2 added three, version 3 one more.
unfoldable pub read_tail : List ℕ → ℕ → ℕ → List ℕ → ℕ → Result Settings
read_tail eedata version p areas requests =
    if ltb 1 version
    then (do
      overscan ← at eedata p
      analyze_size ← at eedata (p + 1)
      edge_weighting ← at eedata (p + 2)
      weight_limit ←
          (if ltb 2 version
            then (do limit ← at eedata (p + 3); ok (clamp min_weight_limit max_weight_limit limit))
            else ok default_weight_limit)
      ok (record {
        config_version = version;
        num_areas = areas;
        num_req_channels = requests;
        overscan = clamp min_overscan max_overscan overscan;
        analyze_size = clamp min_analyze_size max_analyze_size analyze_size;
        edge_weighting = clamp min_edge_weighting max_edge_weighting edge_weighting;
        weight_limit = weight_limit;
      }))
    else ok (record default_settings {
      config_version = version;
      num_areas = areas;
      num_req_channels = requests;
    })

unfoldable pub is_valid_id : List ℕ → Result Bool
is_valid_id eedata = do id ← word_at eedata 0; ok (id == config_valid_id)

-- The body of `if configValidId == CONFIG_VALID_ID`.
unfoldable pub read_settings : List ℕ → Result Settings
read_settings eedata = do
  version ← word_at eedata 2
  areas ← read_areas eedata 4 max_areas
  count ← at eedata (4 + num_base_areas)
  let requests = min count nchannels
  read_tail eedata version (5 + num_base_areas + requests * 6) areas requests

unfoldable pub decode_settings : List ℕ → Result Settings
decode_settings eedata = do
  valid ← is_valid_id eedata
  if valid then read_settings eedata else ok default_settings

-- The record at `p`, if its code names an area.
unfoldable pub decode_rec : List ℕ → ℕ → ℕ → Result (Option MapRec)
decode_rec eedata pwm_res p = do
  code ← at eedata (p + 1)
  area_num ← at eedata (p + 2)
  elim (area_name code area_num) [
    | none ↦ ok none
    | some area ↦ do
      gamma ← at eedata (p + 3)
      white_cal ← word_at eedata (p + 4)
      ok (
          some (record {
            area = area;
            color = code % 4;
            gamma = clamp min_gamma_val max_gamma_val gamma;
            white_cal = min white_cal pwm_res;
          }))
  ]

-- The search for a record of the requested channel among the next `n`: one whose code names no area
-- is passed over.
unfoldable pub find_request : List ℕ → ℕ → ℕ → ℕ → ℕ → Result (Option MapRec)
find_request eedata pwm_res req_channel zero p = ok none
find_request eedata pwm_res req_channel (suc n) p =
    let rest = find_request eedata pwm_res req_channel n (p + 6) in
    do
      channel ← at eedata p
      found ← (if channel == req_channel then decode_rec eedata pwm_res p else ok none)
      elim found [ none ↦ rest | some r ↦ ok (some r) ]

-- The first entry of the controller's channel map that drives this output.
unfoldable pub first_driving : ℕ × ℕ → List ChannelRec → Option ChannelRec
first_driving out [] = none
first_driving out (r ∷ rs) = if drives r.port r.pins out then some r else first_driving out rs

-- What the output with this name shows.
unfoldable pub decode_port :
    Bool → List ℕ → Settings → ℕ → List ChannelRec → Port → Result (Text × Option MapRec)
decode_port valid eedata settings pwm_res pwm_map (name, out) = do
  found ← elim (first_driving out pwm_map) [
    | none ↦ ok none
    | some r ↦
        if valid
        then find_request eedata pwm_res r.channel settings.num_req_channels (5 + num_base_areas)
        else ok none
  ]
  ok (name, found)

unfoldable pub decode_ports :
    Bool → List ℕ → Settings → ℕ → List ChannelRec → List Port → Result ChannelMap
decode_ports valid eedata settings pwm_res pwm_map [] = ok []
decode_ports valid eedata settings pwm_res pwm_map (port ∷ ports) = do
  entry ← decode_port valid eedata settings pwm_res pwm_map port
  rest ← decode_ports valid eedata settings pwm_res pwm_map ports
  ok (entry ∷ rest)
