-- ===== src/Config/Encode.antt =====
-- What ControllerConfig.write makes of a configuration: the EEPROM's bytes and the channel map
-- (df10ch_setup_pkg/device_drv.py).
use df10ch_atmolight_control.Prelude.{
  ℕ, ◌+◌, ◌-◌, ◌/◌, ◌%◌, List, [], ◌∷◌, ◌++◌, Text, Option, none, some, length, ltb, set, replicate,
  if◌then◌else◌, text_eq,
}
use df10ch_atmolight_control.Prelude.Int.{ℤ, pos, negsuc}
use df10ch_atmolight_control.Result.{
  Result, ok, err, ◌>>=◌, or_raise, byte, to_bytes, key_error, value_error,
}
use df10ch_atmolight_control.Decimal.{print_nat, print_int}
use df10ch_atmolight_control.Protocol.{
  port_name_map, lookup_port, nchannels, config_valid_id, config_version_now,
}
use df10ch_atmolight_control.Areas.{area_code}
use df10ch_atmolight_control.Controller.Payload.{ChannelRec}
use df10ch_atmolight_control.Dummy.{empty_rec}
use df10ch_atmolight_control.Config.{Config, MapRec, ChannelMap}

-- What the loop over the outputs has built: the number of requested channels, those that are known
-- by their key, the EEPROM's bytes and the channel map.
pub record Encoder : Type 0 where
  pub requests : ℕ
  pub known : List (Text × ℕ)
  pub eedata : List ℕ
  pub outputs : List ChannelRec

-- `'{0}{1}{2}{3}'.format(areaCode, areaNum, gamma, whiteCal)`
unfoldable pub request_key : ℕ → ℤ → ℕ → ℕ → Text
request_key code area_num gamma white_cal =
    print_nat code ++ (print_int area_num ++ (print_nat gamma ++ print_nat white_cal))

unfoldable pub lookup_key : Text → List (Text × ℕ) → Option ℕ
lookup_key key [] = none
lookup_key key ((k, channel) ∷ rest) = if text_eq k key then some channel else lookup_key key rest

-- A bytearray takes no negative number.
abbrev pub byte_int : ℤ → Result ℕ
byte_int (pos n) = byte n
byte_int (negsuc n) = err value_error

unfoldable pub request_bytes : ℕ → ℕ → ℤ → ℕ → ℕ → Result (List ℕ)
request_bytes channel code area_num gamma white_cal = do
  channel' ← byte channel
  code' ← byte code
  num ← byte_int area_num
  gamma' ← byte gamma
  high ← byte (white_cal / 256)
  ok (channel' ∷ code' ∷ num ∷ gamma' ∷ white_cal % 256 ∷ high ∷ [])

abbrev pub add_output : Encoder → ℕ → ℕ × ℕ → Encoder
add_output enc channel (port, pin) = record enc {
  outputs = enc.outputs ++ record { channel = channel; port = port; pins = pin } ∷ [];
}

-- A record whose key is known shares the channel; any other gets the next channel and its bytes.
unfoldable pub encode_request : ℕ × ℕ → ℕ → ℤ → ℕ → ℕ → Encoder → Result Encoder
encode_request out code area_num gamma white_cal enc =
    let key = request_key code area_num gamma white_cal in
    elim (lookup_key key enc.known) [
      | some channel ↦ ok (add_output enc channel out)
      | none ↦ do
        bytes ← request_bytes enc.requests code area_num gamma white_cal
        ok (
            add_output
              (record {
                requests = enc.requests + 1;
                known = (key, enc.requests) ∷ enc.known;
                eedata = enc.eedata ++ bytes;
                outputs = enc.outputs;
              })
              enc.requests out)
    ]

abbrev pub limited : ℕ → ℕ → ℕ
limited pwm_res white_cal = if ltb pwm_res white_cal then pwm_res else white_cal

-- The body of the loop over the outputs.
unfoldable pub encode_port : ℕ → Text → Option MapRec → Encoder → Result Encoder
encode_port pwm_res name entry enc = do
  out ← or_raise (lookup_port name port_name_map) key_error
  elim entry [
    | none ↦ ok enc
    | some r ↦ do
      (code, area_num) ← area_code r.area r.color
      encode_request out code area_num r.gamma (limited pwm_res r.white_cal) enc
  ]

unfoldable pub encode_ports : ℕ → ChannelMap → Encoder → Result Encoder
encode_ports pwm_res [] enc = ok enc
encode_ports pwm_res ((name, entry) ∷ rest) enc = do
  enc' ← encode_port pwm_res name entry enc
  encode_ports pwm_res rest enc'

-- The bytes before the records; the number of records is not known yet.
unfoldable pub encode_header : List ℕ → Result (List ℕ)
encode_header num_areas = do
  areas ← to_bytes num_areas
  ok (
      config_valid_id % 256
      ∷ config_valid_id / 256
      ∷ config_version_now % 256
      ∷ config_version_now / 256
      ∷ (areas ++ 0 ∷ []))

-- The `while` that fills the channel map up.
abbrev pub pad_outputs : List ChannelRec → List ChannelRec
pad_outputs outputs = outputs ++ replicate (nchannels - length outputs) empty_rec

unfoldable pub encode : Config → Result (List ℕ × List ChannelRec)
encode config = do
  header ← encode_header config.num_areas
  enc ←
      encode_ports config.pwm_res config.channel_map
        (record { requests = 0; known = []; eedata = header; outputs = [] })
  requests ← byte enc.requests
  overscan ← byte config.overscan
  analyze_size ← byte config.analyze_size
  edge_weighting ← byte config.edge_weighting
  weight_limit ← byte config.weight_limit
  let counted = set enc.eedata (4 + length config.num_areas) requests
  let settings = overscan ∷ analyze_size ∷ edge_weighting ∷ weight_limit ∷ []
  ok (counted ++ settings, pad_outputs enc.outputs)
