-- ===== src/Controller/Payload.antt =====
-- The payloads of the pwm controller's requests: 16-bit values and channel map entries as bytes
-- (set_brightness, get_brightness, set_channel_map and get_channel_map of
-- df10ch_setup_pkg/device_drv.py).
pub mod RoundTrip
use df10ch_atmolight_control.Prelude.{ℕ, zero, suc, ◌+◌, ◌*◌, ◌/◌, ◌%◌, ◌<◌, List, [], ◌∷◌}
use df10ch_atmolight_control.Result.{Result, ok, err, ◌>>=◌, at, byte, for_range, word_at}
use df10ch_atmolight_control.Protocol.{cm_code, cm_channel, cm_port}

-- The loop that fills the bytearray: storing a byte that does not fit raises ValueError.
unfoldable pub encode_words : List ℕ → Result (List ℕ)
encode_words [] = ok []
encode_words (v ∷ vs) = do hi ← byte (v / 256); rest ← encode_words vs; ok (v % 256 ∷ hi ∷ rest)

unfoldable pub decode_words : List ℕ → ℕ → Result (List ℕ)
unfolding for_range
decode_words bytes nch = for_range (λ i. word_at bytes (i * 2)) nch 0

-- One entry of a channel map: `dict(channel=…, port=…, pins=…)`.
pub record ChannelRec : Type 0 where
  pub channel : ℕ
  pub port : ℕ
  pub pins : ℕ

unfoldable pub encode_map : List ChannelRec → Result (List ℕ)
encode_map [] = ok []
encode_map (r ∷ rs) = do
  code ← byte (cm_code r.port r.channel)
  pins ← byte r.pins
  rest ← encode_map rs
  ok (code ∷ pins ∷ rest)

abbrev pub decode_entry : List ℕ → ℕ → Result ChannelRec
decode_entry bytes i = do
  code ← at bytes (i * 2)
  pins ← at bytes (i * 2 + 1)
  ok (record { channel = cm_channel code; port = cm_port code; pins = pins })

unfoldable pub decode_map : List ℕ → ℕ → Result (List ChannelRec)
unfolding for_range
decode_map bytes nch = for_range (decode_entry bytes) nch 0
