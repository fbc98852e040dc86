-- ===== src/Tests/Codes.antt =====
-- Codes, names and payloads.
use df10ch_atmolight_control.Prelude.{ℕ, ◌≡◌, refl, List, [], ◌∷◌, some, none, arith, text_eq}
use df10ch_atmolight_control.Prelude.Int.{pos}
use df10ch_atmolight_control.Result.{ok, ◌>>=◌}
use df10ch_atmolight_control.Decimal.{codes, print_nat}
use df10ch_atmolight_control.Protocol.{get_comm_err_msg, port_name_map, lookup_port}
use df10ch_atmolight_control.Areas.{area_name, area_code, color_name}
use df10ch_atmolight_control.Areas.Laws.{area_code-area_name}
use df10ch_atmolight_control.Controller.Payload.{
  ChannelRec, encode_words, decode_words, encode_map, decode_map,
}
use df10ch_atmolight_control.Controller.Payload.RoundTrip.{decode-encode_words, decode-encode_map}

area_name_left : area_name 10 6 ≡ some (codes "Left-7")
unfolding area_name print_nat
area_name_left = refl

area_name_center : area_name 17 3 ≡ some (codes "Center")
unfolding area_name
area_name_center = refl

area_name_unknown : area_name 36 0 ≡ none
unfolding area_name
area_name_unknown = refl

color_name_blue : color_name 10 ≡ ok (codes "blue")
unfolding color_name
color_name_blue = refl

msg_flags : get_comm_err_msg 5 ≡ codes " OVERRUN TIMEOUT"
unfolding get_comm_err_msg
msg_flags = refl

first_port : lookup_port (codes " 1.1") port_name_map ≡ some (0, 4)
unfolding lookup_port port_name_map text_eq
first_port = refl

last_port : lookup_port (codes "10.3") port_name_map ≡ some (1, 4)
unfolding lookup_port port_name_map text_eq
last_port = refl

area_code-area_name_example : area_code (codes "Left-7") 2 ≡ ok (10, pos 6)
area_code-area_name_example = area_code-area_name 10 6 (codes "Left-7") area_name_left

abbrev levels : List ℕ
levels = 0 ∷ 511 ∷ 65535 ∷ []

decode-encode_words_example : (encode_words levels >>= λ bytes. decode_words bytes 3) ≡ ok levels
decode-encode_words_example = decode-encode_words levels (omega arith)

abbrev entries : List ChannelRec
entries =
    record { channel = 0; port = 2; pins = 0x80 } ∷ record { channel = 29; port = 3; pins = 4 } ∷ []

decode-encode_map_example : (encode_map entries >>= λ bytes. decode_map bytes 2) ≡ ok entries
decode-encode_map_example = decode-encode_map entries (omega arith)
