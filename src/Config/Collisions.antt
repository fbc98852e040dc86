-- ===== src/Config/Collisions.antt =====
-- The keys under which ControllerConfig.write shares requested channels
-- (df10ch_setup_pkg/device_drv.py).
use df10ch_atmolight_control.Prelude.{ℕ, ◌≡◌, refl, ◌∷◌, text_eq_refl, none, some, arith}
use df10ch_atmolight_control.Prelude.Int.{pos}
use df10ch_atmolight_control.Result.{ok, >>=-eq-ok}
use df10ch_atmolight_control.Decimal.{print_nat, print_int, digits_from}
use df10ch_atmolight_control.Config.Encode.{
  Encoder, request_key, lookup_key, request_bytes, add_output, encode_request,
}

same_key : (code : ℕ) → request_key code (pos 1) 12 20 ≡ request_key code (pos 11) 22 0
unfolding request_key print_int print_nat digits_from
same_key code = refl

-- An output with area number 1, gamma 12 and white calibration 20 gets a new channel. Then an
-- output with the same area code, area number 11, gamma 22 and white calibration 0 is mapped to that
-- channel too, and nothing of its own is added to the EEPROM's bytes.
pub request_keys_collide :
    (out out' : ℕ × ℕ) (code : ℕ) (enc enc' : Encoder)
    → lookup_key (request_key code (pos 1) 12 20) enc.known ≡ none
    → encode_request out code (pos 1) 12 20 enc ≡ ok enc'
    → encode_request out' code (pos 11) 22 0 enc' ≡ ok (add_output enc' enc.requests out')
unfolding encode_request lookup_key
request_keys_collide out out' code enc enc' fresh h =
    let key = request_key code (pos 1) 12 20 in
    let (bytes, written, same) =
      >>=-eq-ok (request_bytes enc.requests code (pos 1) 12 20) _
        (rw (fresh, encode_request) at h) in
    let stored : enc'.known ≡ (key, enc.requests) ∷ enc.known = ground arith in
    let again = text_eq_refl key in
    let found : lookup_key (request_key code (pos 11) 22 0) enc'.known ≡ some enc.requests =
      rw (← same_key code) (rw (stored, again) refl) in
    rw (found, encode_request) refl
