-- ===== src/Controller/Updates.antt =====
-- The requests of DF10CHController that carry lists (df10ch_setup_pkg/device_drv.py): what they
-- raise, and what they refuse.
use df10ch_atmolight_control.Prelude.{ℕ, ◌+◌, ◌*◌, ◌<◌, ◌≤◌, ◌≡◌, List, ◌∷◌, length, arith, All}
use df10ch_atmolight_control.Result.{Result, err, atmo, payload_too_long, value_error, word_at}
use df10ch_atmolight_control.Exec.{continue, lift}
use df10ch_atmolight_control.Usb.{Usb}
use df10ch_atmolight_control.Protocol.{
  def_usb_timeout, def_retry, pwm_req_set_brightness, pwm_req_set_brightness_synced,
  pwm_req_get_brightness, pwm_req_get_channel_map,
}
use df10ch_atmolight_control.Controller.{Controller, count_error, pwm_ctrl_write}
use df10ch_atmolight_control.Controller.Payload.{
  ChannelRec, encode_words, decode_words, decode_map, decode_entry,
}
use df10ch_atmolight_control.Controller.Payload.RoundTrip.{
  AreWords, Fits, encode_words-eq, encode_map-eq, word_bytes, length-pair_bytes, low_byte,
  high_byte, code_byte, pins_byte,
}
use df10ch_atmolight_control.Controller.Raises.{
  RaisesAtmo, pwm_ctrl_read-Reads, Reads-continue, at-RaisesAtmo, word_at-RaisesAtmo,
  for_range-RaisesAtmo,
}
use df10ch_atmolight_control.Controller.Requests.{
  set_brightness, set_brightness_synced, get_brightness, set_channel_map, get_channel_map,
  pwm_write_default, pwm_read_default,
}

entry-RaisesAtmo :
    (bytes : List ℕ) (i : ℕ) → i * 2 + 1 < length bytes → RaisesAtmo (decode_entry bytes i)
entry-RaisesAtmo bytes i h =
    ground (arith, at-RaisesAtmo bytes (i * 2) (omega arith), at-RaisesAtmo bytes (i * 2 + 1) h)

module _ {D : Type 0} (usb : Usb D) (start : ℕ) (c : Controller D) where
  -- More than 64 values or entries do not fit the pwm controller's payload: the request is refused
  -- and counted, and the device is not asked.
  pub updates_too_long :
      (values : List ℕ) (entries : List ChannelRec)
      → AreWords values
      → All Fits entries
      → 64 < length values
      → 64 < length entries
      → (set_brightness usb start values c ≡ (err (atmo payload_too_long), count_error c))
        × (set_brightness_synced usb start values c ≡ (err (atmo payload_too_long), count_error c))
        × (set_channel_map usb start entries c ≡ (err (atmo payload_too_long), count_error c))
  unfolding set_brightness set_brightness_synced set_channel_map
  updates_too_long values entries words fits long many = (
    rw (encode_words-eq values words) (refused pwm_req_set_brightness),
    rw (encode_words-eq values words) (refused pwm_req_set_brightness_synced),
    rw (encode_map-eq entries fits)
        (unfold pwm_ctrl_write in ground (arith, length-pair_bytes code_byte pins_byte entries)),
  )
    where
      refused :
          (req : ℕ)
          → pwm_write_default usb req 0 start (word_bytes values) c
            ≡ (err (atmo payload_too_long), count_error c)
      refused req =
          unfold pwm_ctrl_write in ground (arith, length-pair_bytes low_byte high_byte values)

  -- Reading values or entries back returns, or raises AtmoControllerError: the reply has two bytes
  -- for each.
  pub readings-RaiseAtmo :
      (nch : ℕ)
      → RaisesAtmo (get_brightness usb start nch c).0
        × RaisesAtmo (get_channel_map usb start nch c).0
  unfolding get_brightness get_channel_map decode_words decode_map
  readings-RaiseAtmo nch = (
    answered pwm_req_get_brightness (λ reply. decode_words reply nch)
        (λ bytes h.
          for_range-RaisesAtmo (λ i. word_at bytes (i * 2)) nch 0 nch
            (λ i lt. word_at-RaisesAtmo bytes (i * 2) (omega arith)) (omega arith)),
    answered pwm_req_get_channel_map (λ reply. decode_map reply nch)
        (λ bytes h.
          for_range-RaisesAtmo (decode_entry bytes) nch 0 nch
            (λ i lt. entry-RaisesAtmo bytes i (omega arith)) (omega arith)),
  )
    where
      answered :
          {A : Type 0} (req : ℕ) (f : List ℕ → Result A)
          → ((bytes : List ℕ) → length bytes ≡ nch * 2 → RaisesAtmo (f bytes))
          → RaisesAtmo
              (let (r, s) = pwm_read_default usb req 0 start (nch * 2) c in
                continue r (λ b. lift (f b)) s).0
      answered req f h =
          let (r, s) = pwm_read_default usb req 0 start (nch * 2) c in
          Reads-continue (nch * 2) f r s h (
            pwm_ctrl_read-Reads usb req 0 start (nch * 2) def_usb_timeout def_retry c (omega arith))

-- A brightness value of more than 16 bits raises ValueError before anything is sent.
pub set_brightness_overflow :
    {D : Type 0} (usb : Usb D) (start v : ℕ) (vs : List ℕ) (c : Controller D)
    → 65536 ≤ v
    → set_brightness usb start (v ∷ vs) c ≡ (err value_error, c)
unfolding set_brightness encode_words
set_brightness_overflow usb start v vs c h = ground arith
