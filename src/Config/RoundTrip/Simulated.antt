-- ===== src/Config/RoundTrip/Simulated.antt =====
-- What writing a configuration leaves on the simulated controller (ControllerConfig.write and
-- dummyController of df10ch_setup_pkg/device_drv.py).
use df10ch_atmolight_control.Prelude.{
  ℕ, zero, suc, ◌+◌, ◌-◌, ◌≤◌, ◌<◌, ◌≡◌, refl, ap, ◌∙◌, List, [], ◌∷◌, ◌++◌, some, length, take,
  drop, arith, subst,
}
use df10ch_atmolight_control.Result.{ok}
use df10ch_atmolight_control.Protocol.{nchannels, ncommonbrights, config_version_now, port_name_map}
use df10ch_atmolight_control.Dummy.{World, slice, splice, dummy_id}
use df10ch_atmolight_control.Dummy.Methods.{
  dummy_ctrl, read_ee_data, write_ee_data, set_channel_map, get_channel_map, store_setup,
  reset_pwm_ctrl, get_max_pwm_value, get_common_max_pwm_value, get_pwm_freq, get_common_brightness,
}
use df10ch_atmolight_control.Dummy.Laws.{drop-splice, slice-splice}
use df10ch_atmolight_control.Config.{Config}
use df10ch_atmolight_control.Config.Bounds.{InRange}
use df10ch_atmolight_control.Config.Decode.{eedata_size}
use df10ch_atmolight_control.Config.Methods.{read, write}
use df10ch_atmolight_control.Config.RoundTrip.{IsStorable, KeysDiffer}
use df10ch_atmolight_control.Config.RoundTrip.Header.{written}
use df10ch_atmolight_control.Config.RoundTrip.Outputs.{listed}
use df10ch_atmolight_control.Config.RoundTrip.Whole.{IsReadBack, encode-IsReadBack}

module _ {ℓ} {A : Type ℓ} where
  take_append_longer :
      (xs ys : List A) (n : ℕ) → length xs ≤ n → take n (xs ++ ys) ≡ xs ++ take (n - length xs) ys
  take_append_longer [] ys n h = ap (λ k. take k ys) (omega arith)
  take_append_longer (x ∷ xs) ys zero h = absurd (omega arith)
  take_append_longer (x ∷ xs) ys (suc n) h =
      ap (λ t. x ∷ t)
        (take_append_longer xs ys n (omega arith) ∙ ap (λ k. xs ++ take k ys) (omega arith))

-- A slice that reaches behind what was written.
slice_after :
    (l part : List ℕ) (start n : ℕ)
    → start ≤ length l
    → length part ≤ n
    → slice (splice l start part) start n
      ≡ part ++ take (n - length part) (drop (start + length part) l)
slice_after l part start n inside short =
    ap (take n) (drop-splice l start part inside) ∙ take_append_longer part _ n short

-- What is read after a configuration was written.
abbrev pub read_again : Config → World → ℕ → Config
read_again config w requests = record {
  id = dummy_id w.self.busnum w.self.devnum;
  settings = written config.settings requests;
  pwm_res = config.pwm_res;
  common_pwm_res = ncommonbrights - 1;
  pwm_freq = w.self.pwm_freq;
  common_bright = w.self.common_bright;
  versions = record { usb = w.self.version; pwm = 1; config = some config_version_now };
  channel_map = listed config.channel_map port_name_map;
}

-- Where the encoded bytes and outputs are read back, so is the whole configuration.
write_read_back :
    (config : Config) (w : World) (rest : List ℕ)
    → (b : IsReadBack config)
    → slice (splice w.self.ee_data 1 b.eedata) 1 eedata_size ≡ b.eedata ++ rest
    → slice (splice w.self.ch_map 0 b.outputs) 0 nchannels ≡ b.outputs
    → w.self.max_pwm ≡ config.pwm_res
    → (write dummy_ctrl config w).0 ≡ ok (read_again config w b.requests)
unfolding write read read_ee_data write_ee_data set_channel_map get_channel_map store_setup
    reset_pwm_ctrl get_max_pwm_value get_common_max_pwm_value get_pwm_freq get_common_brightness
write_read_back config w rest b bytes outs res = rw b.encodes (
    rw bytes (
      rw (b.is_valid rest, b.settings_back rest)
        (rw outs (rw res (rw (b.outputs_back rest) refl)))))

-- Writing a configuration to the simulated controller returns, and what it reads again is that
-- configuration: the same area counts and analyze settings, with the current version and the number
-- of requested channels, which is at most the number of outputs, and in the channel map each output
-- of the table with the record it had, or unused where it had none. The rest (id, frequency,
-- brightness, version numbers) is the controller's. The conditions: the settings are in range, there
-- are at most 30 outputs, each a name of the table that occurs once, each record has an area that an
-- area code and number stand for, a gamma between the limits and a white calibration of at most the
-- PWM resolution, different requests have different keys, the PWM resolution is the controller's and
-- below 65536, and the EEPROM is not empty.
pub write-read_again :
    (config : Config) (w : World)
    → 1 ≤ length w.self.ee_data
    → w.self.max_pwm ≡ config.pwm_res
    → InRange config.settings
    → config.pwm_res < 65536
    → length config.channel_map ≤ nchannels
    → IsStorable config.pwm_res config.channel_map
    → KeysDiffer config.pwm_res config.channel_map
    → (requests : ℕ) × (requests ≤ length config.channel_map)
      × ((write dummy_ctrl config w).0 ≡ ok (read_again config w requests))
write-read_again config w inside res h res_lt few storable differ =
    let b = encode-IsReadBack config h res_lt few storable differ in
    (
      b.requests,
      b.requests_le,
      write_read_back config w _ b
          (slice_after w.self.ee_data b.eedata 1 eedata_size inside b.eedata_le)
          (subst (λ n. slice (splice w.self.ch_map 0 b.outputs) 0 n ≡ b.outputs) b.outputs_length
            (slice-splice w.self.ch_map 0 b.outputs (omega arith)))
          res,
    )
