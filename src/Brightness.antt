-- ===== src/Brightness.antt =====
-- The common brightness sheet (df10ch_setup_pkg/bright_dlg.py). The floats of Python are a
-- parameter, as in `WhiteCal`.
use df10ch_atmolight_control.Prelude.{
  ◌-◌, List, [], ◌∷◌, ◌++◌, Text, Bool, true, false, none, some, length, replicate, if◌then◌else◌,
}
use df10ch_atmolight_control.Result.{Result, ok, err, atmo, key_error}
use df10ch_atmolight_control.Exec.{Exec, pure, lift, modify, ◌>>=◌, ◌>>◌}
use df10ch_atmolight_control.Protocol.{nchannels, lookup_port, port_name_map}
use df10ch_atmolight_control.Controller.Payload.{ChannelRec}
use df10ch_atmolight_control.Ctrl.{Ctrl}
use df10ch_atmolight_control.Dummy.{empty_rec}
use df10ch_atmolight_control.Config.{Config, ChannelMap}
use df10ch_atmolight_control.Config.Methods.{set_common_bright}
use df10ch_atmolight_control.Devices.Loading.{ConfigMap}
use df10ch_atmolight_control.DeviceDialog.{Dialog, on_device, on_config, managed, for_keys, shown}
use df10ch_atmolight_control.WhiteCal.{Floats}

-- Every output that is used, on channel 0.
unfoldable pub used_outputs : ChannelMap → Result (List ChannelRec)
used_outputs [] = ok []
used_outputs ((port_name, none) ∷ rest) = used_outputs rest
used_outputs ((port_name, some r) ∷ rest) = elim (lookup_port port_name port_name_map) [
  | none ↦ err key_error
  | some (port, pin) ↦ elim (used_outputs rest) [
    | err e ↦ err e
    | ok entries ↦ ok ((record { channel = 0; port = port; pins = pin }) ∷ entries)
  ]
]

-- The sheet's one variable, and what the device sheet has.
pub record Slider (S F : Type 0) : Type 0 where
  pub dialog : Dialog S
  pub bright : F

unfoldable pub on_dialog : {S F A : Type 0} → Exec (Dialog S) A → Exec (Slider S F) A
on_dialog m s = let (r, d) = m s.dialog in (r, record s { dialog = d })

module _ {S F : Type 0} (ctrl : Ctrl S) (floats : Floats F) where
  -- Only channel 0 is bright.
  abbrev pub light_outputs : Config → List ChannelRec → Exec S (Unit {0})
  light_outputs config entries =
      ctrl.set_channel_map 0 (entries ++ replicate (nchannels - length entries) empty_rec)
      >> ctrl.set_brightness 0 (config.pwm_res ∷ replicate (nchannels - 1) 0)

  -- An error of a controller is shown and ends `loadValues`; whether it was one.
  abbrev pub failed : Result (Unit {0}) → Exec (Dialog S) Bool
  failed (ok u) s = (ok false, s)
  failed (err (atmo report)) s = (ok true, record s { errors = s.errors ++ atmo report ∷ [] })
  failed (err e) s = (err e, s)

  unfoldable pub load_config : Text → Exec (Slider S F) Bool
  load_config id = do
    m ← on_dialog (managed id)
    entries ← lift (used_outputs m.config.channel_map)
    bright ← lift (floats.ratio m.config.common_bright m.config.common_pwm_res)
    modify (λ t. record t { bright = bright })
    on_dialog
        λ d. (let (r, d') = on_device m.place (light_outputs m.config entries) d in failed r d')

  unfoldable pub load_configs : ConfigMap → Exec (Slider S F) Bool
  load_configs [] = pure false
  load_configs ((id, m) ∷ rest) =
      load_config id >>= λ stopped. if stopped then pure true else load_configs rest

  unfoldable pub set_bright : Exec (Slider S F) (Unit {0})
  set_bright s =
      on_dialog
        (shown (
          for_keys s.dialog.config_map λ id. on_config false id λ config.
            set_common_bright ctrl (floats.rounded (floats.scaled s.bright config.common_pwm_res))
              config))
        s

  unfoldable pub load_values : Exec (Slider S F) (Unit {0})
  load_values s =
      (load_configs s.dialog.config_map >>= λ stopped. if stopped then pure tt else set_bright) s
