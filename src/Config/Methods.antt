-- ===== src/Config/Methods.antt =====
-- The methods of ControllerConfig, on any controller (df10ch_setup_pkg/device_drv.py). A method gives
-- the new configuration; where a call on the controller raises, there is none.
use df10ch_atmolight_control.Prelude.{ℕ, [], ◌∷◌, ◌==◌, if◌then◌else◌, none, some}
use df10ch_atmolight_control.Exec.{Exec, pure, lift, gets, ◌>>=◌, ◌>>◌}
use df10ch_atmolight_control.Protocol.{nchannels, port_name_map}
use df10ch_atmolight_control.Ctrl.{Ctrl}
use df10ch_atmolight_control.Config.{Config}
use df10ch_atmolight_control.Config.Decode.{eedata_size, is_valid_id, decode_settings, decode_ports}
use df10ch_atmolight_control.Config.Encode.{encode}

module _ {S : Type 0} (ctrl : Ctrl S) where
  unfoldable pub read : Exec S Config
  read = do
    ctrl.reset_pwm_ctrl
    pwm_res ← ctrl.get_max_pwm_value
    common_pwm_res ← ctrl.get_common_max_pwm_value
    pwm_freq ← ctrl.get_pwm_freq
    common_bright ← ctrl.get_common_brightness
    eedata ← ctrl.read_ee_data 1 eedata_size
    valid ← lift (is_valid_id eedata)
    settings ← lift (decode_settings eedata)
    usb ← gets ctrl.version
    pwm ← ctrl.get_pwm_version
    pwm_map ← ctrl.get_channel_map 0 nchannels
    channel_map ← lift (decode_ports valid eedata settings pwm_res pwm_map port_name_map)
    id ← gets ctrl.id
    pure (record {
      id = id;
      settings = settings;
      pwm_res = pwm_res;
      common_pwm_res = common_pwm_res;
      pwm_freq = pwm_freq;
      common_bright = common_bright;
      versions = record {
        usb = usb;
        pwm = pwm;
        config = if valid then some settings.config_version else none;
      };
      channel_map = channel_map;
    })

  -- Store the configuration, then read it again.
  unfoldable pub write : Config → Exec S Config
  write config = do
    (eedata, outputs) ← lift (encode config)
    ctrl.write_ee_data 1 eedata
    ctrl.set_channel_map 0 outputs
    ctrl.store_setup
    read

  -- Without a valid id the stored configuration is void.
  unfoldable pub reset : Exec S Config
  reset = do ctrl.write_ee_data 1 (0xFF ∷ 0xFF ∷ []); ctrl.reset_setup; read

  unfoldable pub set_common_bright : ℕ → Config → Exec S Config
  set_common_bright v config =
      if config.common_bright == v
      then pure config
      else (do ctrl.set_common_brightness v; pure (record config { common_bright = v }))

  unfoldable pub set_pwm_freq : ℕ → Config → Exec S Config
  set_pwm_freq v config = if config.pwm_freq == v then pure config else (do
    ctrl.set_pwm_freq v
    pwm_res ← ctrl.get_max_pwm_value
    pure (record config { pwm_res = pwm_res; pwm_freq = v }))
