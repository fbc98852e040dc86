-- ===== src/Ctrl.antt =====
-- What the configuration and the dialogs call on a controller, whichever class it has: the methods
-- that DF10CHController and dummyController of df10ch_setup_pkg/device_drv.py share.
use df10ch_atmolight_control.Prelude.{ℕ, List, Text, Bool}
use df10ch_atmolight_control.Exec.{Exec}
use df10ch_atmolight_control.Controller.Payload.{ChannelRec}

pub record Ctrl (S : Type 0) : Type 0 where
  pub id : S → Text
  pub version : S → ℕ
  pub error_count : S → ℕ
  pub bootloader_mode : S → Bool
  pub release : Exec S (Unit {0})
  pub read_ee_data : ℕ → ℕ → Exec S (List ℕ)
  pub write_ee_data : ℕ → List ℕ → Exec S (Unit {0})
  pub reset_pwm_ctrl : Exec S (Unit {0})
  pub start_pwm_ctrl_bootloader : Exec S (Unit {0})
  pub start_bootloader : Exec S (Unit {0})
  pub start_appl : Exec S (Unit {0})
  pub get_reply_error_status : Exec S ℕ
  pub get_request_error_status : Exec S ℕ
  pub get_flash_page_size : Exec S ℕ
  pub write_flash_page : ℕ → List ℕ → Exec S (Unit {0})
  pub read_flash : ℕ → ℕ → Exec S (List ℕ)
  pub set_brightness : ℕ → List ℕ → Exec S (Unit {0})
  pub get_channel_map : ℕ → ℕ → Exec S (List ChannelRec)
  pub set_channel_map : ℕ → List ChannelRec → Exec S (Unit {0})
  pub set_common_brightness : ℕ → Exec S (Unit {0})
  pub get_common_brightness : Exec S ℕ
  pub get_max_pwm_value : Exec S ℕ
  pub get_common_max_pwm_value : Exec S ℕ
  pub set_pwm_freq : ℕ → Exec S (Unit {0})
  pub get_pwm_freq : Exec S ℕ
  pub store_setup : Exec S (Unit {0})
  pub reset_setup : Exec S (Unit {0})
  pub get_pwm_bootloader_mode : Exec S Bool
  pub get_pwm_version : Exec S ℕ
  pub pwm_echo_test : ℕ → Exec S (Unit {0})
  pub get_pwm_flash_page_size : Exec S ℕ
  pub write_pwm_flash_page : ℕ → List ℕ → Exec S (Unit {0})
  pub read_pwm_flash : ℕ → ℕ → Exec S (List ℕ)
