-- ===== src/DeviceDialog/Handlers.antt =====
-- What the buttons of the device sheet call (df10ch_setup_pkg/device_dlg.py).
use df10ch_atmolight_control.Prelude.{ℕ, List, [], ◌∷◌, Bool, Option, none, some}
use df10ch_atmolight_control.Result.{ok}
use df10ch_atmolight_control.Exec.{Exec, pure, ◌>>=◌, ◌>>◌}
use df10ch_atmolight_control.Ctrl.{Ctrl}
use df10ch_atmolight_control.Config.{Config, Versions}
use df10ch_atmolight_control.DeviceDialog.{Dialog, managed}
use df10ch_atmolight_control.DeviceDialog.Setup.{
  store_setup, reset_setup, backup_setup, restore_setup,
}
use df10ch_atmolight_control.DeviceDialog.Scan.{select_device}

-- What the sheet shows of the selected configuration.
pub record Values : Type 0 where
  pub version : Versions
  pub pwm_res : ℕ
  pub pwm_freq : ℕ
  pub common_bright : ℕ

unfoldable pub load_device_values : Config → Values
load_device_values config = record {
  version = config.versions;
  pwm_res = config.pwm_res;
  pwm_freq = config.pwm_freq;
  common_bright = config.common_bright;
}

module _ {S : Type 0} (ctrl : Ctrl S) where
  -- The values of the selected configuration, if there is one.
  unfoldable pub show_selected : Exec (Dialog S) (Option Values)
  show_selected s = elim s.selected_config [
    | none ↦ (ok none, s)
    | some id ↦ (managed id >>= λ m. pure (some (load_device_values m.config))) s
  ]

  unfoldable pub if_configured : Exec (Dialog S) (Unit {0}) → Exec (Dialog S) (Unit {0})
  if_configured m s = elim s.config_map [ [] ↦ (ok tt, s) | c ∷ cs ↦ m s ]

  unfoldable pub cb_reset_setup : Bool → Exec (Dialog S) (Option Values)
  cb_reset_setup confirmed = if_configured (reset_setup ctrl confirmed) >> show_selected

  unfoldable pub cb_store_setup : Exec (Dialog S) (Option Values)
  cb_store_setup = if_configured (store_setup ctrl) >> show_selected

  -- The content of the file.
  unfoldable pub cb_backup_setup : Exec (Dialog S) (Option Config)
  cb_backup_setup s = elim s.selected_config [
    | none ↦ (ok none, s)
    | some id ↦ (backup_setup ctrl id >>= λ config. pure (some config)) s
  ]

  -- `loaded` is the file's content; none where no file was chosen or it cannot be read.
  unfoldable pub cb_restore_setup : Option Config → Exec (Dialog S) (Option Values)
  cb_restore_setup loaded s = elim s.selected_config [
    | none ↦ (ok none, s)
    | some id ↦ elim loaded [
      | none ↦ (ok none, s)
      | some config ↦ (restore_setup ctrl id config >> show_selected) s
    ]
  ]

  -- `selection` has the lines that are selected in the list.
  unfoldable pub cb_select_device : List ℕ → Exec (Dialog S) (Unit {0})
  cb_select_device (i ∷ []) s = select_device ctrl (pure tt) i s
  cb_select_device selection s = (ok tt, s)
