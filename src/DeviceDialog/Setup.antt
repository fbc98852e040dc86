-- ===== src/DeviceDialog/Setup.antt =====
-- Storing, resetting, backing up and restoring configurations
-- (df10ch_setup_pkg/device_dlg.py).
use df10ch_atmolight_control.Prelude.{
  ℕ, List, [], ◌∷◌, ◌++◌, Text, ◌==◌, Bool, true, some, if◌then◌else◌,
}
use df10ch_atmolight_control.Result.{ok, err, atmo}
use df10ch_atmolight_control.Exec.{Exec, pure, lift, gets, modify, ◌>>=◌, ◌>>◌}
use df10ch_atmolight_control.Decimal.{codes}
use df10ch_atmolight_control.Ctrl.{Ctrl}
use df10ch_atmolight_control.Config.{Config}
use df10ch_atmolight_control.Config.Registry.{Configs}
use df10ch_atmolight_control.Config.Methods.{write, reset}
use df10ch_atmolight_control.Devices.Loading.{ConfigMap}
use df10ch_atmolight_control.Layout.{set_layout_from_config, set_config_from_layout}
use df10ch_atmolight_control.DeviceDialog.{
  Dialog, on_device, shown, managed, store_managed, on_config, for_keys,
}

-- The configurations of the dict, and the dict with other configurations of the same keys.
unfoldable pub configs_of : ConfigMap → Configs
configs_of [] = []
configs_of ((id, m) ∷ rest) = (id, m.config) ∷ configs_of rest

unfoldable pub with_configs : ConfigMap → Configs → ConfigMap
with_configs [] configs = []
with_configs ((id, m) ∷ rest) [] = (id, m) ∷ rest
with_configs ((id, m) ∷ rest) ((k, config) ∷ configs) =
    (id, record m { config = config }) ∷ with_configs rest configs

-- `string.replace` of one character.
unfoldable pub replace_char : ℕ → ℕ → Text → Text
replace_char old new [] = []
replace_char old new (c ∷ t) =
    let rest = replace_char old new t in (if c == old then new else c) ∷ rest

-- The name that is proposed for a backup file.
unfoldable pub initial_file : Text → Text
initial_file id =
    replace_char b',' b'_' (replace_char b']' b')' (replace_char b'[' b'(' id)) ++ codes ".dfc"

module _ {S : Type 0} (ctrl : Ctrl S) where
  unfoldable pub put_layout_into_configs : Exec (Dialog S) (Unit {0})
  put_layout_into_configs s =
      (do
        configs ← lift (set_config_from_layout s.layout (configs_of s.config_map))
        modify (λ t. record t { config_map = with_configs t.config_map configs }))
        s

  unfoldable pub take_layout_from_configs : Exec (Dialog S) (Unit {0})
  take_layout_from_configs s =
      (do
        layout ← lift (set_layout_from_config (configs_of s.config_map))
        modify (λ t. record t { layout = layout }))
        s

  unfoldable pub store_setup : Exec (Dialog S) (Unit {0})
  store_setup = put_layout_into_configs >> λ s.
      shown (for_keys s.config_map (λ id. on_config true id (write ctrl))) s

  -- `confirmed` is the answer to the question.
  unfoldable pub reset_setup : Bool → Exec (Dialog S) (Unit {0})
  reset_setup confirmed s =
      if confirmed
      then shown (for_keys s.config_map (λ id. on_config true id (λ config. reset ctrl))) s
      else (ok tt, s)

  unfoldable pub reset_devices : Exec (Dialog S) (Unit {0})
  reset_devices s =
      shown (for_keys s.config_map λ id. do m ← managed id; on_device m.place ctrl.reset_pwm_ctrl) s

  -- The list of devices that is left to `release_devices`.
  unfoldable pub store_and_quit : Bool → Exec (Dialog S) (List S)
  store_and_quit confirmed s =
      (do
        (elim s.config_map [
          | [] ↦ pure tt
          | (id, m) ∷ rest ↦ (if confirmed then store_setup else pure tt) >> reset_devices
        ])
        gets (λ t. t.device_list))
        s

  -- The configuration that is pickled, without its `ctrl`: the file's content.
  unfoldable pub backup_setup : Text → Exec (Dialog S) Config
  backup_setup id = do put_layout_into_configs; m ← managed id; pure m.config

  -- A restored configuration is written, and an error is shown; then it is the configuration anyway.
  unfoldable pub write_restored : Text → ℕ → Config → Exec (Dialog S) Config
  write_restored id place config s =
      let (r, t) =
        on_device place
          (do
            ctrl.set_common_brightness config.common_bright
            ctrl.set_pwm_freq config.pwm_freq
            write ctrl config)
          s in
      elim r [
        | ok written ↦ (ok written, t)
        | err (atmo report) ↦ (
          ok config,
          record t { errors = t.errors ++ atmo report ∷ []; half_read = id ∷ t.half_read },
        )
        | err e ↦ (err e, t)
      ]

  -- `loaded` was unpickled from a file: it takes the id and the controller of the selected one.
  unfoldable pub restore_setup : Text → Config → Exec (Dialog S) (Unit {0})
  restore_setup id loaded s =
      (do
        m ← managed id
        config ← write_restored id m.place (record loaded { id = id })
        store_managed id (record m { config = config })
        modify (λ t. record t { selected_config = some id })
        take_layout_from_configs)
        s
