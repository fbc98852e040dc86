-- ===== src/Devices/Loading.antt =====
-- Reading the configuration of every controller (LoadConfigs of df10ch_setup_pkg/device_drv.py).
-- The controllers are a list of states of either class; a configuration names its controller by the
-- place in that list.
use df10ch_atmolight_control.Prelude.{
  ℕ, ◌+◌, List, [], ◌∷◌, Text, text_eq, Option, none, some, if◌then◌else◌,
}
use df10ch_atmolight_control.Result.{Result, ok, err}
use df10ch_atmolight_control.Exec.{Exec, pure, gets, ◌>>=◌}
use df10ch_atmolight_control.Ctrl.{Ctrl}
use df10ch_atmolight_control.Config.{Config}
use df10ch_atmolight_control.Config.Methods.{read}

-- A configuration and the place of its `ctrl`.
pub record Managed : Type 0 where
  pub config : Config
  pub place : ℕ

-- `ConfigMap`
abbrev pub ConfigMap : Type 0
ConfigMap = List (Text × Managed)

-- `ConfigMap[id] = config`
unfoldable pub put_managed : Text → Managed → ConfigMap → ConfigMap
put_managed id m [] = (id, m) ∷ []
put_managed id m ((k, old) ∷ rest) =
    let later = put_managed id m rest in if text_eq k id then (k, m) ∷ rest else (k, old) ∷ later

unfoldable pub find_managed : Text → ConfigMap → Option Managed
find_managed id [] = none
find_managed id ((k, m) ∷ rest) =
    let later = find_managed id rest in if text_eq k id then some m else later

module _ {S : Type 0} (ctrl : Ctrl S) where
  -- A controller that runs a bootloader has no configuration.
  unfoldable pub load_one : Exec S (Option Config)
  load_one = do
    usb_boot ← gets ctrl.bootloader_mode
    (if usb_boot then pure none else (do
      pwm_boot ← ctrl.get_pwm_bootloader_mode
      (if pwm_boot then pure none else (do config ← read ctrl; pure (some config)))))

  abbrev pub with_config : Text → ℕ → Option Config → ConfigMap → ConfigMap
  with_config id place none map = map
  with_config id place (some config) map =
      put_managed id (record { config = config; place = place }) map

  -- The loop over the controllers from a place: an exception ends it, and what was read before stays
  -- in the dict.
  unfoldable pub load_from : ℕ → ConfigMap → List S → Result (Unit {0}) × ConfigMap × List S
  load_from place map [] = (ok tt, map, [])
  load_from place map (c ∷ cs) =
      let (r, c') = load_one c in
      elim r [
        | ok loaded ↦
            let (r', map', cs') =
              load_from (place + 1) (with_config (ctrl.id c') place loaded map) cs in
            (r', map', c' ∷ cs')
        | err e ↦ (err e, map, c' ∷ cs)
      ]

  -- The dict starts empty, and FindDevices, here `find`, makes the list anew.
  unfoldable pub load_configs :
      Exec (List S) (Unit {0}) → List S → Result (Unit {0}) × ConfigMap × List S
  load_configs find devices =
      let (r, found) = find devices in
      elim r [ err e ↦ (err e, [], found) | ok u ↦ load_from 0 [] found ]
