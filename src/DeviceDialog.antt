-- ===== src/DeviceDialog.antt =====
-- The device sheet (df10ch_setup_pkg/device_dlg.py). A configuration
-- is named by its key in the dict; a message box that shows an error is an entry of `errors`.
pub mod Setup
pub mod Scan
pub mod Status
pub mod Handlers
pub mod Choice
pub mod Flashing
use df10ch_atmolight_control.Prelude.{
  ℕ, zero, suc, ◌+◌, List, [], ◌∷◌, ◌++◌, Text, Bool, true, false, Option, none, some, get_elem?,
  set, if◌then◌else◌,
}
use df10ch_atmolight_control.Result.{
  Result, ok, err, Failure, atmo, index_error, key_error, or_raise,
}
use df10ch_atmolight_control.Exec.{Exec, pure, lift, gets, modify, ◌>>=◌, ◌>>◌}
use df10ch_atmolight_control.Ctrl.{Ctrl}
use df10ch_atmolight_control.Config.{Config}
use df10ch_atmolight_control.Config.Registry.{Configs}
use df10ch_atmolight_control.Config.Methods.{set_common_bright, set_pwm_freq}
use df10ch_atmolight_control.Devices.Loading.{Managed, ConfigMap, find_managed, put_managed}
use df10ch_atmolight_control.Layout.{Layout}

-- `half_read` has the keys of the configurations whose `read` an exception may have ended: such an
-- object can hold old and new values, and the model keeps the old ones.
pub record Dialog (S : Type 0) : Type 0 where
  pub device_list : List S
  pub config_map : ConfigMap
  pub half_read : List Text
  pub layout : Layout
  pub selected_config : Option Text
  pub selected_device_idx : Option ℕ
  pub echo_test_running : Bool
  pub errors : List Failure

module _ {S : Type 0} where
  -- A call on the controller at this place of the list.
  unfoldable pub on_device : {A : Type 0} → ℕ → Exec S A → Exec (Dialog S) A
  on_device place m s = elim (get_elem? s.device_list place) [
    | none ↦ (err index_error, s)
    | some c ↦ let (r, c') = m c in (r, record s { device_list = set s.device_list place c' })
  ]

  -- `except AtmoControllerError`: the error is shown, and the program goes on.
  abbrev pub show_error : Result (Unit {0}) → Exec (Dialog S) (Unit {0})
  show_error (ok u) s = (ok tt, s)
  show_error (err (atmo report)) s = (ok tt, record s { errors = s.errors ++ atmo report ∷ [] })
  show_error (err e) s = (err e, s)

  unfoldable pub shown : Exec (Dialog S) (Unit {0}) → Exec (Dialog S) (Unit {0})
  shown m s = let (r, s') = m s in show_error r s'

  unfoldable pub managed : Text → Exec (Dialog S) Managed
  managed id s = (or_raise (find_managed id s.config_map) key_error, s)

  unfoldable pub store_managed : Text → Managed → Exec (Dialog S) (Unit {0})
  store_managed id m = modify (λ s. record s { config_map = put_managed id m s.config_map })

  -- A method of a configuration, which gives its new values; one that reads them all again leaves a
  -- half read object where an exception ends it.
  unfoldable pub on_config : Bool → Text → (Config → Exec S Config) → Exec (Dialog S) (Unit {0})
  on_config reads id method s =
      (do
        m ← managed id
        λ t.
            (let (r, u) = on_device m.place (method m.config) t in
              elim r [
                | ok config ↦ store_managed id (record m { config = config }) u
                | err e ↦ (
                  err e,
                  record u { half_read = if reads then id ∷ u.half_read else u.half_read },
                )
              ]))
        s

  -- `for id in ConfigMap.keys()`: an exception ends the loop.
  unfoldable pub for_keys :
      ConfigMap → (Text → Exec (Dialog S) (Unit {0})) → Exec (Dialog S) (Unit {0})
  for_keys [] body = pure tt
  for_keys ((id, m) ∷ rest) body = body id >> for_keys rest body

  -- What the sliders call, if a configuration is selected.
  module _ (ctrl : Ctrl S) where
    unfoldable pub cb_set_common_brightness : ℕ → Exec (Dialog S) (Unit {0})
    cb_set_common_brightness v s = elim s.selected_config [
      | none ↦ (ok tt, s)
      | some id ↦ shown (on_config false id (set_common_bright ctrl v)) s
    ]

    unfoldable pub cb_set_pwm_freq : ℕ → Exec (Dialog S) (Unit {0})
    cb_set_pwm_freq v s = elim s.selected_config [
      | none ↦ (ok tt, s)
      | some id ↦ shown (on_config false id (set_pwm_freq ctrl v)) s
    ]
