-- ===== src/DeviceDialog/Flashing.antt =====
-- The whole of a firmware update (firmwareUpdate of df10ch_setup_pkg/device_dlg.py), from the choice
-- of the file to the new scan. The errors that the loops over the controllers show are not kept.
use df10ch_atmolight_control.Prelude.{
  List, [], ◌∷◌, ◌++◌, Text, text_eq, Bool, true, false, ◌&&◌, ◌||◌, not, Option, none, some,
  if◌then◌else◌,
}
use df10ch_atmolight_control.Result.{Result, ok, err, Failure, atmo}
use df10ch_atmolight_control.Exec.{Exec, pure, gets, ◌>>=◌, ◌>>◌}
use df10ch_atmolight_control.Decimal.{codes}
use df10ch_atmolight_control.Ctrl.{Ctrl}
use df10ch_atmolight_control.Firmware.{FlashMem}
use df10ch_atmolight_control.Firmware.Load.{load_firmware}
use df10ch_atmolight_control.Update.{target_of, start_bootloaders, update_all, start_firmware}
use df10ch_atmolight_control.DeviceDialog.{Dialog}
use df10ch_atmolight_control.DeviceDialog.Choice.{Choice, chosen, choose_firmware}
use df10ch_atmolight_control.DeviceDialog.Scan.{is_scan_error, scan_devices}

abbrev pub is_atmo : Failure → Bool
is_atmo (atmo report) = true
is_atmo other = false

-- Whether one of the controllers is not in its USB bootloader.
unfoldable pub has_appl : {S : Type 0} → Ctrl S → List S → Bool
has_appl ctrl [] = false
has_appl ctrl (c ∷ cs) = let later = has_appl ctrl cs in not (ctrl.bootloader_mode c) || later

module _ {S : Type 0} (ctrl : Ctrl S) (find : Exec (List S) (Unit {0})) where
  unfoldable pub on_devices : {A : Type 0} → Exec (List S) A → Exec (Dialog S) A
  on_devices m s = let (r, devices) = m s.device_list in (r, record s { device_list = devices })

  -- A caught error is shown; whether there was none.
  abbrev pub went_well : (Failure → Bool) → Result (Unit {0}) → Exec (Dialog S) Bool
  went_well is_caught (ok u) s = (ok true, s)
  went_well is_caught (err e) s =
      if is_caught e then (ok false, record s { errors = s.errors ++ e ∷ [] }) else (err e, s)

  unfoldable pub tried : (Failure → Bool) → Exec (List S) (Unit {0}) → Exec (Dialog S) Bool
  tried is_caught m s = let (r, s') = on_devices m s in went_well is_caught r s'

  -- Controllers that restart as bootloaders are looked for again.
  unfoldable pub refresh : Bool → Exec (Dialog S) Bool
  refresh do_refresh = if do_refresh then tried is_scan_error find else pure true

  -- `lines` is what the file holds. Without a started bootloader the controllers are gone through,
  -- but not flashed.
  unfoldable pub run_update : Text → Option (List Text) → FlashMem → Exec (Dialog S) (Unit {0})
  run_update name lines fw = do
    do_refresh ← gets (λ s. text_eq name (codes "DF10CH-USB") && has_appl ctrl s.device_list)
    started ← tried is_atmo (start_bootloaders (target_of name ctrl))
    found ← refresh do_refresh
    on_devices (λ devices. update_all (target_of name ctrl) lines devices (started && found) fw)
    on_devices (start_firmware (target_of name ctrl))

  -- The answers are those to the boxes of the scan; without an update there is none.
  unfoldable pub after_choice :
      Result Choice → Option (List Text) → List Bool → Exec (Dialog S) (Option Bool)
  after_choice (err e) lines answers s = (err e, s)
  after_choice (ok (chosen name fw)) lines answers s =
      (run_update name lines fw >> scan_devices ctrl find answers) s
  after_choice (ok choice) lines answers s = (ok none, s)

  -- `file` is none where none was chosen, else what it holds, if it can be read.
  unfoldable pub firmware_update :
      Option (Option (List Text)) → Bool → List Bool → Exec (Dialog S) (Option Bool)
  firmware_update none confirmed answers s =
      after_choice (choose_firmware ctrl s.device_list confirmed none) none answers s
  firmware_update (some lines) confirmed answers s =
      after_choice
        (choose_firmware ctrl s.device_list confirmed (some (load_firmware lines 64 true))) lines
        answers s

  unfoldable pub cb_firmware_update :
      Option (Option (List Text)) → Bool → List Bool → Exec (Dialog S) (Option Bool)
  cb_firmware_update file confirmed answers s = elim s.device_list [
    | [] ↦ (ok none, s)
    | c ∷ cs ↦ firmware_update file confirmed answers s
  ]
