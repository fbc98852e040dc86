-- ===== src/DeviceDialog/Choice.antt =====
-- The questions and checks before a firmware update (the first part of firmwareUpdate of
-- df10ch_setup_pkg/device_dlg.py).
use df10ch_atmolight_control.Prelude.{
  ◌≡◌, refl, List, [], ◌∷◌, Text, text_eq, Bool, ◌||◌, Option, none, some, if◌then◌else◌,
}
use df10ch_atmolight_control.Result.{Result, ok, err, Failure, flash}
use df10ch_atmolight_control.Decimal.{codes}
use df10ch_atmolight_control.Ctrl.{Ctrl}
use df10ch_atmolight_control.Firmware.{FlashMem}

-- How the choice ends: without a file, with a message, with "cancel", or with an image for a target.
pub data Choice : Type 0 where
  no_file : Choice
  not_loaded : Failure → Choice
  unknown_target : Option Text → Choice
  usb_first : Text → Choice
  declined : Choice
  chosen : Text → FlashMem → Choice

-- The first controller that runs its USB bootloader.
unfoldable pub find_bootloader : {S : Type 0} → Ctrl S → List S → Option Text
find_bootloader ctrl [] = none
find_bootloader ctrl (c ∷ cs) =
    let later = find_bootloader ctrl cs in
    if ctrl.bootloader_mode c then some (ctrl.id c) else later

-- The image for a known target; a PWM controller's waits for those of the USB controllers.
unfoldable pub check_target : {S : Type 0} → Ctrl S → List S → Bool → Text → FlashMem → Choice
check_target ctrl devices confirmed target fw =
    let is_pwm = text_eq target (codes "DF10CH-PWM") in
    if text_eq target (codes "DF10CH-USB") || is_pwm
    then elim (if is_pwm then find_bootloader ctrl devices else none) [
      | some id ↦ usb_first id
      | none ↦ if confirmed then chosen target fw else declined
    ]
    else unknown_target (some target)

-- `file` is none where no file was chosen, else what loading it gives. An error of the file or of
-- its lines is shown.
unfoldable pub choose_firmware :
    {S : Type 0} → Ctrl S → List S → Bool → Option (Result FlashMem) → Result Choice
choose_firmware ctrl devices confirmed none = ok no_file
choose_firmware ctrl devices confirmed (some (err (flash line))) = ok (not_loaded (flash line))
choose_firmware ctrl devices confirmed (some (err e)) = err e
choose_firmware ctrl devices confirmed (some (ok fw)) = ok (elim fw.target [
  | none ↦ unknown_target none
  | some target ↦ check_target ctrl devices confirmed target fw
])

-- A PWM controller's firmware is chosen only if no controller runs its USB bootloader.
check_target-ready :
    {S : Type 0} (ctrl : Ctrl S) (devices : List S) (confirmed : Bool) (fw fw' : FlashMem)
    (target : Text)
    → check_target ctrl devices confirmed (codes "DF10CH-PWM") fw ≡ chosen target fw'
    → find_bootloader ctrl devices ≡ none
unfolding check_target text_eq
check_target-ready ctrl devices confirmed fw fw' target h =
    by_found (find_bootloader ctrl devices) refl
  where
    by_found :
        (o : Option Text) → find_bootloader ctrl devices ≡ o → find_bootloader ctrl devices ≡ none
    by_found none e = e
    by_found (some id) e = let h' = rw e at h in absurd (cc)
