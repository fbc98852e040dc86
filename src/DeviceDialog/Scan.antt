-- ===== src/DeviceDialog/Scan.antt =====
-- Scanning for controllers and selecting one (df10ch_setup_pkg/device_dlg.py).
use df10ch_atmolight_control.Prelude.{
  ℕ, ◌≡◌, refl, List, [], ◌∷◌, ◌++◌, Text, text_eq, Bool, true, false, Option, none, some,
  get_elem?, if◌then◌else◌,
}
use df10ch_atmolight_control.Result.{Result, ok, err, Failure, atmo, device_error, index_error}
use df10ch_atmolight_control.Exec.{Exec, pure, ◌>>◌}
use df10ch_atmolight_control.Ctrl.{Ctrl}
use df10ch_atmolight_control.Devices.Loading.{find_managed, load_configs}
use df10ch_atmolight_control.DeviceDialog.{Dialog, on_device}
use df10ch_atmolight_control.DeviceDialog.Setup.{take_layout_from_configs}

abbrev pub has_devices : {S : Type 0} → Dialog S → Bool
has_devices s = elim s.device_list [ [] ↦ false | c ∷ cs ↦ true ]

-- The errors that the scan catches.
abbrev pub is_scan_error : Failure → Bool
is_scan_error (atmo report) = true
is_scan_error device_error = true
is_scan_error other = false

abbrev pub is_selected : Option Text → Text → Bool
is_selected none id = false
is_selected (some selected) id = text_eq selected id

-- The ids of the controllers with blanks between them.
unfoldable pub id_list : List Text → Text → Text
id_list [] text = text
id_list (id ∷ ids) [] = id_list ids id
id_list (id ∷ ids) (c ∷ text) = id_list ids ((c ∷ text) ++ b' ' ∷ id)

-- `find` is FindDevices on the list of controllers (`find_devices` for those on the bus).
module _ {S : Type 0} (ctrl : Ctrl S) (find : Exec (List S) (Unit {0})) where
  unfoldable pub load_all : Exec (Dialog S) (Unit {0})
  load_all s =
      let (r, map, devices) = load_configs ctrl find s.device_list in
      (r, record s { device_list = devices; config_map = map })

  -- What one round of the loop comes to: the loop ends with an answer, or the user is asked.
  unfoldable pub scan_round : Dialog S → Result (Option Bool) × Dialog S
  scan_round s =
      let (r, t) = load_all s in
      elim r [
        | ok u ↦ (if has_devices t then ok (some true) else ok none, t)
        | err e ↦ (if is_scan_error e then ok none else err e, t)
      ]

  -- `while retry`: each answer of the user is one to "retry or cancel". With no answer left the box
  -- still waits. (When the user cancels after an error, the scan goes on with the devices there are.)
  unfoldable pub scan_loop : List Bool → Dialog S → Result (Option Bool) × Dialog S
  scan_loop [] s = scan_round s
  scan_loop (retry ∷ answers) s =
      let (r, t) = scan_round s in
      elim r [
        | err e ↦ (err e, t)
        | ok (some found) ↦ (ok (some found), t)
        | ok none ↦ elim retry [
          | true ↦ scan_loop answers t
          | false ↦ (ok (some (has_devices t)), t)
        ]
      ]

  -- The sheet shows the configuration of the device, or the versions of a bootloader.
  unfoldable pub select_device : ℕ → Exec (Dialog S) (Unit {0})
  select_device i s =
      let s' = record s { selected_device_idx = some i } in
      elim (get_elem? s.device_list i) [
        | none ↦ (err index_error, s')
        | some c ↦ elim (find_managed (ctrl.id c) s.config_map) [
          | some m ↦ (
            ok tt,
            if is_selected s.selected_config (ctrl.id c)
                then s'
                else record s' { selected_config = some (ctrl.id c) },
          )
          | none ↦
              if ctrl.bootloader_mode c
              then (ok tt, s')
              else (on_device i ctrl.get_pwm_version >> pure tt) s'
        ]
      ]

  abbrev after_scan : Result (Option Bool) → Exec (Dialog S) (Option Bool)
  after_scan (ok (some true)) s =
      (take_layout_from_configs ctrl >> (select_device 0 >> pure (some true))) s
  after_scan r s = (r, s)

  unfoldable pub scan_devices : List Bool → Exec (Dialog S) (Option Bool)
  scan_devices answers s =
      let s' = record s { selected_config = none; selected_device_idx = none } in
      let (r, t) = scan_loop answers s' in after_scan r t

  -- A round ends the loop with `true` only where there is a controller.
  abbrev pub Ends : Result (Option Bool) × Dialog S → Type 0
  Ends (ok (some true), t) = has_devices t ≡ true
  Ends (ok (some false), t) = has_devices t ≡ false
  Ends (ok none, t) = ⊥
  Ends (err e, t) = is_scan_error e ≡ false

  abbrev Cancels : List Bool → Type 0
  Cancels [] = ⊥
  Cancels (true ∷ answers) = Cancels answers
  Cancels (false ∷ answers) = Unit {0}

  abbrev RoundEnds : Result (Option Bool) × Dialog S → Type 0
  RoundEnds (ok (some true), t) = has_devices t ≡ true
  RoundEnds (ok (some false), t) = ⊥
  RoundEnds (ok none, t) = Unit {0}
  RoundEnds (err e, t) = is_scan_error e ≡ false

  scan_round-RoundEnds : (s : Dialog S) → RoundEnds (scan_round s)
  unfolding scan_round
  scan_round-RoundEnds s = by_result ((load_all s).0) ((load_all s).1)
    where
      by_flag :
          (b : Bool) (t : Dialog S)
          → has_devices t ≡ b
          → RoundEnds (if b then ok (some true) else ok none, t)
      by_flag true t found = found
      by_flag false t found = tt

      by_error :
          (b : Bool) (e : Failure) (t : Dialog S)
          → is_scan_error e ≡ b
          → RoundEnds (if b then ok none else err e, t)
      by_error true e t caught = tt
      by_error false e t caught = caught

      by_result :
          (r : Result (Unit {0})) (t : Dialog S)
          → RoundEnds (elim r as (λ x. Result (Option Bool) × Dialog S) [
            | ok u ↦ (if has_devices t then ok (some true) else ok none, t)
            | err e ↦ (if is_scan_error e then ok none else err e, t)
          ])
      by_result (ok u) t = by_flag (has_devices t) t refl
      by_result (err e) t = by_error (is_scan_error e) e t refl

  -- Scanning ends at the latest when the user cancels, however often the answer was "retry" before:
  -- with true only where there is a controller, with false only where there is none, and with an
  -- exception only where it is of a kind that the scan does not catch.
  pub scan_loop-Ends :
      (answers : List Bool) (s : Dialog S) → Cancels answers → Ends (scan_loop answers s)
  unfolding scan_loop
  scan_loop-Ends [] s cancels = absurd cancels
  scan_loop-Ends (true ∷ answers) s cancels =
      retried (scan_round s) (scan_loop answers) (λ t. scan_loop-Ends answers t cancels)
        (scan_round-RoundEnds s)
    where
      retried :
          (r : Result (Option Bool) × Dialog S) (again : Dialog S → Result (Option Bool) × Dialog S)
          → ((t : Dialog S) → Ends (again t))
          → RoundEnds r
          → Ends (elim r.0 as (λ x. Result (Option Bool) × Dialog S) [
            | ok x ↦ elim x as (λ y. Result (Option Bool) × Dialog S) [
              | none ↦ again r.1
              | some found ↦ (ok (some found), r.1)
            ]
            | err e ↦ (err e, r.1)
          ])
      retried (ok none, t) again ends round = ends t
      retried (ok (some true), t) again ends round = round
      retried (ok (some false), t) again ends round = absurd round
      retried (err e, t) again ends round = round
  scan_loop-Ends (false ∷ answers) s cancels = cancelled (scan_round s) (scan_round-RoundEnds s)
    where
      answered : (b : Bool) (t : Dialog S) → has_devices t ≡ b → Ends (ok (some b), t)
      answered true t has = has
      answered false t has = has

      cancelled :
          (r : Result (Option Bool) × Dialog S)
          → RoundEnds r
          → Ends (elim r.0 as (λ x. Result (Option Bool) × Dialog S) [
            | ok x ↦ elim x as (λ y. Result (Option Bool) × Dialog S) [
              | none ↦ (ok (some (has_devices r.1)), r.1)
              | some found ↦ (ok (some found), r.1)
            ]
            | err e ↦ (err e, r.1)
          ])
      cancelled (ok none, t) round = answered (has_devices t) t refl
      cancelled (ok (some true), t) round = round
      cancelled (ok (some false), t) round = absurd round
      cancelled (err e, t) round = round
