-- ===== src/DeviceDialog/Status.antt =====
-- The communication status and the echo test (showStatus and echoTest of
-- df10ch_setup_pkg/device_dlg.py).
use df10ch_atmolight_control.Prelude.{
  ℕ, zero, suc, ◌+◌, List, [], ◌∷◌, ◌++◌, Text, ltb, Bool, true, false, Option, none, some, length,
  get_elem?, if◌then◌else◌,
}
use df10ch_atmolight_control.Result.{Result, ok, err, atmo, index_error}
use df10ch_atmolight_control.Exec.{Exec, pure, gets, modify, ◌>>=◌, ◌>>◌}
use df10ch_atmolight_control.Decimal.{codes, print_nat}
use df10ch_atmolight_control.Protocol.{get_comm_err_msg}
use df10ch_atmolight_control.Ctrl.{Ctrl}
use df10ch_atmolight_control.DeviceDialog.{Dialog, on_device, shown}

-- The text of a status that was read; "N/A" where the controller did not answer.
abbrev pub status_text : Result ℕ → Result Text
status_text (ok code) = ok (get_comm_err_msg code)
status_text (err (atmo report)) = ok (codes "N/A")
status_text (err e) = err e

module _ {S : Type 0} (ctrl : Ctrl S) where
  unfoldable pub read_status : Exec S ℕ → Exec S Text
  read_status m s = let (r, s') = m s in (status_text r, s')

  unfoldable pub status_line : Exec S Text
  status_line = do
    reply ← read_status ctrl.get_reply_error_status
    request ← read_status ctrl.get_request_error_status
    id ← gets ctrl.id
    errors ← gets ctrl.error_count
    pure (
        id
        ++ codes ": ERR:"
        ++ print_nat errors
        ++ codes " USB:"
        ++ reply
        ++ codes " PWM:"
        ++ request
        ++ codes "\n")

  -- The message of the box, from the place of a device in the list.
  unfoldable pub show_status_from : ℕ → ℕ → Exec (Dialog S) Text
  show_status_from zero place = pure []
  show_status_from (suc n) place = do
    line ← on_device place status_line
    rest ← show_status_from n (place + 1)
    pure (line ++ rest)

  unfoldable pub show_status : Exec (Dialog S) Text
  show_status s = show_status_from (length s.device_list) 0 s

  -- Each of `runs` says whether the test still runs when the window was updated; the values that
  -- were sent come out. With no update left the loop still runs.
  unfoldable pub echo_loop : List Bool → ℕ → ℕ → Exec (Dialog S) (List ℕ)
  echo_loop [] place value = pure []
  echo_loop (runs ∷ updates) place value =
      if ltb value 0x7FFFFFFF
      then (if runs
          then (do
            shown (on_device place (ctrl.pwm_echo_test value))
            values ← echo_loop updates place (value + 1)
            pure (value ∷ values))
          else (modify (λ t. record t { echo_test_running = false }) >> pure []))
      else pure []

  unfoldable pub echo_test : List Bool → ℕ → Exec (Dialog S) (List ℕ)
  echo_test updates place s =
      let s' = record s { echo_test_running = true } in
      elim (get_elem? s.device_list place) [
        | none ↦ (err index_error, s')
        | some c ↦ echo_loop updates place 0 s'
      ]

  -- The button starts the test or stops the one that runs.
  unfoldable pub cb_echo_test : List Bool → Exec (Dialog S) (List ℕ)
  cb_echo_test updates s =
      if s.echo_test_running
      then (ok [], record s { echo_test_running = false })
      else elim s.selected_device_idx [ none ↦ (ok [], s) | some place ↦ echo_test updates place s ]

  unfoldable pub cb_show_status : Exec (Dialog S) (Option Text)
  cb_show_status s = elim s.device_list [
    | [] ↦ (ok none, s)
    | c ∷ cs ↦ (show_status >>= λ text. pure (some text)) s
  ]
