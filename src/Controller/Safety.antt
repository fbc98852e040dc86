-- ===== src/Controller/Safety.antt =====
-- The requests of DF10CHController raise AtmoControllerError and nothing else
-- (df10ch_setup_pkg/device_drv.py), for arguments that fit their fields.
use df10ch_atmolight_control.Prelude.{ℕ, suc, ◌≡◌, List, length, arith}
use df10ch_atmolight_control.Result.{Result, ok, err, at, word_at}
use df10ch_atmolight_control.Exec.{pure, lift, ◌>>=◌, ◌>>◌}
use df10ch_atmolight_control.Usb.{Usb}
use df10ch_atmolight_control.Protocol.{
  def_usb_timeout, def_retry, bl_pwm_req_get_page_size, bl_pwm_req_get_request_err_status,
  bl_req_get_page_size, bl_req_leave_boot, pwm_req_get_common_pwm, pwm_req_get_max_pwm,
  pwm_req_get_pwm_freq, pwm_req_get_request_err_status, pwm_req_get_version, pwm_req_reset_setup,
  pwm_req_set_common_pwm, pwm_req_set_pwm_freq, pwm_req_store_setup, req_bootloader_reset_pwm_ctrl,
  req_get_reply_err_status, req_reset_pwm_ctrl, req_set_reply_timeout, req_start_bootloader,
  req_stop_pwm_ctrl,
}
use df10ch_atmolight_control.Controller.{Controller, pwm_ctrl_read}
use df10ch_atmolight_control.Controller.Raises.{
  Reads, RaisesAtmo, ctrl_read-Reads, pwm_ctrl_read-Reads, Reads-continue, RaisesAtmo-continue,
  at-RaisesAtmo, word_at-RaisesAtmo,
}
use df10ch_atmolight_control.Controller.Requests.{
  read_default, pwm_read_default, command, stop_pwm_ctrl, reset_pwm_ctrl, start_pwm_ctrl_bootloader,
  start_bootloader, start_appl, set_reply_timeout, get_reply_error_status, get_flash_page_size,
  get_request_error_status, set_common_brightness, get_common_brightness, get_max_pwm_value,
  get_common_max_pwm_value, set_pwm_freq, get_pwm_freq, store_setup, reset_setup, get_pwm_version,
  get_pwm_flash_page_size, get_bootloader_request_error_status,
}

module _ {D : Type 0} (usb : Usb D) where
  -- A read whose answer is computed from its bytes.
  read_answer :
      {A : Type 0} (req size : ℕ) (f : List ℕ → Result A) (c : Controller D)
      → ((bytes : List ℕ) → length bytes ≡ size → RaisesAtmo (f bytes))
      → RaisesAtmo ((do reply ← read_default usb req 0 0 size; lift (f reply)) c).0
  read_answer req size f c h =
      let (r, s) = read_default usb req 0 0 size c in
      Reads-continue size f r s h
        (ctrl_read-Reads usb req 0 0 size def_usb_timeout def_retry c (omega arith))

  pwm_answer :
      {A : Type 0} (req index size : ℕ) (f : List ℕ → Result A) (c : Controller D)
      → ((bytes : List ℕ) → length bytes ≡ size → RaisesAtmo (f bytes))
      → RaisesAtmo ((do reply ← pwm_read_default usb req 0 index size; lift (f reply)) c).0
  pwm_answer req index size f c h =
      let (r, s) = pwm_read_default usb req 0 index size c in
      Reads-continue size f r s h
        (pwm_ctrl_read-Reads usb req 0 index size def_usb_timeout def_retry c (omega arith))

  Reads→RaisesAtmo : (size : ℕ) (r : Result (List ℕ)) → Reads size r → RaisesAtmo r
  Reads→RaisesAtmo size (ok bytes) h = tt
  Reads→RaisesAtmo size (err e) h = h

  command-RaisesAtmo :
      (req value index : ℕ) (c : Controller D) → RaisesAtmo (command usb req value index c).0
  command-RaisesAtmo req value index c =
      let (r, s) = read_default usb req value index 0 c in
      RaisesAtmo-continue r tt s (
        Reads→RaisesAtmo 0 r
          (ctrl_read-Reads usb req value index 0 def_usb_timeout def_retry c (omega arith)))

  pwm_read-RaisesAtmo :
      (req value timeout : ℕ) (c : Controller D)
      → RaisesAtmo ((pwm_ctrl_read usb req value 0 0 timeout def_retry >> pure tt) c).0
  pwm_read-RaisesAtmo req value timeout c =
      let (r, s) = pwm_ctrl_read usb req value 0 0 timeout def_retry c in
      RaisesAtmo-continue r tt s (
        Reads→RaisesAtmo 0 r
          (pwm_ctrl_read-Reads usb req value 0 0 timeout def_retry c (omega arith)))

  one_byte : (bytes : List ℕ) → length bytes ≡ 1 → RaisesAtmo (at bytes 0)
  one_byte bytes h = at-RaisesAtmo bytes 0 (omega arith)

  one_word :
      (size : ℕ) (bytes : List ℕ) → length bytes ≡ suc (suc size) → RaisesAtmo (word_at bytes 0)
  one_word size bytes h = word_at-RaisesAtmo bytes 0 (omega arith)

  second_word : (bytes : List ℕ) → length bytes ≡ 4 → RaisesAtmo (word_at bytes 2)
  second_word bytes h = word_at-RaisesAtmo bytes 2 (omega arith)

  -- Every command without an answer, every status and every setting that is asked for: the call
  -- returns, or it raises AtmoControllerError; no reply is too short for the bytes that are read.
  pub queries-RaiseAtmo :
      (start_timeout timeout value : ℕ) (c : Controller D)
      → RaisesAtmo (stop_pwm_ctrl usb c).0
        × RaisesAtmo (reset_pwm_ctrl usb c).0
        × RaisesAtmo (start_pwm_ctrl_bootloader usb c).0
        × RaisesAtmo (start_bootloader usb c).0
        × RaisesAtmo (start_appl usb c).0
        × RaisesAtmo (set_reply_timeout usb start_timeout timeout c).0
        × RaisesAtmo (get_reply_error_status usb c).0
        × RaisesAtmo (get_flash_page_size usb c).0
        × RaisesAtmo (get_request_error_status usb c).0
        × RaisesAtmo (set_common_brightness usb value c).0
        × RaisesAtmo (get_common_brightness usb c).0
        × RaisesAtmo (get_max_pwm_value usb c).0
        × RaisesAtmo (get_common_max_pwm_value usb c).0
        × RaisesAtmo (set_pwm_freq usb value c).0
        × RaisesAtmo (get_pwm_freq usb c).0
        × RaisesAtmo (store_setup usb c).0
        × RaisesAtmo (reset_setup usb c).0
        × RaisesAtmo (get_pwm_version usb c).0
        × RaisesAtmo (get_pwm_flash_page_size usb c).0
        × RaisesAtmo (get_bootloader_request_error_status usb c).0
  unfolding stop_pwm_ctrl reset_pwm_ctrl start_pwm_ctrl_bootloader start_bootloader start_appl
      set_reply_timeout get_reply_error_status get_flash_page_size get_request_error_status
      set_common_brightness get_common_brightness get_max_pwm_value get_common_max_pwm_value
      set_pwm_freq get_pwm_freq store_setup reset_setup get_pwm_version get_pwm_flash_page_size
      get_bootloader_request_error_status
  queries-RaiseAtmo start_timeout timeout value c = (
    command-RaisesAtmo req_stop_pwm_ctrl 0 0 c,
    command-RaisesAtmo req_reset_pwm_ctrl 0 0 c,
    command-RaisesAtmo req_bootloader_reset_pwm_ctrl 0 0 c,
    command-RaisesAtmo req_start_bootloader 0 0 c,
    command-RaisesAtmo bl_req_leave_boot 0 0 c,
    command-RaisesAtmo req_set_reply_timeout start_timeout timeout c,
    read_answer req_get_reply_err_status 1 (λ reply. at reply 0) c one_byte,
    read_answer bl_req_get_page_size 2 (λ reply. word_at reply 0) c (one_word 0),
    pwm_answer pwm_req_get_request_err_status 0 1 (λ reply. at reply 0) c one_byte,
    pwm_read-RaisesAtmo pwm_req_set_common_pwm value def_usb_timeout c,
    pwm_answer pwm_req_get_common_pwm 0 2 (λ reply. word_at reply 0) c (one_word 0),
    pwm_answer pwm_req_get_max_pwm 0 4 (λ reply. word_at reply 0) c (one_word 2),
    pwm_answer pwm_req_get_max_pwm 0 4 (λ reply. word_at reply 2) c second_word,
    pwm_read-RaisesAtmo pwm_req_set_pwm_freq value def_usb_timeout c,
    pwm_answer pwm_req_get_pwm_freq 0 2 (λ reply. word_at reply 0) c (one_word 0),
    pwm_read-RaisesAtmo pwm_req_store_setup 0 1500 c,
    pwm_read-RaisesAtmo pwm_req_reset_setup 0 def_usb_timeout c,
    pwm_answer pwm_req_get_version 0 2 (λ reply. at reply 1) c
        (λ bytes h. at-RaisesAtmo bytes 1 (omega arith)),
    pwm_answer bl_pwm_req_get_page_size 0 2 (λ reply. word_at reply 0) c (one_word 0),
    pwm_answer bl_pwm_req_get_request_err_status 0 1 (λ reply. at reply 0) c one_byte,
  )
