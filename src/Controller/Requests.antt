-- ===== src/Controller/Requests.antt =====
-- The requests of DF10CHController (df10ch_setup_pkg/device_drv.py), one function per method.
use df10ch_atmolight_control.Prelude.{
  ℕ, ◌+◌, ◌*◌, ◌/◌, ◌%◌, ◌^◌, List, [], ◌∷◌, length, ◌==◌, if◌then◌else◌, ◌||◌, not, Bool,
}
use df10ch_atmolight_control.Result.{
  ok, err, atmo, verify_failed, echo_failed, at, word_at, index_error,
}
use df10ch_atmolight_control.Exec.{Exec, ◌>>=◌, ◌>>◌, lift, raise, pure}
use df10ch_atmolight_control.Usb.{Usb}
use df10ch_atmolight_control.Protocol.{
  def_usb_timeout, def_retry, pwm_vers_boot, bl_pwm_req_get_page_size,
  bl_pwm_req_get_request_err_status, bl_pwm_req_read_flash, bl_pwm_req_write_page,
  bl_req_get_page_size, bl_req_leave_boot, bl_req_read_flash, bl_req_write_page, pwm_req_echo_test,
  pwm_req_get_brightness, pwm_req_get_channel_map, pwm_req_get_common_pwm, pwm_req_get_max_pwm,
  pwm_req_get_pwm_freq, pwm_req_get_request_err_status, pwm_req_get_version, pwm_req_reset_setup,
  pwm_req_set_brightness, pwm_req_set_brightness_synced, pwm_req_set_channel_map,
  pwm_req_set_common_pwm, pwm_req_set_pwm_freq, pwm_req_store_setup, req_bootloader_reset_pwm_ctrl,
  req_get_reply_err_status, req_read_ee_data, req_reset_pwm_ctrl, req_set_reply_timeout,
  req_start_bootloader, req_stop_pwm_ctrl, req_write_ee_data,
}
use df10ch_atmolight_control.Controller.{
  Controller, fail, ctrl_write, ctrl_read, pwm_ctrl_write, pwm_ctrl_read,
}
use df10ch_atmolight_control.Controller.Payload.{
  ChannelRec, encode_words, decode_words, encode_map, decode_map,
}

module _ {D : Type 0} where
  -- The first byte that differs raises; a reply that is too short raises IndexError.
  unfoldable pub verify_reply_data : ℕ → List ℕ → List ℕ → Exec (Controller D) (Unit {0})
  verify_reply_data start [] rdata c = (ok tt, c)
  verify_reply_data start (x ∷ xs) [] c = (err index_error, c)
  verify_reply_data start (x ∷ xs) (y ∷ ys) c =
      let rest = verify_reply_data (start + 1) xs ys c in
      if x == y then rest else fail (atmo (verify_failed start x y)) c

module _ {D : Type 0} (usb : Usb D) where
  -- Transfers with the default timeout and number of attempts.
  abbrev pub read_default : ℕ → ℕ → ℕ → ℕ → Exec (Controller D) (List ℕ)
  read_default req value index size = ctrl_read usb req value index size def_usb_timeout def_retry

  abbrev pub pwm_read_default : ℕ → ℕ → ℕ → ℕ → Exec (Controller D) (List ℕ)
  pwm_read_default req value index size =
      pwm_ctrl_read usb req value index size def_usb_timeout def_retry

  abbrev pub pwm_write_default : ℕ → ℕ → ℕ → List ℕ → Exec (Controller D) (Unit {0})
  pwm_write_default req value index payload =
      pwm_ctrl_write usb req value index payload def_usb_timeout def_retry

  -- A request without data, whose empty reply is dropped.
  abbrev pub command : ℕ → ℕ → ℕ → Exec (Controller D) (Unit {0})
  command req value index = read_default req value index 0 >> pure tt

  abbrev pub pwm_command : ℕ → ℕ → Exec (Controller D) (Unit {0})
  pwm_command req value = pwm_read_default req value 0 0 >> pure tt

  unfoldable pub read_ee_data : ℕ → ℕ → Exec (Controller D) (List ℕ)
  read_ee_data start size = read_default req_read_ee_data 0 start size

  unfoldable pub write_ee_data : ℕ → List ℕ → Exec (Controller D) (Unit {0})
  write_ee_data start payload = do
    ctrl_write usb req_write_ee_data 0 start payload (def_usb_timeout + length payload * 10)
        def_retry
    eedata ← read_ee_data start (length payload)
    verify_reply_data start payload eedata

  unfoldable pub stop_pwm_ctrl : Exec (Controller D) (Unit {0})
  stop_pwm_ctrl = command req_stop_pwm_ctrl 0 0

  unfoldable pub reset_pwm_ctrl : Exec (Controller D) (Unit {0})
  reset_pwm_ctrl = command req_reset_pwm_ctrl 0 0

  unfoldable pub start_pwm_ctrl_bootloader : Exec (Controller D) (Unit {0})
  start_pwm_ctrl_bootloader = command req_bootloader_reset_pwm_ctrl 0 0

  unfoldable pub set_reply_timeout : ℕ → ℕ → Exec (Controller D) (Unit {0})
  set_reply_timeout start_timeout timeout = command req_set_reply_timeout start_timeout timeout

  unfoldable pub get_reply_error_status : Exec (Controller D) ℕ
  get_reply_error_status = do reply ← read_default req_get_reply_err_status 0 0 1; lift (at reply 0)

  unfoldable pub start_bootloader : Exec (Controller D) (Unit {0})
  start_bootloader = command req_start_bootloader 0 0

  unfoldable pub start_appl : Exec (Controller D) (Unit {0})
  start_appl = command bl_req_leave_boot 0 0

  unfoldable pub get_flash_page_size : Exec (Controller D) ℕ
  get_flash_page_size = do reply ← read_default bl_req_get_page_size 0 0 2; lift (word_at reply 0)

  unfoldable pub write_flash_page : ℕ → List ℕ → Exec (Controller D) (Unit {0})
  write_flash_page addr page =
      ctrl_write usb bl_req_write_page 0 addr page def_usb_timeout def_retry

  unfoldable pub read_flash : ℕ → ℕ → Exec (Controller D) (List ℕ)
  read_flash addr len = read_default bl_req_read_flash 0 addr len

  unfoldable pub get_request_error_status : Exec (Controller D) ℕ
  get_request_error_status = do
    reply ← pwm_read_default pwm_req_get_request_err_status 0 0 1
    lift (at reply 0)

  unfoldable pub set_brightness : ℕ → List ℕ → Exec (Controller D) (Unit {0})
  set_brightness start values = do
    payload ← lift (encode_words values)
    pwm_write_default pwm_req_set_brightness 0 start payload

  unfoldable pub set_brightness_synced : ℕ → List ℕ → Exec (Controller D) (Unit {0})
  set_brightness_synced start values = do
    payload ← lift (encode_words values)
    pwm_write_default pwm_req_set_brightness_synced 0 start payload

  unfoldable pub get_brightness : ℕ → ℕ → Exec (Controller D) (List ℕ)
  get_brightness start nch = do
    reply ← pwm_read_default pwm_req_get_brightness 0 start (nch * 2)
    lift (decode_words reply nch)

  unfoldable pub get_channel_map : ℕ → ℕ → Exec (Controller D) (List ChannelRec)
  get_channel_map start nch = do
    reply ← pwm_read_default pwm_req_get_channel_map 0 start (nch * 2)
    lift (decode_map reply nch)

  unfoldable pub set_channel_map : ℕ → List ChannelRec → Exec (Controller D) (Unit {0})
  set_channel_map start entries = do
    payload ← lift (encode_map entries)
    pwm_write_default pwm_req_set_channel_map 0 start payload

  unfoldable pub set_common_brightness : ℕ → Exec (Controller D) (Unit {0})
  set_common_brightness value = pwm_command pwm_req_set_common_pwm value

  unfoldable pub get_common_brightness : Exec (Controller D) ℕ
  get_common_brightness = do
    reply ← pwm_read_default pwm_req_get_common_pwm 0 0 2
    lift (word_at reply 0)

  unfoldable pub get_max_pwm_value : Exec (Controller D) ℕ
  get_max_pwm_value = do reply ← pwm_read_default pwm_req_get_max_pwm 0 0 4; lift (word_at reply 0)

  unfoldable pub get_common_max_pwm_value : Exec (Controller D) ℕ
  get_common_max_pwm_value = do
    reply ← pwm_read_default pwm_req_get_max_pwm 0 0 4
    lift (word_at reply 2)

  unfoldable pub set_pwm_freq : ℕ → Exec (Controller D) (Unit {0})
  set_pwm_freq value = pwm_command pwm_req_set_pwm_freq value

  unfoldable pub get_pwm_freq : Exec (Controller D) ℕ
  get_pwm_freq = do reply ← pwm_read_default pwm_req_get_pwm_freq 0 0 2; lift (word_at reply 0)

  -- Storing takes longer: the timeout is 1500 ms.
  unfoldable pub store_setup : Exec (Controller D) (Unit {0})
  store_setup = pwm_ctrl_read usb pwm_req_store_setup 0 0 0 1500 def_retry >> pure tt

  unfoldable pub reset_setup : Exec (Controller D) (Unit {0})
  reset_setup = pwm_command pwm_req_reset_setup 0

  unfoldable pub get_pwm_bootloader_mode : Exec (Controller D) Bool
  get_pwm_bootloader_mode = do
    reply ← pwm_read_default pwm_req_get_version 0 0 2
    kind ← lift (at reply 0)
    pure (kind == pwm_vers_boot)

  unfoldable pub get_pwm_version : Exec (Controller D) ℕ
  get_pwm_version = do reply ← pwm_read_default pwm_req_get_version 0 0 2; lift (at reply 1)

  -- The reply's bytes 2 to 5 repeat the value. The driver does not count this error.
  unfoldable pub pwm_echo_test : ℕ → Exec (Controller D) (Unit {0})
  pwm_echo_test test_value = do
    let v = test_value % 2 ^ 16
    let i = test_value / 2 ^ 16
    reply ← pwm_read_default pwm_req_echo_test v i 8
    low ← lift (word_at reply 2)
    high ← lift (word_at reply 4)
    if not (low == v) || not (high == i) then raise (atmo (echo_failed test_value)) else pure tt

  unfoldable pub get_pwm_flash_page_size : Exec (Controller D) ℕ
  get_pwm_flash_page_size = do
    reply ← pwm_read_default bl_pwm_req_get_page_size 0 0 2
    lift (word_at reply 0)

  unfoldable pub write_pwm_flash_page : ℕ → List ℕ → Exec (Controller D) (Unit {0})
  write_pwm_flash_page addr page = pwm_write_default bl_pwm_req_write_page 0 addr page

  unfoldable pub read_pwm_flash : ℕ → ℕ → Exec (Controller D) (List ℕ)
  read_pwm_flash addr len = pwm_read_default bl_pwm_req_read_flash 0 addr len

  unfoldable pub get_bootloader_request_error_status : Exec (Controller D) ℕ
  get_bootloader_request_error_status = do
    reply ← pwm_read_default bl_pwm_req_get_request_err_status 0 0 1
    lift (at reply 0)
