-- ===== src/Tests/Transfers.antt =====
-- Transfers on the memory device.
use df10ch_atmolight_control.Prelude.{
  ℕ, ◌≡◌, ◌+◌, ◌*◌, refl, inl, inr, List, [], ◌∷◌, length, replicate, arith,
}
use df10ch_atmolight_control.Result.{ok, to_bytes}
use df10ch_atmolight_control.Protocol.{def_usb_timeout, def_retry, req_write_ee_data}
use df10ch_atmolight_control.Controller.{
  Controller, write_attempts, ctrl_write, read_attempts, ctrl_read,
}
use df10ch_atmolight_control.Controller.Payload.{ChannelRec}
use df10ch_atmolight_control.Controller.Transfers.{
  here, next, write_call, write_outcome, ctrl_write-outcome, read_call, read_outcome,
  ctrl_read-outcome,
}
use df10ch_atmolight_control.Controller.Raises.{RaisesAtmo}
use df10ch_atmolight_control.Controller.Safety.{queries-RaiseAtmo}
use df10ch_atmolight_control.Controller.Updates.{readings-RaiseAtmo}
use df10ch_atmolight_control.Controller.Verified.{write_ee_data_verified}
use df10ch_atmolight_control.Controller.Requests.{
  read_ee_data, write_ee_data, verify_reply_data, get_brightness, get_channel_map, stop_pwm_ctrl,
  reset_pwm_ctrl, start_pwm_ctrl_bootloader, start_bootloader, start_appl, set_reply_timeout,
  get_reply_error_status, get_flash_page_size, get_request_error_status, set_common_brightness,
  get_common_brightness, get_max_pwm_value, get_common_max_pwm_value, set_pwm_freq, get_pwm_freq,
  store_setup, reset_setup, get_pwm_version, get_pwm_flash_page_size,
  get_bootloader_request_error_status,
}
use df10ch_atmolight_control.Tests.Device.{Memory, memory_usb, on_memory}

abbrev part : List ℕ
part = 1 ∷ 2 ∷ 3 ∷ []

-- Two calls stall, the third is answered.
ctrl_write-outcome_example :
    ctrl_write memory_usb 2 0 4 part 100 3 (on_memory 2)
    ≡ write_outcome memory_usb 2 0 4 part 100
        (on_memory 2)
        6
        (write_call memory_usb 2 0 4 part 100 (0, replicate 8 7))
ctrl_write-outcome_example =
    ctrl_write-outcome memory_usb 2 0 4 part 100 0 (on_memory 2) (omega arith)
      (next refl (next refl here)) (inl refl)

ctrl_read-outcome_example :
    ctrl_read memory_usb 1 0 4 3 100 3 (on_memory 1)
    ≡ read_outcome memory_usb 1 0 4 3 100
        (on_memory 1)
        (read_call memory_usb 1 0 4 3 100 (0, replicate 8 7))
ctrl_read-outcome_example =
    ctrl_read-outcome memory_usb 1 0 4 3 100 1 (on_memory 1) (next refl here) (inr (λ e. cc))

-- The EEPROM's bytes 1 to 3 are written.
abbrev written : Controller Memory
written = record (on_memory 0) { usbdev = (0, 7 ∷ 1 ∷ 2 ∷ 3 ∷ 7 ∷ 7 ∷ 7 ∷ 7 ∷ []) }

write_part : write_ee_data memory_usb 1 part (on_memory 0) ≡ (ok tt, written)
unfolding write_ee_data read_ee_data verify_reply_data ctrl_write write_attempts ctrl_read
    read_attempts to_bytes
write_part = refl

write_ee_data_verified_example :
    (w : Controller Memory) × (ctrl_write memory_usb req_write_ee_data 0 1 part
        (def_usb_timeout + length part * 10)
        def_retry
        (on_memory 0)
      ≡ (ok tt, w))
    × (read_ee_data memory_usb 1 (length part) w ≡ (ok part, written))
write_ee_data_verified_example =
    write_ee_data_verified memory_usb 1 part (on_memory 0) written write_part

queries-RaiseAtmo_example :
    RaisesAtmo (stop_pwm_ctrl memory_usb (on_memory 1)).0
    × RaisesAtmo (reset_pwm_ctrl memory_usb (on_memory 1)).0
    × RaisesAtmo (start_pwm_ctrl_bootloader memory_usb (on_memory 1)).0
    × RaisesAtmo (start_bootloader memory_usb (on_memory 1)).0
    × RaisesAtmo (start_appl memory_usb (on_memory 1)).0
    × RaisesAtmo (set_reply_timeout memory_usb 50 10 (on_memory 1)).0
    × RaisesAtmo (get_reply_error_status memory_usb (on_memory 1)).0
    × RaisesAtmo (get_flash_page_size memory_usb (on_memory 1)).0
    × RaisesAtmo (get_request_error_status memory_usb (on_memory 1)).0
    × RaisesAtmo (set_common_brightness memory_usb 100 (on_memory 1)).0
    × RaisesAtmo (get_common_brightness memory_usb (on_memory 1)).0
    × RaisesAtmo (get_max_pwm_value memory_usb (on_memory 1)).0
    × RaisesAtmo (get_common_max_pwm_value memory_usb (on_memory 1)).0
    × RaisesAtmo (set_pwm_freq memory_usb 100 (on_memory 1)).0
    × RaisesAtmo (get_pwm_freq memory_usb (on_memory 1)).0
    × RaisesAtmo (store_setup memory_usb (on_memory 1)).0
    × RaisesAtmo (reset_setup memory_usb (on_memory 1)).0
    × RaisesAtmo (get_pwm_version memory_usb (on_memory 1)).0
    × RaisesAtmo (get_pwm_flash_page_size memory_usb (on_memory 1)).0
    × RaisesAtmo (get_bootloader_request_error_status memory_usb (on_memory 1)).0
queries-RaiseAtmo_example = queries-RaiseAtmo memory_usb 50 10 100 (on_memory 1)

abbrev entries : List ChannelRec
entries = replicate 65 (record { channel = 1; port = 2; pins = 0x80 })

readings-RaiseAtmo_example :
    RaisesAtmo (get_brightness memory_usb 0 4 (on_memory 1)).0
    × RaisesAtmo (get_channel_map memory_usb 0 4 (on_memory 1)).0
readings-RaiseAtmo_example = readings-RaiseAtmo memory_usb 0 (on_memory 1) 4
