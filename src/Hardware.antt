-- ===== src/Hardware.antt =====
-- DF10CHController as a `Ctrl` (df10ch_setup_pkg/device_drv.py).
use df10ch_atmolight_control.Usb.{Usb}
use df10ch_atmolight_control.Ctrl.{Ctrl}
use df10ch_atmolight_control.Controller
use df10ch_atmolight_control.Controller.{Controller, controller_id}
use df10ch_atmolight_control.Controller.Requests as R

module _ {D : Type 0} (usb : Usb D) where
  abbrev pub usb_ctrl : Ctrl (Controller D)
  usb_ctrl = record {
    id = λ c. controller_id c.busnum c.devnum;
    version = λ c. c.version;
    error_count = λ c. c.error_count;
    bootloader_mode = Controller.bootloader_mode;
    release = Controller.release usb;
    read_ee_data = R.read_ee_data usb;
    write_ee_data = R.write_ee_data usb;
    reset_pwm_ctrl = R.reset_pwm_ctrl usb;
    start_pwm_ctrl_bootloader = R.start_pwm_ctrl_bootloader usb;
    start_bootloader = R.start_bootloader usb;
    start_appl = R.start_appl usb;
    get_reply_error_status = R.get_reply_error_status usb;
    get_request_error_status = R.get_request_error_status usb;
    get_flash_page_size = R.get_flash_page_size usb;
    write_flash_page = R.write_flash_page usb;
    read_flash = R.read_flash usb;
    set_brightness = R.set_brightness usb;
    get_channel_map = R.get_channel_map usb;
    set_channel_map = R.set_channel_map usb;
    set_common_brightness = R.set_common_brightness usb;
    get_common_brightness = R.get_common_brightness usb;
    get_max_pwm_value = R.get_max_pwm_value usb;
    get_common_max_pwm_value = R.get_common_max_pwm_value usb;
    set_pwm_freq = R.set_pwm_freq usb;
    get_pwm_freq = R.get_pwm_freq usb;
    store_setup = R.store_setup usb;
    reset_setup = R.reset_setup usb;
    get_pwm_bootloader_mode = R.get_pwm_bootloader_mode usb;
    get_pwm_version = R.get_pwm_version usb;
    pwm_echo_test = R.pwm_echo_test usb;
    get_pwm_flash_page_size = R.get_pwm_flash_page_size usb;
    write_pwm_flash_page = R.write_pwm_flash_page usb;
    read_pwm_flash = R.read_pwm_flash usb;
  }
