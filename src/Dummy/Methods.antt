-- ===== src/Dummy/Methods.antt =====
-- The methods of dummyController (df10ch_setup_pkg/device_drv.py), and the class as a `Ctrl`. The
-- messages that they print are left out.
use df10ch_atmolight_control.Prelude.{
  ℕ, ◌-◌, List, replicate, ◌==◌, if◌then◌else◌, none, some, Bool, text_eq,
}
use df10ch_atmolight_control.Result.{ok, zero_division}
use df10ch_atmolight_control.Exec.{Exec, pure, raise, gets, modify, ◌>>◌}
use df10ch_atmolight_control.Decimal.{codes}
use df10ch_atmolight_control.Protocol.{ncommonbrights, pwm_vers_appl, pwm_vers_boot}
use df10ch_atmolight_control.Controller.Payload.{ChannelRec}
use df10ch_atmolight_control.Ctrl.{Ctrl}
use df10ch_atmolight_control.Dummy.{
  Dummy, World, Pages, slice, splice, lookup_page, store_page, max_pwm_of, reset_values, dummy_id,
}

abbrev pub Method : Type 0 → Type 0
Method A = Exec World A

-- The object's fields change, and the rest of the world stays.
abbrev pub update : (Dummy → Dummy) → Method (Unit {0})
update f = modify (λ w. record w { self = f w.self })

unfoldable pub bootloader_mode : World → Bool
bootloader_mode w = text_eq w.self.serial (codes "BL")

unfoldable pub read_ee_data : ℕ → ℕ → Method (List ℕ)
read_ee_data start size = gets (λ w. slice w.self.ee_data start size)

unfoldable pub write_ee_data : ℕ → List ℕ → Method (Unit {0})
write_ee_data start part = update (λ d. record d { ee_data = splice d.ee_data start part })

unfoldable pub stop_pwm_ctrl : Method (Unit {0})
stop_pwm_ctrl = update (λ d. record d { pwm_vers = pwm_vers_appl })

unfoldable pub reset_pwm_ctrl : Method (Unit {0})
reset_pwm_ctrl = update (λ d. record d { pwm_vers = pwm_vers_appl })

unfoldable pub start_pwm_ctrl_bootloader : Method (Unit {0})
start_pwm_ctrl_bootloader = update (λ d. record d { pwm_vers = pwm_vers_boot })

unfoldable pub set_reply_timeout : ℕ → ℕ → Method (Unit {0})
set_reply_timeout start_timeout timeout =
    update (λ d. record d { start_timeout = start_timeout; timeout = timeout })

-- The serial changes for the objects that are made from now on.
unfoldable pub start_bootloader : Method (Unit {0})
start_bootloader = modify (λ w. record w { dummy_serial = codes "BL" })

unfoldable pub start_appl : Method (Unit {0})
start_appl = modify (λ w. record w { dummy_serial = codes "AP" })

unfoldable pub write_flash_page : ℕ → List ℕ → Method (Unit {0})
write_flash_page addr page = update (λ d. record d { flash = store_page addr page d.flash })

-- A page that was never written is stored as erased bytes first.
abbrev pub read_page : ℕ → ℕ → Pages → List ℕ × Pages
read_page addr len pages =
    let erased = replicate len 255 in
    elim (lookup_page addr pages) [
      | none ↦ (erased, store_page addr erased pages)
      | some page ↦ (page, pages)
    ]

unfoldable pub read_flash : ℕ → ℕ → Method (List ℕ)
read_flash addr len w =
    let (page, pages) = read_page addr len w.self.flash in
    (ok page, record w { self = record w.self { flash = pages } })

unfoldable pub set_brightness : ℕ → List ℕ → Method (Unit {0})
set_brightness start values = update (λ d. record d { bright = splice d.bright start values })

unfoldable pub set_brightness_synced : ℕ → List ℕ → Method (Unit {0})
set_brightness_synced start values =
    update (λ d. record d { bright = splice d.bright start values })

unfoldable pub get_brightness : ℕ → ℕ → Method (List ℕ)
get_brightness start nch = gets (λ w. slice w.self.bright start nch)

unfoldable pub get_channel_map : ℕ → ℕ → Method (List ChannelRec)
get_channel_map start nch = gets (λ w. slice w.self.ch_map start nch)

unfoldable pub set_channel_map : ℕ → List ChannelRec → Method (Unit {0})
set_channel_map start entries = update (λ d. record d { ch_map = splice d.ch_map start entries })

unfoldable pub set_common_brightness : ℕ → Method (Unit {0})
set_common_brightness value = update (λ d. record d { common_bright = value })

unfoldable pub get_common_brightness : Method ℕ
get_common_brightness = gets (λ w. w.self.common_bright)

unfoldable pub get_max_pwm_value : Method ℕ
get_max_pwm_value = gets (λ w. w.self.max_pwm)

unfoldable pub get_common_max_pwm_value : Method ℕ
get_common_max_pwm_value = pure (ncommonbrights - 1)

-- The frequency is stored before the division by it.
unfoldable pub set_pwm_freq : ℕ → Method (Unit {0})
set_pwm_freq value = do
  update (λ d. record d { pwm_freq = value })
  if value == 0 then raise zero_division else update (λ d. record d { max_pwm = max_pwm_of value })

unfoldable pub get_pwm_freq : Method ℕ
get_pwm_freq = gets (λ w. w.self.pwm_freq)

unfoldable pub store_setup : Method (Unit {0})
store_setup = modify (λ w. record w { saved = some w.self })

unfoldable pub reset_setup : Method (Unit {0})
reset_setup = do update reset_values; store_setup

unfoldable pub get_pwm_bootloader_mode : Method Bool
get_pwm_bootloader_mode = gets (λ w. w.self.pwm_vers == pwm_vers_boot)

unfoldable pub write_pwm_flash_page : ℕ → List ℕ → Method (Unit {0})
write_pwm_flash_page addr page =
    update (λ d. record d { pwm_flash = store_page addr page d.pwm_flash })

unfoldable pub read_pwm_flash : ℕ → ℕ → Method (List ℕ)
read_pwm_flash addr len w =
    let (page, pages) = read_page addr len w.self.pwm_flash in
    (ok page, record w { self = record w.self { pwm_flash = pages } })

-- The class as the interface that the configuration uses.
abbrev pub dummy_ctrl : Ctrl World
dummy_ctrl = record {
  id = λ w. dummy_id w.self.busnum w.self.devnum;
  version = λ w. w.self.version;
  error_count = λ w. w.self.error_count;
  bootloader_mode = bootloader_mode;
  release = pure tt;
  get_reply_error_status = pure 0;
  get_request_error_status = pure 0;
  get_flash_page_size = pure 64;
  get_pwm_version = pure 1;
  pwm_echo_test = λ test_value. pure tt;
  get_pwm_flash_page_size = pure 128;
  read_ee_data = read_ee_data;
  write_ee_data = write_ee_data;
  reset_pwm_ctrl = reset_pwm_ctrl;
  start_pwm_ctrl_bootloader = start_pwm_ctrl_bootloader;
  start_bootloader = start_bootloader;
  start_appl = start_appl;
  write_flash_page = write_flash_page;
  read_flash = read_flash;
  set_brightness = set_brightness;
  get_channel_map = get_channel_map;
  set_channel_map = set_channel_map;
  set_common_brightness = set_common_brightness;
  get_common_brightness = get_common_brightness;
  get_max_pwm_value = get_max_pwm_value;
  get_common_max_pwm_value = get_common_max_pwm_value;
  set_pwm_freq = set_pwm_freq;
  get_pwm_freq = get_pwm_freq;
  store_setup = store_setup;
  reset_setup = reset_setup;
  get_pwm_bootloader_mode = get_pwm_bootloader_mode;
  write_pwm_flash_page = write_pwm_flash_page;
  read_pwm_flash = read_pwm_flash;
}
