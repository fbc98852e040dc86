-- ===== src/Protocol.antt =====
-- The constants of the controller's protocol and the codes built from them
-- (df10ch_setup_pkg/device_drv.py: the request numbers, CM_CODE to CM_BIT, PORT_NAME_MAP, the
-- limits of the settings and GetCommErrMsg).
pub mod Codes
pub mod Ports
pub mod Status
use df10ch_atmolight_control.Prelude.{
  ℕ, zero, suc, ◌+◌, ◌-◌, ◌*◌, ◌/◌, ◌%◌, ◌^◌, Bool, true, false, List, [], ◌∷◌, ◌++◌, String, Text,
  bit_and, bit_or, ◌==◌, if◌then◌else◌, not, Option, none, some, text_eq,
}
use df10ch_atmolight_control.Prelude.Int.{ℤ, sub_ℕ}
use df10ch_atmolight_control.Decimal.{codes}

-- Requests of the usb controller, from 0.
abbrev pub req_start_bootloader : ℕ
req_start_bootloader = 0

abbrev pub req_read_ee_data : ℕ
req_read_ee_data = 1

abbrev pub req_write_ee_data : ℕ
req_write_ee_data = 2

abbrev pub req_stop_pwm_ctrl : ℕ
req_stop_pwm_ctrl = 3

abbrev pub req_reset_pwm_ctrl : ℕ
req_reset_pwm_ctrl = 4

abbrev pub req_bootloader_reset_pwm_ctrl : ℕ
req_bootloader_reset_pwm_ctrl = 5

abbrev pub req_set_reply_timeout : ℕ
req_set_reply_timeout = 6

abbrev pub req_get_reply_err_status : ℕ
req_get_reply_err_status = 7

-- Requests of its boot loader, from 64.
abbrev pub bl_req_write_page : ℕ
bl_req_write_page = 64

abbrev pub bl_req_leave_boot : ℕ
bl_req_leave_boot = 65

abbrev pub bl_req_get_page_size : ℕ
bl_req_get_page_size = 66

abbrev pub bl_req_read_flash : ℕ
bl_req_read_flash = 67

-- Requests of the pwm controller, from 128.
abbrev pub pwm_req_get_version : ℕ
pwm_req_get_version = 128

abbrev pub pwm_req_set_brightness : ℕ
pwm_req_set_brightness = 129

abbrev pub pwm_req_set_brightness_synced : ℕ
pwm_req_set_brightness_synced = 130

abbrev pub pwm_req_get_brightness : ℕ
pwm_req_get_brightness = 131

abbrev pub pwm_req_set_channel_map : ℕ
pwm_req_set_channel_map = 132

abbrev pub pwm_req_get_channel_map : ℕ
pwm_req_get_channel_map = 133

abbrev pub pwm_req_set_common_pwm : ℕ
pwm_req_set_common_pwm = 134

abbrev pub pwm_req_get_common_pwm : ℕ
pwm_req_get_common_pwm = 135

abbrev pub pwm_req_store_setup : ℕ
pwm_req_store_setup = 136

abbrev pub pwm_req_reset_setup : ℕ
pwm_req_reset_setup = 137

abbrev pub pwm_req_get_request_err_status : ℕ
pwm_req_get_request_err_status = 138

abbrev pub pwm_req_get_max_pwm : ℕ
pwm_req_get_max_pwm = 139

abbrev pub pwm_req_set_pwm_freq : ℕ
pwm_req_set_pwm_freq = 140

abbrev pub pwm_req_get_pwm_freq : ℕ
pwm_req_get_pwm_freq = 141

abbrev pub pwm_req_echo_test : ℕ
pwm_req_echo_test = 142

-- Requests of its boot loader, from 192.
abbrev pub bl_pwm_req_write_page : ℕ
bl_pwm_req_write_page = 192

abbrev pub bl_pwm_req_get_page_size : ℕ
bl_pwm_req_get_page_size = 193

abbrev pub bl_pwm_req_read_flash : ℕ
bl_pwm_req_read_flash = 194

abbrev pub bl_pwm_req_get_request_err_status : ℕ
bl_pwm_req_get_request_err_status = 195

-- Payload limits.
abbrev pub max_pwm_req_payload_size : ℕ
max_pwm_req_payload_size = 128

abbrev pub max_pwm_reply_payload_size : ℕ
max_pwm_reply_payload_size = 128

-- Channels and brightness.
abbrev pub nchannels : ℕ
nchannels = 30

abbrev pub ncommonbrights : ℕ
ncommonbrights = 256

-- What PWM_REQ_GET_VERSION answers first.
abbrev pub pwm_vers_appl : ℕ
pwm_vers_appl = 0

abbrev pub pwm_vers_boot : ℕ
pwm_vers_boot = 1

-- Defaults of a transfer.
abbrev pub def_usb_timeout : ℕ
def_usb_timeout = 100

abbrev pub def_retry : ℕ
def_retry = 3

-- The EEPROM's header.
abbrev pub config_valid_id : ℕ
config_valid_id = 41121

abbrev pub config_version_now : ℕ
config_version_now = 3

-- Settings: default and range.
abbrev pub default_gamma_val : ℕ
default_gamma_val = 22

abbrev pub min_gamma_val : ℕ
min_gamma_val = 10

abbrev pub max_gamma_val : ℕ
max_gamma_val = 50

abbrev pub default_overscan : ℕ
default_overscan = 30

abbrev pub min_overscan : ℕ
min_overscan = 0

abbrev pub max_overscan : ℕ
max_overscan = 200

abbrev pub default_edge_weighting : ℕ
default_edge_weighting = 60

abbrev pub min_edge_weighting : ℕ
min_edge_weighting = 10

abbrev pub max_edge_weighting : ℕ
max_edge_weighting = 200

abbrev pub default_weight_limit : ℕ
default_weight_limit = 12

abbrev pub min_weight_limit : ℕ
min_weight_limit = 0

abbrev pub max_weight_limit : ℕ
max_weight_limit = 255

abbrev pub default_analyze_size : ℕ
default_analyze_size = 1

abbrev pub min_analyze_size : ℕ
min_analyze_size = 0

abbrev pub max_analyze_size : ℕ
max_analyze_size = 5

-- The code of a channel map entry: channel in the high bits, port in the low two.
unfoldable pub cm_code : ℕ → ℕ → ℕ
cm_code port channel = bit_or (channel * 4) port

unfoldable pub cm_channel : ℕ → ℕ
cm_channel c = c / 4

unfoldable pub cm_port : ℕ → ℕ
cm_port c = c % 4

unfoldable pub cm_bv : ℕ → ℕ
cm_bv bit = 2 ^ bit

-- The loop of CM_BIT: the value halves until it is 0, so `bv` rounds are enough.
unfoldable pub cm_bit_loop : ℕ → ℕ → ℕ → ℕ
cm_bit_loop zero i bv = i
cm_bit_loop (suc fuel) i bv =
    let next = cm_bit_loop fuel (i + 1) (bv / 2) in if bv == 0 then i else next

unfoldable pub cm_bit : ℕ → ℤ
unfolding cm_bit_loop
cm_bit bv = sub_ℕ (cm_bit_loop bv 0 bv) 1

abbrev pub pa_idx : ℕ
pa_idx = 0

abbrev pub pb_idx : ℕ
pb_idx = 1

abbrev pub pc_idx : ℕ
pc_idx = 2

abbrev pub pd_idx : ℕ
pd_idx = 3

-- A port's name with its index and its pin mask.
abbrev pub Port : Type 0
Port = Text × (ℕ × ℕ)

unfoldable pub port_name_map : List Port
unfolding cm_bv
port_name_map =
    (codes " 1.1", (pa_idx, cm_bv 2))
    ∷ (codes " 1.2", (pa_idx, cm_bv 1))
    ∷ (codes " 1.3", (pa_idx, cm_bv 0))
    ∷ (codes " 2.1", (pa_idx, cm_bv 5))
    ∷ (codes " 2.2", (pa_idx, cm_bv 4))
    ∷ (codes " 2.3", (pa_idx, cm_bv 3))
    ∷ (codes " 3.1", (pc_idx, cm_bv 7))
    ∷ (codes " 3.2", (pa_idx, cm_bv 7))
    ∷ (codes " 3.3", (pa_idx, cm_bv 6))
    ∷ (codes " 4.1", (pc_idx, cm_bv 4))
    ∷ (codes " 4.2", (pc_idx, cm_bv 5))
    ∷ (codes " 4.3", (pc_idx, cm_bv 6))
    ∷ (codes " 5.1", (pc_idx, cm_bv 1))
    ∷ (codes " 5.2", (pc_idx, cm_bv 2))
    ∷ (codes " 5.3", (pc_idx, cm_bv 3))
    ∷ (codes " 6.1", (pd_idx, cm_bv 6))
    ∷ (codes " 6.2", (pd_idx, cm_bv 7))
    ∷ (codes " 6.3", (pc_idx, cm_bv 0))
    ∷ (codes " 7.1", (pd_idx, cm_bv 3))
    ∷ (codes " 7.2", (pd_idx, cm_bv 4))
    ∷ (codes " 7.3", (pd_idx, cm_bv 5))
    ∷ (codes " 8.1", (pb_idx, cm_bv 6))
    ∷ (codes " 8.2", (pb_idx, cm_bv 7))
    ∷ (codes " 8.3", (pd_idx, cm_bv 2))
    ∷ (codes " 9.1", (pb_idx, cm_bv 3))
    ∷ (codes " 9.2", (pb_idx, cm_bv 4))
    ∷ (codes " 9.3", (pb_idx, cm_bv 5))
    ∷ (codes "10.1", (pb_idx, cm_bv 0))
    ∷ (codes "10.2", (pb_idx, cm_bv 1))
    ∷ (codes "10.3", (pb_idx, cm_bv 2))
    ∷ []

-- `PORT_NAME_MAP[name]`, in any table.
unfoldable pub lookup_port : Text → List Port → Option (ℕ × ℕ)
lookup_port name [] = none
lookup_port name ((n, pin) ∷ rest) = if text_eq n name then some pin else lookup_port name rest

abbrev pub has_bit : ℕ → ℕ → Bool
has_bit stat bit = not (bit_and stat (2 ^ bit) == 0)

-- One test of GetCommErrMsg.
abbrev pub add_flag : ℕ → ℕ → Text → Text → Text
add_flag stat bit name rc = if has_bit stat bit then rc ++ name else rc

unfoldable pub get_comm_err_msg : ℕ → Text
get_comm_err_msg stat =
    let rc = if stat == 0 then codes "OK" else [] in
    let rc = add_flag stat 0 (codes " OVERRUN") rc in
    let rc = add_flag stat 1 (codes " FRAME") rc in
    let rc = add_flag stat 2 (codes " TIMEOUT") rc in
    let rc = add_flag stat 3 (codes " START") rc in
    let rc = add_flag stat 4 (codes " OVERFLOW") rc in
    let rc = add_flag stat 5 (codes " CRC") rc in
    let rc = add_flag stat 6 (codes " DUPLICATE") rc in add_flag stat 7 (codes " DEBUG") rc
