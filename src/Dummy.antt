-- ===== src/Dummy.antt =====
-- The simulated controller (dummyController of df10ch_setup_pkg/device_drv.py): its state, and one
-- function per method that is more than a message.
pub mod Methods
pub mod Laws
pub mod Devices
use df10ch_atmolight_control.Prelude.{
  ℕ, zero, suc, ◌+◌, ◌-◌, ◌*◌, ◌/◌, List, [], ◌∷◌, ◌++◌, Text, length, take, drop, replicate, ◌==◌,
  if◌then◌else◌, Option, none, some, Bool, text_eq,
}
use df10ch_atmolight_control.Result.{Result, ok, err, zero_division}
use df10ch_atmolight_control.Exec.{Exec}
use df10ch_atmolight_control.Decimal.{codes, print_nat}
use df10ch_atmolight_control.Protocol.{nchannels, ncommonbrights, pwm_vers_appl}
use df10ch_atmolight_control.Controller.Payload.{ChannelRec}

-- `l[start : start + n]`
abbrev pub slice {ℓ} : {A : Type ℓ} → List A → ℕ → ℕ → List A
slice l start n = take n (drop start l)

-- `l[start : start + len(part)] = part`; past the end the part is appended.
abbrev pub splice {ℓ} : {A : Type ℓ} → List A → ℕ → List A → List A
splice l start part = take start l ++ (part ++ drop (start + length part) l)

-- A dict from addresses to pages.
abbrev pub Pages : Type 0
Pages = List (ℕ × List ℕ)

abbrev pub lookup_page : ℕ → Pages → Option (List ℕ)
lookup_page addr [] = none
lookup_page addr ((a, page) ∷ rest) = if a == addr then some page else lookup_page addr rest

abbrev pub store_page : ℕ → List ℕ → Pages → Pages
store_page addr page [] = (addr, page) ∷ []
store_page addr page ((a, old) ∷ rest) =
    if a == addr then (addr, page) ∷ rest else (a, old) ∷ store_page addr page rest

pub record Dummy : Type 0 where
  pub busnum : ℕ
  pub devnum : ℕ
  pub serial : Text
  pub version : ℕ
  pub ee_data : List ℕ
  pub common_bright : ℕ
  pub pwm_freq : ℕ
  pub max_pwm : ℕ
  pub ch_map : List ChannelRec
  pub start_timeout : ℕ
  pub timeout : ℕ
  pub bright : List ℕ
  pub flash : Pages
  pub pwm_vers : ℕ
  pub pwm_flash : Pages
  pub error_count : ℕ

-- What a method may change: the object, the module's `dummySerial`, and this object's part of the
-- file that `store_setup` writes.
pub record World : Type 0 where
  pub self : Dummy
  pub dummy_serial : Text
  pub saved : Option Dummy

abbrev pub empty_rec : ChannelRec
empty_rec = record { channel = 0; port = 0; pins = 0 }

-- `int(16000000 / (16 * 9 * freq) - 1)`, for a frequency of at most 111111 Hz: above that Python
-- has -1.
unfoldable pub max_pwm_of : ℕ → ℕ
max_pwm_of freq = 16000000 / (16 * 9 * freq) - 1

unfoldable pub reset_values : Dummy → Dummy
reset_values d = record d {
  common_bright = ncommonbrights - 1;
  pwm_freq = 100;
  max_pwm = max_pwm_of 100;
  ch_map = replicate 30 empty_rec;
}

unfoldable pub new_dummy : ℕ → ℕ → Text → Dummy
unfolding reset_values
new_dummy busnum devnum dummy_serial = reset_values (record {
  busnum = busnum;
  devnum = devnum;
  serial = dummy_serial;
  version = 0x0101;
  ee_data = replicate 512 0xFF;
  common_bright = 0;
  pwm_freq = 0;
  max_pwm = 0;
  ch_map = [];
  start_timeout = 50;
  timeout = 10;
  bright = replicate nchannels 0;
  flash = [];
  pwm_vers = pwm_vers_appl;
  pwm_flash = [];
  error_count = 0;
})

unfoldable pub dummy_id : ℕ → ℕ → Text
dummy_id busnum devnum =
    codes "DUMMY[" ++ (print_nat busnum ++ (b',' ∷ (print_nat devnum ++ codes "]")))
