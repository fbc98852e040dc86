-- ===== src/Tests/Simulated.antt =====
-- The simulated controller.
use df10ch_atmolight_control.Prelude.{
  ℕ, ◌≡◌, refl, List, [], ◌∷◌, length, arith, replicate, none, some,
}
use df10ch_atmolight_control.Result.{ok}
use df10ch_atmolight_control.Exec.{◌>>◌}
use df10ch_atmolight_control.Decimal.{codes}
use df10ch_atmolight_control.Dummy.{Dummy, World, new_dummy, max_pwm_of, empty_rec}
use df10ch_atmolight_control.Dummy.Methods.{
  read_ee_data, write_ee_data, set_channel_map, get_channel_map, set_brightness, get_brightness,
  write_pwm_flash_page, read_pwm_flash,
}
use df10ch_atmolight_control.Dummy.Laws.{reads_back, flash_reads_back}
use df10ch_atmolight_control.Dummy.Devices.{load_dummy_devices, load_dummy_devices_keeps}

abbrev dummy : Dummy
dummy = record {
  busnum = 0;
  devnum = 1;
  serial = codes "AP";
  version = 0x0101;
  ee_data = replicate 16 0xFF;
  common_bright = 255;
  pwm_freq = 100;
  max_pwm = 1110;
  ch_map = replicate 30 empty_rec;
  start_timeout = 50;
  timeout = 10;
  bright = replicate 30 0;
  flash = [];
  pwm_vers = 0;
  pwm_flash = [];
  error_count = 0;
}

abbrev pub world : World
world = record { self = dummy; dummy_serial = codes "AP"; saved = none }

abbrev part : List ℕ
part = 1 ∷ 2 ∷ 3 ∷ []

fresh_pwm : (new_dummy 0 1 (codes "AP")).max_pwm ≡ 1110
unfolding new_dummy max_pwm_of
fresh_pwm = refl

reads_back_example :
    (((write_ee_data 1 part >> read_ee_data 1 3) world).0 ≡ ok part)
    × (((set_channel_map 1 (empty_rec ∷ []) >> get_channel_map 1 1) world).0 ≡ ok (empty_rec ∷ []))
    × (((set_brightness 1 part >> get_brightness 1 3) world).0 ≡ ok part)
reads_back_example =
    reads_back world 1 part part (empty_rec ∷ []) (omega arith) (omega arith) (omega arith)

-- A page of 128 bytes stands at the address 0.
abbrev flashed : World
flashed = record world { self = record dummy { pwm_flash = (0, replicate 128 7) ∷ [] } }

-- An older page is written over.
flash_reads_back_example :
    (((write_pwm_flash_page 0 part >> read_pwm_flash 0 2) flashed).0 ≡ ok part)
    × ((read_pwm_flash 0 2 flashed).0 ≡ ok (replicate 128 7))
    × (((read_pwm_flash 0 2 >> read_pwm_flash 0 3) flashed).0 ≡ ok (replicate 128 7))
flash_reads_back_example = flash_reads_back flashed 0 0 2 3 part

-- One controller is kept, a second one is new.
load_dummy_devices_keeps_example :
    (load_dummy_devices (some (flashed.self ∷ [])) 2 (codes "AP")
      ≡ flashed.self ∷ new_dummy 0 2 (codes "AP") ∷ [])
    × (length (load_dummy_devices (some (flashed.self ∷ [])) 2 (codes "AP")) ≡ 2)
load_dummy_devices_keeps_example =
    load_dummy_devices_keeps (some (flashed.self ∷ [])) 2 (codes "AP")
