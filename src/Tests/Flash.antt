-- ===== src/Tests/Flash.antt =====
-- Firmware files and flash pages.
use df10ch_atmolight_control.Prelude.{
  inl, inr, ℕ, ◌≡◌, ◌↔◌, refl, List, [], ◌∷◌, Text, arith, some, none, take, true, false,
}
use df10ch_atmolight_control.Result.{ok, err, flash, value_error}
use df10ch_atmolight_control.Decimal.{codes}
use df10ch_atmolight_control.Firmware.{
  FlashPage, FlashMem, insert, verify, get_page_for_addr, write_at, page_insert, new_page,
  find_base,
}
use df10ch_atmolight_control.Firmware.Image.{IsImage}
use df10ch_atmolight_control.Firmware.Image.Insert.{Written, insert_lem}
use df10ch_atmolight_control.Firmware.Load.{
  load_firmware, load_lines, load_line, load_data, load_bytes, parse_hex, parse_signed,
  parse_unsigned, parse_digits, skip_blanks, drop_prefix, hex_from, hex_digit, rstrip, words_from,
}
use df10ch_atmolight_control.Firmware.Checks.{
  Ensures, ArePlain, HasPages, load_firmware-HasPages, verify_iff,
}

abbrev lines : List Text
lines =
    codes "# a comment "
    ∷ codes "@DF10CH-PWM V1.0"
    ∷ codes ":0200030012Ab3E"
    ∷ codes ":00000001FF"
    ∷ []

abbrev loaded : FlashMem
loaded = record {
  page_size = 4;
  page_list =
      record { page_size = 4; base_addr = 0; bytes = 255 ∷ 255 ∷ 255 ∷ 0x12 ∷ [] }
      ∷ record { page_size = 4; base_addr = 4; bytes = 0xAB ∷ 255 ∷ 255 ∷ 255 ∷ [] }
      ∷ [];
  last_lookup = none;
  target = some (codes "DF10CH-PWM");
  version = some (codes "V1.0");
}

load_lines_test : load_firmware (some lines) 4 true ≡ ok loaded
unfolding load_firmware load_lines load_line load_data load_bytes parse_hex parse_signed
    parse_unsigned parse_digits skip_blanks drop_prefix hex_from hex_digit rstrip words_from insert
    get_page_for_addr write_at page_insert new_page find_base
load_lines_test = refl

load_bad_test : load_firmware (some (codes ":02000300" ∷ [])) 4 false ≡ err (flash (some 1))
unfolding load_firmware load_lines load_line load_data load_bytes parse_hex parse_signed
    parse_unsigned parse_digits skip_blanks drop_prefix hex_from hex_digit rstrip words_from
load_bad_test = refl

-- A byte with a minus sign.
load_negative_test : load_firmware (some (codes ":01000000-1" ∷ [])) 4 false ≡ err value_error
unfolding load_firmware load_lines load_line load_data load_bytes parse_hex parse_signed
    parse_unsigned parse_digits skip_blanks drop_prefix hex_from hex_digit rstrip words_from
load_negative_test = refl

lines-ArePlain : ArePlain (some lines)
lines-ArePlain =
    (inl (omega arith), (inl (omega arith), (inr (omega arith), (inr (omega arith), tt))))

load_firmware-HasPages_example : Ensures (HasPages 4) (load_firmware (some lines) 4 true)
load_firmware-HasPages_example =
    load_firmware-HasPages (some lines) 4 true (omega arith) lines-ArePlain

loaded-IsImage : IsImage loaded
loaded-IsImage = record {
  size_pos = omega arith;
  pages = (
    record { size_eq = refl; length_eq = refl },
    unfold find_base in refl,
    (record { size_eq = refl; length_eq = refl }, unfold find_base in refl, tt),
  );
}

insert_lem_example : (mem : FlashMem) × (insert 6 0x55 loaded ≡ ok mem) × Written loaded 6 0x55 mem
insert_lem_example = insert_lem 6 0x55 loaded loaded-IsImage (omega arith)

abbrev read_bytes : List ℕ
read_bytes = 1 ∷ 3 ∷ []

abbrev page : FlashPage
page = record { page_size = 2; base_addr = 8; bytes = 1 ∷ 2 ∷ [] }

verify_iff_example : (verify read_bytes page ≡ ok tt) ↔ (take 2 read_bytes ≡ page.bytes)
verify_iff_example = verify_iff read_bytes page
