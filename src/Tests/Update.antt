-- ===== src/Tests/Update.antt =====
-- The update of a firmware.
use df10ch_atmolight_control.Prelude.{ℕ, ◌≡◌, refl, [], ◌∷◌, replicate, arith, some, none}
use df10ch_atmolight_control.Result.{ok, err, atmo, write_failed, pipe}
use df10ch_atmolight_control.Dummy.{Pages, lookup_page}
use df10ch_atmolight_control.Firmware.{FlashPage, FlashMem, find_base}
use df10ch_atmolight_control.Firmware.Image.{IsImage}
use df10ch_atmolight_control.Update.{Session, flash_pages}
use df10ch_atmolight_control.Update.Order.{plan}
use df10ch_atmolight_control.Update.Steps.{write_steps, flash_pages-steps}
use df10ch_atmolight_control.Update.Power.{Supplied, supplied, interrupted_blank, flash_complete}

abbrev first_page : FlashPage
first_page = record { page_size = 2; base_addr = 0; bytes = 1 ∷ 2 ∷ [] }

abbrev next_page : FlashPage
next_page = record { page_size = 2; base_addr = 2; bytes = 3 ∷ 4 ∷ [] }

abbrev image : FlashMem
image = record {
  page_size = 2;
  page_list = next_page ∷ first_page ∷ [];
  last_lookup = some 0;
  target = none;
  version = none;
}

image-IsImage : IsImage image
image-IsImage = record {
  size_pos = omega arith;
  pages = (
    record { size_eq = refl; length_eq = refl },
    unfold find_base in refl,
    (record { size_eq = refl; length_eq = refl }, unfold find_base in refl, tt),
  );
}

plan_test : plan 2 image.page_list ≡ (0, 255 ∷ 255 ∷ []) ∷ (2, 3 ∷ 4 ∷ []) ∷ (0, 1 ∷ 2 ∷ []) ∷ []
plan_test = refl

abbrev old_flash : Pages
old_flash = (0, 9 ∷ 9 ∷ []) ∷ []

abbrev session : ℕ → Session Supplied
session left = record { ctrl = (left, old_flash); fw = image }

flash_pages-steps_example :
    ((flash_pages supplied (session 2)).0
      ≡ (write_steps supplied (plan image.page_size image.page_list) (2, old_flash)).0)
    × ((flash_pages supplied (session 2)).1.ctrl
        ≡ (write_steps supplied (plan image.page_size image.page_list) (2, old_flash)).1)
flash_pages-steps_example = flash_pages-steps supplied (session 2) image-IsImage

interrupted_blank_example :
    ((flash_pages supplied (session 2)).0 ≡ err (atmo (write_failed 0 pipe)))
    × (lookup_page 0 (flash_pages supplied (session 2)).1.ctrl.1 ≡ some (replicate 2 0xFF))
interrupted_blank_example =
    interrupted_blank image (1 ∷ 2 ∷ []) old_flash 2 image-IsImage refl (omega arith) (omega arith)

flash_complete_example :
    ((flash_pages supplied (session 3)).0 ≡ ok tt)
    × (lookup_page 2 (flash_pages supplied (session 3)).1.ctrl.1 ≡ some (3 ∷ 4 ∷ []))
flash_complete_example =
    flash_complete image 0 next_page old_flash 3 image-IsImage refl (omega arith)
