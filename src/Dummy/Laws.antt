-- ===== src/Dummy/Laws.antt =====
-- The simulated memories give back what was written (dummyController of
-- df10ch_setup_pkg/device_drv.py).
use df10ch_atmolight_control.Prelude.{
  ℕ, zero, suc, ◌+◌, ◌≤◌, ◌≡◌, refl, ap, List, [], ◌∷◌, ◌++◌, length, take, drop, arith,
  take-append_self, length-append, length-take, length-drop, ◌==◌, if◌then◌else◌, replicate, none,
  some,
}
use df10ch_atmolight_control.Result.{ok}
use df10ch_atmolight_control.Exec.{◌>>◌}
use df10ch_atmolight_control.Controller.Payload.{ChannelRec}
use df10ch_atmolight_control.Dummy.{World, Pages, slice, splice, lookup_page, store_page}
use df10ch_atmolight_control.Dummy.Methods.{
  read_ee_data, write_ee_data, set_channel_map, get_channel_map, set_brightness, get_brightness,
  write_pwm_flash_page, read_pwm_flash,
}

module _ {ℓ} {A : Type ℓ} where
  drop-take_append :
      (l : List A) (start : ℕ) (rest : List A)
      → start ≤ length l
      → drop start (take start l ++ rest) ≡ rest
  drop-take_append l zero rest h = refl
  drop-take_append [] (suc start) rest h = absurd (omega arith)
  drop-take_append (x ∷ l) (suc start) rest h = drop-take_append l start rest (omega arith)

  -- Behind the start stands what was written, then the old end.
  pub drop-splice :
      (l : List A) (start : ℕ) (part : List A)
      → start ≤ length l
      → drop start (splice l start part) ≡ part ++ drop (start + length part) l
  drop-splice l start part h = drop-take_append l start (part ++ drop (start + length part) l) h

  pub slice-splice :
      (l : List A) (start : ℕ) (part : List A)
      → start ≤ length l
      → slice (splice l start part) start (length part) ≡ part
  slice-splice l start part h = rw (drop-splice l start part h) (take-append_self part _)

  pub length-splice :
      (l : List A) (start : ℕ) (part : List A)
      → start + length part ≤ length l
      → length (splice l start part) ≡ length l
  length-splice l start part h = omega (
    arith,
    length-append {ℓ} (take start l) (part ++ drop (start + length part) l),
    length-append {ℓ} part (drop (start + length part) l),
    length-take {ℓ} start l,
    length-drop {ℓ} (start + length part) l,
  )

-- The EEPROM, the channel map and the brightness values are read back as they were written, whatever
-- stood there before, from any start inside the memory.
pub reads_back :
    (w : World) (start : ℕ) (part values : List ℕ) (entries : List ChannelRec)
    → start ≤ length w.self.ee_data
    → start ≤ length w.self.ch_map
    → start ≤ length w.self.bright
    → (((write_ee_data start part >> read_ee_data start (length part)) w).0 ≡ ok part)
      × (((set_channel_map start entries >> get_channel_map start (length entries)) w).0
          ≡ ok entries)
      × (((set_brightness start values >> get_brightness start (length values)) w).0 ≡ ok values)
unfolding write_ee_data read_ee_data set_channel_map get_channel_map set_brightness get_brightness
reads_back w start part values entries ee map_start bright = (
  ap ok (slice-splice w.self.ee_data start part ee),
  ap ok (slice-splice w.self.ch_map start entries map_start),
  ap ok (slice-splice w.self.bright start values bright),
)

-- A page that was stored is found again, and no other page changes.
pub lookup-store_page :
    (addr other : ℕ) (page : List ℕ) (pages : Pages)
    → lookup_page other (store_page addr page pages)
      ≡ (if addr == other then some page else lookup_page other pages)
lookup-store_page addr other page [] = refl
lookup-store_page addr other page ((a, old) ∷ rest) =
    ground (arith, lookup-store_page addr other page rest)

-- What a page holds: the bytes that were written last, or erased ones.
abbrev pub page_at : ℕ → ℕ → World → List ℕ
page_at addr len w = elim (lookup_page addr w.self.pwm_flash) [
  | none ↦ replicate len 255
  | some page ↦ page
]

-- A flash page reads as it was written, also over an older one, and every other page reads as it did
-- before, written or not. A page that was never written reads as erased bytes, and reading it changes
-- no page: every page reads the same after it.
pub flash_reads_back :
    (w : World) (addr other len len' : ℕ) (page : List ℕ)
    → (((write_pwm_flash_page addr page >> read_pwm_flash other len) w).0
        ≡ ok (if addr == other then page else page_at other len w))
      × ((read_pwm_flash addr len w).0 ≡ ok (page_at addr len w))
      × (((read_pwm_flash addr len >> read_pwm_flash other len') w).0
          ≡ ok (if addr == other then page_at addr len w else page_at other len' w))
unfolding write_pwm_flash_page read_pwm_flash
flash_reads_back w addr other len len' page = (
  ground (arith, lookup-store_page addr other page w.self.pwm_flash),
  ground arith,
  ground (arith, lookup-store_page addr other (replicate len 255) w.self.pwm_flash),
)
