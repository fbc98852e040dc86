-- ===== src/Update/Power.antt =====
-- What an update leaves in the flash memory of a controller, when it runs to its end and when the
-- connection breaks (firmwareUpdate of df10ch_setup_pkg/device_dlg.py).
use df10ch_atmolight_control.Prelude.{
  ℕ, zero, suc, ◌-◌, ◌<◌, ◌≤◌, ◌≡◌, refl, ap, ◌∙◌, true, List, [], ◌∷◌, some, arith, get_elem?,
  take, length, replicate,
}
use df10ch_atmolight_control.Result.{ok, err, atmo, write_failed, pipe}
use df10ch_atmolight_control.Exec.{Exec, pure}
use df10ch_atmolight_control.Dummy.{Pages, lookup_page, store_page}
use df10ch_atmolight_control.Firmware.{FlashPage, FlashMem}
use df10ch_atmolight_control.Firmware.Image.{IsImage}
use df10ch_atmolight_control.Update.{Target, Session, flash_pages}
use df10ch_atmolight_control.Update.Order.{first_bytes, plan, stored, stored_part-blank, stored-all}
use df10ch_atmolight_control.Update.Steps.{write_steps, flash_pages-steps}

-- A controller that takes this many pages before its connection breaks, and its flash memory.
abbrev pub Supplied : Type 0
Supplied = ℕ × Pages

abbrev write_supplied : ℕ → List ℕ → Exec Supplied (Unit {0})
write_supplied addr page (zero, flash) = (err (atmo (write_failed 0 pipe)), (zero, flash))
write_supplied addr page (suc left, flash) = (ok tt, (left, store_page addr page flash))

abbrev pub supplied : Target Supplied
supplied = record {
  in_bootloader = pure true;
  start = pure tt;
  flash_page_size = pure 0;
  write_page = write_supplied;
  read_page = λ addr len. pure [];
  leave = pure tt;
}

write_steps-broken :
    (steps : List (ℕ × List ℕ)) (left : ℕ) (flash : Pages)
    → left < length steps
    → write_steps supplied steps (left, flash)
      ≡ (err (atmo (write_failed 0 pipe)), (0, stored (take left steps) flash))
write_steps-broken [] left flash h = absurd (omega arith)
write_steps-broken ((a, page) ∷ rest) zero flash h = refl
write_steps-broken ((a, page) ∷ rest) (suc left) flash h =
    write_steps-broken rest left (store_page a page flash) (omega arith)

write_steps-whole :
    (steps : List (ℕ × List ℕ)) (left : ℕ) (flash : Pages)
    → length steps ≤ left
    → write_steps supplied steps (left, flash) ≡ (ok tt, (left - length steps, stored steps flash))
write_steps-whole [] left flash h =
    let same : left ≡ left - 0 = omega arith in ap (λ n. (ok tt, (n, flash))) same
write_steps-whole ((a, page) ∷ rest) zero flash h = absurd (omega arith)
write_steps-whole ((a, page) ∷ rest) (suc left) flash h =
    let same : left - length rest ≡ suc left - suc (length rest) = omega arith in
    write_steps-whole rest left (store_page a page flash) (omega arith)
    ∙ ap (λ n. (ok tt, (n, stored rest (store_page a page flash)))) same

-- If the connection breaks while a well-formed image with a page at address 0 is flashed, after the
-- first page was written and before the last, then flashing raises AtmoControllerError, and the
-- flash memory has an erased page at address 0, whatever it held before.
pub interrupted_blank :
    (mem : FlashMem) (bytes : List ℕ) (flash : Pages) (left : ℕ)
    → IsImage mem
    → first_bytes mem.page_list ≡ some bytes
    → 0 < left
    → left < length (plan mem.page_size mem.page_list)
    → (let (r, s) = flash_pages supplied (record { ctrl = (left, flash); fw = mem }) in
        (r ≡ err (atmo (write_failed 0 pipe)))
        × (lookup_page 0 s.ctrl.1 ≡ some (replicate mem.page_size 0xFF)))
interrupted_blank mem bytes flash zero image e p h = absurd (omega arith)
interrupted_blank mem bytes flash (suc left) image e p h =
    let s : Session Supplied = record { ctrl = (suc left, flash); fw = mem } in
    let (result, device) = flash_pages-steps supplied s image in
    let broken = write_steps-broken (plan mem.page_size mem.page_list) (suc left) flash h in
    (
      result ∙ ap (λ q. q.0) broken,
      ap (λ d. lookup_page 0 d.1) device
          ∙ (ap (λ q. lookup_page 0 q.1.1) broken
              ∙ stored_part-blank mem.page_size mem.page_list bytes flash left e h),
    )

-- If the connection holds until every page is written, then flashing a well-formed image returns,
-- and each page of the image is in the flash memory, whatever it held before.
pub flash_complete :
    (mem : FlashMem) (i : ℕ) (p : FlashPage) (flash : Pages) (left : ℕ)
    → IsImage mem
    → get_elem? mem.page_list i ≡ some p
    → length (plan mem.page_size mem.page_list) ≤ left
    → (let (r, s) = flash_pages supplied (record { ctrl = (left, flash); fw = mem }) in
        (r ≡ ok tt) × (lookup_page p.base_addr s.ctrl.1 ≡ some p.bytes))
flash_complete mem i p flash left image e h =
    let s : Session Supplied = record { ctrl = (left, flash); fw = mem } in
    let (result, device) = flash_pages-steps supplied s image in
    let whole = write_steps-whole (plan mem.page_size mem.page_list) left flash h in
    (
      result ∙ ap (λ q. q.0) whole,
      ap (λ d. lookup_page p.base_addr d.1) device
          ∙ (ap (λ q. lookup_page p.base_addr q.1.1) whole ∙ stored-all mem i p flash image e),
    )
