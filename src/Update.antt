-- ===== src/Update.antt =====
-- The firmware update of the device dialog (firmwareUpdate of df10ch_setup_pkg/device_dlg.py) from
-- the start of the bootloaders to the start of the new firmware, step by step; `DeviceDialog.Flashing`
-- puts the steps together. What is displayed and the waiting are left out.
pub mod Order
pub mod Steps
pub mod Power
use df10ch_atmolight_control.Prelude.{
  ℕ, zero, suc, ◌+◌, List, [], ◌∷◌, Text, text_eq, Bool, true, false, Option, none, some, ◌==◌,
  ◌&&◌, get_elem?, if◌then◌else◌,
}
use df10ch_atmolight_control.Result.{
  Result, ok, err, Failure, atmo, flash, at, zero_division, ◌>>=◌ as ◌>>=ᵣ◌,
}
use df10ch_atmolight_control.Exec.{Exec, pure, lift, gets, modify, ◌>>=◌, ◌>>◌}
use df10ch_atmolight_control.Decimal.{codes}
use df10ch_atmolight_control.Ctrl.{Ctrl}
use df10ch_atmolight_control.Firmware.{FlashPage, FlashMem, new_page, get_page_for_addr, verify}
use df10ch_atmolight_control.Firmware.Load.{load_firmware}

-- What the update calls on a controller for one of the two targets.
pub record Target (S : Type 0) : Type 0 where
  pub in_bootloader : Exec S Bool
  pub start : Exec S (Unit {0})
  pub flash_page_size : Exec S ℕ
  pub write_page : ℕ → List ℕ → Exec S (Unit {0})
  pub read_page : ℕ → ℕ → Exec S (List ℕ)
  pub leave : Exec S (Unit {0})

abbrev pub usb_target : {S : Type 0} → Ctrl S → Target S
usb_target ctrl = record {
  in_bootloader = gets ctrl.bootloader_mode;
  start = ctrl.start_bootloader;
  flash_page_size = ctrl.get_flash_page_size;
  write_page = ctrl.write_flash_page;
  read_page = ctrl.read_flash;
  leave = ctrl.start_appl;
}

abbrev pub pwm_target : {S : Type 0} → Ctrl S → Target S
pwm_target ctrl = record {
  in_bootloader = ctrl.get_pwm_bootloader_mode;
  start = ctrl.start_pwm_ctrl_bootloader;
  flash_page_size = ctrl.get_pwm_flash_page_size;
  write_page = ctrl.write_pwm_flash_page;
  read_page = ctrl.read_pwm_flash;
  leave = ctrl.reset_pwm_ctrl;
}

unfoldable pub target_of : {S : Type 0} → Text → Ctrl S → Target S
target_of target ctrl =
    if text_eq target (codes "DF10CH-USB") then usb_target ctrl else pwm_target ctrl

-- A controller and the image that is flashed: `fw` may be loaded again for another page size, and
-- a lookup changes what it remembers.
pub record Session (S : Type 0) : Type 0 where
  pub ctrl : S
  pub fw : FlashMem

abbrev pub on_ctrl : {S A : Type 0} → Exec S A → Exec (Session S) A
on_ctrl m s = let (r, c) = m s.ctrl in (r, record s { ctrl = c })

-- `fp != firstPage` compares objects: the place in the list stands for the object.
abbrev pub is_first : ℕ → Option ℕ → Bool
is_first i none = false
is_first i (some j) = i == j

abbrev pub is_caught : Failure → Bool
is_caught (atmo report) = true
is_caught (flash line) = true
is_caught other = false

-- What is caught ends flashing, any other exception ends the update.
abbrev pub goes_on : Result Bool → Bool
goes_on (ok go_on) = go_on
goes_on (err e) = false

abbrev pub ends : Result Bool → Bool
ends (ok go_on) = false
ends (err e) = if is_caught e then false else true

module _ {S : Type 0} (target : Target S) where
  -- The loop that writes every page but the first one.
  unfoldable pub flash_others : ℕ → Option ℕ → List FlashPage → Exec S (Unit {0})
  flash_others i first [] = pure tt
  flash_others i first (p ∷ ps) =
      let rest = flash_others (i + 1) first ps in
      if is_first i first then rest else target.write_page p.base_addr p.bytes >> rest

  -- The page of address 0 is first overwritten with an erased page and written last.
  unfoldable pub flash_all : ℕ → Option ℕ → List FlashPage → Exec S (Unit {0})
  flash_all size none pages = flash_others 0 none pages
  flash_all size (some i) pages =
      let blank = new_page 0 size in
      target.write_page blank.base_addr blank.bytes
      >> (flash_others 0 (some i) pages
          >> (lift (at pages i) >>= λ p. target.write_page p.base_addr p.bytes))

  unfoldable pub flash_pages : Exec (Session S) (Unit {0})
  flash_pages s =
      if s.fw.page_size == 0
      then (err zero_division, s)
      else (let (first, fw) = get_page_for_addr 0 s.fw in
          on_ctrl (flash_all fw.page_size first fw.page_list) (record s { fw = fw }))

  unfoldable pub verify_pages : List FlashPage → Exec S (Unit {0})
  verify_pages [] = pure tt
  verify_pages (p ∷ ps) = do
    read ← target.read_page p.base_addr p.page_size
    lift (verify read p)
    verify_pages ps

  module _ (lines : Option (List Text)) where
    -- An image of another page size is loaded from the file again.
    unfoldable pub fit_image : ℕ → Exec (Session S) (Unit {0})
    fit_image size s =
        if size == s.fw.page_size then (ok tt, s) else (elim (load_firmware lines size false) [
          | ok fw ↦ (ok tt, record s { fw = fw })
          | err e ↦ (err e, s)
        ])

    -- One controller that has started its bootloader.
    unfoldable pub update_image : Exec (Session S) (Unit {0})
    update_image = do
      size ← on_ctrl target.flash_page_size
      fit_image size
      flash_pages
      s ← gets (λ s. s)
      on_ctrl (verify_pages s.fw.page_list)

    -- The body of the loop over the controllers: whether flashing goes on. Where the bootloader has
    -- not started, flashing stops.
    unfoldable pub update_one : Bool → Exec (Session S) Bool
    update_one do_flash = do
      started ← on_ctrl target.in_bootloader
      (if started && do_flash then update_image >> pure true else pure false)

    -- What the two except clauses catch is shown, and flashing stops; any other exception ends the
    -- update.
    unfoldable pub update_all : List S → Bool → FlashMem → Result (Bool × FlashMem) × List S
    update_all [] do_flash fw = (ok (do_flash, fw), [])
    update_all (c ∷ cs) do_flash fw =
        let (r, s) = update_one do_flash (record { ctrl = c; fw = fw }) in
        let (r', cs') = update_all cs (goes_on r) s.fw in
        if ends r then (r >>=ᵣ λ go_on. ok (go_on, s.fw), s.ctrl ∷ cs) else (r', s.ctrl ∷ cs')

  -- Starting the bootloaders: the first error ends the loop.
  unfoldable pub start_bootloaders : List S → Result (Unit {0}) × List S
  start_bootloaders [] = (ok tt, [])
  start_bootloaders (c ∷ cs) =
      let (r, c') =
        (do started ← target.in_bootloader; if started then pure tt else target.start) c in
      let (r', cs') = start_bootloaders cs in
      elim r [ ok u ↦ (r', c' ∷ cs') | err e ↦ (err e, c' ∷ cs) ]

  -- Starting the firmware: an error of one controller does not keep the next from starting.
  unfoldable pub start_firmware : List S → Result (Unit {0}) × List S
  start_firmware [] = (ok tt, [])
  start_firmware (c ∷ cs) =
      let (r, c') =
        (do started ← target.in_bootloader; if started then target.leave else pure tt) c in
      let (r', cs') = start_firmware cs in
      elim r [
        | ok u ↦ (r', c' ∷ cs')
        | err (atmo report) ↦ (r', c' ∷ cs')
        | err e ↦ (err e, c' ∷ cs)
      ]
