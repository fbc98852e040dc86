-- ===== src/Devices.antt =====
-- The list of controllers and the dict of their configurations (FindDevices, ReleaseDevices and
-- LoadConfigs of df10ch_setup_pkg/device_drv.py).
pub mod Asked
pub mod Calls
pub mod Found
pub mod Listed
pub mod Loading
pub mod Placed
use df10ch_atmolight_control.Prelude.{
  ℕ, zero, suc, ◌+◌, List, [], ◌∷◌, ◌++◌, Text, text_eq, Bool, true, false, ◌&&◌, ◌||◌, not, Option,
  none, some, ◌==◌, ltb, if◌then◌else◌,
}
use df10ch_atmolight_control.Result.{Result, ok, err, Failure, usb_error, device_error}
use df10ch_atmolight_control.Exec.{Exec, pure, lift, gets, ◌>>=◌, ◌>>◌}
use df10ch_atmolight_control.Decimal.{codes}
use df10ch_atmolight_control.Usb.{Usb, Reply, done, failed}
use df10ch_atmolight_control.Controller.{Controller, new_controller, release}
use df10ch_atmolight_control.Dummy.{Dummy}
use df10ch_atmolight_control.Dummy.Devices.{load_dummy_devices}
use df10ch_atmolight_control.Ctrl.{Ctrl}
use df10ch_atmolight_control.Config.{Config}
use df10ch_atmolight_control.Config.Methods.{read}

abbrev pub vendor_id : ℕ
vendor_id = 0x16c0

abbrev pub product_id : ℕ
product_id = 0x05dc

abbrev pub vendor_name : Text
vendor_name = codes "yak54@gmx.net"

abbrev pub device_name : Text
device_name = codes "DF10CH"

-- The calls of python-libusb1 on the bus, on a device of it and on an opened handle. They are a
-- parameter, like those of `Usb`.
pub record Bus (B V D : Type 0) : Type 0 where
  -- importing the library and making a context: whether it works
  pub open_context : B → Bool × B
  pub get_device_list : B → Reply (List V) × B
  pub get_vendor_id : V → B → Reply ℕ × B
  pub get_product_id : V → B → Reply ℕ × B
  pub get_manufacturer : V → B → Reply Text × B
  pub get_product : V → B → Reply Text × B
  pub get_serial_number : V → B → Reply Text × B
  pub open_device : V → B → Reply D × B
  pub set_configuration : ℕ → D → Reply (Unit {0}) × D
  pub claim_interface : ℕ → D → Reply (Unit {0}) × D
  pub get_bus_number : V → ℕ
  pub get_device_address : V → ℕ
  pub get_bcd_device : V → ℕ

-- `DeviceList`: the program has controllers of one kind only.
pub data DeviceList (D : Type 0) : Type 0 where
  usb_devices : List (Controller D) → DeviceList D
  dummy_devices : List Dummy → DeviceList D

-- The module's variables; `dummyctrls.objs` is the file of the simulated controllers.
pub record Host (B D : Type 0) : Type 0 where
  pub bus : B
  pub usb_context : Bool
  pub device_list : DeviceList D
  pub simulated_controllers : ℕ
  pub dummy_serial : Text
  pub saved_dummies : Option (List Dummy)

abbrev pub reply_result : {A : Type 0} → Reply A → Result A
reply_result (done a) = ok a
reply_result (failed e) = err (usb_error e)

-- A call on the bus; a USBError is raised.
abbrev pub ask : {B A : Type 0} → (B → Reply A × B) → Exec B A
ask call b = let (reply, b') = call b in (reply_result reply, b')

-- `ok` of a call on a handle, which changes.
abbrev pub on_handle : {B D : Type 0} → (D → Reply (Unit {0}) × D) → D → Exec B D
on_handle call handle b =
    let (reply, handle') = call handle in
    (elim reply [ done u ↦ ok handle' | failed e ↦ err (usb_error e) ], b)

module _ {B V D : Type 0} (bus : Bus B V D) (usb : Usb D) where
  -- `and` asks only as long as the answers fit.
  unfoldable pub is_controller : V → Exec B Bool
  is_controller dev = do
    vendor ← ask (bus.get_vendor_id dev)
    (if vendor == vendor_id
        then (do
          product ← ask (bus.get_product_id dev)
          (if product == product_id
              then (do
                manufacturer ← ask (bus.get_manufacturer dev)
                (if text_eq manufacturer vendor_name
                    then (do name ← ask (bus.get_product dev); pure (text_eq name device_name))
                    else pure false))
              else pure false))
        else pure false)

  unfoldable pub open_controller : V → Exec B (Controller D)
  open_controller dev = do
    serial ← ask (bus.get_serial_number dev)
    handle ← ask (bus.open_device dev)
    configured ← on_handle (bus.set_configuration 1) handle
    claimed ← on_handle (bus.claim_interface 0) configured
    pure (
        new_controller claimed (bus.get_bus_number dev) (bus.get_device_address dev)
          (bus.get_bcd_device dev) serial)

  -- The body of the `try`: the controller that a device is, if it is one.
  unfoldable pub probe : V → Exec B (Option (Controller D))
  probe dev = do
    ours ← is_controller dev
    (if ours then (do ctrl ← open_controller dev; pure (some ctrl)) else pure none)

  -- A USBError of one device passes it over.
  abbrev pub passed_over : Result (Option (Controller D)) → Result (Option (Controller D))
  passed_over (ok found) = ok found
  passed_over (err (usb_error e)) = ok none
  passed_over (err e) = err e

  abbrev pub with_found : Option (Controller D) → List (Controller D) → List (Controller D)
  with_found none devices = devices
  with_found (some ctrl) devices = devices ++ ctrl ∷ []

  unfoldable pub probe_all : List V → List (Controller D) → Exec B (List (Controller D))
  probe_all [] devices b = (ok devices, b)
  probe_all (dev ∷ devs) devices b =
      let (r, b') = probe dev b in
      elim (passed_over r) [
        | ok found ↦ probe_all devs (with_found found devices) b'
        | err e ↦ (err e, b')
      ]

  -- A USBError of a controller that is released is passed over.
  unfoldable pub release_all : List (Controller D) → Result (Unit {0}) × List (Controller D)
  release_all [] = (ok tt, [])
  release_all (c ∷ cs) =
      let (r, c') = release usb c in
      let (r', cs') = release_all cs in
      elim r [
        | ok u ↦ (r', c' ∷ cs')
        | err (usb_error e) ↦ (r', c' ∷ cs')
        | err e ↦ (err e, c' ∷ cs)
      ]

  -- Only the list of devices and the bus change in a search.
  unfoldable pub release_devices : Exec (Host B D) (Unit {0})
  release_devices h = elim h.device_list [
    | dummy_devices ds ↦ (ok tt, record h { device_list = usb_devices [] })
    | usb_devices cs ↦ elim (release_all cs).0 [
      | ok u ↦ (ok tt, record h { device_list = usb_devices [] })
      | err e ↦ (err e, record h { device_list = usb_devices (release_all cs).1 })
    ]
  ]

  unfoldable pub need_context : Exec (Host B D) (Unit {0})
  need_context h =
      if not h.usb_context && h.simulated_controllers == 0
      then (let (works, b) = bus.open_context h.bus in
          if works
          then (ok tt, record h { bus = b; usb_context = true })
          else (err device_error, record h { bus = b }))
      else (ok tt, h)

  -- The search on the bus. An exception other than USBError does not come from `probe`.
  unfoldable pub search_bus : Exec (Host B D) (Unit {0})
  search_bus h =
      let (r, b) = (ask bus.get_device_list >>= λ devs. probe_all devs []) h.bus in
      elim r [
        | ok cs ↦ (ok tt, record h { bus = b; device_list = usb_devices cs })
        | err e ↦ (err e, record h { bus = b })
      ]

  unfoldable pub find_devices : Exec (Host B D) (Unit {0})
  find_devices =
      need_context
      >> (release_devices >> λ h.
          if ltb 0 h.simulated_controllers
          then (
            ok tt,
            record h {
              device_list =
                  dummy_devices
                    (load_dummy_devices h.saved_dummies h.simulated_controllers h.dummy_serial);
            },
          )
          else search_bus h)
