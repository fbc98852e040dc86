-- ===== src/Devices/Asked.antt =====
-- What the calls of a search answer when a controller is opened (FindDevices of
-- df10ch_setup_pkg/device_drv.py).
use mathlib.Core.Option.{some-injective}
use df10ch_atmolight_control.Prelude.{
  ◌≡◌, refl, ap, ◌∙◌, Bool, true, false, none, some, if◌then◌else◌, sym, text_eq, text_eq→eq, ◌==◌,
  ==_iff, Text,
}
use df10ch_atmolight_control.Result.{ok}
use df10ch_atmolight_control.Exec.{pure, continue-eq-ok, ◌>>=◌}
use df10ch_atmolight_control.Decimal.{codes}
use df10ch_atmolight_control.Usb.{Usb, done}
use df10ch_atmolight_control.Controller.{Controller, new_controller}
use df10ch_atmolight_control.Devices.{
  vendor_id, product_id, vendor_name, device_name, Bus, is_controller, open_controller, probe,
}
use df10ch_atmolight_control.Devices.Calls.{
  paired, ask-inv, on_handle-inv, ok-injective, ask-run, on_handle-run, if-inv,
}

module _ {B V D : Type 0} (bus : Bus B V D) (usb : Usb D) where
  -- The device answers with the ids and the names of a DF10CH controller, one call after the other,
  -- gives its serial number, and is opened, configured and claimed as the controller `c`.
  pub record IsOpened (dev : V) (b : B) (c : Controller D) (b' : B) : Type 0 where
    pub b1 : B
    pub b2 : B
    pub b3 : B
    pub b4 : B
    pub b5 : B
    pub serial : Text
    pub handle : D
    pub d1 : D
    pub d2 : D
    pub has_vendor : bus.get_vendor_id dev b ≡ (done 0x16c0, b1)
    pub has_product : bus.get_product_id dev b1 ≡ (done 0x05dc, b2)
    pub has_manufacturer : bus.get_manufacturer dev b2 ≡ (done (codes "yak54@gmx.net"), b3)
    pub has_name : bus.get_product dev b3 ≡ (done (codes "DF10CH"), b4)
    pub has_serial : bus.get_serial_number dev b4 ≡ (done serial, b5)
    pub opens : bus.open_device dev b5 ≡ (done handle, b')
    pub configures : bus.set_configuration 1 handle ≡ (done tt, d1)
    pub claims : bus.claim_interface 0 d1 ≡ (done tt, d2)
    pub controller :
        c
        ≡ new_controller d2
            (bus.get_bus_number dev)
            (bus.get_device_address dev)
            (bus.get_bcd_device dev)
            serial

  is_controller-inv :
      (dev : V) (b b4 : B)
      → is_controller bus usb dev b ≡ (ok true, b4)
      → (b1 b2 b3 : B) × (bus.get_vendor_id dev b ≡ (done vendor_id, b1))
        × (bus.get_product_id dev b1 ≡ (done product_id, b2))
        × (bus.get_manufacturer dev b2 ≡ (done vendor_name, b3))
        × (bus.get_product dev b3 ≡ (done device_name, b4))
  unfolding is_controller
  is_controller-inv dev b b4 h =
      let (vendor, b1, asked1, h1) = ask-inv (bus.get_vendor_id dev) _ b true b4 h in
      let (same1, h1') = if-inv (vendor == vendor_id) _ b1 b4 h1 in
      let (product, b2, asked2, h2) = ask-inv (bus.get_product_id dev) _ b1 true b4 h1' in
      let (same2, h2') = if-inv (product == product_id) _ b2 b4 h2 in
      let (maker, b3, asked3, h3) = ask-inv (bus.get_manufacturer dev) _ b2 true b4 h2' in
      let (same3, h3') = if-inv (text_eq maker vendor_name) _ b3 b4 h3 in
      let (name, b4', asked4, h4) = ask-inv (bus.get_product dev) _ b3 true b4 h3' in
      (
        b1,
        b2,
        b3,
        asked1 ∙ ap (λ v. (done v, b1)) ((==_iff vendor vendor_id).0 same1),
        asked2 ∙ ap (λ v. (done v, b2)) ((==_iff product product_id).0 same2),
        asked3 ∙ ap (λ v. (done v, b3)) (text_eq→eq maker vendor_name same3),
        asked4 ∙ named name b4' h4,
      )
    where
      named :
          (name : Text) (c : B)
          → paired (ok (text_eq name device_name)) c ≡ paired (ok true) b4
          → paired (done name) c ≡ paired (done device_name) b4
      named name c h =
          let same : text_eq name device_name ≡ true = ok-injective (ap (λ q. q.0) h) in
          let last : c ≡ b4 = ap (λ q. q.1) h in rw (text_eq→eq name device_name same, last) refl

  open_controller-inv :
      (dev : V) (b4 b' : B) (c : Controller D)
      → open_controller bus usb dev b4 ≡ (ok c, b')
      → (b5 : B) × (serial : Text) × (handle d1 d2 : D) × (bus.get_serial_number dev b4
          ≡ (done serial, b5))
        × (bus.open_device dev b5 ≡ (done handle, b'))
        × (bus.set_configuration 1 handle ≡ (done tt, d1))
        × (bus.claim_interface 0 d1 ≡ (done tt, d2))
        × (c
            ≡ new_controller d2
                (bus.get_bus_number dev)
                (bus.get_device_address dev)
                (bus.get_bcd_device dev)
                serial)
  unfolding open_controller
  open_controller-inv dev b4 b' c h =
      let (serial, b5, asked5, h5) = ask-inv (bus.get_serial_number dev) _ b4 c b' h in
      let (handle, b6, asked6, h6) = ask-inv (bus.open_device dev) _ b5 c b' h5 in
      let (d1, set, h7) = on_handle-inv (bus.set_configuration 1) handle _ b6 c b' h6 in
      let (d2, claimed, h8) = on_handle-inv (bus.claim_interface 0) d1 _ b6 c b' h7 in
      (
        b5,
        serial,
        handle,
        d1,
        d2,
        asked5,
        asked6 ∙ ap (λ e. (done handle, e)) (ap (λ q. q.1) h8),
        set,
        claimed,
        sym (ok-injective (ap (λ q. q.0) h8)),
      )

  pub probe-inv :
      (dev : V) (b b' : B) (c : Controller D)
      → probe bus usb dev b ≡ (ok (some c), b')
      → IsOpened dev b c b'
  unfolding probe
  probe-inv dev b b' c h =
      let (ours, e, h') = continue-eq-ok (is_controller bus usb dev b).0 _ _ h in
      by_answer ours e h'
    where
      by_answer :
          (ours : Bool)
          → (is_controller bus usb dev b).0 ≡ ok ours
          → (if ours then open_controller bus usb dev >>= (λ ctrl. pure (some ctrl)) else pure none)
              (is_controller bus usb dev b).1
            ≡ (ok (some c), b')
          → IsOpened dev b c b'
      by_answer true e k =
          let b4 = (is_controller bus usb dev b).1 in
          let (ctrl, opened, same) = continue-eq-ok (open_controller bus usb dev b4).0 _ _ k in
          let last : (open_controller bus usb dev b4).1 ≡ b' = ap (λ q. q.1) same in
          let found : ctrl ≡ c = some-injective _ _ (ok-injective (ap (λ q. q.0) same)) in
          let (b1, b2, b3, vendor, product, maker, name) =
            is_controller-inv dev b b4 (ap (λ q. paired q b4) e) in
          let (b5, serial, handle, d1, d2, serial_asked, opens, configures, claims, made) =
            open_controller-inv dev b4 b' c (
              ap (λ q. paired q (open_controller bus usb dev b4).1) (opened ∙ ap ok found)
              ∙ ap (λ q. paired (ok c) q) last) in
          record {
            b1 = b1;
            b2 = b2;
            b3 = b3;
            b4 = b4;
            b5 = b5;
            serial = serial;
            handle = handle;
            d1 = d1;
            d2 = d2;
            has_vendor = vendor;
            has_product = product;
            has_manufacturer = maker;
            has_name = name;
            has_serial = serial_asked;
            opens = opens;
            configures = configures;
            claims = claims;
            controller = made;
          }
      by_answer false e k = absurd (cc)

  is_controller-IsOpened :
      (dev : V) (b b' : B) (c : Controller D) (o : IsOpened dev b c b')
      → is_controller bus usb dev b ≡ (ok true, o.b4)
  unfolding is_controller text_eq
  is_controller-IsOpened dev b b' c o =
      ask-run (bus.get_vendor_id dev) _ b 0x16c0 o.b1 o.has_vendor
      ∙ ask-run (bus.get_product_id dev) _ o.b1 0x05dc o.b2 o.has_product
      ∙ ask-run (bus.get_manufacturer dev) _ o.b2 (codes "yak54@gmx.net") o.b3 o.has_manufacturer
      ∙ ask-run (bus.get_product dev) _ o.b3 (codes "DF10CH") o.b4 o.has_name

  open_controller-IsOpened :
      (dev : V) (b b' : B) (c : Controller D) (o : IsOpened dev b c b')
      → open_controller bus usb dev o.b4 ≡ (ok c, b')
  unfolding open_controller
  open_controller-IsOpened dev b b' c o =
      ask-run (bus.get_serial_number dev) _ o.b4 o.serial o.b5 o.has_serial
      ∙ ask-run (bus.open_device dev) _ o.b5 o.handle b' o.opens
      ∙ on_handle-run (bus.set_configuration 1) o.handle _ b' o.d1 o.configures
      ∙ on_handle-run (bus.claim_interface 0) o.d1 _ b' o.d2 o.claims
      ∙ ap (λ x. paired (ok x) b') (sym o.controller)

  pub probe-IsOpened :
      (dev : V) (b b' : B) (c : Controller D)
      → IsOpened dev b c b'
      → probe bus usb dev b ≡ (ok (some c), b')
  unfolding probe
  probe-IsOpened dev b b' c o =
      rw (is_controller-IsOpened dev b b' c o, open_controller-IsOpened dev b b' c o) refl
