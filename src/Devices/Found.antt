-- ===== src/Devices/Found.antt =====
-- Which controllers a search of the bus finds (FindDevices of df10ch_setup_pkg/device_drv.py).
use mathlib.Core.List.{append-nil, append_assoc}
use df10ch_atmolight_control.Prelude.{
  ◌≡◌, refl, ap, ◌∙◌, List, [], ◌∷◌, ◌++◌, Bool, true, false, Option, none, some, if◌then◌else◌,
  arith, sym,
}
use df10ch_atmolight_control.Result.{Result, ok, err, usb_error}
use df10ch_atmolight_control.Exec.{Exec, pure, continue, ◌>>=◌}
use df10ch_atmolight_control.Usb.{Usb, done}
use df10ch_atmolight_control.Controller.{Controller}
use df10ch_atmolight_control.Devices.{
  Bus, Host, usb_devices, is_controller, open_controller, probe, passed_over, with_found, probe_all,
  search_bus,
}
use df10ch_atmolight_control.Devices.Calls.{paired}
use df10ch_atmolight_control.Devices.Asked.{IsOpened, probe-inv, probe-IsOpened}

-- Nothing but a USBError is raised.
abbrev OnlyUsb : {A : Type 0} → Result A → Type 0
OnlyUsb (ok a) = Unit {0}
OnlyUsb (err (usb_error e)) = Unit {0}
OnlyUsb (err e) = ⊥

continue-OnlyUsb :
    {S A C : Type 0} (r : Result A) (f : A → Exec S C) (s : S)
    → OnlyUsb r
    → ((a : A) (t : S) → OnlyUsb (f a t).0)
    → OnlyUsb (continue r f s).0
continue-OnlyUsb (ok a) f s h k = k a s
continue-OnlyUsb (err (usb_error e)) f s h k = tt
continue-OnlyUsb (err e) f s h k = ground arith

if-OnlyUsb :
    {B A : Type 0} (test : Bool) (yes' no' : Exec B A) (b : B)
    → OnlyUsb (yes' b).0
    → OnlyUsb (no' b).0
    → OnlyUsb ((if test then yes' else no') b).0
if-OnlyUsb true yes' no' b h k = h
if-OnlyUsb false yes' no' b h k = k

module _ {B V D : Type 0} (bus : Bus B V D) (usb : Usb D) where
  is_controller-OnlyUsb : (dev : V) (b : B) → OnlyUsb (is_controller bus usb dev b).0
  unfolding is_controller
  is_controller-OnlyUsb dev b = ground arith

  open_controller-OnlyUsb : (dev : V) (b : B) → OnlyUsb (open_controller bus usb dev b).0
  unfolding open_controller
  open_controller-OnlyUsb dev b = ground arith

  probe-OnlyUsb : (dev : V) (b : B) → OnlyUsb (probe bus usb dev b).0
  unfolding probe
  probe-OnlyUsb dev b =
      let (r, c) = is_controller bus usb dev b in
      continue-OnlyUsb r _ c (is_controller-OnlyUsb dev b) λ ours d.
        if-OnlyUsb ours (open_controller bus usb dev >>= λ ctrl. pure (some ctrl)) (pure none) d
          (continue-OnlyUsb _ _ _ (open_controller-OnlyUsb dev d) λ ctrl e. tt) tt

  -- The devices of a list, asked one after the other, with the controllers they are: one that is
  -- opened stands next in the list, and one that is passed over could not be opened as a controller.
  pub data FoundOn : List V → B → List (Controller D) → Type 0 where
    no_device : {b : B} → FoundOn [] b []
    opened :
        {dev : V} {devs : List V} {b b' : B} {c : Controller D} {cs : List (Controller D)}
        → IsOpened bus usb dev b c b'
        → FoundOn devs b' cs
        → FoundOn (dev ∷ devs) b (c ∷ cs)
    passed :
        {dev : V} {devs : List V} {b : B} {cs : List (Controller D)}
        → ((c : Controller D) (b' : B) → ¬ IsOpened bus usb dev b c b')
        → FoundOn devs (probe bus usb dev b).1 cs
        → FoundOn (dev ∷ devs) b cs

  not-IsOpened :
      (dev : V) (b : B) (r : Result (Option (Controller D)))
      → (probe bus usb dev b).0 ≡ r
      → ((c : Controller D) → ¬ (r ≡ ok (some c)))
      → (c : Controller D) (b' : B) → ¬ IsOpened bus usb dev b c b'
  not-IsOpened dev b r e no_one c b' o =
      no_one c (sym e ∙ ap (λ q. q.0) (probe-IsOpened bus usb dev b b' c o))

  -- The loop over the devices, after some were found.
  probe_all-FoundOn :
      (devs : List V) (before : List (Controller D)) (b : B)
      → (cs : List (Controller D)) × ((probe_all bus usb devs before b).0 ≡ ok (before ++ cs))
        × FoundOn devs b cs
  unfolding probe_all
  probe_all-FoundOn [] before b = ([], ap ok (sym (append-nil before)), no_device)
  probe_all-FoundOn (dev ∷ devs) before b =
      by_probe (probe bus usb dev b).0 refl (probe-OnlyUsb dev b)
        (λ before'. probe_all-FoundOn devs before' (probe bus usb dev b).1)
    where
      b1 : B
      b1 = (probe bus usb dev b).1

      by_probe :
          (r : Result (Option (Controller D)))
          → (probe bus usb dev b).0 ≡ r
          → OnlyUsb r
          → ((before' : List (Controller D))
              → (cs : List (Controller D)) × ((probe_all bus usb devs before' b1).0
                  ≡ ok (before' ++ cs))
                × FoundOn devs b1 cs)
          → (cs : List (Controller D)) × ((elim (passed_over bus usb r)
                as (λ q. Result (List (Controller D)) × B) [
                  | ok found ↦ probe_all bus usb devs (with_found bus usb found before) b1
                  | err e ↦ (err e, b1)
                ]).0
              ≡ ok (before ++ cs))
            × FoundOn (dev ∷ devs) b cs
      by_probe (ok none) e u later =
          let (cs, found, finds) = later before in
          (cs, found, passed (not-IsOpened dev b (ok none) e (λ c h. absurd (cc))) finds)
      by_probe (ok (some c)) e u later =
          let (cs, found, finds) = later (before ++ c ∷ []) in
          (
            c ∷ cs,
            found ∙ ap ok (append_assoc before (c ∷ []) cs),
            opened (probe-inv bus usb dev b b1 c (ap (λ q. paired q b1) e)) finds,
          )
      by_probe (err (usb_error x)) e u later =
          let (cs, found, finds) = later before in
          (cs, found, passed (not-IsOpened dev b (err (usb_error x)) e (λ c h. absurd (cc))) finds)
      by_probe (err x) e u later = absurd (ground arith)

  -- If the bus gives its list of devices, the search succeeds, whatever the single devices answer:
  -- a USBError of one device ends neither the search nor the program. The devices are asked in their
  -- order, and the new list has one controller, in that order, for exactly those which answer with
  -- the vendor 0x16c0, the product 0x05dc, the manufacturer yak54@gmx.net and the name DF10CH, and
  -- whose serial number, opening, configuration 1 and interface 0 raise no USBError.
  pub search_bus-finds :
      (h : Host B D) (devs : List V) (b : B)
      → bus.get_device_list h.bus ≡ (done devs, b)
      → (cs : List (Controller D)) × ((search_bus bus usb h).0 ≡ ok tt)
        × ((search_bus bus usb h).1.device_list ≡ usb_devices cs)
        × FoundOn devs b cs
  unfolding search_bus
  search_bus-finds h devs b e =
      let (cs, found, finds) = probe_all-FoundOn devs [] b in
      (cs, rw (e, found, search_bus) refl, rw (e, found, search_bus) refl, finds)
