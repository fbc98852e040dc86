-- ===== src/Controller/Raises.antt =====
-- What the requests of DF10CHController raise (df10ch_setup_pkg/device_drv.py). The dialogs catch
-- AtmoControllerError alone.
use df10ch_atmolight_control.Prelude.{
  ℕ, zero, suc, ◌+◌, ◌<◌, ◌≤◌, ◌≡◌, List, length, arith, All, get_elem?-lt,
}
use df10ch_atmolight_control.Result.{Failure, Result, ok, err, atmo, at, word_at, for_range}
use df10ch_atmolight_control.Exec.{lift, pure, continue}
use df10ch_atmolight_control.Usb.{Usb}
use df10ch_atmolight_control.Controller.{
  Controller, with_device, count_error, write_attempts, ctrl_write, read_attempts, ctrl_read,
  pwm_ctrl_write, pwm_ctrl_read,
}
use df10ch_atmolight_control.Controller.Transfers.{to_bytes-bytes, asked}

-- The call returns, or raises AtmoControllerError.
abbrev pub IsAtmo : Failure → Type 0
IsAtmo (atmo r) = Unit
IsAtmo _ = ⊥

abbrev pub RaisesAtmo : {A : Type 0} → Result A → Type 0
RaisesAtmo (ok a) = Unit
RaisesAtmo (err e) = IsAtmo e

-- A read that returns gives as many bytes as were wanted, and raises nothing else.
abbrev pub Reads : ℕ → Result (List ℕ) → Type 0
Reads size (ok bytes) = length bytes ≡ size
Reads size (err e) = IsAtmo e

module _ {D : Type 0} (usb : Usb D) where
  read_attempts-Reads :
      (req value index size timeout retry : ℕ) (c : Controller D)
      → Reads size (read_attempts usb req value index size timeout (suc retry) c).0
  unfolding read_attempts
  read_attempts-Reads req value index size timeout zero c = ground arith
  read_attempts-Reads req value index size timeout (suc retry) c =
      let d = (usb.control_read req value index (asked size) timeout c.usbdev).1 in
      let rest = read_attempts-Reads req value index size timeout retry (with_device c d) in
      ground (arith, rest)

  write_attempts-RaisesAtmo :
      (req value index : ℕ) (sdata : List ℕ) (timeout retry : ℕ) (c : Controller D)
      → RaisesAtmo (write_attempts usb req value index sdata timeout retry c).0
  unfolding write_attempts
  write_attempts-RaisesAtmo req value index sdata timeout zero c = ground arith
  write_attempts-RaisesAtmo req value index sdata timeout (suc retry) c =
      let d = (usb.control_write req value index sdata timeout c.usbdev).1 in
      let rest =
        write_attempts-RaisesAtmo req value index sdata timeout retry
          (count_error (with_device c d)) in
      ground (arith, rest)

  -- A read with an attempt to make returns as many bytes as were wanted, or raises
  -- AtmoControllerError.
  pub ctrl_read-Reads :
      (req value index size timeout retry : ℕ) (c : Controller D)
      → 0 < retry
      → Reads size (ctrl_read usb req value index size timeout retry c).0
  ctrl_read-Reads req value index size timeout zero c h = absurd (omega arith)
  ctrl_read-Reads req value index size timeout (suc retry) c h =
      unfold ctrl_read in read_attempts-Reads req value index size timeout retry c

  pub pwm_ctrl_read-Reads :
      (req value index size timeout retry : ℕ) (c : Controller D)
      → 0 < retry
      → Reads size (pwm_ctrl_read usb req value index size timeout retry c).0
  pwm_ctrl_read-Reads req value index size timeout retry c h =
      let inner = ctrl_read-Reads req value index size timeout retry c h in
      unfold pwm_ctrl_read in ground (arith, inner)

  pub ctrl_write-RaisesAtmo :
      (req value index : ℕ) (payload : List ℕ) (timeout retry : ℕ) (c : Controller D)
      → All (λ v. v < 256) payload
      → RaisesAtmo (ctrl_write usb req value index payload timeout retry c).0
  ctrl_write-RaisesAtmo req value index payload timeout retry c h =
      unfold ctrl_write in
      rw (to_bytes-bytes payload h)
        (write_attempts-RaisesAtmo req value index payload timeout retry c)

  pub pwm_ctrl_write-RaisesAtmo :
      (req value index : ℕ) (payload : List ℕ) (timeout retry : ℕ) (c : Controller D)
      → All (λ v. v < 256) payload
      → RaisesAtmo (pwm_ctrl_write usb req value index payload timeout retry c).0
  pwm_ctrl_write-RaisesAtmo req value index payload timeout retry c h =
      let inner = ctrl_write-RaisesAtmo req value index payload timeout retry c h in
      unfold pwm_ctrl_write in ground (arith, inner)

-- What is computed from the bytes of a reply raises nothing if the reply is long enough.
module _ {S A : Type 0} where
  pub Reads-continue :
      (size : ℕ) (f : List ℕ → Result A) (r : Result (List ℕ)) (s : S)
      → ((bytes : List ℕ) → length bytes ≡ size → RaisesAtmo (f bytes))
      → Reads size r
      → RaisesAtmo (continue r (λ bytes. lift (f bytes)) s).0
  Reads-continue size f (ok bytes) s h reads = h bytes reads
  Reads-continue size f (err e) s h reads = reads

  pub RaisesAtmo-continue :
      {B : Type 0} (r : Result B) (a : A) (s : S)
      → RaisesAtmo r
      → RaisesAtmo (continue r (λ b. pure a) s).0
  RaisesAtmo-continue (ok b) a s h = tt
  RaisesAtmo-continue (err e) a s h = h

pub at-RaisesAtmo : (bytes : List ℕ) (i : ℕ) → i < length bytes → RaisesAtmo (at bytes i)
at-RaisesAtmo bytes i h = let (v, e) = get_elem?-lt bytes i h in rw e tt

pub word_at-RaisesAtmo :
    (bytes : List ℕ) (i : ℕ) → i + 1 < length bytes → RaisesAtmo (word_at bytes i)
word_at-RaisesAtmo bytes i h =
    let (lo, e) = get_elem?-lt bytes i (omega arith) in
    let (hi, e') = get_elem?-lt bytes (i + 1) h in rw (e, e') tt

pub for_range-RaisesAtmo :
    {A : Type 0} (f : ℕ → Result A) (n start bound : ℕ)
    → ((i : ℕ) → i < bound → RaisesAtmo (f i))
    → start + n ≤ bound
    → RaisesAtmo (for_range f n start)
unfolding for_range
for_range-RaisesAtmo f zero start bound h le = tt
for_range-RaisesAtmo f (suc n) start bound h le =
    ground
      (arith, h start (omega arith), for_range-RaisesAtmo f n (start + 1) bound h (omega arith))
