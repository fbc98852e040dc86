-- ===== src/Controller.antt =====
-- DF10CHController of df10ch_setup_pkg/device_drv.py: the state of the driver's object and its
-- transfers. The requests built on them are in `Requests`.
pub mod Payload
pub mod Requests
pub mod Transfers
pub mod Raises
pub mod Safety
pub mod Updates
pub mod Verified
use df10ch_atmolight_control.Prelude.{
  ℕ, zero, suc, ◌+◌, ◌*◌, List, [], ◌∷◌, ◌++◌, Text, length, ltb, ◌==◌, if◌then◌else◌, ◌||◌, not,
  text_eq, Bool,
}
use df10ch_atmolight_control.Result.{
  Result, ok, err, Failure, atmo, write_failed, read_failed, short_write, short_read,
  payload_too_long, unbound_local, usb_error, to_bytes,
}
use df10ch_atmolight_control.Exec.{Exec, ◌>>=◌, ◌>>◌, lift, raise, pure}
use df10ch_atmolight_control.Usb.{Usb, Reply, done, failed, not_pipe}
use df10ch_atmolight_control.Decimal.{codes, print_nat}
use df10ch_atmolight_control.Protocol.{max_pwm_req_payload_size, max_pwm_reply_payload_size}

pub record Controller (D : Type 0) : Type 0 where
  pub usbdev : D
  pub busnum : ℕ
  pub devnum : ℕ
  pub version : ℕ
  pub serial : Text
  pub error_count : ℕ

-- `self.id`
unfoldable pub controller_id : ℕ → ℕ → Text
controller_id busnum devnum =
    codes "DF10CH[" ++ (print_nat busnum ++ (b',' ∷ (print_nat devnum ++ codes "]")))

module _ {D : Type 0} where
  unfoldable pub new_controller : D → ℕ → ℕ → ℕ → Text → Controller D
  new_controller usbdev busnum devnum version serial = record {
    usbdev = usbdev;
    busnum = busnum;
    devnum = devnum;
    version = version;
    serial = serial;
    error_count = 0;
  }

  unfoldable pub bootloader_mode : Controller D → Bool
  bootloader_mode c = text_eq c.serial (codes "BL")

  abbrev pub count_error : Controller D → Controller D
  count_error c = record c { error_count = c.error_count + 1 }

  abbrev pub with_device : Controller D → D → Controller D
  with_device c d = record c { usbdev = d }

  -- A raised AtmoControllerError that the driver counts.
  abbrev pub fail : {A : Type 0} → Failure → Exec (Controller D) A
  fail e c = (err e, count_error c)

  module _ (usb : Usb D) where
    unfoldable pub release : Exec (Controller D) (Unit {0})
    release c =
        let (r, d) = usb.release_interface 0 c.usbdev in
        elim r [
          | failed e ↦ (err (usb_error e), with_device c d)
          | done u ↦
              let (r', d') = usb.close d in
              elim r' [
                | failed e ↦ (err (usb_error e), with_device c d')
                | done v ↦ (ok tt, with_device c d')
              ]
        ]

    -- The `while retry > 0` of ctrl_write: every USB error is counted, and only a stalled pipe is
    -- tried again.
    unfoldable pub write_attempts : ℕ → ℕ → ℕ → List ℕ → ℕ → ℕ → Exec (Controller D) (Unit {0})
    write_attempts req value index sdata timeout zero c = (ok tt, c)
    write_attempts req value index sdata timeout (suc retry) c =
        let (reply, d) = usb.control_write req value index sdata timeout c.usbdev in
        let failing = count_error (with_device c d) in
        let again = write_attempts req value index sdata timeout retry failing in
        elim reply [
          | failed e ↦
              if retry == 0 || not_pipe e then (err (atmo (write_failed req e)), failing) else again
          | done written ↦
              if written == length sdata
              then (ok tt, with_device c d)
              else (err (atmo (short_write req)), failing)
        ]

    unfoldable pub ctrl_write : ℕ → ℕ → ℕ → List ℕ → ℕ → ℕ → Exec (Controller D) (Unit {0})
    ctrl_write req value index payload timeout retry = do
      sdata ← lift (to_bytes payload)
      write_attempts req value index sdata timeout retry

    -- The loop of ctrl_read: an error is counted only when it is raised. With no attempt at all
    -- `data` is not bound.
    unfoldable pub read_attempts : ℕ → ℕ → ℕ → ℕ → ℕ → ℕ → Exec (Controller D) (List ℕ)
    read_attempts req value index size timeout zero c = (err unbound_local, c)
    read_attempts req value index size timeout (suc retry) c =
        let n = if ltb 0 size then size else 1 in
        let (reply, d) = usb.control_read req value index n timeout c.usbdev in
        let again = read_attempts req value index size timeout retry (with_device c d) in
        elim reply [
          | failed e ↦
              if retry == 0 || not_pipe e
              then fail (atmo (read_failed req e)) (with_device c d)
              else again
          | done bytes ↦
              if length bytes == size
              then (ok bytes, with_device c d)
              else fail (atmo (short_read req)) (with_device c d)
        ]

    unfoldable pub ctrl_read : ℕ → ℕ → ℕ → ℕ → ℕ → ℕ → Exec (Controller D) (List ℕ)
    ctrl_read = read_attempts

    unfoldable pub pwm_ctrl_write : ℕ → ℕ → ℕ → List ℕ → ℕ → ℕ → Exec (Controller D) (Unit {0})
    pwm_ctrl_write req value index payload timeout retry =
        if ltb max_pwm_req_payload_size (length payload)
        then fail (atmo payload_too_long)
        else ctrl_write req value index payload timeout retry

    unfoldable pub pwm_ctrl_read : ℕ → ℕ → ℕ → ℕ → ℕ → ℕ → Exec (Controller D) (List ℕ)
    pwm_ctrl_read req value index size timeout retry =
        if ltb max_pwm_reply_payload_size size
        then fail (atmo payload_too_long)
        else ctrl_read req value index size timeout retry
