-- ===== src/Controller/Verified.antt =====
-- What a successful write_ee_data means (df10ch_setup_pkg/device_drv.py).
use df10ch_atmolight_control.Prelude.{ℕ, ◌+◌, ◌*◌, ◌≡◌, List, [], ◌∷◌, length, arith}
use df10ch_atmolight_control.Result.{Result, ok, err}
use df10ch_atmolight_control.Exec.{continue-eq-ok}
use df10ch_atmolight_control.Usb.{Usb}
use df10ch_atmolight_control.Protocol.{
  def_usb_timeout, def_retry, req_write_ee_data, req_read_ee_data,
}
use df10ch_atmolight_control.Controller.{Controller, ctrl_write, ctrl_read}
use df10ch_atmolight_control.Controller.Raises.{Reads, ctrl_read-Reads}
use df10ch_atmolight_control.Controller.Requests.{verify_reply_data, read_ee_data, write_ee_data}

read_length :
    (size : ℕ) (r : Result (List ℕ)) (bytes : List ℕ)
    → Reads size r
    → r ≡ ok bytes
    → length bytes ≡ size
read_length size (ok other) bytes h e = ground arith
read_length size (err failure) bytes h e = absurd (cc)

module _ {D : Type 0} where
  verify_reply_data-ok :
      (start : ℕ) (xs ys : List ℕ) (c c' : Controller D)
      → length ys ≡ length xs
      → verify_reply_data start xs ys c ≡ (ok tt, c')
      → (xs ≡ ys) × (c ≡ c')
  unfolding verify_reply_data
  verify_reply_data-ok start [] [] c c' e h = ground arith
  verify_reply_data-ok start [] (y ∷ ys) c c' e h = absurd (omega arith)
  verify_reply_data-ok start (x ∷ xs) [] c c' e h = absurd (omega arith)
  verify_reply_data-ok start (x ∷ xs) (y ∷ ys) c c' e h =
      ground (arith, verify_reply_data-ok (start + 1) xs ys c c')

module _ {D : Type 0} (usb : Usb D) where
  -- If write_ee_data returns, then the bytes were written, and reading the EEPROM back afterwards
  -- gave exactly these bytes.
  pub write_ee_data_verified :
      (start : ℕ) (payload : List ℕ) (c c' : Controller D)
      → write_ee_data usb start payload c ≡ (ok tt, c')
      → (w : Controller D) × (ctrl_write usb req_write_ee_data 0 start payload
            (def_usb_timeout + length payload * 10)
            def_retry
            c
          ≡ (ok tt, w))
        × (read_ee_data usb start (length payload) w ≡ (ok payload, c'))
  unfolding write_ee_data read_ee_data
  write_ee_data_verified start payload c c' h =
      let timeout = def_usb_timeout + length payload * 10 in
      let (r, w) = ctrl_write usb req_write_ee_data 0 start payload timeout def_retry c in
      let (_, written, after_write) = continue-eq-ok r _ w h in
      let (r', t) =
        ctrl_read usb req_read_ee_data 0 start (length payload) def_usb_timeout def_retry w in
      let (bytes, read, after_read) =
        continue-eq-ok r' (verify_reply_data start payload) t after_write in
      let wanted =
        ctrl_read-Reads usb req_read_ee_data 0 start (length payload) def_usb_timeout def_retry w
          (omega arith) in
      let (same, still) =
        verify_reply_data-ok start payload bytes t c' (read_length _ r' bytes wanted read)
          after_read in
      (w, ground arith, ground arith)
