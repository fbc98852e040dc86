-- ===== src/Controller/Transfers.antt =====
-- How a transfer of DF10CHController ends (ctrl_write and ctrl_read of
-- df10ch_setup_pkg/device_drv.py): retries, counted errors, and the length of what is read.
use df10ch_atmolight_control.Prelude.{
  ℕ, zero, suc, ◌+◌, ◌<◌, ◌≡◌, ◌≢◌, ◌⊎◌, refl, ap, ◌∙◌, List, [], ◌∷◌, length, ◌==◌, if◌then◌else◌,
  arith, ltb, All,
}
use df10ch_atmolight_control.Result.{
  Result, ok, err, atmo, write_failed, read_failed, short_write, short_read, pipe, to_bytes,
}
use df10ch_atmolight_control.Usb.{Usb, Reply, done, failed}
use df10ch_atmolight_control.Controller.{
  Controller, write_attempts, ctrl_write, read_attempts, ctrl_read,
}

-- Values that fit bytes pass through a bytearray unchanged.
pub to_bytes-bytes : (l : List ℕ) → All (λ v. v < 256) l → to_bytes l ≡ ok l
unfolding to_bytes
to_bytes-bytes [] h = refl
to_bytes-bytes (v ∷ vs) h = ground (arith, to_bytes-bytes vs h.1)

-- The number of bytes that a read of `size` asks for.
abbrev pub asked : ℕ → ℕ
asked size = if ltb 0 size then size else 1

-- The call is the last one: no attempt is left, or it did not stall.
abbrev pub IsLast : {A : Type 0} → ℕ → Reply A → Type 0
IsLast n reply = (n ≡ 0) ⊎ (reply ≢ failed pipe)

module _ {D A : Type 0} (call : D → Reply A × D) where
  -- `k` calls in a row end in a stalled pipe.
  pub data Stalls : ℕ → D → D → Type 0 where
    here : {d : D} → Stalls zero d d
    next : {k : ℕ} {d e f : D} → call d ≡ (failed pipe, e) → Stalls k e f → Stalls (suc k) d f

-- The controller with another device state and error count: what a transfer changes of it.
abbrev pub moved : {D : Type 0} → Controller D → D → ℕ → Controller D
moved c d count = record c { usbdev = d; error_count = count }

module _ {D : Type 0} (usb : Usb D) (req value index : ℕ) (payload : List ℕ) (timeout : ℕ) where
  abbrev pub write_call : D → Reply ℕ × D
  write_call = usb.control_write req value index payload timeout

  abbrev pub attempts : ℕ → Controller D → Result (Unit {0}) × Controller D
  attempts = write_attempts usb req value index payload timeout

  write_stall :
      (r count : ℕ) (c : Controller D) (d e : D)
      → write_call d ≡ (failed pipe, e)
      → attempts (suc (suc r)) (moved c d count) ≡ attempts (suc r) (moved c e (count + 1))
  unfolding write_attempts
  write_stall r count c d e h = ground arith

  write_after-Stalls :
      {k : ℕ} {d f : D} (n retry count : ℕ) (c : Controller D)
      → Stalls write_call k d f
      → retry ≡ k + suc n
      → attempts retry (moved c d count) ≡ attempts (suc n) (moved c f (count + k))
  write_after-Stalls n retry count c (here {d}) e =
      let same_retry : retry ≡ suc n = omega arith in
      let same_count : count + 0 ≡ count = omega arith in rw (same_retry, same_count)
  write_after-Stalls n zero count c (next stalled rest) e = absurd (omega arith)
  write_after-Stalls n (suc zero) count c (next stalled rest) e = absurd (omega arith)
  write_after-Stalls n (suc (suc r)) count c (next {k} {d} {e = dev} {f} stalled rest) e =
      write_stall r count c d dev stalled
      ∙ write_after-Stalls n (suc r) (count + 1) c rest (omega arith)
      ∙ ap (λ t. attempts (suc n) (moved c f t)) (omega arith)

  -- How the last call ends the transfer.
  abbrev pub write_outcome : Controller D → ℕ → Reply ℕ × D → Result (Unit {0}) × Controller D
  write_outcome c count (done written, e) =
      if written == length payload
      then (ok tt, moved c e count)
      else (err (atmo (short_write req)), moved c e (count + 1))
  write_outcome c count (failed code, e) =
      (err (atmo (write_failed req code)), moved c e (count + 1))

  write_end :
      (n count : ℕ) (c : Controller D) (d : D)
      → IsLast n (write_call d).0
      → attempts (suc n) (moved c d count) ≡ write_outcome c count (write_call d)
  unfolding write_attempts
  write_end n count c d h = ground arith

  -- A write of bytes whose first `k` calls stall ends as the next call says, if that is the last
  -- attempt or no stall: it succeeds exactly if the device took the whole payload, and each failed
  -- call is counted once.
  pub ctrl_write-outcome :
      {k : ℕ} {f : D} (n : ℕ) (c : Controller D)
      → All (λ v. v < 256) payload
      → Stalls write_call k c.usbdev f
      → IsLast n (write_call f).0
      → ctrl_write usb req value index payload timeout (k + suc n) c
        ≡ write_outcome c (c.error_count + k) (write_call f)
  unfolding ctrl_write
  ctrl_write-outcome {k} {f} n c bytes stalls last = rw (to_bytes-bytes payload bytes) (
      write_after-Stalls n (k + suc n) c.error_count c stalls refl
      ∙ write_end n (c.error_count + k) c f last)

module _ {D : Type 0} (usb : Usb D) (req value index size : ℕ) (timeout : ℕ) where
  abbrev pub read_call : D → Reply (List ℕ) × D
  read_call = usb.control_read req value index (asked size) timeout

  abbrev pub reads : ℕ → Controller D → Result (List ℕ) × Controller D
  reads = read_attempts usb req value index size timeout

  read_stall :
      (r count : ℕ) (c : Controller D) (d e : D)
      → read_call d ≡ (failed pipe, e)
      → reads (suc (suc r)) (moved c d count) ≡ reads (suc r) (moved c e count)
  unfolding read_attempts
  read_stall r count c d e h = ground arith

  read_after-Stalls :
      {k : ℕ} {d f : D} (n retry count : ℕ) (c : Controller D)
      → Stalls read_call k d f
      → retry ≡ k + suc n
      → reads retry (moved c d count) ≡ reads (suc n) (moved c f count)
  read_after-Stalls n retry count c (here {d}) e =
      let same_retry : retry ≡ suc n = omega arith in rw same_retry
  read_after-Stalls n zero count c (next stalled rest) e = absurd (omega arith)
  read_after-Stalls n (suc zero) count c (next stalled rest) e = absurd (omega arith)
  read_after-Stalls n (suc (suc r)) count c (next {k} {d} {e = dev} {f} stalled rest) e =
      read_stall r count c d dev stalled ∙ read_after-Stalls n (suc r) count c rest (omega arith)

  abbrev pub read_outcome : Controller D → Reply (List ℕ) × D → Result (List ℕ) × Controller D
  read_outcome c (done bytes, e) =
      if length bytes == size
      then (ok bytes, moved c e c.error_count)
      else (err (atmo (short_read req)), moved c e (c.error_count + 1))
  read_outcome c (failed code, e) =
      (err (atmo (read_failed req code)), moved c e (c.error_count + 1))

  read_end :
      (n : ℕ) (c : Controller D) (d : D)
      → IsLast n (read_call d).0
      → reads (suc n) (moved c d c.error_count) ≡ read_outcome c (read_call d)
  unfolding read_attempts
  read_end n c d h = ground arith

  -- A read whose first `k` calls stall ends as the next call says, if that is the last attempt or no
  -- stall: it succeeds exactly if as many bytes came as were wanted, and only an error that is
  -- raised is counted.
  pub ctrl_read-outcome :
      {k : ℕ} {f : D} (n : ℕ) (c : Controller D)
      → Stalls read_call k c.usbdev f
      → IsLast n (read_call f).0
      → ctrl_read usb req value index size timeout (k + suc n) c ≡ read_outcome c (read_call f)
  unfolding ctrl_read
  ctrl_read-outcome {k} {f} n c stalls last =
      read_after-Stalls n (k + suc n) c.error_count c stalls refl ∙ read_end n c f last
