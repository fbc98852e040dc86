-- ===== src/Usb.antt =====
-- The USB library as the driver calls it (usb1.USBDeviceHandle: controlWrite, controlRead,
-- releaseInterface and close). It is a parameter: a device is any state, and each call answers and
-- moves to a next state.
use df10ch_atmolight_control.Prelude.{ℕ, List, Bool, true, false}
use df10ch_atmolight_control.Result.{UsbError, pipe, other}

-- What a call answers: a value, or a raised USBError.
pub data Reply (A : Type 0) : Type 0 where
  done : A → Reply A
  failed : UsbError → Reply A

pub record Usb (D : Type 0) : Type 0 where
  -- request, value, index, payload, timeout; the number of bytes written
  pub control_write : ℕ → ℕ → ℕ → List ℕ → ℕ → D → Reply ℕ × D
  -- request, value, index, size, timeout; the bytes read
  pub control_read : ℕ → ℕ → ℕ → ℕ → ℕ → D → Reply (List ℕ) × D
  pub release_interface : ℕ → D → Reply (Unit {0}) × D
  pub close : D → Reply (Unit {0}) × D

-- `err.value != LIBUSB_ERROR_PIPE`
abbrev pub not_pipe : UsbError → Bool
not_pipe pipe = false
not_pipe (other code) = true
