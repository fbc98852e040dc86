-- ===== src/Tests/Device.antt =====
-- A device for the tests: a memory whose first calls stall.
use df10ch_atmolight_control.Prelude.{ℕ, zero, suc, List, length, replicate}
use df10ch_atmolight_control.Result.{pipe}
use df10ch_atmolight_control.Usb.{Usb, Reply, done, failed}
use df10ch_atmolight_control.Dummy.{slice, splice}
use df10ch_atmolight_control.Decimal.{codes}
use df10ch_atmolight_control.Controller.{Controller}

abbrev pub Memory : Type 0
Memory = ℕ × List ℕ

abbrev pub memory_write : ℕ → List ℕ → Memory → Reply ℕ × Memory
memory_write index payload (zero, bytes) = (done (length payload), (0, splice bytes index payload))
memory_write index payload (suc stalls, bytes) = (failed pipe, (stalls, bytes))

abbrev pub memory_read : ℕ → ℕ → Memory → Reply (List ℕ) × Memory
memory_read index size (zero, bytes) = (done (slice bytes index size), (0, bytes))
memory_read index size (suc stalls, bytes) = (failed pipe, (stalls, bytes))

abbrev pub memory_usb : Usb Memory
memory_usb = record {
  control_write = λ req value index payload timeout d. memory_write index payload d;
  control_read = λ req value index size timeout d. memory_read index size d;
  release_interface = λ n d. (done tt, d);
  close = λ d. (done tt, d);
}

-- A controller on a memory of eight bytes, where so many calls stall first.
abbrev pub on_memory : ℕ → Controller Memory
on_memory stalls = record {
  usbdev = (stalls, replicate 8 7);
  busnum = 1;
  devnum = 2;
  version = 0x0105;
  serial = codes "AP";
  error_count = 4;
}
