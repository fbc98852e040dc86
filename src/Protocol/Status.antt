-- ===== src/Protocol/Status.antt =====
-- The text of an error status (GetCommErrMsg of df10ch_setup_pkg/device_drv.py).
use df10ch_atmolight_control.Prelude.{
  ℕ, ◌+◌, ◌^◌, ◌<◌, ◌≡◌, refl, true, List, [], ◌∷◌, Text, ◌==◌, ==_iff, text_eq, if◌then◌else◌,
}
use df10ch_atmolight_control.Prelude.Bits.{all_below, all_below_sound}
use df10ch_atmolight_control.Decimal.{codes, split_on}
use df10ch_atmolight_control.Protocol.{get_comm_err_msg}

abbrev flag_names : List (Text × ℕ)
flag_names =
    (codes "OVERRUN", 0)
    ∷ (codes "FRAME", 1)
    ∷ (codes "TIMEOUT", 2)
    ∷ (codes "START", 3)
    ∷ (codes "OVERFLOW", 4)
    ∷ (codes "CRC", 5)
    ∷ (codes "DUPLICATE", 6)
    ∷ (codes "DEBUG", 7)
    ∷ []

flag_value : Text → List (Text × ℕ) → ℕ
flag_value w [] = 0
flag_value w ((name, bit) ∷ rest) = if text_eq w name then 2 ^ bit else flag_value w rest

words_value : List Text → ℕ
words_value [] = 0
words_value (w ∷ ws) = flag_value w flag_names + words_value ws

-- The status that a message spells, word by word.
pub status_of_msg : Text → ℕ
unfolding flag_value words_value
status_of_msg msg = words_value (split_on b' ' msg)

msg_table : all_below 256 (λ stat. status_of_msg (get_comm_err_msg stat) == stat) ≡ true
unfolding all_below status_of_msg get_comm_err_msg text_eq split_on
msg_table = refl

-- Every status byte can be read back from its message: the words name exactly the bits that are set.
pub status_of_msg-get_comm_err_msg :
    (stat : ℕ) → stat < 256 → status_of_msg (get_comm_err_msg stat) ≡ stat
status_of_msg-get_comm_err_msg stat h = (==_iff _ _).0 (all_below_sound 256 _ stat msg_table h)
