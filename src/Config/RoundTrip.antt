-- ===== src/Config/RoundTrip.antt =====
-- What a configuration comes to in the EEPROM, as data: the requested channels
-- (ControllerConfig.write and read of df10ch_setup_pkg/device_drv.py).
pub mod Requests
pub mod Encoding
pub mod Decoding
pub mod Header
pub mod Outputs
pub mod Whole
pub mod Once
pub mod Simulated
use df10ch_atmolight_control.Prelude.{
  ℕ, zero, suc, ◌+◌, ◌*◌, ◌/◌, ◌%◌, ◌≤◌, ◌<◌, ◌≡◌, ◌⊎◌, refl, ap, ◌∙◌, List, [], ◌∷◌, ◌++◌, Text,
  Option, none, some, length, get_elem?, ltb, true, false, arith,
}
use df10ch_atmolight_control.Protocol.{lookup_port, port_name_map, min_gamma_val, max_gamma_val}
use df10ch_atmolight_control.Areas.{area_name}
use df10ch_atmolight_control.Prelude.Int.{pos}
use df10ch_atmolight_control.Controller.Payload.{ChannelRec}
use df10ch_atmolight_control.Config.{MapRec, ChannelMap}
use df10ch_atmolight_control.Config.Encode.{request_key}
use df10ch_atmolight_control.Config.Registry.{find_entry}

pub record Request : Type 0 where
  pub code : ℕ
  pub num : ℕ
  pub gamma : ℕ
  pub white_cal : ℕ

abbrev pub key_of : Request → Text
key_of q = request_key q.code (pos q.num) q.gamma q.white_cal

-- A record that the EEPROM can hold, and the request it becomes: its area is one that AreaName
-- gives, its gamma and its white calibration are in range.
pub record StoredAs (pwm_res : ℕ) (r : MapRec) (q : Request) : Type 0 where
  pub named : area_name q.code q.num ≡ some r.area
  pub colored : r.color ≡ q.code % 4
  pub code_lt : q.code < 256
  pub num_lt : q.num < 256
  pub unnumbered : ltb (q.code / 4) 4 ≡ false → q.num ≡ 0
  pub gamma_is : r.gamma ≡ q.gamma
  pub gamma_ge : min_gamma_val ≤ q.gamma
  pub gamma_le : q.gamma ≤ max_gamma_val
  pub white_is : r.white_cal ≡ q.white_cal
  pub white_le : q.white_cal ≤ pwm_res

-- Every output has a name of the table once, and its record can be stored.
abbrev pub IsStorable : ℕ → ChannelMap → Type 0
IsStorable pwm_res [] = Unit {0}
IsStorable pwm_res ((name, none) ∷ rest) =
    ((out : ℕ × ℕ) × (lookup_port name port_name_map ≡ some out))
    × (find_entry name rest ≡ none)
    × IsStorable pwm_res rest
IsStorable pwm_res ((name, some r) ∷ rest) =
    ((out : ℕ × ℕ) × (lookup_port name port_name_map ≡ some out))
    × (find_entry name rest ≡ none)
    × ((q : Request) × StoredAs pwm_res r q)
    × IsStorable pwm_res rest

-- A request of one of the outputs.
abbrev pub Among : ℕ → Request → ChannelMap → Type 0
Among pwm_res q [] = ⊥
Among pwm_res q ((name, none) ∷ rest) = Among pwm_res q rest
Among pwm_res q ((name, some r) ∷ rest) = StoredAs pwm_res r q ⊎ Among pwm_res q rest

-- Different requests have different keys.
abbrev pub KeysDiffer : ℕ → ChannelMap → Type 0
KeysDiffer pwm_res m =
    (q q' : Request) → Among pwm_res q m → Among pwm_res q' m → key_of q ≡ key_of q' → q ≡ q'

-- The bytes of the requests, with the channels from `first` on.
abbrev pub rec_bytes : ℕ → Request → List ℕ
rec_bytes channel q =
    channel ∷ q.code ∷ q.num ∷ q.gamma ∷ q.white_cal % 256 ∷ q.white_cal / 256 ∷ []

unfoldable pub recs_from : ℕ → List Request → List ℕ
recs_from first [] = []
recs_from first (q ∷ qs) = rec_bytes first q ++ recs_from (suc first) qs

pub recs_from-append :
    (first : ℕ) (qs rs : List Request)
    → recs_from first (qs ++ rs) ≡ recs_from first qs ++ recs_from (first + length qs) rs
unfolding recs_from
recs_from-append first [] rs = ap (λ k. recs_from k rs) (omega arith)
recs_from-append first (q ∷ qs) rs =
    ap (λ t. rec_bytes first q ++ t)
      (recs_from-append (suc first) qs rs
        ∙ ap (λ k. recs_from (suc first) qs ++ recs_from k rs) (omega arith))

pub length-recs_from : (first : ℕ) (qs : List Request) → length (recs_from first qs) ≡ length qs * 6
unfolding recs_from
length-recs_from first [] = omega arith
length-recs_from first (q ∷ qs) = omega (arith, length-recs_from (suc first) qs)

-- The outputs that are sent for a channel map: one for each used output, in order, on the channel
-- of its request.
abbrev pub Linked : ℕ → List Request → ChannelMap → List ChannelRec → Type 0
Linked pwm_res reqs [] outs = outs ≡ []
Linked pwm_res reqs ((name, none) ∷ rest) outs = Linked pwm_res reqs rest outs
Linked pwm_res reqs ((name, some r) ∷ rest) [] = ⊥
Linked pwm_res reqs ((name, some r) ∷ rest) (o ∷ outs) =
    ((q : Request) × (StoredAs pwm_res r q) × (get_elem? reqs o.channel ≡ some q))
    × ((lookup_port name port_name_map ≡ some (o.port, o.pins)) × Linked pwm_res reqs rest outs)
