-- ===== src/Config/Total.antt =====
-- The bytes that ControllerConfig.read asks for are enough: no index of its decoding is out of range
-- (df10ch_setup_pkg/device_drv.py).
use df10ch_atmolight_control.Prelude.{
  ℕ, zero, suc, ◌+◌, ◌*◌, ◌≤◌, ◌<◌, ◌≡◌, refl, List, [], ◌∷◌, Bool, true, false, min, length, arith,
  none, get_elem?-lt, Option-cases, inl, inr, if◌then◌else◌,
}
use df10ch_atmolight_control.Result.{Result, ok, err, ◌>>=◌, at, word_at}
use df10ch_atmolight_control.Protocol.{Port, nchannels, port_name_map}
use df10ch_atmolight_control.Areas.{max_areas, num_base_areas}
use df10ch_atmolight_control.Controller.Payload.{ChannelRec}
use df10ch_atmolight_control.Config.{Settings, default_settings}
use df10ch_atmolight_control.Config.Bounds.{decode_settings-InRange}
use df10ch_atmolight_control.Config.Decode.{
  eedata_size, read_areas, read_tail, read_settings, is_valid_id, decode_settings, decode_rec,
  find_request, first_driving, decode_port, decode_ports,
}

-- The computation gives a value.
abbrev pub Returns : {A : Type 0} → Result A → Type 0
Returns (ok a) = Unit
Returns (err e) = ⊥

Returns-bind :
    {A B : Type 0} (m : Result A) (f : A → Result B)
    → Returns m
    → ((a : A) → m ≡ ok a → Returns (f a))
    → Returns (m >>= f)
Returns-bind (ok a) f h k = k a refl
Returns-bind (err e) f h k = absurd h

Returns-if :
    {A : Type 0} (b : Bool) (m n : Result A) → Returns m → Returns n → Returns (if b then m else n)
Returns-if true m n h k = h
Returns-if false m n h k = k

module _ (eedata : List ℕ) where
  at-Returns : (i : ℕ) → i < length eedata → Returns (at eedata i)
  at-Returns i h = let (v, e) = get_elem?-lt eedata i h in rw e tt

  word_at-Returns : (i : ℕ) → i + 1 < length eedata → Returns (word_at eedata i)
  word_at-Returns i h =
      Returns-bind (at eedata i) _ (at-Returns i (omega arith))
        λ lo _. Returns-bind (at eedata (i + 1)) _ (at-Returns (i + 1) h) (λ hi _. tt)

  read_areas-Returns :
      (p : ℕ) (most : List ℕ) → p + length most ≤ length eedata → Returns (read_areas eedata p most)
  unfolding read_areas
  read_areas-Returns p [] h = tt
  read_areas-Returns p (m ∷ ms) h =
      let rest = read_areas-Returns (p + 1) ms (omega arith) in
      Returns-bind (at eedata p) _ (at-Returns p (omega arith))
        λ count _. Returns-bind (read_areas eedata (p + 1) ms) _ rest (λ counts _. tt)

  read_tail-Returns :
      (version p : ℕ) (areas : List ℕ) (requests : ℕ)
      → p + 3 < length eedata
      → Returns (read_tail eedata version p areas requests)
  unfolding read_tail
  read_tail-Returns version p areas requests h = ground (
    arith,
    at-Returns p (omega arith),
    at-Returns (p + 1) (omega arith),
    at-Returns (p + 2) (omega arith),
    at-Returns (p + 3) h,
  )

  decode_rec-Returns :
      (pwm_res p : ℕ) → p + 5 < length eedata → Returns (decode_rec eedata pwm_res p)
  unfolding decode_rec
  decode_rec-Returns pwm_res p h = ground (
    arith,
    at-Returns (p + 1) (omega arith),
    at-Returns (p + 2) (omega arith),
    at-Returns (p + 3) (omega arith),
    word_at-Returns (p + 4) (omega arith),
  )

  find_request-Returns :
      (pwm_res channel n p : ℕ)
      → p + n * 6 ≤ length eedata
      → Returns (find_request eedata pwm_res channel n p)
  unfolding find_request
  find_request-Returns pwm_res channel zero p h = tt
  find_request-Returns pwm_res channel (suc n) p h = ground (
    arith,
    at-Returns p (omega arith),
    decode_rec-Returns pwm_res p (omega arith),
    find_request-Returns pwm_res channel n (p + 6) (omega arith),
  )

  decode_settings-Returns : eedata_size ≤ length eedata → Returns (decode_settings eedata)
  unfolding decode_settings is_valid_id read_settings
  decode_settings-Returns h =
      Returns-bind (is_valid_id eedata) _
        (Returns-bind (word_at eedata 0) _ (word_at-Returns 0 (omega arith)) (λ id _. tt))
        λ valid _.
          Returns-if valid (read_settings eedata) (ok default_settings)
            (Returns-bind (word_at eedata 2) _ (word_at-Returns 2 (omega arith)) λ version _.
              Returns-bind (read_areas eedata 4 max_areas) _
                (read_areas-Returns 4 max_areas (omega arith))
                λ areas _.
                  Returns-bind (at eedata (4 + num_base_areas)) _
                    (at-Returns (4 + num_base_areas) (omega arith))
                    λ count _.
                      read_tail-Returns version (5 + num_base_areas + min count nchannels * 6) areas
                        (min count nchannels) (omega arith))
            tt

  module _ (settings : Settings) (pwm_res : ℕ) (pwm_map : List ChannelRec) where
    decode_port-Returns :
        (valid : Bool) (port : Port)
        → eedata_size ≤ length eedata
        → settings.num_req_channels ≤ nchannels
        → Returns (decode_port valid eedata settings pwm_res pwm_map port)
    unfolding decode_port
    decode_port-Returns valid (name, out) h few = elim (Option-cases (first_driving out pwm_map)) [
      | inl missing ↦ rw missing tt
      | inr (r, e) ↦ rw e (
          Returns-bind (if valid then _ else _) _
            (Returns-if valid _ (ok none)
              (find_request-Returns pwm_res r.channel settings.num_req_channels (5 + num_base_areas)
                (omega arith))
              tt)
            (λ found _. tt))
    ]

    decode_ports-Returns :
        (valid : Bool) (ports : List Port)
        → eedata_size ≤ length eedata
        → settings.num_req_channels ≤ nchannels
        → Returns (decode_ports valid eedata settings pwm_res pwm_map ports)
    unfolding decode_ports
    decode_ports-Returns valid [] h few = tt
    decode_ports-Returns valid (port ∷ ports) h few =
        let rest = decode_ports-Returns valid ports h few in
        Returns-bind (decode_port valid eedata settings pwm_res pwm_map port) _
          (decode_port-Returns valid port h few)
          λ entry _.
            Returns-bind (decode_ports valid eedata settings pwm_res pwm_map ports) _ rest
              (λ entries _. tt)

-- From the bytes that the driver asks for, whatever they are, and any channel map, the settings and
-- the outputs are decoded: no index is out of range, and no name or number is refused.
pub decoding-Returns :
    (eedata : List ℕ) (pwm_res : ℕ) (pwm_map : List ChannelRec)
    → eedata_size ≤ length eedata
    → Returns (do
      valid ← is_valid_id eedata
      settings ← decode_settings eedata
      decode_ports valid eedata settings pwm_res pwm_map port_name_map)
decoding-Returns eedata pwm_res pwm_map h =
    Returns-bind (is_valid_id eedata) _
      (unfold is_valid_id in
        Returns-bind (word_at eedata 0) _ (word_at-Returns eedata 0 (omega arith)) (λ id _. tt))
      λ valid _.
        Returns-bind (decode_settings eedata) _ (decode_settings-Returns eedata h) λ settings e.
          decode_ports-Returns eedata settings pwm_res pwm_map valid port_name_map h
            (decode_settings-InRange eedata settings e).requests_le
