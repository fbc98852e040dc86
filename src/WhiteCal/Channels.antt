-- ===== src/WhiteCal/Channels.antt =====
-- The channels that the calibration requests (df10ch_setup_pkg/white_cal_dlg.py).
use df10ch_atmolight_control.Prelude.{
  ℕ, suc, ◌+◌, ◌-◌, ◌≡◌, refl, sym, ◌∙◌, subst, max, List, [], ◌∷◌, ◌++◌, Text, Option, none, some,
  length, length-append, length-replicate, replicate, arith,
}
use df10ch_atmolight_control.Result.{Result, ok, err, key_error}
use df10ch_atmolight_control.Exec.{Exec, continue}
use df10ch_atmolight_control.Protocol.{nchannels, lookup_port, port_name_map}
use df10ch_atmolight_control.Controller.Payload.{ChannelRec}
use df10ch_atmolight_control.Dummy.{empty_rec}
use df10ch_atmolight_control.Config.{MapRec, ChannelMap}
use df10ch_atmolight_control.WhiteCal.{
  Floats, Requests, request_output, request_outputs, add_output, pad, brightness,
}

abbrev used_one : Option MapRec → ℕ
used_one none = 0
used_one (some r) = 1

-- The number of used outputs.
abbrev pub used_count : ChannelMap → ℕ
used_count [] = 0
used_count ((name, entry) ∷ rest) = used_one entry + used_count rest

-- The numbers of the channels from a first one on.
abbrev pub CountsFrom : ℕ → List ChannelRec → Type 0
CountsFrom first [] = Unit {0}
CountsFrom first (e ∷ entries) = (e.channel ≡ first) × CountsFrom (suc first) entries

abbrev pub IsFilled : ℕ → Requests → Type 0
IsFilled n q =
    (q.req_channel ≡ n)
    × ((length q.entries ≡ n) × ((length q.brights ≡ n) × CountsFrom 0 q.entries))

CountsFrom-append :
    (first : ℕ) (xs : List ChannelRec) (e : ChannelRec)
    → CountsFrom first xs
    → e.channel ≡ first + length xs
    → CountsFrom first (xs ++ e ∷ [])
CountsFrom-append first [] e h channel = (channel ∙ omega arith, tt)
CountsFrom-append first (x ∷ xs) e h channel =
    (h.0, CountsFrom-append (suc first) xs e h.1 (channel ∙ omega arith))

-- What holds of the requests unless an exception ended the reading.
abbrev pub AfterFilled : ℕ → Result (Unit {0}) × Requests → Type 0
AfterFilled n (ok u, q) = IsFilled n q
AfterFilled n (err e, q) = Unit {0}

add_output-IsFilled :
    (id name : Text) (r : MapRec) (port pin b n : ℕ) (q : Requests)
    → IsFilled n q
    → IsFilled (n + 1) (add_output id name r port pin b q)
unfolding add_output
add_output-IsFilled id name r port pin b n q h = (
  rw h.0 refl,
  (
    rw (length-append q.entries (entry ∷ []), h.1.0) refl,
    (
      rw (length-append q.brights (b ∷ []), h.1.1.0) refl,
      CountsFrom-append 0 q.entries entry h.1.1.1 (rw (h.0, h.1.0) (omega arith)),
    ),
  ),
)
  where
    entry : ChannelRec
    entry = record { channel = q.req_channel; port = port; pins = pin }

padded {ℓ} :
    {A : Type ℓ} (xs : List A) (a : A) (n req : ℕ)
    → req ≡ n
    → length xs ≡ n
    → length (xs ++ replicate (nchannels - req) a) ≡ max nchannels n
padded xs a n req same count =
    length-append xs (replicate (nchannels - req) a)
    ∙ rw (length-replicate (nchannels - req) a, count, same) (omega arith)

-- What is sent to a controller: as many entries as brightness values, one for each channel, and the
-- channels of the used outputs in order.
abbrev pub Sends : ℕ → Result (Unit {0}) × Requests → Type 0
Sends n (ok u, q) =
    (length (pad q).0 ≡ max nchannels n)
    × ((length (pad q).1 ≡ max nchannels n) × CountsFrom 0 q.entries)
Sends n (err e, q) = Unit {0}

module _ {L F : Type 0} (floats : Floats F)
    (set_channel_map : Text → ℕ → List ChannelRec → Exec L (Unit {0}))
    (set_brightness : Text → ℕ → List ℕ → Exec L (Unit {0})) where
  request_output-AfterFilled :
      (bright : F) (id name : Text) (entry : Option MapRec) (n : ℕ) (q : Requests)
      → IsFilled n q
      → AfterFilled
          (n + used_one entry)
          (request_output floats set_channel_map set_brightness bright id name entry q)
  unfolding request_output
  request_output-AfterFilled bright id name none n q h = same_count (omega arith)
    where
      same_count : {m : ℕ} → n ≡ m → IsFilled m q
      same_count e = rw (sym e) h
  request_output-AfterFilled bright id name (some r) n q h =
      by_port (lookup_port name port_name_map)
        (brightness floats set_channel_map set_brightness bright (floats.tenth r.gamma) r.white_cal)
    where
      by_port :
          (o : Option (ℕ × ℕ)) (x : Result ℕ)
          → AfterFilled (n + 1) (elim o as (λ y. Result (Unit {0}) × Requests) [
            | none ↦ (err key_error, q)
            | some p ↦ elim x as (λ y. Result (Unit {0}) × Requests) [
              | err e ↦ (err e, q)
              | ok b ↦ (ok tt, add_output id name r p.0 p.1 b q)
            ]
          ])
      by_port none x = tt
      by_port (some p) (err e) = tt
      by_port (some p) (ok b) = add_output-IsFilled id name r p.0 p.1 b n q h

  request_outputs-AfterFilled :
      (bright : F) (id : Text) (m : ChannelMap) (n : ℕ) (q : Requests)
      → IsFilled n q
      → AfterFilled
          (n + used_count m)
          (request_outputs floats set_channel_map set_brightness bright id m q)
  unfolding request_outputs
  request_outputs-AfterFilled bright id [] n q h = rw (plus_zero n) h
    where
      plus_zero : (k : ℕ) → k + 0 ≡ k
      plus_zero k = omega arith
  request_outputs-AfterFilled bright id ((name, entry) ∷ rest) n q h =
      after (request_output floats set_channel_map set_brightness bright id name entry q)
        (request_output-AfterFilled bright id name entry n q h)
        (λ t filled.
          subst
            (λ k.
              AfterFilled k
                (request_outputs floats set_channel_map set_brightness bright id rest t))
            (omega arith)
            (request_outputs-AfterFilled bright id rest (n + used_one entry) t filled))
    where
      after :
          (r : Result (Unit {0}) × Requests)
          → AfterFilled (n + used_one entry) r
          → ((t : Requests)
              → IsFilled (n + used_one entry) t
              → AfterFilled
                  (n + (used_one entry + used_count rest))
                  (request_outputs floats set_channel_map set_brightness bright id rest t))
          → AfterFilled (n + (used_one entry + used_count rest)) (
              continue r.0
                (λ u. request_outputs floats set_channel_map set_brightness bright id rest)
                r.1)
      after (ok u, t) filled next = next t filled
      after (err e, t) filled next = tt

  -- Reading the outputs of a controller and padding gives as many entries as brightness values: one
  -- for each channel of a controller, or one for each used output if there are more of those. The
  -- used outputs have the channels 0, 1, 2, … in order.
  pub request_outputs-Sends :
      (bright : F) (id : Text) (m : ChannelMap) (q : Requests)
      → IsFilled 0 q
      → Sends (used_count m) (request_outputs floats set_channel_map set_brightness bright id m q)
  request_outputs-Sends bright id m q h =
      sent (request_outputs floats set_channel_map set_brightness bright id m q) (
        subst
          (λ k. AfterFilled k (request_outputs floats set_channel_map set_brightness bright id m q))
          (zero_plus (used_count m)) (request_outputs-AfterFilled bright id m 0 q h))
    where
      zero_plus : (k : ℕ) → 0 + k ≡ k
      zero_plus k = omega arith

      sent :
          (r : Result (Unit {0}) × Requests) → AfterFilled (used_count m) r → Sends (used_count m) r
      sent (err e, t) filled = tt
      sent (ok u, t) filled = (
        unfold pad in padded t.entries empty_rec _ t.req_channel filled.0 filled.1.0,
        (unfold pad in padded t.brights 0 _ t.req_channel filled.0 filled.1.1.0, filled.1.1.1),
      )
