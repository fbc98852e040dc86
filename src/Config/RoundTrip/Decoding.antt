-- ===== src/Config/RoundTrip/Decoding.antt =====
-- What ControllerConfig.read finds in bytes and a channel map that hold requests
-- (df10ch_setup_pkg/device_drv.py).
use mathlib.Core.Option.{some-injective}
use mathlib.Core.List.{append_assoc}
use df10ch_atmolight_control.Prelude.{
  ℕ, zero, suc, ◌+◌, ◌*◌, ◌/◌, ◌%◌, ◌≤◌, ◌≡◌, refl, sym, ap, ◌∙◌, List, [], ◌∷◌, ◌++◌, Text, Option,
  none, some, length, length-append, get_elem?, text_eq, text_eq→eq, true, false, Bool,
  if◌then◌else◌, ◌==◌, arith, subst, replicate, min,
}
use df10ch_atmolight_control.Result.{ok, ◌>>=◌, at}
use df10ch_atmolight_control.Protocol.{lookup_port, port_name_map, min_gamma_val, max_gamma_val}
use df10ch_atmolight_control.Protocol.Ports.{drives, port-drives_iff, idle-drives}
use df10ch_atmolight_control.Controller.Payload.{ChannelRec}
use df10ch_atmolight_control.Dummy.{empty_rec}
use df10ch_atmolight_control.Config.{MapRec, ChannelMap, clamp}
use df10ch_atmolight_control.Config.Registry.{find_entry}
use df10ch_atmolight_control.Config.Decode.{decode_rec, find_request, first_driving}
use df10ch_atmolight_control.Config.RoundTrip.{
  Request, StoredAs, IsStorable, rec_bytes, recs_from, Linked,
}

get_elem?-after {ℓ} :
    {A : Type ℓ} (pre xs : List A) (i p : ℕ)
    → p ≡ length pre + i
    → get_elem? (pre ++ xs) p ≡ get_elem? xs i
get_elem?-after [] xs i p e = ap (get_elem? xs) (e ∙ omega arith)
get_elem?-after (x ∷ pre) xs i zero e = absurd (omega arith)
get_elem?-after (x ∷ pre) xs i (suc p) e = get_elem?-after pre xs i p (omega arith)

-- The byte behind a prefix.
pub at-after :
    (pre xs : List ℕ) (i p v : ℕ)
    → p ≡ length pre + i
    → get_elem? xs i ≡ some v
    → at (pre ++ xs) p ≡ ok v
at-after pre xs i p v e found = rw (get_elem?-after pre xs i p e, found) refl

clamp_inside :
    (v : ℕ) → min_gamma_val ≤ v → v ≤ max_gamma_val → clamp min_gamma_val max_gamma_val v ≡ v
clamp_inside v lo hi = omega arith

bytes_of_word : (v : ℕ) → v % 256 + v / 256 * 256 ≡ v
bytes_of_word v = omega arith

min_left : (v m : ℕ) → v ≤ m → min v m ≡ v
min_left v m h = omega arith

rec_eq :
    (pwm_res : ℕ) (r : MapRec) (q : Request) (area : Text)
    → StoredAs pwm_res r q
    → area ≡ r.area
    → record { area = area; color = q.code % 4; gamma = q.gamma; white_cal = q.white_cal } ≡ r
rec_eq pwm_res r q area s e = rw (e, ← s.colored, ← s.gamma_is, ← s.white_is) refl

decode_rec-request :
    (pwm_res : ℕ) (pre rest : List ℕ) (c p : ℕ) (r : MapRec) (q : Request)
    → p ≡ length pre
    → StoredAs pwm_res r q
    → decode_rec (pre ++ (rec_bytes c q ++ rest)) pwm_res p ≡ ok (some r)
unfolding decode_rec
decode_rec-request pwm_res pre rest c p r q e s = rw (byte_at 1 (p + 1) q.code (omega arith) refl) (
    rw (byte_at 2 (p + 2) q.num (omega arith) refl) (
      rw (s.named, ◌>>=◌)
        (rw (byte_at 3 (p + 3) q.gamma (omega arith) refl) (
          rw (byte_at 4 (p + 4) (q.white_cal % 256) (omega arith) refl) (
            rw (byte_at 5 (p + 4 + 1) (q.white_cal / 256) (omega arith) refl) (
              rw
                (
                  clamp_inside q.gamma s.gamma_ge s.gamma_le,
                  bytes_of_word q.white_cal,
                  min_left q.white_cal pwm_res s.white_le,
                )
                (ap (λ x. ok (some x)) (rec_eq pwm_res r q r.area s refl))))))))
  where
    byte_at :
        (i j v : ℕ)
        → j ≡ length pre + i
        → get_elem? (rec_bytes c q ++ rest) i ≡ some v
        → at (pre ++ (rec_bytes c q ++ rest)) j ≡ ok v
    byte_at i j v e' found = at-after pre (rec_bytes c q ++ rest) i j v e' found

-- The record of a channel is found behind those of other channels.
pub find_request-found :
    (pwm_res : ℕ) (reqs : List Request) (pre rest : List ℕ) (first p j c : ℕ) (r : MapRec)
    (q : Request)
    → p ≡ length pre
    → get_elem? reqs j ≡ some q
    → c ≡ first + j
    → StoredAs pwm_res r q
    → find_request (pre ++ (recs_from first reqs ++ rest)) pwm_res c (length reqs) p ≡ ok (some r)
unfolding find_request recs_from
find_request-found pwm_res [] pre rest first p j c r q e at_j channel s = absurd (cc)
find_request-found pwm_res (x ∷ reqs) pre rest first p zero c r q e at_j channel s =
    rw
      (at-after pre (rec_bytes first x ++ (recs_from (suc first) reqs ++ rest)) 0 p first
        (omega arith) refl)
      (rw same_channel (
        rw
          (decode_rec-request pwm_res pre (recs_from (suc first) reqs ++ rest) first p r x e
            (subst (StoredAs pwm_res r) (sym (some-injective x q at_j)) s))
          refl))
  where
    same_channel : (first == c) ≡ true
    same_channel = ground arith
find_request-found pwm_res (x ∷ reqs) pre rest first p (suc j) c r q e at_j channel s =
    rw
      (at-after pre (rec_bytes first x ++ (recs_from (suc first) reqs ++ rest)) 0 p first
        (omega arith) refl)
      (rw other_channel (
        subst (λ bytes. find_request bytes pwm_res c (length reqs) (p + 6) ≡ ok (some r))
          (append_assoc pre (rec_bytes first x) (recs_from (suc first) reqs ++ rest))
          (find_request-found pwm_res reqs (pre ++ rec_bytes first x) rest (suc first) (p + 6) j c r
            q (omega (arith, length-append {0} pre (rec_bytes first x))) at_j (omega arith) s)))
  where
    other_channel : (first == c) ≡ false
    other_channel = ground arith

-- What the dict has for an output that is missing or unused.
abbrev pub used_by : Option (Option MapRec) → Option MapRec
used_by none = none
used_by (some entry) = entry

abbrev pub DrivenAs : ℕ → List Request → Option MapRec → Option ChannelRec → Type 0
DrivenAs pwm_res reqs none o = o ≡ none
DrivenAs pwm_res reqs (some r) none = ⊥
DrivenAs pwm_res reqs (some r) (some o) =
    (q : Request) × StoredAs pwm_res r q × (get_elem? reqs o.channel ≡ some q)

idle_none :
    (out : ℕ × ℕ) (n : ℕ)
    → drives 0 0 out ≡ false
    → first_driving out (replicate n empty_rec) ≡ none
unfolding first_driving
idle_none out zero idle = refl
idle_none out (suc n) idle = rw idle (idle_none out n idle)

-- The first entry of the channel map that drives an output is the one that was sent for it.
pub first_driving-DrivenAs :
    (pwm_res : ℕ) (reqs : List Request) (m : ChannelMap) (outs : List ChannelRec) (n : ℕ)
    (name : Text) (out : ℕ × ℕ)
    → lookup_port name port_name_map ≡ some out
    → IsStorable pwm_res m
    → Linked pwm_res reqs m outs
    → DrivenAs pwm_res reqs
        (used_by (find_entry name m))
        (first_driving out (outs ++ replicate n empty_rec))
unfolding find_entry first_driving
first_driving-DrivenAs pwm_res reqs [] outs n name out found storable linked =
    rw linked (idle_none out n (idle-drives name out found))
first_driving-DrivenAs pwm_res reqs ((k, none) ∷ rest) outs n name out found storable linked =
    by_name (text_eq k name) refl
      (first_driving-DrivenAs pwm_res reqs rest outs n name out found storable.2 linked)
  where
    by_name :
        (b : Bool)
        → text_eq k name ≡ b
        → DrivenAs pwm_res reqs
            (used_by (find_entry name rest))
            (first_driving out (outs ++ replicate n empty_rec))
        → DrivenAs pwm_res reqs
            (used_by (if b then some none else find_entry name rest))
            (first_driving out (outs ++ replicate n empty_rec))
    by_name true e later =
        let missing = rw (text_eq→eq k name e) at storable.1 in
        subst
          (λ o.
            DrivenAs pwm_res reqs (used_by o) (first_driving out (outs ++ replicate n empty_rec)))
          missing later
    by_name false e later = later
first_driving-DrivenAs pwm_res reqs ((k, some r) ∷ rest) [] n name out found storable linked =
    absurd linked
first_driving-DrivenAs pwm_res reqs ((k, some r) ∷ rest) (o ∷ outs) n name out found storable
      linked =
    rw (port-drives_iff k name o.port o.pins out linked.1.0 found) (
      by_name (text_eq k name)
        (first_driving-DrivenAs pwm_res reqs rest outs n name out found storable.3 linked.1.1))
  where
    by_name :
        (b : Bool)
        → DrivenAs pwm_res reqs
            (used_by (find_entry name rest))
            (first_driving out (outs ++ replicate n empty_rec))
        → DrivenAs pwm_res reqs
            (used_by (if b then some (some r) else find_entry name rest))
            (if b then some o else first_driving out (outs ++ replicate n empty_rec))
    by_name true later = linked.0
    by_name false later = later
