-- ===== src/Config/RoundTrip/Requests.antt =====
-- What one output adds to the bytes (ControllerConfig.write of df10ch_setup_pkg/device_drv.py).
use df10ch_atmolight_control.Prelude.{
  ℕ, ◌+◌, ◌/◌, ◌<◌, ◌≡◌, refl, sym, ap, ◌∙◌, List, [], ◌∷◌, ◌++◌, Text, none, some, length,
  length-append, get_elem?, get_elem?-middle, get_elem?-append_left, get_elem?-some-lt, ltb, lt→ltb,
  text_eq, text_eq→eq, true, false, Bool, if◌then◌else◌, arith, subst,
}
use mathlib.Core.Option.{some-injective}
use mathlib.Core.List.{append_assoc}
use df10ch_atmolight_control.Prelude.Int.{ℤ, pos}
use df10ch_atmolight_control.Result.{Result, ok, ◌>>=◌}
use df10ch_atmolight_control.Protocol.{lookup_port, port_name_map}
use df10ch_atmolight_control.Areas.{area_code}
use df10ch_atmolight_control.Areas.Laws.{area_code-area_name}
use df10ch_atmolight_control.Controller.Payload.{ChannelRec}
use df10ch_atmolight_control.Config.{MapRec}
use df10ch_atmolight_control.Config.Encode.{
  Encoder, lookup_key, request_bytes, encode_request, encode_port, limited, add_output,
}
use df10ch_atmolight_control.Config.RoundTrip.{
  Request, key_of, StoredAs, rec_bytes, recs_from, recs_from-append,
}

-- What the encoder holds after these requests.
pub record Holds (header : List ℕ) (enc : Encoder) (reqs : List Request) : Type 0 where
  pub counted : enc.requests ≡ length reqs
  pub bytes : enc.eedata ≡ header ++ recs_from 0 reqs
  pub known :
      (key : Text) (c : ℕ)
      → lookup_key key enc.known ≡ some c
      → (q : Request) × (get_elem? reqs c ≡ some q) × (key_of q ≡ key)

abbrev pub out_rec : ℕ → ℕ × ℕ → ChannelRec
out_rec c (port, pin) = record { channel = c; port = port; pins = pin }

pub request_bytes-rec :
    (c : ℕ) (q : Request)
    → c < 256
    → q.code < 256
    → q.num < 256
    → q.gamma < 256
    → q.white_cal < 65536
    → request_bytes c q.code (pos q.num) q.gamma q.white_cal ≡ ok (rec_bytes c q)
unfolding request_bytes
request_bytes-rec c q hc h1 h2 h3 h4 =
    rw
      (
        lt→ltb c 256 hc,
        lt→ltb q.code 256 h1,
        lt→ltb q.num 256 h2,
        lt→ltb q.gamma 256 h3,
        lt→ltb (q.white_cal / 256) 256 (omega arith),
      )
      refl

-- A request that is known already shares its channel.
pub encode_request-known :
    (out : ℕ × ℕ) (q : Request) (enc : Encoder) (c : ℕ)
    → lookup_key (key_of q) enc.known ≡ some c
    → encode_request out q.code (pos q.num) q.gamma q.white_cal enc ≡ ok (add_output enc c out)
unfolding encode_request
encode_request-known out q enc c found = rw (found, encode_request) refl

abbrev pub added : Encoder → Request → ℕ × ℕ → Encoder
added enc q out =
    add_output
      (record {
        requests = enc.requests + 1;
        known = (key_of q, enc.requests) ∷ enc.known;
        eedata = enc.eedata ++ rec_bytes enc.requests q;
        outputs = enc.outputs;
      })
      enc.requests out

pub encode_request-new :
    (out : ℕ × ℕ) (q : Request) (enc : Encoder)
    → lookup_key (key_of q) enc.known ≡ none
    → request_bytes enc.requests q.code (pos q.num) q.gamma q.white_cal
      ≡ ok (rec_bytes enc.requests q)
    → encode_request out q.code (pos q.num) q.gamma q.white_cal enc ≡ ok (added enc q out)
unfolding encode_request
encode_request-new out q enc missing bytes = rw (missing, encode_request) (rw (bytes, ◌>>=◌) refl)

pub get_elem?-last :
    (reqs : List Request) (q : Request) → get_elem? (reqs ++ q ∷ []) (length reqs) ≡ some q
get_elem?-last reqs q = get_elem?-middle reqs [] q (length reqs) refl

pub get_elem?-more :
    (reqs more : List Request) (c : ℕ) (q : Request)
    → get_elem? reqs c ≡ some q
    → get_elem? (reqs ++ more) c ≡ some q
get_elem?-more reqs more c q h =
    get_elem?-append_left reqs more c (get_elem?-some-lt reqs c q h) ∙ h

module _ (header : List ℕ) where
  pub added-Holds :
      (enc : Encoder) (reqs : List Request) (q : Request) (out : ℕ × ℕ)
      → Holds header enc reqs
      → Holds header (added enc q out) (reqs ++ q ∷ [])
  unfolding lookup_key
  added-Holds enc reqs q out h = record {
    counted = rw (length-append reqs (q ∷ []), h.counted) refl;
    bytes =
        rw (h.bytes, recs_from-append 0 reqs (q ∷ []), h.counted)
          (append_assoc header (recs_from 0 reqs) _
            ∙ ap (λ t. header ++ (recs_from 0 reqs ++ t))
                (unfold recs_from in ap (λ k. rec_bytes k q) (plus_zero (length reqs))));
    known = λ key c found. by_key key c (text_eq (key_of q) key) refl found;
  }
    where
      plus_zero : (k : ℕ) → k ≡ 0 + k
      plus_zero k = omega arith

      by_key :
          (key : Text) (c : ℕ) (b : Bool)
          → text_eq (key_of q) key ≡ b
          → (if b then some enc.requests else lookup_key key enc.known) ≡ some c
          → (q' : Request) × (get_elem? (reqs ++ q ∷ []) c ≡ some q') × (key_of q' ≡ key)
      by_key key c true e found = (
        q,
        subst (λ i. get_elem? (reqs ++ q ∷ []) i ≡ some q)
            (sym h.counted ∙ some-injective enc.requests c found) (get_elem?-last reqs q),
        text_eq→eq (key_of q) key e,
      )
      by_key key c false e found =
          let (q', at_c, same) = h.known key c found in
          (q', get_elem?-more reqs (q ∷ []) c q' at_c, same)

area_code-StoredAs :
    (pwm_res : ℕ) (r : MapRec) (q : Request)
    → StoredAs pwm_res r q
    → area_code r.area r.color ≡ ok (q.code, pos q.num)
area_code-StoredAs pwm_res r q s =
    rw s.colored
      (area_code-area_name q.code q.num r.area s.named ∙ by_kind (ltb (q.code / 4) 4) refl)
  where
    by_kind :
        (b : Bool)
        → ltb (q.code / 4) 4 ≡ b
        → ◌≡◌ {A = Result (ℕ × ℤ)}
            (ok (q.code, if b then pos q.num else pos 0))
            (ok (q.code, pos q.num))
    by_kind true e = refl
    by_kind false e = rw (s.unnumbered e) refl

limited-StoredAs :
    (pwm_res : ℕ) (r : MapRec) (q : Request)
    → StoredAs pwm_res r q
    → limited pwm_res r.white_cal ≡ q.white_cal
limited-StoredAs pwm_res r q s = rw s.white_is (ground (arith, s.white_le))

-- An output whose record can be stored is encoded as its request.
pub encode_port-used :
    (pwm_res : ℕ) (name : Text) (r : MapRec) (q : Request) (out : ℕ × ℕ) (enc : Encoder)
    → lookup_port name port_name_map ≡ some out
    → StoredAs pwm_res r q
    → encode_port pwm_res name (some r) enc
      ≡ encode_request out q.code (pos q.num) q.gamma q.white_cal enc
unfolding encode_port
encode_port-used pwm_res name r q out enc found s =
    rw (found, area_code-StoredAs pwm_res r q s, limited-StoredAs pwm_res r q s, s.gamma_is) refl

pub encode_port-unused :
    (pwm_res : ℕ) (name : Text) (out : ℕ × ℕ) (enc : Encoder)
    → lookup_port name port_name_map ≡ some out
    → encode_port pwm_res name none enc ≡ ok enc
unfolding encode_port
encode_port-unused pwm_res name out enc found = rw found refl
