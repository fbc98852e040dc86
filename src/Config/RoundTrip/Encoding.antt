-- ===== src/Config/RoundTrip/Encoding.antt =====
-- What the loop of ControllerConfig.write builds (df10ch_setup_pkg/device_drv.py): the bytes of the
-- requested channels and the outputs that refer to them.
use df10ch_atmolight_control.Prelude.{
  ℕ, zero, suc, ◌+◌, ◌≤◌, ◌<◌, ◌≡◌, inl, inr, refl, sym, ap, ◌∙◌, List, [], ◌∷◌, ◌++◌, Text, Option,
  none, some, length, length-append, get_elem?, Option-cases, arith, subst,
}
use mathlib.Core.Option.{some-injective}
use mathlib.Core.List.{append-nil, append_assoc}
use df10ch_atmolight_control.Result.{ok}
use df10ch_atmolight_control.Protocol.{lookup_port, port_name_map}
use df10ch_atmolight_control.Controller.Payload.{ChannelRec}
use df10ch_atmolight_control.Config.{MapRec, ChannelMap}
use df10ch_atmolight_control.Config.Encode.{
  Encoder, lookup_key, encode_port, encode_ports, add_output,
}
use df10ch_atmolight_control.Config.RoundTrip.{
  Request, key_of, StoredAs, IsStorable, Among, recs_from, Linked,
}
use df10ch_atmolight_control.Config.RoundTrip.Requests.{
  Holds, out_rec, added, added-Holds, request_bytes-rec, encode_port-unused, encode_port-used,
  encode_request-known, encode_request-new, get_elem?-last, get_elem?-more,
}

abbrev pub AllOf : (Request → Type 0) → List Request → Type 0
AllOf P reqs = (c : ℕ) (q : Request) → get_elem? reqs c ≡ some q → P q

abbrev pub Extends : List Request → List Request → Type 0
Extends reqs reqs' = (c : ℕ) (q : Request) → get_elem? reqs c ≡ some q → get_elem? reqs' c ≡ some q

AllOf-last :
    (P : Request → Type 0) (reqs : List Request) (q : Request)
    → AllOf P reqs
    → P q
    → AllOf P (reqs ++ q ∷ [])
AllOf-last P [] q all p zero q' e = subst P (some-injective q q' e) p
AllOf-last P [] q all p (suc c) q' e = absurd (cc)
AllOf-last P (x ∷ reqs) q all p zero q' e = all 0 q' e
AllOf-last P (x ∷ reqs) q all p (suc c) q' e =
    AllOf-last P reqs q (λ c q'' e'. all (suc c) q'' e') p c q' e

module _ (header : List ℕ) (P : Request → Type 0)
    (apart : (q q' : Request) → P q → P q' → key_of q ≡ key_of q' → q ≡ q') (pwm_res : ℕ)
    (pwm_res_lt : pwm_res < 65536) where
  -- What the loop has built after some outputs: `reqs'` are the requests then, `outs` the outputs that
  -- were added.
  pub record Built (m : ChannelMap) (enc : Encoder) (reqs : List Request) : Type 0 where
    pub enc' : Encoder
    pub reqs' : List Request
    pub outs : List ChannelRec
    pub returns : encode_ports pwm_res m enc ≡ ok enc'
    pub holds : Holds header enc' reqs'
    pub sent : enc'.outputs ≡ enc.outputs ++ outs
    pub linked : Linked pwm_res reqs' m outs
    pub extends : Extends reqs reqs'
    pub few : length reqs' ≤ length reqs + length m

  record Step (enc : Encoder) (reqs : List Request) (name : Text) (r : MapRec) (out : ℕ × ℕ)
      (q : Request) : Type 0 where
    enc' : Encoder
    reqs' : List Request
    c : ℕ
    returns : encode_port pwm_res name (some r) enc ≡ ok enc'
    holds : Holds header enc' reqs'
    sent : enc'.outputs ≡ enc.outputs ++ out_rec c out ∷ []
    at_c : get_elem? reqs' c ≡ some q
    extends : Extends reqs reqs'
    stays : AllOf P reqs'
    few : length reqs' ≤ length reqs + 1

  used-Step :
      (enc : Encoder) (reqs : List Request) (name : Text) (r : MapRec) (q : Request) (out : ℕ × ℕ)
      → Holds header enc reqs
      → AllOf P reqs
      → P q
      → lookup_port name port_name_map ≡ some out
      → StoredAs pwm_res r q
      → length reqs < 256
      → Step enc reqs name r out q
  used-Step enc reqs name r q out h all p found s few =
      elim (Option-cases (lookup_key (key_of q) enc.known)) [
        | inr (c, known) ↦
            let (q', at_c, same) = h.known (key_of q) c known in
            record {
              enc' = add_output enc c out;
              reqs' = reqs;
              c = c;
              returns =
                  encode_port-used pwm_res name r q out enc found s
                  ∙ encode_request-known out q enc c known;
              holds = record { counted = h.counted; bytes = h.bytes; known = h.known };
              sent = refl;
              at_c = at_c ∙ ap some (apart q' q (all c q' at_c) p same);
              extends = λ c q e. e;
              stays = all;
              few = omega arith;
            }
        | inl missing ↦ record {
          enc' = added enc q out;
          reqs' = reqs ++ q ∷ [];
          c = enc.requests;
          returns =
              encode_port-used pwm_res name r q out enc found s
              ∙ encode_request-new out q enc missing (
                  request_bytes-rec enc.requests q (omega (arith, h.counted)) s.code_lt s.num_lt
                    (omega (arith, s.gamma_le)) (omega (arith, s.white_le)));
          holds = added-Holds header enc reqs q out h;
          sent = refl;
          at_c = rw h.counted (get_elem?-last reqs q);
          extends = get_elem?-more reqs (q ∷ []);
          stays = AllOf-last P reqs q all p;
          few = omega (arith, length-append {0} reqs (q ∷ []));
        }
      ]

  pub encode_ports-Built :
      (m : ChannelMap) (enc : Encoder) (reqs : List Request)
      → Holds header enc reqs
      → AllOf P reqs
      → IsStorable pwm_res m
      → ((q : Request) → Among pwm_res q m → P q)
      → length reqs + length m < 256
      → Built m enc reqs
  unfolding encode_ports
  encode_ports-Built [] enc reqs h all storable among few = record {
    enc' = enc;
    reqs' = reqs;
    outs = [];
    returns = refl;
    holds = h;
    sent = sym (append-nil enc.outputs);
    linked = refl;
    extends = λ c q e. e;
    few = omega arith;
  }
  encode_ports-Built ((name, none) ∷ rest) enc reqs h all storable among few =
      let ((out, found), apart_names, storable') = storable in
      let b = encode_ports-Built rest enc reqs h all storable' among (omega arith) in
      record {
        enc' = b.enc';
        reqs' = b.reqs';
        outs = b.outs;
        returns = rw (encode_port-unused pwm_res name out enc found) b.returns;
        holds = b.holds;
        sent = b.sent;
        linked = b.linked;
        extends = b.extends;
        few = omega (arith, b.few);
      }
  encode_ports-Built ((name, some r) ∷ rest) enc reqs h all storable among few =
      let ((out, found), apart_names, (q, s), storable') = storable in
      let st = used-Step enc reqs name r q out h all (among q (inl s)) found s (omega arith) in
      let b =
        encode_ports-Built rest st.enc' st.reqs' st.holds st.stays storable'
          (λ q' a. among q' (inr a)) (omega (arith, st.few)) in
      record {
        enc' = b.enc';
        reqs' = b.reqs';
        outs = out_rec st.c out ∷ b.outs;
        returns = rw st.returns b.returns;
        holds = b.holds;
        sent =
            b.sent
            ∙ ap (λ l. l ++ b.outs) st.sent
            ∙ append_assoc enc.outputs (out_rec st.c out ∷ []) b.outs;
        linked = ((q, s, b.extends st.c q st.at_c), (found, b.linked));
        extends = λ c q' e. b.extends c q' (st.extends c q' e);
        few = omega (arith, b.few, st.few);
      }

-- Before the loop nothing is requested.
pub start-Holds :
    (header : List ℕ)
    → Holds header (record { requests = 0; known = []; eedata = header; outputs = [] }) []
unfolding lookup_key recs_from
start-Holds header = record {
  counted = refl;
  bytes = sym (append-nil header);
  known = λ key c found. absurd (none_known c found);
}
  where
    none_known : (c : ℕ) → ◌≡◌ {A = Option ℕ} none (some c) → ⊥
    none_known c e = absurd (cc)
