-- ===== src/Config/RoundTrip/Outputs.antt =====
-- The channel map in the bytes of the EEPROM, read back for the outputs of the table
-- (ControllerConfig.read of df10ch_setup_pkg/device_drv.py).
use mathlib.Core.List.{append_assoc}
use df10ch_atmolight_control.Prelude.{
  ℕ, ◌+◌, ◌≡◌, refl, List, [], ◌∷◌, ◌++◌, Text, Option, none, some, length, length-append,
  get_elem?, text_eq, true, false, Bool, ◌&&◌, ◌==◌, arith, subst, replicate,
}
use df10ch_atmolight_control.Result.{Result, ok, ◌>>=◌}
use df10ch_atmolight_control.Protocol.{Port, lookup_port, port_name_map}
use df10ch_atmolight_control.Areas.{num_base_areas}
use df10ch_atmolight_control.Controller.Payload.{ChannelRec}
use df10ch_atmolight_control.Dummy.{empty_rec}
use df10ch_atmolight_control.Config.{Settings, MapRec, ChannelMap}
use df10ch_atmolight_control.Config.Bounds.{InRange}
use df10ch_atmolight_control.Config.Registry.{find_entry}
use df10ch_atmolight_control.Config.Decode.{find_request, first_driving, decode_port, decode_ports}
use df10ch_atmolight_control.Config.RoundTrip.{Request, StoredAs, IsStorable, Linked}
use df10ch_atmolight_control.Config.RoundTrip.Decoding.{
  find_request-found, DrivenAs, used_by, first_driving-DrivenAs,
}
use df10ch_atmolight_control.Config.RoundTrip.Header.{front, stored, written, length-front}

-- Every name of the table stands for its own output.
abbrev pub finds_itself : Port → Bool
finds_itself (name, (port, pin)) = elim (lookup_port name port_name_map) [
  | none ↦ false
  | some out ↦ out.0 == port && out.1 == pin
]

abbrev pub all_of : (Port → Bool) → List Port → Bool
all_of p [] = true
all_of p (x ∷ xs) = p x && all_of p xs

pub itself_table : all_of finds_itself port_name_map ≡ true
unfolding lookup_port port_name_map text_eq
itself_table = refl

finds_itself→eq :
    (name : Text) (out : ℕ × ℕ)
    → finds_itself (name, out) ≡ true
    → lookup_port name port_name_map ≡ some out
finds_itself→eq name (port, pin) h = ground arith

-- The channel map that is read: the outputs in the order of the table.
abbrev pub listed : ChannelMap → List Port → ChannelMap
listed m [] = []
listed m ((name, out) ∷ ports) = (name, used_by (find_entry name m)) ∷ listed m ports

module _ (s : Settings) (reqs : List Request) (rest : List ℕ) (pwm_res n : ℕ) (m : ChannelMap)
    (outs : List ChannelRec) (h : InRange s) (storable : IsStorable pwm_res m)
    (linked : Linked pwm_res reqs m outs) where
  find_request-stored :
      (c : ℕ) (r : MapRec) (q : Request)
      → StoredAs pwm_res r q
      → get_elem? reqs c ≡ some q
      → find_request (stored s reqs rest) pwm_res c (length reqs) (5 + num_base_areas) ≡ ok (some r)
  find_request-stored c r q st at_c =
      subst (λ bytes. find_request bytes pwm_res c (length reqs) (5 + num_base_areas) ≡ ok (some r))
        (append_assoc (front s.num_areas) (length reqs ∷ []) _)
        (find_request-found pwm_res reqs (front s.num_areas ++ length reqs ∷ [])
          (s.overscan ∷ s.analyze_size ∷ s.edge_weighting ∷ s.weight_limit ∷ rest) 0
          (5 + num_base_areas) c c r q
          (omega (
            arith,
            length-append {0} (front s.num_areas) (length reqs ∷ []),
            length-front s.num_areas h.areas_below,
          ))
          at_c (omega arith) st)

  decode_port-stored :
      (name : Text) (out : ℕ × ℕ)
      → lookup_port name port_name_map ≡ some out
      → decode_port true
          (stored s reqs rest)
          (written s (length reqs))
          pwm_res
          (outs ++ replicate n empty_rec)
          (name, out)
        ≡ ok (name, used_by (find_entry name m))
  unfolding decode_port
  decode_port-stored name out found =
      by_entry (used_by (find_entry name m)) (first_driving out (outs ++ replicate n empty_rec))
        (first_driving-DrivenAs pwm_res reqs m outs n name out found storable linked)
    where
      by_entry :
          (entry : Option MapRec) (o : Option ChannelRec)
          → DrivenAs pwm_res reqs entry o
          → ◌>>=◌ {Y = Text × Option MapRec}
              (elim o as (λ x. Result (Option MapRec)) [
                | none ↦ ok none
                | some r ↦
                    find_request
                      (stored s reqs rest)
                      pwm_res
                      r.channel
                      (length reqs)
                      (5 + num_base_areas)
              ])
              (λ found. ok (name, found))
            ≡ ok (name, entry)
      by_entry none o e = rw e refl
      by_entry (some r) none e = absurd e
      by_entry (some r) (some o) (q, st, at_c) = rw (find_request-stored o.channel r q st at_c) refl

  pub decode_ports-stored :
      (ports : List Port)
      → all_of finds_itself ports ≡ true
      → decode_ports true
          (stored s reqs rest)
          (written s (length reqs))
          pwm_res
          (outs ++ replicate n empty_rec)
          ports
        ≡ ok (listed m ports)
  unfolding decode_ports
  decode_ports-stored [] all = refl
  decode_ports-stored ((name, out) ∷ ports) all =
      rw
        (
          decode_port-stored name out (finds_itself→eq name out (ground arith)),
          decode_ports-stored ports (ground arith),
        )
        refl
