-- ===== src/Config/RoundTrip/Whole.antt =====
-- A configuration that is written is read back (ControllerConfig.write and read of
-- df10ch_setup_pkg/device_drv.py).
use mathlib.Core.List.{append_assoc}
use df10ch_atmolight_control.Prelude.{
  ℕ, ◌+◌, ◌-◌, ◌≤◌, ◌<◌, ◌≡◌, refl, ap, ◌∙◌, List, [], ◌∷◌, ◌++◌, Option, none, some, length,
  length-append, length-replicate, set, true, lt→ltb, arith, replicate,
}
use df10ch_atmolight_control.Result.{ok}
use df10ch_atmolight_control.Protocol.{port_name_map, nchannels}
use df10ch_atmolight_control.Controller.Payload.{ChannelRec}
use df10ch_atmolight_control.Dummy.{empty_rec}
use df10ch_atmolight_control.Config.{Config, Settings, ChannelMap}
use df10ch_atmolight_control.Config.Bounds.{InRange}
use df10ch_atmolight_control.Config.Encode.{Encoder, encode_ports, encode, pad_outputs}
use df10ch_atmolight_control.Config.Decode.{eedata_size, is_valid_id, decode_settings, decode_ports}
use df10ch_atmolight_control.Config.RoundTrip.{
  Request, IsStorable, Among, KeysDiffer, recs_from, length-recs_from, Linked,
}
use df10ch_atmolight_control.Config.RoundTrip.Encoding.{Built, encode_ports-Built, start-Holds}
use df10ch_atmolight_control.Config.RoundTrip.Header.{
  front, encode_header-Below, set_after, stored, written, length-front, decode_settings-stored,
}
use df10ch_atmolight_control.Config.RoundTrip.Requests.{Holds}
use df10ch_atmolight_control.Config.RoundTrip.Outputs.{listed, itself_table, decode_ports-stored}

-- What a configuration comes to when it is encoded: the bytes, the number of requests, and the
-- channel map.
pub record IsReadBack (config : Config) : Type 0 where
  pub eedata : List ℕ
  pub outputs : List ChannelRec
  pub requests : ℕ
  pub encodes : encode config ≡ ok (eedata, outputs)
  pub requests_le : requests ≤ length config.channel_map
  pub eedata_le : length eedata ≤ eedata_size
  pub outputs_length : length outputs ≡ nchannels
  pub is_valid : (rest : List ℕ) → is_valid_id (eedata ++ rest) ≡ ok true
  pub settings_back :
      (rest : List ℕ) → decode_settings (eedata ++ rest) ≡ ok (written config.settings requests)
  pub outputs_back :
      (rest : List ℕ)
      → decode_ports true
          (eedata ++ rest)
          (written config.settings requests)
          config.pwm_res
          outputs
          port_name_map
        ≡ ok (listed config.channel_map port_name_map)

stored-append :
    (s : Settings) (reqs : List Request) (rest : List ℕ)
    → stored s reqs [] ++ rest ≡ stored s reqs rest
stored-append s reqs rest =
    append_assoc (front s.num_areas) _ rest
    ∙ ap (λ t. front s.num_areas ++ length reqs ∷ t)
        (append_assoc (recs_from 0 reqs)
          (s.overscan ∷ s.analyze_size ∷ s.edge_weighting ∷ s.weight_limit ∷ []) rest)

-- The bytes and the channel map that the rest of `write` makes of the encoder.
encode-Holds :
    (config : Config) (enc : Encoder) (reqs : List Request)
    → InRange config.settings
    → encode_ports config.pwm_res config.channel_map (record {
      requests = 0;
      known = [];
      eedata = front config.num_areas ++ 0 ∷ [];
      outputs = [];
    })
      ≡ ok enc
    → Holds (front config.num_areas ++ 0 ∷ []) enc reqs
    → length reqs ≤ nchannels
    → encode config ≡ ok (stored config.settings reqs [], pad_outputs enc.outputs)
unfolding encode
encode-Holds config enc reqs h encoded holds few =
    rw (encode_header-Below config.num_areas h.areas_below) (
      rw encoded (
        rw
          (
            holds.counted,
            lt→ltb (length reqs) 256 (omega arith),
            lt→ltb config.overscan 256 (omega (arith, h.overscan_le)),
            lt→ltb config.analyze_size 256 (omega (arith, h.analyze_size_le)),
            lt→ltb config.edge_weighting 256 (omega (arith, h.edge_weighting_le)),
            lt→ltb config.weight_limit 256 (omega (arith, h.weight_limit_le)),
          )
          (ap (λ bytes. ok (bytes, pad_outputs enc.outputs)) same_bytes)))
  where
    tail_bytes : List ℕ
    tail_bytes =
        config.overscan ∷ config.analyze_size ∷ config.edge_weighting ∷ config.weight_limit ∷ []

    same_bytes :
        set enc.eedata (4 + length config.num_areas) (length reqs) ++ tail_bytes
        ≡ stored config.settings reqs []
    same_bytes =
        ap (λ bytes. set bytes (4 + length config.num_areas) (length reqs) ++ tail_bytes)
          (holds.bytes ∙ append_assoc (front config.num_areas) (0 ∷ []) (recs_from 0 reqs))
        ∙ ap (λ bytes. bytes ++ tail_bytes)
            (set_after (front config.num_areas) (recs_from 0 reqs) 0 (length reqs)
              (4 + length config.num_areas) (omega arith))
        ∙ append_assoc (front config.num_areas) (length reqs ∷ recs_from 0 reqs) tail_bytes

length-stored :
    (s : Settings) (reqs : List Request)
    → InRange s
    → length reqs ≤ nchannels
    → length (stored s reqs []) ≤ eedata_size
length-stored s reqs h few = omega (
  arith,
  length-front s.num_areas h.areas_below,
  length-recs_from 0 reqs,
  length-append {0} (front s.num_areas) (
      length reqs
      ∷ (recs_from 0 reqs
          ++ (s.overscan ∷ s.analyze_size ∷ s.edge_weighting ∷ s.weight_limit ∷ []))),
  length-append {0} (recs_from 0 reqs)
      (s.overscan ∷ s.analyze_size ∷ s.edge_weighting ∷ s.weight_limit ∷ []),
)

length-Linked :
    (pwm_res : ℕ) (reqs : List Request) (m : ChannelMap) (outs : List ChannelRec)
    → Linked pwm_res reqs m outs
    → length outs ≤ length m
length-Linked pwm_res reqs [] outs l = rw l (omega arith)
length-Linked pwm_res reqs ((name, none) ∷ rest) outs l =
    omega (arith, length-Linked pwm_res reqs rest outs l)
length-Linked pwm_res reqs ((name, some r) ∷ rest) [] l = absurd l
length-Linked pwm_res reqs ((name, some r) ∷ rest) (o ∷ outs) l =
    omega (arith, length-Linked pwm_res reqs rest outs l.1.1)

length-pad_outputs :
    (outs : List ChannelRec) → length outs ≤ nchannels → length (pad_outputs outs) ≡ nchannels
length-pad_outputs outs few = omega (
  arith,
  length-append {0} outs (replicate (nchannels - length outs) empty_rec),
  length-replicate {0} (nchannels - length outs) empty_rec,
)

pub encode-IsReadBack :
    (config : Config)
    → InRange config.settings
    → config.pwm_res < 65536
    → length config.channel_map ≤ nchannels
    → IsStorable config.pwm_res config.channel_map
    → KeysDiffer config.pwm_res config.channel_map
    → IsReadBack config
encode-IsReadBack config h res few storable differ = read_back (
    encode_ports-Built (front config.num_areas ++ 0 ∷ [])
      (λ q. Among config.pwm_res q config.channel_map) differ config.pwm_res res config.channel_map
      (record { requests = 0; known = []; eedata = front config.num_areas ++ 0 ∷ []; outputs = [] })
      [] (start-Holds (front config.num_areas ++ 0 ∷ [])) (λ c q e. absurd (none_there q e))
      storable (λ q a. a) (omega arith))
  where
    none_there : (q : Request) → ◌≡◌ {A = Option Request} none (some q) → ⊥
    none_there q e = absurd (cc)

    read_back :
        Built
          (front config.num_areas ++ 0 ∷ [])
          (λ q. Among config.pwm_res q config.channel_map)
          differ
          config.pwm_res
          res
          config.channel_map
          (record {
            requests = 0;
            known = [];
            eedata = front config.num_areas ++ 0 ∷ [];
            outputs = [];
          })
          []
        → IsReadBack config
    read_back b = record {
      eedata = stored config.settings b.reqs' [];
      outputs = pad_outputs b.outs;
      requests = length b.reqs';
      encodes =
          encode-Holds config b.enc' b.reqs' h b.returns b.holds (omega (arith, b.few))
          ∙ ap (λ outs. ok (stored config.settings b.reqs' [], pad_outputs outs)) b.sent;
      requests_le = omega (arith, b.few);
      eedata_le = length-stored config.settings b.reqs' h (omega (arith, b.few));
      outputs_length =
          length-pad_outputs b.outs (
            omega (arith, length-Linked config.pwm_res b.reqs' config.channel_map b.outs b.linked));
      is_valid = λ rest. unfold is_valid_id in refl;
      settings_back = λ rest.
          ap decode_settings (stored-append config.settings b.reqs' rest)
          ∙ decode_settings-stored config.settings b.reqs' rest h (omega (arith, b.few));
      outputs_back = λ rest.
          ap
            (λ bytes.
              decode_ports true bytes (written config.settings (length b.reqs')) config.pwm_res
                (pad_outputs b.outs) port_name_map)
            (stored-append config.settings b.reqs' rest)
          ∙ decode_ports-stored config.settings b.reqs' rest config.pwm_res
              (nchannels - length b.outs) config.channel_map b.outs h storable b.linked
              port_name_map itself_table;
    }
