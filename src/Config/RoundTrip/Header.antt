-- ===== src/Config/RoundTrip/Header.antt =====
-- The settings in the bytes of the EEPROM: the header and the tail around the requests
-- (ControllerConfig.write and read of df10ch_setup_pkg/device_drv.py).
use mathlib.Core.List.{append_assoc}
use df10ch_atmolight_control.Prelude.{
  ℕ, zero, suc, ◌+◌, ◌*◌, ◌/◌, ◌%◌, ◌≤◌, ◌≡◌, refl, ap, List, [], ◌∷◌, ◌++◌, some, length,
  length-append, get_elem?, set, lt→ltb, arith, subst, replicate, min,
}
use df10ch_atmolight_control.Result.{ok, at, to_bytes}
use df10ch_atmolight_control.Protocol.{
  nchannels, config_valid_id, config_version_now, min_overscan, max_overscan, min_analyze_size,
  max_analyze_size, min_edge_weighting, max_edge_weighting, min_weight_limit, max_weight_limit,
}
use df10ch_atmolight_control.Areas.{max_areas, num_base_areas}
use df10ch_atmolight_control.Config.{Settings, clamp}
use df10ch_atmolight_control.Config.Bounds.{Below, InRange}
use df10ch_atmolight_control.Config.Encode.{encode_header}
use df10ch_atmolight_control.Config.Decode.{
  read_areas, read_tail, is_valid_id, read_settings, decode_settings,
}
use df10ch_atmolight_control.Config.RoundTrip.{Request, recs_from, length-recs_from}
use df10ch_atmolight_control.Config.RoundTrip.Decoding.{at-after}

to_bytes-Below :
    (areas most : List ℕ)
    → Below areas most
    → Below most (replicate (length most) 255)
    → to_bytes areas ≡ ok areas
unfolding to_bytes
to_bytes-Below [] [] h k = refl
to_bytes-Below [] (m ∷ most) h k = absurd h
to_bytes-Below (a ∷ areas) [] h k = absurd h
to_bytes-Below (a ∷ areas) (m ∷ most) h k =
    rw (lt→ltb a 256 (omega (arith, h.0, k.0)), to_bytes-Below areas most h.1 k.1) refl

-- The bytes before the number of requests.
abbrev pub front : List ℕ → List ℕ
front areas =
    config_valid_id % 256
    ∷ config_valid_id / 256
    ∷ config_version_now % 256
    ∷ config_version_now / 256
    ∷ areas

pub encode_header-Below :
    (areas : List ℕ) → Below areas max_areas → encode_header areas ≡ ok (front areas ++ 0 ∷ [])
unfolding encode_header
encode_header-Below areas h = rw (to_bytes-Below areas max_areas h (omega arith)) refl

length-Below : (areas most : List ℕ) → Below areas most → length areas ≡ length most
length-Below [] [] h = refl
length-Below [] (m ∷ most) h = absurd h
length-Below (a ∷ areas) [] h = absurd h
length-Below (a ∷ areas) (m ∷ most) h = ap suc (length-Below areas most h.1)

pub set_after :
    (pre rest : List ℕ) (x v i : ℕ) → i ≡ length pre → set (pre ++ x ∷ rest) i v ≡ pre ++ v ∷ rest
set_after [] rest x v zero e = refl
set_after [] rest x v (suc i) e = absurd (omega arith)
set_after (y ∷ pre) rest x v zero e = absurd (omega arith)
set_after (y ∷ pre) rest x v (suc i) e = ap (λ t. y ∷ t) (set_after pre rest x v i (omega arith))

min_left : (v m : ℕ) → v ≤ m → min v m ≡ v
min_left v m h = omega arith

read_areas-Below :
    (pre areas rest most : List ℕ) (p : ℕ)
    → p ≡ length pre
    → Below areas most
    → read_areas (pre ++ (areas ++ rest)) p most ≡ ok areas
unfolding read_areas
read_areas-Below pre [] rest [] p e h = refl
read_areas-Below pre [] rest (m ∷ most) p e h = absurd h
read_areas-Below pre (a ∷ areas) rest [] p e h = absurd h
read_areas-Below pre (a ∷ areas) rest (m ∷ most) p e h =
    rw (at-after pre (a ∷ (areas ++ rest)) 0 p a (omega arith) refl) (
      rw
        (subst (λ bytes. read_areas bytes (p + 1) most ≡ ok areas)
          (append_assoc pre (a ∷ []) (areas ++ rest))
          (read_areas-Below (pre ++ a ∷ []) areas rest most (p + 1)
            (omega (arith, length-append {0} pre (a ∷ []))) h.1))
        (rw (min_left a m h.0) refl))

-- The EEPROM's bytes for these settings and requests, and what stands behind them.
abbrev pub stored : Settings → List Request → List ℕ → List ℕ
stored s reqs rest =
    front s.num_areas
    ++ (length reqs
        ∷ (recs_from 0 reqs
            ++ (s.overscan ∷ s.analyze_size ∷ s.edge_weighting ∷ s.weight_limit ∷ rest)))

abbrev pub written : Settings → ℕ → Settings
written s n = record s { config_version = config_version_now; num_req_channels = n }

clamp_inside : (lo hi v : ℕ) → lo ≤ v → v ≤ hi → clamp lo hi v ≡ v
clamp_inside lo hi v h k = omega arith

read_tail-stored :
    (s : Settings) (pre rest : List ℕ) (p n : ℕ)
    → p ≡ length pre
    → InRange s
    → read_tail
        (pre ++ (s.overscan ∷ s.analyze_size ∷ s.edge_weighting ∷ s.weight_limit ∷ rest))
        config_version_now
        p
        s.num_areas
        n
      ≡ ok (written s n)
unfolding read_tail
read_tail-stored s pre rest p n e h = rw (at_tail 0 p s.overscan (omega arith) refl) (
    rw (at_tail 1 (p + 1) s.analyze_size (omega arith) refl) (
      rw (at_tail 2 (p + 2) s.edge_weighting (omega arith) refl) (
        rw (at_tail 3 (p + 3) s.weight_limit (omega arith) refl) (
          rw
            (
              clamp_inside min_overscan max_overscan s.overscan (omega arith) h.overscan_le,
              clamp_inside min_analyze_size max_analyze_size s.analyze_size (omega arith)
                  h.analyze_size_le,
              clamp_inside min_edge_weighting max_edge_weighting s.edge_weighting
                  h.edge_weighting_ge h.edge_weighting_le,
              clamp_inside min_weight_limit max_weight_limit s.weight_limit (omega arith)
                  h.weight_limit_le,
            )
            refl))))
  where
    at_tail :
        (i j v : ℕ)
        → j ≡ length pre + i
        → get_elem? (s.overscan ∷ s.analyze_size ∷ s.edge_weighting ∷ s.weight_limit ∷ rest) i
          ≡ some v
        → at (pre ++ (s.overscan ∷ s.analyze_size ∷ s.edge_weighting ∷ s.weight_limit ∷ rest)) j
          ≡ ok v
    at_tail i j v e' found = at-after pre _ i j v e' found

pub length-front :
    (areas : List ℕ) → Below areas max_areas → length (front areas) ≡ 4 + num_base_areas
length-front areas h = rw (length-Below areas max_areas h) refl

pub decode_settings-stored :
    (s : Settings) (reqs : List Request) (rest : List ℕ)
    → InRange s
    → length reqs ≤ nchannels
    → decode_settings (stored s reqs rest) ≡ ok (written s (length reqs))
unfolding decode_settings read_settings is_valid_id
decode_settings-stored s reqs rest h few =
    rw (read_areas-Below head_bytes s.num_areas behind max_areas 4 refl h.areas_below) (
      rw
        (at-after (front s.num_areas) behind 0 (4 + num_base_areas) (length reqs)
          (omega (arith, length-front s.num_areas h.areas_below)) refl)
        (rw (min_left (length reqs) nchannels few) (
          subst
            (λ bytes.
              read_tail bytes config_version_now (5 + num_base_areas + length reqs * 6) s.num_areas
                (length reqs)
              ≡ ok (written s (length reqs)))
            (append_assoc (front s.num_areas) (length reqs ∷ recs_from 0 reqs) tail_bytes)
            (read_tail-stored s (front s.num_areas ++ length reqs ∷ recs_from 0 reqs) rest _
              (length reqs)
              (omega (
                arith,
                length-append {0} (front s.num_areas) (length reqs ∷ recs_from 0 reqs),
                length-front s.num_areas h.areas_below,
                length-recs_from 0 reqs,
              ))
              h))))
  where
    head_bytes : List ℕ
    head_bytes = front []

    tail_bytes : List ℕ
    tail_bytes = s.overscan ∷ s.analyze_size ∷ s.edge_weighting ∷ s.weight_limit ∷ rest

    behind : List ℕ
    behind = length reqs ∷ (recs_from 0 reqs ++ tail_bytes)
