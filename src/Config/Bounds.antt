-- ===== src/Config/Bounds.antt =====
-- Whatever the EEPROM holds, the settings that ControllerConfig.read takes from it are in range
-- (df10ch_setup_pkg/device_drv.py).
use df10ch_atmolight_control.Prelude.{
  ℕ, ◌+◌, ◌*◌, ◌≤◌, ◌≡◌, List, [], ◌∷◌, Bool, true, false, min, arith, if◌then◌else◌,
}
use df10ch_atmolight_control.Result.{ok, at, word_at, >>=-eq-ok}
use df10ch_atmolight_control.Protocol.{
  nchannels, max_overscan, max_analyze_size, min_edge_weighting, max_edge_weighting,
  max_weight_limit,
}
use df10ch_atmolight_control.Areas.{max_areas, num_base_areas}
use df10ch_atmolight_control.Config.{Settings, default_settings}
use df10ch_atmolight_control.Config.Decode.{
  read_areas, read_tail, read_settings, is_valid_id, decode_settings,
}

-- The lists are equally long, and each count is at most its maximum.
abbrev pub Below : List ℕ → List ℕ → Type 0
Below [] [] = Unit
Below (x ∷ xs) (m ∷ ms) = (x ≤ m) × Below xs ms
Below _ _ = ⊥

pub record InRange (s : Settings) : Type 0 where
  pub areas_below : Below s.num_areas max_areas
  pub requests_le : s.num_req_channels ≤ nchannels
  pub overscan_le : s.overscan ≤ max_overscan
  pub analyze_size_le : s.analyze_size ≤ max_analyze_size
  pub edge_weighting_ge : min_edge_weighting ≤ s.edge_weighting
  pub edge_weighting_le : s.edge_weighting ≤ max_edge_weighting
  pub weight_limit_le : s.weight_limit ≤ max_weight_limit

read_areas-Below :
    (eedata : List ℕ) (p : ℕ) (most counts : List ℕ)
    → read_areas eedata p most ≡ ok counts
    → Below counts most
unfolding read_areas
read_areas-Below eedata p [] [] h = tt
read_areas-Below eedata p [] (x ∷ xs) h = absurd (cc)
read_areas-Below eedata p (m ∷ ms) [] h = absurd (ground arith)
read_areas-Below eedata p (m ∷ ms) (c ∷ cs) h =
    ground (arith, read_areas-Below eedata (p + 1) ms cs)

read_tail-InRange :
    (eedata : List ℕ) (version p : ℕ) (areas : List ℕ) (requests : ℕ) (s : Settings)
    → Below areas max_areas
    → requests ≤ nchannels
    → read_tail eedata version p areas requests ≡ ok s
    → InRange s
unfolding read_tail
read_tail-InRange eedata version p areas requests s b r h = ground arith

default-InRange : InRange default_settings
default-InRange = ground arith

read_settings-InRange : (eedata : List ℕ) (s : Settings) → read_settings eedata ≡ ok s → InRange s
unfolding read_settings
read_settings-InRange eedata s h =
    let (version, _, h) = >>=-eq-ok (word_at eedata 2) _ h in
    let (areas, read, h) = >>=-eq-ok (read_areas eedata 4 max_areas) _ h in
    let (count, _, h) = >>=-eq-ok (at eedata (4 + num_base_areas)) _ h in
    let requests = min count nchannels in
    read_tail-InRange eedata version (5 + num_base_areas + requests * 6) areas requests s
      (read_areas-Below eedata 4 max_areas areas read) (omega arith) h

-- Whatever bytes the EEPROM holds, settings that are read from it are in range: each area count is
-- at most its maximum, at most 30 channels are requested, overscan, analyze size and weight limit
-- are at most their maxima, and the edge weighting lies between its minimum and its maximum.
pub decode_settings-InRange :
    (eedata : List ℕ) (s : Settings) → decode_settings eedata ≡ ok s → InRange s
unfolding decode_settings
decode_settings-InRange eedata s h =
    let (valid, _, h) = >>=-eq-ok (is_valid_id eedata) _ h in by_id valid h
  where
    by_id :
        (valid : Bool)
        → (if valid then read_settings eedata else ok default_settings) ≡ ok s
        → InRange s
    by_id true h = read_settings-InRange eedata s h
    by_id false h = ground (arith, default-InRange)
