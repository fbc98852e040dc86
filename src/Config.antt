-- ===== src/Config.antt =====
-- ControllerConfig of df10ch_setup_pkg/device_drv.py: what is configured for one controller. The
-- EEPROM's bytes are read in `Decode` and built in `Encode`; the methods are in `Methods`.
pub mod Decode
pub mod Encode
pub mod Methods
pub mod Bounds
pub mod Total
pub mod Collisions
pub mod Registry
pub mod RoundTrip
use df10ch_atmolight_control.Prelude.{ℕ, List, Text, Option, replicate, min, max}
use df10ch_atmolight_control.Areas.{num_base_areas}
use df10ch_atmolight_control.Protocol.{
  default_analyze_size, default_edge_weighting, default_weight_limit, default_overscan,
}

-- What one output shows: `dict(area=…, color=…, gamma=…, whiteCal=…)`.
pub record MapRec : Type 0 where
  pub area : Text
  pub color : ℕ
  pub gamma : ℕ
  pub white_cal : ℕ

-- The dict from port names to records, `None` for an output that is not used. A dict has no order
-- that the program relies on; here the entries stand in the order in which it goes through them.
abbrev pub ChannelMap : Type 0
ChannelMap = List (Text × Option MapRec)

pub record Settings : Type 0 where
  pub config_version : ℕ
  pub num_areas : List ℕ
  pub num_req_channels : ℕ
  pub overscan : ℕ
  pub analyze_size : ℕ
  pub edge_weighting : ℕ
  pub weight_limit : ℕ

-- The numbers that the version text is made of; with no valid configuration the last is missing.
pub record Versions : Type 0 where
  pub usb : ℕ
  pub pwm : ℕ
  pub config : Option ℕ

pub record Config : Type 0 where
  pub id : Text
  pub settings : Settings
  pub open settings use *
  pub pwm_res : ℕ
  pub common_pwm_res : ℕ
  pub pwm_freq : ℕ
  pub common_bright : ℕ
  pub versions : Versions
  pub channel_map : ChannelMap

abbrev pub default_settings : Settings
default_settings = record {
  config_version = 0;
  num_areas = replicate num_base_areas 0;
  num_req_channels = 0;
  overscan = default_overscan;
  analyze_size = default_analyze_size;
  edge_weighting = default_edge_weighting;
  weight_limit = default_weight_limit;
}

-- `max(min(v, hi), lo)`
abbrev pub clamp : ℕ → ℕ → ℕ → ℕ
clamp lo hi v = max (min v hi) lo
