-- ===== src/WhiteCal.antt =====
-- The white calibration sheet (df10ch_setup_pkg/white_cal_dlg.py). The widgets are left out; the
-- values of their variables are fields. The floats of Python are a parameter.
pub mod Adjust
pub mod Kept
pub mod Shown
pub mod Channels
use df10ch_atmolight_control.Prelude.{
  ℕ, zero, suc, ◌+◌, ◌-◌, ◌≡◌, refl, List, [], ◌∷◌, ◌++◌, Text, text_eq, Bool, true, false, ◌&&◌,
  ◌||◌, not, Option, none, some, length, replicate, set, get_elem?, if◌then◌else◌, is_set,
  same_text,
}
use df10ch_atmolight_control.Result.{
  Result, ok, err, Failure, atmo, key_error, value_error, index_error, at, or_raise,
}
use df10ch_atmolight_control.Exec.{Exec, pure, lift, gets, modify, ◌>>=◌, ◌>>◌}
use df10ch_atmolight_control.Protocol.{nchannels, lookup_port, port_name_map}
use df10ch_atmolight_control.Controller.Payload.{ChannelRec}
use df10ch_atmolight_control.Dummy.{empty_rec}
use df10ch_atmolight_control.Config.{Config, MapRec, ChannelMap}
use df10ch_atmolight_control.Config.Registry.{
  Configs, find_config, store_config, find_entry, store_entry,
}

-- What the sheet uses of the floats: `n / 10.0`, `float(m) / float(n)`, `pow`, `x * n`, `x * 10.0`,
-- `int(round(x))`, `int(x)`, and the texts of spin boxes. The results are numbers from zero; a text
-- that is no number, or one below zero, has no value.
pub record Floats (F : Type 0) : Type 0 where
  pub tenth : ℕ → F
  pub ratio : ℕ → ℕ → Result F
  pub power : F → F → Result F
  pub scaled : F → ℕ → F
  pub rounded : F → ℕ
  pub truncated : F → ℕ
  pub print_float : F → Text
  pub parse_float : Text → Option F

-- An output of an area, on its requested channel. Its record is the one of the configuration.
pub record CRec : Type 0 where
  pub ctrl_id : Text
  pub port_name : Text
  pub req_channel : ℕ

abbrev pub AreasMap : Type 0
AreasMap = List (Text × List CRec)

unfoldable pub find_recs : Text → AreasMap → Option (List CRec)
find_recs area [] = none
find_recs area ((k, recs) ∷ rest) =
    let later = find_recs area rest in if text_eq k area then some recs else later

unfoldable pub add_rec : Text → CRec → AreasMap → AreasMap
add_rec area r [] = (area, r ∷ []) ∷ []
add_rec area r ((k, recs) ∷ rest) =
    let later = add_rec area r rest in
    if text_eq k area then (k, recs ++ r ∷ []) ∷ rest else (k, recs) ∷ later

pub record Calibration (L F : Type 0) : Type 0 where
  pub lights : L
  pub configs : Configs
  pub areas_map : AreasMap
  pub selected_area : Option Text
  pub select_all : Bool
  pub bright : F
  pub gammas : List Text
  pub white_cals : List F

-- What the outputs of one controller come to while its map is read.
pub record Requests : Type 0 where
  pub entries : List ChannelRec
  pub brights : List ℕ
  pub req_channel : ℕ
  pub areas : AreasMap
  pub area : Option Text

-- An output on the next channel.
unfoldable pub add_output : Text → Text → MapRec → ℕ → ℕ → ℕ → Requests → Requests
add_output ctrl_id port_name r port pin b q = record {
  entries = q.entries ++ (record { channel = q.req_channel; port = port; pins = pin }) ∷ [];
  brights = q.brights ++ b ∷ [];
  req_channel = q.req_channel + 1;
  areas =
      add_rec r.area
        (record { ctrl_id = ctrl_id; port_name = port_name; req_channel = q.req_channel }) q.areas;
  area = some r.area;
}

-- Filled up to the number of channels.
unfoldable pub pad : Requests → List ChannelRec × List ℕ
pad q =
    let missing = nchannels - q.req_channel in
    (q.entries ++ replicate missing empty_rec, q.brights ++ replicate missing 0)

module _ {L F : Type 0} (floats : Floats F)
    (set_channel_map : Text → ℕ → List ChannelRec → Exec L (Unit {0}))
    (set_brightness : Text → ℕ → List ℕ → Exec L (Unit {0})) where
  -- `int(round(pow(bright, gamma) * whiteCal))`
  abbrev pub brightness : F → F → ℕ → Result ℕ
  brightness bright gamma white_cal = elim (floats.power bright gamma) [
    | err e ↦ err e
    | ok x ↦ ok (floats.rounded (floats.scaled x white_cal))
  ]

  unfoldable pub request_output : F → Text → Text → Option MapRec → Exec Requests (Unit {0})
  request_output bright ctrl_id port_name none q = (ok tt, q)
  request_output bright ctrl_id port_name (some r) q = elim (lookup_port port_name port_name_map) [
    | none ↦ (err key_error, q)
    | some (port, pin) ↦ elim (brightness bright (floats.tenth r.gamma) r.white_cal) [
      | err e ↦ (err e, q)
      | ok b ↦ (ok tt, add_output ctrl_id port_name r port pin b q)
    ]
  ]

  unfoldable pub request_outputs : F → Text → ChannelMap → Exec Requests (Unit {0})
  request_outputs bright ctrl_id [] = pure tt
  request_outputs bright ctrl_id ((port_name, entry) ∷ rest) =
      request_output bright ctrl_id port_name entry >> request_outputs bright ctrl_id rest

  -- Calls on the controllers; whether AtmoControllerError was caught.
  unfoldable pub caught : Exec L (Unit {0}) → Exec (Calibration L F) Bool
  caught m s =
      let (r, lights) = m s.lights in
      let s' = record s { lights = lights } in
      elim r [ ok u ↦ (ok false, s') | err (atmo report) ↦ (ok true, s') | err e ↦ (err e, s') ]

  -- Whether a controller failed, which ends the loop; else the last area.
  unfoldable pub load_all : Option Text → Configs → Exec (Calibration L F) (Bool × Option Text)
  load_all area [] s = (ok (false, area), s)
  load_all area ((ctrl_id, config) ∷ rest) s =
      let (r, q) = request_outputs s.bright ctrl_id config.channel_map (record {
        entries = [];
        brights = [];
        req_channel = 0;
        areas = s.areas_map;
        area = area;
      }) in
      let s' = record s { areas_map = q.areas } in
      elim r [
        | err e ↦ (err e, s')
        | ok u ↦
            (do
              failed ←
                  caught (set_channel_map ctrl_id 0 (pad q).0 >> set_brightness ctrl_id 0 (pad q).1)
              (if failed then pure (true, q.area) else load_all q.area rest))
              s'
      ]
