-- ===== src/MapDialog.antt =====
-- The channel mapping sheet (df10ch_setup_pkg/map_dlg.py): the selected channel, the light that
-- shows it, and the edits of the configurations. The widgets are left out.
pub mod Selection
pub mod Fill
pub mod Buttons
pub mod Edits
use df10ch_atmolight_control.Prelude.{
  ℕ, zero, suc, ◌+◌, ◌-◌, List, [], ◌∷◌, Text, text_eq, Bool, true, false, ◌&&◌, Option, none, some,
  ◌==◌, length, set, get_elem?, if◌then◌else◌, is_set, same_text,
}
use df10ch_atmolight_control.Result.{
  Result, ok, err, Failure, atmo, key_error, index_error, at, or_raise,
}
use df10ch_atmolight_control.Exec.{Exec, pure, raise, lift, modify, ◌>>=◌, ◌>>◌}
use df10ch_atmolight_control.Protocol.{lookup_port, port_name_map, default_gamma_val}
use df10ch_atmolight_control.Areas.{color_index}
use df10ch_atmolight_control.Controller.Payload.{ChannelRec}
use df10ch_atmolight_control.Dummy.{empty_rec}
use df10ch_atmolight_control.Config.Registry.{
  Configs, find_config, store_config, find_entry, store_entry,
}
use df10ch_atmolight_control.Config.{Config, MapRec, ChannelMap}

-- One line of the list of channels.
pub record Row : Type 0 where
  pub ctrl_id : Text
  pub port_name : Text
  pub area : Option Text
  pub color : Option Text

pub record Sheet (L : Type 0) : Type 0 where
  pub lights : L
  pub configs : Configs
  pub actual_idx : Option ℕ
  pub actual_ctrl_id : Option Text
  pub actual_port_name : Option Text
  pub actual_area : Option Text
  pub actual_color : Option Text
  pub channel_list : List Row

-- What the record of an output becomes: its gamma and white calibration stay, a new one gets
-- defaults.
abbrev pub edited : ℕ → Text → ℕ → Option MapRec → MapRec
edited pwm_res area color none = record {
  area = area;
  color = color;
  gamma = default_gamma_val;
  white_cal = pwm_res;
}
edited pwm_res area color (some r) = record r { area = area; color = color }

-- The row that stands at a place; past the end `list[i] = row` raises.
abbrev pub set_row : ℕ → Row → List Row → Result (List Row)
set_row i row rows = elim (get_elem? rows i) [
  | none ↦ err index_error
  | some old ↦ ok (set rows i row)
]

-- Without an area the area selected before stays.
unfoldable pub select_area : {L : Type 0} → Option Text → Option Text → Sheet L → Sheet L
select_area area color s =
    let s' = record s { actual_color = color } in
    if is_set area then record s' { actual_area = area } else s'

module _ {L : Type 0} (set_channel_map : Text → ℕ → List ChannelRec → Exec L (Unit {0})) where
  abbrev pub configured : Option Text → Sheet L → Result Config
  configured none s = err key_error
  configured (some id) s = or_raise (find_config id s.configs) key_error

  -- A call on the controller of this configuration; whether AtmoControllerError was caught.
  unfoldable pub light_up : Text → ChannelRec → Exec (Sheet L) Bool
  light_up id entry s =
      let (r, lights) = set_channel_map id 0 (entry ∷ []) s.lights in
      let s' = record s { lights = lights } in
      elim r [ ok u ↦ (ok false, s') | err (atmo report) ↦ (ok true, s') | err e ↦ (err e, s') ]

  -- The light of another controller is switched off first.
  unfoldable pub light_off : Option Text → Text → Exec (Sheet L) Bool
  light_off actual ctrl_id s =
      if is_set actual && (if same_text actual ctrl_id then false else true)
      then (elim actual [
        | none ↦ (ok false, s)
        | some id ↦ (lift (configured (some id) s) >>= λ config. light_up id empty_rec) s
      ])
      else (ok false, s)

  unfoldable pub light_on : Text → Text → Exec (Sheet L) (Unit {0})
  light_on ctrl_id port_name s =
      (do
        (port, pin) ← lift (or_raise (lookup_port port_name port_name_map) key_error)
        config ← lift (configured (some ctrl_id) s)
        caught ← light_up ctrl_id (record { channel = 0; port = port; pins = pin })
        (if caught
            then pure tt
            else modify (λ t. record t {
              actual_ctrl_id = some ctrl_id;
              actual_port_name = some port_name;
            })))
        s

  unfoldable pub select_light : Text → Text → Exec (Sheet L) (Unit {0})
  select_light ctrl_id port_name s =
      if same_text s.actual_ctrl_id ctrl_id && same_text s.actual_port_name port_name
      then (ok tt, s)
      else (light_off s.actual_ctrl_id ctrl_id >>= λ caught.
            if caught then pure tt else light_on ctrl_id port_name)
          s

  unfoldable pub select_channel : ℕ → Exec (Sheet L) (Unit {0})
  select_channel i s =
      let s' = record s { actual_idx = some i } in
      elim (get_elem? s.channel_list i) [
        | none ↦ (err index_error, s')
        | some row ↦
            (select_light row.ctrl_id row.port_name >> modify (select_area row.area row.color)) s'
      ]

  unfoldable pub cb_next : Exec (Sheet L) (Unit {0})
  cb_next s = elim s.actual_idx [
    | none ↦ (ok tt, s)
    | some i ↦ select_channel (if i + 1 == length s.channel_list then 0 else i + 1) s
  ]

  unfoldable pub cb_prev : Exec (Sheet L) (Unit {0})
  cb_prev s = elim s.actual_idx [
    | none ↦ (ok tt, s)
    | some i ↦ select_channel (if i == 0 then length s.channel_list - 1 else i - 1) s
  ]

  -- The row of the sheet and the record of the output are set; with no area or no color, and when
  -- it is deleted, the row alone shows it.
  unfoldable pub store_row : ℕ → Text → Text → Option Text → Option Text → Exec (Sheet L) (Unit {0})
  store_row i ctrl_id port_name area color s =
      (do
        rows ← lift (
            set_row i
              (record { ctrl_id = ctrl_id; port_name = port_name; area = area; color = color })
              s.channel_list)
        modify (λ t. record t { channel_list = rows }))
        s

  abbrev pub put_entry : Text → Text → Option MapRec → Config → Exec (Sheet L) (Unit {0})
  put_entry ctrl_id port_name entry config = modify λ t. record t {
    configs =
        store_config ctrl_id
          (record config { channel_map = store_entry port_name entry config.channel_map })
          t.configs;
  }

  unfoldable pub map_output : Text → Text → Option Text → Option Text → Exec (Sheet L) (Unit {0})
  map_output ctrl_id port_name area color s = elim area [
    | none ↦ (ok tt, s)
    | some area' ↦ elim color [
      | none ↦ (ok tt, s)
      | some color' ↦
          (do
            config ← lift (configured (some ctrl_id) s)
            entry ← lift (or_raise (find_entry port_name config.channel_map) key_error)
            index ← lift (color_index color')
            put_entry ctrl_id port_name (some (edited config.pwm_res area' index entry)) config)
            s
    ]
  ]

  unfoldable pub delete_actual : ℕ → Text → Text → Exec (Sheet L) (Unit {0})
  delete_actual i ctrl_id port_name s =
      (do
        config ← lift (configured (some ctrl_id) s)
        put_entry ctrl_id port_name none config
        store_row i ctrl_id port_name none none)
        s

  unfoldable pub store_actual : ℕ → Bool → Exec (Sheet L) (Unit {0})
  store_actual i delete s =
      (do
        ctrl_id ← lift (or_raise s.actual_ctrl_id key_error)
        port_name ← lift (or_raise s.actual_port_name key_error)
        config ← lift (configured (some ctrl_id) s)
        (if delete then delete_actual i ctrl_id port_name else (do
          store_row i ctrl_id port_name s.actual_area s.actual_color
          (if is_set s.actual_area && is_set s.actual_color
              then map_output ctrl_id port_name s.actual_area s.actual_color
              else pure tt))))
        s

  unfoldable pub cb_set_color : Text → Exec (Sheet L) (Unit {0})
  cb_set_color color s = elim s.actual_idx [
    | none ↦ (ok tt, s)
    | some i ↦ store_actual i false (select_area s.actual_area (some color) s)
  ]

  unfoldable pub cb_delete : Exec (Sheet L) (Unit {0})
  cb_delete s = elim s.actual_idx [ none ↦ (ok tt, s) | some i ↦ store_actual i true s ]
