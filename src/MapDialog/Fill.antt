-- ===== src/MapDialog/Fill.antt =====
-- Filling the channel mapping sheet, and the edits of several channels
-- (df10ch_setup_pkg/map_dlg.py).
use df10ch_atmolight_control.Prelude.{
  same_text, ℕ, ◌+◌, ◌-◌, List, [], ◌∷◌, ◌++◌, Text, text_eq, ltb, ◌==◌, Bool, true, false, ◌&&◌,
  ◌||◌, Option, none, some, replicate, if◌then◌else◌,
}
use df10ch_atmolight_control.Result.{Result, ok, err, atmo, attribute_error, value_error}
use df10ch_atmolight_control.Exec.{Exec, pure, lift, modify, ◌>>=◌, ◌>>◌}
use df10ch_atmolight_control.Decimal.{print_nat, split_on}
use df10ch_atmolight_control.Protocol.{nchannels}
use df10ch_atmolight_control.Areas.{color_name}
use df10ch_atmolight_control.Controller.Payload.{ChannelRec}
use df10ch_atmolight_control.Dummy.{empty_rec}
use df10ch_atmolight_control.Config.{MapRec, ChannelMap}
use df10ch_atmolight_control.Config.Registry.{Configs}
use df10ch_atmolight_control.MapDialog.{Row, Sheet, select_area, select_channel, store_actual}

-- The order of `sorted` on texts.
unfoldable pub text_leb : Text → Text → Bool
text_leb [] t = true
text_leb (c ∷ cs) [] = false
text_leb (c ∷ cs) (d ∷ ds) = let rest = text_leb cs ds in ltb c d || (c == d && rest)

unfoldable pub insert_key {ℓ} : {A : Type ℓ} → Text → A → List (Text × A) → List (Text × A)
insert_key key a [] = (key, a) ∷ []
insert_key key a ((k, b) ∷ rest) =
    let later = insert_key key a rest in
    if text_leb key k then (key, a) ∷ (k, b) ∷ rest else (k, b) ∷ later

unfoldable pub sort_keys {ℓ} : {A : Type ℓ} → List (Text × A) → List (Text × A)
sort_keys [] = []
sort_keys ((k, a) ∷ rest) = insert_key k a (sort_keys rest)

abbrev pub row_of : Text → Text → Option MapRec → Result Row
row_of ctrl_id port_name none =
    ok (record { ctrl_id = ctrl_id; port_name = port_name; area = none; color = none })
row_of ctrl_id port_name (some r) = elim (color_name r.color) [
  | err e ↦ err e
  | ok color ↦
      ok (record {
        ctrl_id = ctrl_id;
        port_name = port_name;
        area = some r.area;
        color = some color;
      })
]

module _ {L : Type 0} (set_channel_map : Text → ℕ → List ChannelRec → Exec L (Unit {0}))
    (set_brightness : Text → ℕ → List ℕ → Exec L (Unit {0})) where
  unfoldable pub fill_rows : Text → ChannelMap → Exec (Sheet L) (Unit {0})
  fill_rows ctrl_id [] = pure tt
  fill_rows ctrl_id ((port_name, entry) ∷ rest) = lift (row_of ctrl_id port_name entry) >>= λ row.
      modify (λ t. record t { channel_list = t.channel_list ++ row ∷ [] }) >> fill_rows ctrl_id rest

  -- A call on the controllers; whether AtmoControllerError was caught.
  unfoldable pub caught : Exec L (Unit {0}) → Exec (Sheet L) Bool
  caught m s =
      let (r, lights) = m s.lights in
      let s' = record s { lights = lights } in
      elim r [ ok u ↦ (ok false, s') | err (atmo report) ↦ (ok true, s') | err e ↦ (err e, s') ]

  -- No output is mapped, and the first channel is bright.
  unfoldable pub clear_lights : Text → ℕ → Exec (Sheet L) Bool
  clear_lights ctrl_id pwm_res = caught (
      set_channel_map ctrl_id 0 (replicate nchannels empty_rec)
      >> set_brightness ctrl_id 0 (pwm_res ∷ replicate (nchannels - 1) 0))

  -- Whether a controller failed, which ends the loop.
  unfoldable pub fill_sheet : Configs → Exec (Sheet L) Bool
  fill_sheet [] = pure false
  fill_sheet ((ctrl_id, config) ∷ rest) =
      fill_rows ctrl_id (sort_keys config.channel_map)
      >> (clear_lights ctrl_id config.pwm_res >>= λ failed.
          if failed then pure true else fill_sheet rest)

  unfoldable pub load_values : Exec (Sheet L) (Unit {0})
  load_values s =
      (fill_sheet (sort_keys s.configs) >>= λ failed. if failed then pure tt else (λ t.
          let t' = record t { actual_ctrl_id = none; actual_port_name = none } in
          elim t.channel_list [
            | [] ↦ (ok tt, t')
            | row ∷ rows ↦ select_channel set_channel_map 0 t'
          ]))
        (record s { actual_idx = none; channel_list = [] })

  -- `mapped` says whether the sheet is shown, `selected` is the area that the user clicked.
  unfoldable pub cb_area_selected : Bool → Option Text → Exec (Sheet L) (Unit {0})
  cb_area_selected mapped selected s = elim s.actual_idx [
    | none ↦ (ok tt, s)
    | some i ↦
        if mapped
        then store_actual set_channel_map i false (select_area selected s.actual_color s)
        else (ok tt, s)
  ]

  -- The first row of this output at or after a place.
  unfoldable pub find_row : Option Text → Text → ℕ → List Row → Option ℕ
  find_row ctrl_id port_name place [] = none
  find_row ctrl_id port_name place (row ∷ rows) =
      let later = find_row ctrl_id port_name (place + 1) rows in
      if same_text ctrl_id row.ctrl_id && text_eq row.port_name port_name then some place else later

  abbrev pub pin_name : Text → ℕ → Text
  pin_name port pin = port ++ b'.' ∷ print_nat pin

  unfoldable pub set_pin_color : Text → ℕ → Text → Exec (Sheet L) (Unit {0})
  set_pin_color port pin color s =
      elim (find_row s.actual_ctrl_id (pin_name port pin) 0 s.channel_list) [
        | none ↦ (ok tt, s)
        | some i ↦ store_actual set_channel_map i false (record s {
          actual_port_name = some (pin_name port pin);
          actual_color = some color;
          actual_idx = some i;
        })
      ]

  -- `port, p = string.split(name, ".")`
  abbrev pub port_of : Option Text → Result Text
  port_of none = err attribute_error
  port_of (some name) = elim (split_on b'.' name) [
    | port ∷ p ∷ [] ↦ ok port
    | parts ↦ err value_error
  ]

  unfoldable pub cb_set_group_color : Text → Text → Text → Exec (Sheet L) (Unit {0})
  cb_set_group_color first second third s = elim s.actual_idx [
    | none ↦ (ok tt, s)
    | some i ↦
        (do
          port ← lift (port_of s.actual_port_name)
          set_pin_color port 1 first
          set_pin_color port 2 second
          set_pin_color port 3 third
          select_channel set_channel_map i)
          s
  ]

  -- `selection` has the lines that are selected in the list.
  unfoldable pub cb_select_channel : List ℕ → Exec (Sheet L) (Unit {0})
  cb_select_channel (i ∷ []) s = select_channel set_channel_map i s
  cb_select_channel selection s = (ok tt, s)
