-- ===== src/MapDialog/Edits.antt =====
-- What the edits of the channel mapping sheet make of the configurations
-- (df10ch_setup_pkg/map_dlg.py), seen as a function from controllers and outputs to records.
use df10ch_atmolight_control.Prelude.{
  ℕ, ◌≡◌, refl, sym, ap, ◌∙◌, List, ◌∷◌, Text, text_eq, text_eq→eq, Bool, true, false, ◌&&◌, Option,
  none, some, get_elem?, if◌then◌else◌, arith,
}
use df10ch_atmolight_control.Result.{ok}
use df10ch_atmolight_control.Exec.{Exec}
use df10ch_atmolight_control.Areas.{color_index}
use df10ch_atmolight_control.Controller.Payload.{ChannelRec}
use df10ch_atmolight_control.Config.{Config, MapRec}
use df10ch_atmolight_control.Config.Registry.{
  Configs, find_config, store_config, find_entry, store_entry, find-store_entry, find-store_config,
}
use df10ch_atmolight_control.MapDialog.{
  Sheet, store_row, map_output, edited, delete_actual, store_actual, cb_delete, cb_set_color,
  select_area, Row,
}

abbrev pub entry_in : Text → Option Config → Option (Option MapRec)
entry_in name none = none
entry_in name (some config) = find_entry name config.channel_map

-- The record of an output, as the abstract view of the configurations.
abbrev pub mapped : Configs → Text → Text → Option (Option MapRec)
mapped configs id name = entry_in name (find_config id configs)

-- The view with another record for one output.
abbrev pub remapped : Text → Text → Option MapRec → Configs → Text → Text → Option (Option MapRec)
remapped id name entry configs other_id other_name =
    if text_eq id other_id && text_eq name other_name
    then some entry
    else mapped configs other_id other_name

store-mapped :
    (id name : Text) (entry : Option MapRec) (config : Config) (configs : Configs)
    → find_config id configs ≡ some config
    → (other_id other_name : Text)
    → mapped
        (store_config id
          (record config { channel_map = store_entry name entry config.channel_map })
          configs)
        other_id
        other_name
      ≡ remapped id name entry configs other_id other_name
store-mapped id name entry config configs found other_id other_name =
    ap (entry_in other_name) (find-store_config id other_id _ config configs found)
    ∙ by_id (text_eq id other_id) refl
  where
    by_id :
        (b : Bool)
        → text_eq id other_id ≡ b
        → entry_in other_name (
            if b
            then some (record config { channel_map = store_entry name entry config.channel_map })
            else find_config other_id configs)
          ≡ (if b && text_eq name other_name
              then some entry
              else mapped configs other_id other_name)
    by_id false e = refl
    by_id true e =
        find-store_entry name other_name entry config.channel_map
        ∙ by_name (text_eq name other_name)
      where
        same : mapped configs other_id other_name ≡ find_entry other_name config.channel_map
        same =
            ap (λ i. mapped configs i other_name) (sym (text_eq→eq id other_id e))
            ∙ ap (entry_in other_name) found

        by_name :
            (b : Bool)
            → (if b then some entry else find_entry other_name config.channel_map)
              ≡ (if b then some entry else mapped configs other_id other_name)
        by_name true = refl
        by_name false = sym same

-- The gamma and the white calibration that an output has, or those of a new one: 2.2 and the
-- highest value.
abbrev pub gamma_of : Option MapRec → ℕ
gamma_of none = 22
gamma_of (some r) = r.gamma

abbrev pub white_cal_of : ℕ → Option MapRec → ℕ
white_cal_of pwm_res none = pwm_res
white_cal_of pwm_res (some r) = r.white_cal

edited-eq :
    (pwm_res index : ℕ) (area : Text) (entry : Option MapRec)
    → edited pwm_res area index entry ≡ record {
      area = area;
      color = index;
      gamma = gamma_of entry;
      white_cal = white_cal_of pwm_res entry;
    }
edited-eq pwm_res index area none = refl
edited-eq pwm_res index area (some r) = refl

module _ {L : Type 0} (set_channel_map : Text → ℕ → List ChannelRec → Exec L (Unit {0})) where
  store_row-configs :
      (i : ℕ) (id name : Text) (area color : Option Text) (s : Sheet L)
      → (store_row set_channel_map i id name area color s).1.configs ≡ s.configs
  unfolding store_row
  store_row-configs i id name area color s = ground arith

  delete_actual-remapped :
      (i : ℕ) (id name : Text) (config : Config) (s : Sheet L)
      → find_config id s.configs ≡ some config
      → (other_id other_name : Text)
      → mapped (delete_actual set_channel_map i id name s).1.configs other_id other_name
        ≡ remapped id name none s.configs other_id other_name
  unfolding delete_actual
  delete_actual-remapped i id name config s found other_id other_name = rw found (
      ap (λ c. mapped c other_id other_name) (store_row-configs i id name none none _)
      ∙ store-mapped id name none config s.configs found other_id other_name)

  -- Deleting refines the removal of one record from the view: the selected output of the selected
  -- controller has none afterwards, also where the row cannot be set, and every other output of
  -- every controller has what it had.
  pub cb_delete-remapped :
      (s : Sheet L) (i : ℕ) (id name : Text) (config : Config)
      → s.actual_idx ≡ some i
      → s.actual_ctrl_id ≡ some id
      → s.actual_port_name ≡ some name
      → find_config id s.configs ≡ some config
      → (other_id other_name : Text)
      → mapped (cb_delete set_channel_map s).1.configs other_id other_name
        ≡ remapped id name none s.configs other_id other_name
  unfolding cb_delete store_actual delete_actual
  cb_delete-remapped s i id name config idx ctrl port found other_id other_name =
      rw (idx, ctrl, port, found)
        (delete_actual-remapped i id name config _ found other_id other_name)

  map_output-remapped :
      (id name area color : Text) (config : Config) (entry : Option MapRec) (index : ℕ)
      (s : Sheet L)
      → find_config id s.configs ≡ some config
      → find_entry name config.channel_map ≡ some entry
      → color_index color ≡ ok index
      → (other_id other_name : Text)
      → mapped
          (map_output set_channel_map id name (some area) (some color) s).1.configs
          other_id
          other_name
        ≡ remapped id name
            (some (edited config.pwm_res area index entry))
            s.configs
            other_id
            other_name
  unfolding map_output
  map_output-remapped id name area color config entry index s found has valid other_id other_name =
      rw (found, has, valid)
        (store-mapped id name (some (edited config.pwm_res area index entry)) config s.configs found
          other_id other_name)

  -- Setting a color refines the update of one record of the view, if an area was selected and the
  -- color is known: the selected output of the selected controller gets the area and the color. It
  -- keeps gamma and white calibration if it was used before, and has gamma 22 and the PWM resolution
  -- as white calibration otherwise. Every other output of every controller has what it had.
  pub cb_set_color-remapped :
      (s : Sheet L) (i : ℕ) (id name : Text) (c : ℕ) (area' : Text) (config : Config)
      (entry : Option MapRec) (d : ℕ) (color' : Text) (index : ℕ) (row : Row)
      → s.actual_idx ≡ some i
      → get_elem? s.channel_list i ≡ some row
      → s.actual_ctrl_id ≡ some id
      → s.actual_port_name ≡ some name
      → s.actual_area ≡ some (c ∷ area')
      → find_config id s.configs ≡ some config
      → find_entry name config.channel_map ≡ some entry
      → color_index (d ∷ color') ≡ ok index
      → (other_id other_name : Text)
      → mapped (cb_set_color set_channel_map (d ∷ color') s).1.configs other_id other_name
        ≡ remapped id name
            (some (record {
              area = c ∷ area';
              color = index;
              gamma = gamma_of entry;
              white_cal = white_cal_of config.pwm_res entry;
            }))
            s.configs
            other_id
            other_name
  unfolding cb_set_color store_actual select_area store_row
  cb_set_color-remapped s i id name c area' config entry d color' index row idx row_is ctrl port
        area found has valid other_id other_name =
      rw (idx, area, ctrl, port, found, row_is)
        (map_output-remapped id name (c ∷ area') (d ∷ color') config entry index _ found has valid
            other_id other_name
          ∙ ap (λ r. remapped id name (some r) s.configs other_id other_name)
              (edited-eq config.pwm_res index (c ∷ area') entry))
