-- ===== src/WhiteCal/Adjust.antt =====
-- Selecting an area of the white calibration sheet, and storing what its controls say
-- (df10ch_setup_pkg/white_cal_dlg.py).
use df10ch_atmolight_control.Prelude.{
  ℕ, List, [], ◌∷◌, Text, Bool, true, false, ◌||◌, none, some, set, if◌then◌else◌, is_set,
  same_text,
}
use df10ch_atmolight_control.Result.{Result, ok, err, value_error, key_error, at, or_raise}
use df10ch_atmolight_control.Exec.{Exec, pure, lift, modify, ◌>>=◌, ◌>>◌}
use df10ch_atmolight_control.Controller.Payload.{ChannelRec}
use df10ch_atmolight_control.Config.{Config, MapRec}
use df10ch_atmolight_control.Config.Registry.{find_config, store_config, find_entry, store_entry}
use df10ch_atmolight_control.WhiteCal.{
  Floats, CRec, AreasMap, Calibration, find_recs, brightness, caught, load_all,
}

module _ {L F : Type 0} (floats : Floats F)
    (set_channel_map : Text → ℕ → List ChannelRec → Exec L (Unit {0}))
    (set_brightness : Text → ℕ → List ℕ → Exec L (Unit {0})) where
  -- (An output whose record was deleted is passed over here and below: the sheet is filled anew
  -- whenever it is shown, and none is deleted while it is.) The controls show the gamma and the white calibration of an area's outputs.
  unfoldable pub show_rec : CRec → Exec (Calibration L F) (Unit {0})
  show_rec c s =
      (do
        config ← lift (or_raise (find_config c.ctrl_id s.configs) key_error)
        entry ← lift (or_raise (find_entry c.port_name config.channel_map) key_error)
        (elim entry [
          | none ↦ pure tt
          | some r ↦ (do
            white_cal ← lift (floats.ratio r.white_cal config.pwm_res)
            old ← lift (at s.gammas r.color)
            modify (λ t. record t {
              gammas = set t.gammas r.color (floats.print_float (floats.tenth r.gamma));
              white_cals = set t.white_cals r.color white_cal;
            }))
        ]))
        s

  unfoldable pub show_recs : List CRec → Exec (Calibration L F) (Unit {0})
  show_recs [] = pure tt
  show_recs (c ∷ cs) = show_rec c >> show_recs cs

  unfoldable pub select_area : Text → Exec (Calibration L F) (Unit {0})
  select_area area s = elim (find_recs area s.areas_map) [
    | none ↦ (ok tt, s)
    | some recs ↦ show_recs recs (record s { select_all = false; selected_area = some area })
  ]

  -- The values of the controls for a color: `int(gamma * 10.0)`, the gamma, and the calibration.
  unfoldable pub chosen : ℕ → MapRec → Calibration L F → Result (ℕ × F × ℕ)
  chosen pwm_res r s = elim (at s.gammas r.color) [
    | err e ↦ err e
    | ok text ↦ elim (floats.parse_float text) [
      | none ↦ err value_error
      | some gamma ↦ elim (at s.white_cals r.color) [
        | err e ↦ err e
        | ok white ↦ ok (
          floats.truncated (floats.scaled gamma 10),
          gamma,
          floats.truncated (floats.scaled white pwm_res),
        )
      ]
    ]
  ]

  abbrev pub is_chosen : Text → Calibration L F → Bool
  is_chosen area s = s.select_all || same_text s.selected_area area

  abbrev pub store_rec : CRec → Config → MapRec → Calibration L F → Calibration L F
  store_rec c config r t = record t {
    configs =
        store_config c.ctrl_id
          (record config { channel_map = store_entry c.port_name (some r) config.channel_map })
          t.configs;
  }

  -- The record of an output takes the values of the controls, if its area is selected.
  unfoldable pub adjust : Text → CRec → Config → MapRec → Exec (Calibration L F) (F × ℕ)
  adjust area c config r s =
      if is_chosen area s
      then (elim (chosen config.pwm_res r s) [
        | err e ↦ (err e, s)
        | ok (g, gamma, white) ↦
            (ok (gamma, white), store_rec c config (record r { gamma = g; white_cal = white }) s)
      ])
      else (ok (floats.tenth r.gamma, r.white_cal), s)

  -- Whether the controller failed.
  unfoldable pub update_rec : Text → CRec → Exec (Calibration L F) Bool
  update_rec area c s =
      (do
        config ← lift (or_raise (find_config c.ctrl_id s.configs) key_error)
        entry ← lift (or_raise (find_entry c.port_name config.channel_map) key_error)
        (elim entry [
          | none ↦ pure false
          | some r ↦ (do
            (gamma, white) ← adjust area c config r
            b ← lift (brightness floats set_channel_map set_brightness s.bright gamma white)
            caught floats set_channel_map set_brightness
                (set_brightness c.ctrl_id c.req_channel (b ∷ [])))
        ]))
        s

  unfoldable pub update_recs : Text → List CRec → Exec (Calibration L F) Bool
  update_recs area [] = pure false
  update_recs area (c ∷ cs) =
      update_rec area c >>= λ failed. if failed then pure true else update_recs area cs

  unfoldable pub update_areas : AreasMap → Exec (Calibration L F) Bool
  update_areas [] = pure false
  update_areas ((area, recs) ∷ rest) =
      update_recs area recs >>= λ failed. if failed then pure true else update_areas rest

  -- (`setBright` of the sheet is in `Shown`.)
  unfoldable pub update : Exec (Calibration L F) (Unit {0})
  update s = (update_areas s.areas_map >> pure tt) s

  unfoldable pub load_values : Exec (Calibration L F) (Unit {0})
  load_values s =
      (do
        (failed, area) ← load_all floats set_channel_map set_brightness none s.configs
        (if failed
            then pure tt
            else ((elim area [
              | none ↦ pure tt
              | some a ↦ if is_set (some a) then select_area a else pure tt
            ])
                >> update)))
        (record s { areas_map = [] })

  -- `mapped` says whether the sheet is shown.
  unfoldable pub cb_area_selected : Bool → Text → Exec (Calibration L F) (Unit {0})
  cb_area_selected mapped area = if mapped then select_area area else pure tt
