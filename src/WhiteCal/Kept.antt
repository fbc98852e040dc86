-- ===== src/WhiteCal/Kept.antt =====
-- What the calibration leaves as it is (df10ch_setup_pkg/white_cal_dlg.py).
use df10ch_atmolight_control.Prelude.{
  ℕ, ◌≡◌, refl, sym, ap, ◌∙◌, List, [], ◌∷◌, Text, text_eq, text_eq→eq, Bool, true, false, Option,
  none, some, if◌then◌else◌, Option-cases, inl, inr,
}
use df10ch_atmolight_control.Result.{Result, ok, err, atmo}
use df10ch_atmolight_control.Exec.{Exec, pure, lift, continue, ◌>>=◌}
use df10ch_atmolight_control.Controller.Payload.{ChannelRec}
use df10ch_atmolight_control.Config.{Config, MapRec, ChannelMap}
use df10ch_atmolight_control.Config.Registry.{
  Configs, find_config, store_config, find_entry, store_entry, find-store_entry, find-store_config,
}
use df10ch_atmolight_control.WhiteCal.{Floats, CRec, AreasMap, Calibration, caught, brightness}
use df10ch_atmolight_control.WhiteCal.Adjust.{
  chosen, adjust, store_rec, update_rec, update_recs, update_areas, update, is_chosen,
}

-- What an output shows: the area and the color, without gamma and calibration.
abbrev pub entry_look : Option (Option MapRec) → Option (Option (Text × ℕ))
entry_look none = none
entry_look (some none) = some none
entry_look (some (some r)) = some (some (r.area, r.color))

abbrev pub config_look : Text → Option Config → Option (Option (Option (Text × ℕ)))
config_look name none = none
config_look name (some config) = some (entry_look (find_entry name config.channel_map))

-- Two dicts of configurations in which every output shows the same.
abbrev pub LooksLike : Configs → Configs → Type 0
LooksLike configs others =
    (id name : Text)
    → config_look name (find_config id configs) ≡ config_look name (find_config id others)

-- An output whose record keeps its area and its color.
store_entry-look :
    (name other : Text) (r r' : MapRec) (m : ChannelMap)
    → find_entry name m ≡ some (some r)
    → r'.area ≡ r.area
    → r'.color ≡ r.color
    → entry_look (find_entry other (store_entry name (some r') m)) ≡ entry_look (find_entry other m)
store_entry-look name other r r' m found area color =
    ap entry_look (find-store_entry name other (some r') m) ∙ by_name (text_eq name other) refl
  where
    same_look : entry_look (some (some r')) ≡ entry_look (some (some r))
    same_look = rw (area, color) refl

    by_name :
        (b : Bool)
        → text_eq name other ≡ b
        → entry_look (if b then some (some r') else find_entry other m)
          ≡ entry_look (find_entry other m)
    by_name true e =
        same_look
        ∙ ap entry_look (sym found)
        ∙ ap (λ n. entry_look (find_entry n m)) (text_eq→eq name other e)
    by_name false e = refl

store_config-LooksLike :
    (id : Text) (config old : Config) (configs : Configs)
    → find_config id configs ≡ some old
    → ((name : Text)
        → entry_look (find_entry name config.channel_map)
          ≡ entry_look (find_entry name old.channel_map))
    → LooksLike (store_config id config configs) configs
store_config-LooksLike id config old configs found same other name =
    ap (config_look name) (find-store_config id other config old configs found)
    ∙ by_id (text_eq id other) refl
  where
    by_id :
        (b : Bool)
        → text_eq id other ≡ b
        → config_look name (if b then some config else find_config other configs)
          ≡ config_look name (find_config other configs)
    by_id false e = refl
    by_id true e =
        ap some (same name)
        ∙ ap (config_look name) (sym found)
        ∙ ap (λ i. config_look name (find_config i configs)) (text_eq→eq id other e)

-- A computation after which every output shows what it did.
module _ {L F : Type 0} where
  abbrev Keeps : {A : Type 0} → Exec (Calibration L F) A → Type 0
  Keeps m = (s : Calibration L F) → LooksLike (m s).1.configs s.configs

  bind-look :
      {A B : Type 0} (m : Exec (Calibration L F) A) (f : A → Exec (Calibration L F) B)
      (s : Calibration L F)
      → LooksLike (m s).1.configs s.configs
      → ((a : A) → Keeps (f a))
      → LooksLike ((m >>= f) s).1.configs s.configs
  bind-look {A = A} m f s kept keeps_f = by_result (m s).0 (m s).1 kept
    where
      by_result :
          (r : Result A) (t : Calibration L F)
          → LooksLike t.configs s.configs
          → LooksLike (continue r f t).1.configs s.configs
      by_result (err e) t same = same
      by_result (ok a) t same = λ id name. keeps_f a t id name ∙ same id name

  bind-Keeps :
      {A B : Type 0} (m : Exec (Calibration L F) A) (f : A → Exec (Calibration L F) B)
      → Keeps m
      → ((a : A) → Keeps (f a))
      → Keeps (m >>= f)
  bind-Keeps m f keeps_m keeps_f s = bind-look m f s (keeps_m s) keeps_f

  stop-Keeps :
      (m : Exec (Calibration L F) Bool) → Keeps m → (b : Bool) → Keeps (if b then pure true else m)
  stop-Keeps m keeps true s = λ id name. refl
  stop-Keeps m keeps false s = keeps s

module _ {L F : Type 0} (floats : Floats F)
    (set_channel_map : Text → ℕ → List ChannelRec → Exec L (Unit {0}))
    (set_brightness : Text → ℕ → List ℕ → Exec L (Unit {0})) where
  caught-Keeps : (m : Exec L (Unit {0})) → Keeps (caught floats set_channel_map set_brightness m)
  unfolding caught
  caught-Keeps m s id name = by_result (m s.lights).0
    where
      by_result :
          (r : Result (Unit {0}))
          → config_look name (
              find_config id
                (elim r as (λ x. Result Bool × Calibration L F) [
                  | ok u ↦ (ok false, record s { lights = (m s.lights).1 })
                  | err (atmo report) ↦ (ok true, record s { lights = (m s.lights).1 })
                  | err e ↦ (err e, record s { lights = (m s.lights).1 })
                ]).1.configs)
            ≡ config_look name (find_config id s.configs)
      by_result (ok u) = refl
      by_result (err (atmo report)) = refl
      by_result (err e) = refl

  adjust-look :
      (area : Text) (c : CRec) (config : Config) (r : MapRec) (s : Calibration L F)
      → find_config c.ctrl_id s.configs ≡ some config
      → find_entry c.port_name config.channel_map ≡ some (some r)
      → LooksLike
          (adjust floats set_channel_map set_brightness area c config r s).1.configs
          s.configs
  unfolding adjust
  adjust-look area c config r s found entry id name =
      by_choice (is_chosen floats set_channel_map set_brightness area s)
        (chosen floats set_channel_map set_brightness config.pwm_res r s)
    where
      by_choice :
          (b : Bool) (x : Result (ℕ × F × ℕ))
          → config_look name (
              find_config id
                (if b
                  then (elim x as (λ x. Result (F × ℕ) × Calibration L F) [
                    | err e ↦ (err e, s)
                    | ok v ↦ (
                      ok (v.1, v.2),
                      store_rec floats set_channel_map set_brightness c config
                          (record r { gamma = v.0; white_cal = v.2 })
                          s,
                    )
                  ])
                  else (ok (floats.tenth r.gamma, r.white_cal), s)).1.configs)
            ≡ config_look name (find_config id s.configs)
      by_choice false x = refl
      by_choice true (err e) = refl
      by_choice true (ok (g, gamma, white)) =
          store_config-LooksLike c.ctrl_id _ config s.configs found
            (λ other. store_entry-look c.port_name other r _ config.channel_map entry refl refl) id
            name

  update_rec-Keeps :
      (area : Text) (c : CRec) → Keeps (update_rec floats set_channel_map set_brightness area c)
  unfolding update_rec
  update_rec-Keeps area c s id name = elim (Option-cases (find_config c.ctrl_id s.configs)) [
    | inl e ↦ rw e refl
    | inr (config, e) ↦ rw e (elim (Option-cases (find_entry c.port_name config.channel_map)) [
      | inl e' ↦ rw e' refl
      | inr (none, e') ↦ rw e' refl
      | inr (some r, e') ↦ rw e' (
          bind-look (adjust floats set_channel_map set_brightness area c config r)
            (λ v. lift (brightness floats set_channel_map set_brightness s.bright v.0 v.1) >>= λ b.
              caught floats set_channel_map set_brightness
                (set_brightness c.ctrl_id c.req_channel (b ∷ [])))
            s (adjust-look area c config r s e e')
            (λ v.
              bind-Keeps (lift (brightness floats set_channel_map set_brightness s.bright v.0 v.1))
                (λ b.
                  caught floats set_channel_map set_brightness
                    (set_brightness c.ctrl_id c.req_channel (b ∷ [])))
                (λ t i n. refl) (λ b. caught-Keeps _))
            id name)
    ])
  ]

  update_recs-Keeps :
      (area : Text) (cs : List CRec)
      → Keeps (update_recs floats set_channel_map set_brightness area cs)
  unfolding update_recs
  update_recs-Keeps area [] = λ s id name. refl
  update_recs-Keeps area (c ∷ cs) =
      bind-Keeps _ _ (update_rec-Keeps area c) (stop-Keeps _ (update_recs-Keeps area cs))

  update_areas-Keeps :
      (areas : AreasMap) → Keeps (update_areas floats set_channel_map set_brightness areas)
  unfolding update_areas
  update_areas-Keeps [] = λ s id name. refl
  update_areas-Keeps ((area, recs) ∷ rest) =
      bind-Keeps _ _ (update_recs-Keeps area recs) (stop-Keeps _ (update_areas-Keeps rest))

  -- Updating the brightness of the channels, which stores the gamma and the calibration of the
  -- selected outputs, leaves every output of every controller its area and its color, also where an
  -- exception ends it: no output is lost, none is added.
  pub update-LooksLike :
      (s : Calibration L F)
      → LooksLike (update floats set_channel_map set_brightness s).1.configs s.configs
  unfolding update
  update-LooksLike s =
      bind-Keeps (update_areas floats set_channel_map set_brightness s.areas_map)
        (λ failed. pure tt) (update_areas-Keeps s.areas_map) (λ failed t id name. refl) s
