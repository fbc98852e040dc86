-- ===== src/MapDialog/Selection.antt =====
-- The selected line of the channel mapping sheet (df10ch_setup_pkg/map_dlg.py).
use mathlib.Core.Option.{some-injective}
use df10ch_atmolight_control.Prelude.{
  same_text, ℕ, ◌+◌, ◌-◌, ◌<◌, ◌≡◌, refl, ap, sym, ◌∙◌, List, Text, Bool, true, false, ◌&&◌, Option,
  none, some, ◌==◌, length, get_elem?, if◌then◌else◌, arith,
}
use df10ch_atmolight_control.Result.{Result, ok, err, index_error}
use df10ch_atmolight_control.Exec.{Exec, pure, modify, continue, ◌>>◌, ◌>>=◌}
use df10ch_atmolight_control.Controller.Payload.{ChannelRec}
use df10ch_atmolight_control.MapDialog.{
  Sheet, Row, light_up, light_off, light_on, select_light, select_area, select_channel, cb_next,
  cb_prev,
}

module _ {L : Type 0} (set_channel_map : Text → ℕ → List ChannelRec → Exec L (Unit {0})) where
  -- The same line of the same list.
  abbrev pub SameLine : Sheet L → Sheet L → Type 0
  SameLine s t = (t.actual_idx ≡ s.actual_idx) × (t.channel_list ≡ s.channel_list)

  light_up-SameLine :
      (id : Text) (entry : ChannelRec) (s : Sheet L)
      → SameLine s (light_up set_channel_map id entry s).1
  unfolding light_up
  light_up-SameLine id entry s = ground arith

  light_on-SameLine :
      (ctrl_id port_name : Text) (s : Sheet L)
      → SameLine s (light_on set_channel_map ctrl_id port_name s).1
  unfolding light_on light_up
  light_on-SameLine ctrl_id port_name s = ground arith

  light_off-SameLine :
      (actual : Option Text) (ctrl_id : Text) (s : Sheet L)
      → SameLine s (light_off set_channel_map actual ctrl_id s).1
  unfolding light_off light_up
  light_off-SameLine actual ctrl_id s = ground arith

  continue-SameLine :
      {A B : Type 0} (s t : Sheet L) (r : Result A) (f : A → Exec (Sheet L) B)
      → SameLine s t
      → ((a : A) (u : Sheet L) → SameLine u (f a u).1)
      → SameLine s (continue r f t).1
  continue-SameLine s t (ok a) f h k = let k' = k a t in (k'.0 ∙ h.0, k'.1 ∙ h.1)
  continue-SameLine s t (err e) f h k = h

  select_light-SameLine :
      (ctrl_id port_name : Text) (s : Sheet L)
      → SameLine s (select_light set_channel_map ctrl_id port_name s).1
  unfolding select_light
  select_light-SameLine ctrl_id port_name s =
      by_test (same_text s.actual_ctrl_id ctrl_id && same_text s.actual_port_name port_name)
    where
      after_off : (caught : Bool) → Exec (Sheet L) (Unit {0})
      after_off caught = if caught then pure tt else light_on set_channel_map ctrl_id port_name

      after_off-SameLine : (caught : Bool) (u : Sheet L) → SameLine u (after_off caught u).1
      after_off-SameLine true u = (refl, refl)
      after_off-SameLine false u = light_on-SameLine ctrl_id port_name u

      by_test :
          (b : Bool)
          → SameLine s
              (if b
                then (ok tt, s)
                else (light_off set_channel_map s.actual_ctrl_id ctrl_id >>= after_off) s).1
      by_test true = (refl, refl)
      by_test false =
          let off = light_off set_channel_map s.actual_ctrl_id ctrl_id s in
          continue-SameLine s off.1 off.0 after_off (light_off-SameLine s.actual_ctrl_id ctrl_id s)
            after_off-SameLine

  select_area-SameLine :
      (area color : Option Text) (s : Sheet L) → SameLine s (select_area area color s)
  unfolding select_area
  select_area-SameLine area color s = ground arith

  -- Whatever happens to the light, the line asked for is selected.
  select_channel-selects :
      (i : ℕ) (s : Sheet L)
      → (let t = (select_channel set_channel_map i s).1 in
          (t.actual_idx ≡ some i) × (t.channel_list ≡ s.channel_list))
  unfolding select_channel
  select_channel-selects i s = by_row (get_elem? s.channel_list i)
    where
      s' : Sheet L
      s' = record s { actual_idx = some i }

      by_row :
          (row : Option Row)
          → SameLine s'
              (elim row as (λ o. Result (Unit {0}) × Sheet L) [
                | none ↦ (err index_error, s')
                | some r ↦
                    (select_light set_channel_map r.ctrl_id r.port_name
                        >> modify (select_area r.area r.color))
                      s'
              ]).1
      by_row none = (refl, refl)
      by_row (some r) =
          let lit = select_light set_channel_map r.ctrl_id r.port_name s' in
          continue-SameLine s' lit.1 lit.0 _ (select_light-SameLine r.ctrl_id r.port_name s')
            λ u t. select_area-SameLine r.area r.color t

  abbrev line_after : ℕ → ℕ → ℕ
  line_after n i = if i + 1 == n then 0 else i + 1

  abbrev line_before : ℕ → ℕ → ℕ
  line_before n i = if i == 0 then n - 1 else i - 1

  cb_next-selects :
      (s : Sheet L) (i : ℕ)
      → s.actual_idx ≡ some i
      → (let t = (cb_next set_channel_map s).1 in
          (t.actual_idx ≡ some (line_after (length s.channel_list) i))
          × (t.channel_list ≡ s.channel_list))
  unfolding cb_next
  cb_next-selects s i e = by_idx s.actual_idx e
    where
      by_idx :
          (o : Option ℕ)
          → o ≡ some i
          → (let t =
                (elim o as (λ o. Result (Unit {0}) × Sheet L) [
                  | none ↦ (ok tt, s)
                  | some j ↦
                      select_channel set_channel_map
                        (if j + 1 == length s.channel_list then 0 else j + 1)
                        s
                ]).1 in
              (t.actual_idx ≡ some (if i + 1 == length s.channel_list then 0 else i + 1))
              × (t.channel_list ≡ s.channel_list))
      by_idx none e = absurd (cc)
      by_idx (some j) e =
          let same : i ≡ j = sym (some-injective _ _ e) in
          rw same (select_channel-selects (if j + 1 == length s.channel_list then 0 else j + 1) s)

  cb_prev-selects :
      (s : Sheet L) (i : ℕ)
      → s.actual_idx ≡ some i
      → (let t = (cb_prev set_channel_map s).1 in
          (t.actual_idx ≡ some (line_before (length s.channel_list) i))
          × (t.channel_list ≡ s.channel_list))
  unfolding cb_prev
  cb_prev-selects s i e = by_idx s.actual_idx e
    where
      by_idx :
          (o : Option ℕ)
          → o ≡ some i
          → (let t =
                (elim o as (λ o. Result (Unit {0}) × Sheet L) [
                  | none ↦ (ok tt, s)
                  | some j ↦
                      select_channel set_channel_map
                        (if j == 0 then length s.channel_list - 1 else j - 1)
                        s
                ]).1 in
              (t.actual_idx ≡ some (if i == 0 then length s.channel_list - 1 else i - 1))
              × (t.channel_list ≡ s.channel_list))
      by_idx none e = absurd (cc)
      by_idx (some j) e =
          let same : i ≡ j = sym (some-injective _ _ e) in
          rw same (select_channel-selects (if j == 0 then length s.channel_list - 1 else j - 1) s)

  -- From any line of the sheet, the next line and then the previous one is that line again, and the
  -- previous and then the next one too; the line in between is one of the list. This holds even where
  -- a controller does not answer or an exception ends the selection of the light.
  pub cb_next-cb_prev :
      (s : Sheet L) (i : ℕ)
      → s.actual_idx ≡ some i
      → i < length s.channel_list
      → (let next = (cb_next set_channel_map s).1 in
          let prev = (cb_prev set_channel_map s).1 in
          ((j : ℕ) × (next.actual_idx ≡ some j) × (j < length s.channel_list))
          × ((k : ℕ) × (prev.actual_idx ≡ some k) × (k < length s.channel_list))
          × ((cb_prev set_channel_map next).1.actual_idx ≡ some i)
          × ((cb_next set_channel_map prev).1.actual_idx ≡ some i))
  cb_next-cb_prev s i e h =
      let n = length s.channel_list in
      let (at_next, next_list) = cb_next-selects s i e in
      let (at_prev, prev_list) = cb_prev-selects s i e in
      let back = (cb_prev-selects (cb_next set_channel_map s).1 (line_after n i) at_next).0 in
      let forth = (cb_next-selects (cb_prev set_channel_map s).1 (line_before n i) at_prev).0 in
      let back_eq : line_before n (line_after n i) ≡ i = ground arith in
      let forth_eq : line_after n (line_before n i) ≡ i = ground arith in
      (
        (line_after n i, at_next, ground arith),
        (line_before n i, at_prev, ground arith),
        (rw next_list at back) ∙ ap some back_eq,
        (rw prev_list at forth) ∙ ap some forth_eq,
      )
