-- ===== src/Config/RoundTrip/Once.antt =====
-- The request of a record (ControllerConfig of df10ch_setup_pkg/device_drv.py).
use df10ch_atmolight_control.Prelude.{
  ℕ, ◌≡◌, ◌/◌, ap, sym, ◌∙◌, inl, inr, true, Bool, ltb, if◌then◌else◌, Bool-cases, arith,
}
use df10ch_atmolight_control.Prelude.Int.{ℤ, pos}
use df10ch_atmolight_control.Result.{Result, ok}
use df10ch_atmolight_control.Areas.{area_code}
use df10ch_atmolight_control.Areas.Laws.{area_code-area_name}
use df10ch_atmolight_control.Config.{MapRec}
use df10ch_atmolight_control.Config.RoundTrip.{Request, StoredAs}

-- A record is stored as one request only.
pub same_request :
    (pwm_res : ℕ) (r : MapRec) (q q' : Request)
    → StoredAs pwm_res r q
    → StoredAs pwm_res r q'
    → q ≡ q'
same_request pwm_res r q q' s s' =
    let codes_eq : ◌≡◌ {A = Result (ℕ × ℤ)}
        (ok (q.code, if ltb (q.code / 4) 4 then pos q.num else pos 0))
        (ok (q'.code, if ltb (q'.code / 4) 4 then pos q'.num else pos 0)) =
      sym (area_code-area_name q.code q.num r.area s.named)
      ∙ ap (area_code r.area) (sym s.colored ∙ s'.colored)
      ∙ area_code-area_name q'.code q'.num r.area s'.named in
    let code_eq : q.code ≡ q'.code = (cc) in
    let num_eq : q.num ≡ q'.num = elim (Bool-cases (ltb (q.code / 4) 4)) [
      | inl below ↦ numbered below (ap (λ c. ltb (c / 4) 4) (sym code_eq) ∙ below) codes_eq
      | inr above ↦
          s.unnumbered above ∙ sym (s'.unnumbered (ap (λ c. ltb (c / 4) 4) (sym code_eq) ∙ above))
    ] in
    let gamma_eq : q.gamma ≡ q'.gamma = (cc) in
    let white_eq : q.white_cal ≡ q'.white_cal = (cc) in (cc)
  where
    numbered :
        {t t' : Bool}
        → t ≡ true
        → t' ≡ true
        → ◌≡◌ {A = Result (ℕ × ℤ)}
            (ok (q.code, if t then pos q.num else pos 0))
            (ok (q'.code, if t' then pos q'.num else pos 0))
        → q.num ≡ q'.num
    numbered {t} {t'} e e' same = ground arith
