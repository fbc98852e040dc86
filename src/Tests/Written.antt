-- ===== src/Tests/Written.antt =====
-- A configuration that is written to the simulated controller.
use df10ch_atmolight_control.Prelude.{
  ℕ, ◌≤◌, ◌≡◌, ◌⊎◌, inl, inr, refl, sym, ap, ◌∙◌, [], ◌∷◌, none, some, length, text_eq,
  text_eq_refl, true, false, arith, subst,
}
use df10ch_atmolight_control.Result.{ok}
use df10ch_atmolight_control.Decimal.{codes, print_nat, print_int, digits_from}
use df10ch_atmolight_control.Protocol.{lookup_port, port_name_map}
use df10ch_atmolight_control.Areas.{area_name}
use df10ch_atmolight_control.Config.{Config, MapRec, ChannelMap}
use df10ch_atmolight_control.Config.Registry.{find_entry}
use df10ch_atmolight_control.Config.Encode.{request_key}
use df10ch_atmolight_control.Config.Methods.{write}
use df10ch_atmolight_control.Config.RoundTrip.{
  Request, key_of, StoredAs, IsStorable, Among, KeysDiffer,
}
use df10ch_atmolight_control.Config.RoundTrip.Once.{same_request}
use df10ch_atmolight_control.Config.RoundTrip.Simulated.{read_again, write-read_again}
use df10ch_atmolight_control.Dummy.{World, new_dummy, reset_values, max_pwm_of}
use df10ch_atmolight_control.Dummy.Methods.{dummy_ctrl}
use df10ch_atmolight_control.Tests.Dialogs.{config, settings-InRange}

abbrev left : MapRec
left = record { area = codes "Left-7"; color = 2; gamma = 22; white_cal = 900 }

abbrev center : MapRec
center = record { area = codes "Center"; color = 1; gamma = 10; white_cal = 0 }

abbrev left_request : Request
left_request = record { code = 10; num = 6; gamma = 22; white_cal = 900 }

abbrev center_request : Request
center_request = record { code = 17; num = 0; gamma = 10; white_cal = 0 }

-- Two outputs share a request, and one is not used.
abbrev outputs : ChannelMap
outputs =
    (codes " 1.1", some left)
    ∷ (codes " 1.2", none)
    ∷ (codes " 1.3", some center)
    ∷ (codes "10.3", some left)
    ∷ []

abbrev shared : Config
shared = record config { channel_map = outputs }

left-StoredAs : StoredAs 1110 left left_request
unfolding area_name print_nat digits_from
left-StoredAs = record {
  named = refl;
  colored = refl;
  code_lt = omega arith;
  num_lt = omega arith;
  unnumbered = λ e. absurd (cc);
  gamma_is = refl;
  gamma_ge = omega arith;
  gamma_le = omega arith;
  white_is = refl;
  white_le = omega arith;
}

center-StoredAs : StoredAs 1110 center center_request
unfolding area_name
center-StoredAs = record {
  named = refl;
  colored = refl;
  code_lt = omega arith;
  num_lt = omega arith;
  unnumbered = λ e. refl;
  gamma_is = refl;
  gamma_ge = omega arith;
  gamma_le = omega arith;
  white_is = refl;
  white_le = omega arith;
}

outputs-IsStorable : IsStorable 1110 outputs
unfolding lookup_port port_name_map text_eq find_entry
outputs-IsStorable = (
  (_, refl),
  refl,
  (left_request, left-StoredAs),
  (
    (_, refl),
    refl,
    (
      (_, refl),
      refl,
      (center_request, center-StoredAs),
      ((_, refl), refl, (left_request, left-StoredAs), tt),
    ),
  ),
)

one_of_two : (q : Request) → Among 1110 q outputs → (q ≡ left_request) ⊎ (q ≡ center_request)
one_of_two q (inl s) = inl (same_request 1110 left q left_request s left-StoredAs)
one_of_two q (inr (inl s)) = inr (same_request 1110 center q center_request s center-StoredAs)
one_of_two q (inr (inr (inl s))) = inl (same_request 1110 left q left_request s left-StoredAs)
one_of_two q (inr (inr (inr s))) = absurd s

other_key : text_eq (key_of left_request) (key_of center_request) ≡ false
unfolding text_eq request_key print_nat print_int digits_from
other_key = refl

keys_differ : key_of left_request ≡ key_of center_request → ⊥
keys_differ e =
    let same : text_eq (key_of left_request) (key_of center_request) ≡ true =
      subst (λ k. text_eq (key_of left_request) k ≡ true) e (text_eq_refl (key_of left_request)) in
    let bad : false ≡ true = sym other_key ∙ same in absurd (cc)

outputs-KeysDiffer : KeysDiffer 1110 outputs
outputs-KeysDiffer q q' a a' e = elim (one_of_two q a) [
  | inl l ↦ elim (one_of_two q' a') [
    | inl l' ↦ l ∙ sym l'
    | inr c' ↦ absurd (keys_differ (ap key_of (sym l) ∙ e ∙ ap key_of c'))
  ]
  | inr c ↦ elim (one_of_two q' a') [
    | inl l' ↦ absurd (keys_differ (ap key_of (sym l') ∙ sym e ∙ ap key_of c))
    | inr c' ↦ c ∙ sym c'
  ]
]

abbrev world : World
world = record { self = new_dummy 1 2 (codes "AP"); dummy_serial = codes "AP"; saved = none }

max_pwm_fits : world.self.max_pwm ≡ 1110
unfolding new_dummy reset_values max_pwm_of
max_pwm_fits = refl

eeprom_size : length world.self.ee_data ≡ 512
unfolding new_dummy reset_values
eeprom_size = refl

write-read_again_example :
    (requests : ℕ) × (requests ≤ 4)
    × ((write dummy_ctrl shared world).0 ≡ ok (read_again shared world requests))
write-read_again_example =
    write-read_again shared world (omega (arith, eeprom_size)) max_pwm_fits settings-InRange
      (omega arith) (omega arith) outputs-IsStorable outputs-KeysDiffer
