-- ===== src/Dummy/Devices.antt =====
-- The list of simulated controllers (loadDummyDevices of df10ch_setup_pkg/device_drv.py).
use mathlib.Core.List.{append-nil, append_assoc}
use df10ch_atmolight_control.Prelude.{
  ◌≤◌, sym, ap, ℕ, zero, suc, ◌+◌, ◌-◌, ◌≡◌, refl, ◌∙◌, List, [], ◌∷◌, ◌++◌, Text, length, take,
  arith, ltb, if◌then◌else◌, Option, none, some, length-append, length-take, Bool-cases, inl, inr,
  ltb→lt, not_ltb→le,
}
use df10ch_atmolight_control.Dummy.{Dummy, new_dummy}

-- The `while` appends a fresh controller for each one that is missing.
unfoldable pub append_missing : ℕ → Text → List Dummy → List Dummy
append_missing zero dummy_serial devices = devices
append_missing (suc missing) dummy_serial devices =
    append_missing missing dummy_serial
      (devices ++ new_dummy 0 (length devices + 1) dummy_serial ∷ [])

-- What the file holds; with no file the list is empty.
abbrev pub saved_devices : Option (List Dummy) → List Dummy
saved_devices none = []
saved_devices (some devices) = devices

unfoldable pub load_dummy_devices : Option (List Dummy) → ℕ → Text → List Dummy
load_dummy_devices saved simulated dummy_serial =
    let loaded = saved_devices saved in
    let devices = if ltb simulated (length loaded) then take simulated loaded else loaded in
    append_missing (simulated - length devices) dummy_serial devices

length-append_missing :
    (missing : ℕ) (serial : Text) (devices : List Dummy)
    → length (append_missing missing serial devices) ≡ length devices + missing
unfolding append_missing
length-append_missing zero serial devices = omega arith
length-append_missing (suc missing) serial devices = omega (
  arith,
  length-append_missing missing serial (devices ++ new_dummy 0 (length devices + 1) serial ∷ []),
  length-append {0} devices (new_dummy 0 (length devices + 1) serial ∷ []),
)

-- New controllers with the numbers behind `n`.
abbrev pub numbered_from : ℕ → ℕ → Text → List Dummy
numbered_from n zero serial = []
numbered_from n (suc missing) serial =
    new_dummy 0 (n + 1) serial ∷ numbered_from (n + 1) missing serial

append_missing-eq :
    (missing : ℕ) (serial : Text) (devices : List Dummy)
    → append_missing missing serial devices
      ≡ devices ++ numbered_from (length devices) missing serial
unfolding append_missing
append_missing-eq zero serial devices = sym (append-nil devices)
append_missing-eq (suc missing) serial devices =
    let fresh = new_dummy 0 (length devices + 1) serial ∷ [] in
    append_missing-eq missing serial (devices ++ fresh)
    ∙ append_assoc devices fresh (numbered_from (length (devices ++ fresh)) missing serial)
    ∙ ap (λ n. devices ++ (fresh ++ numbered_from n missing serial))
        (length-append {0} devices fresh)

take-all {ℓ} : {A : Type ℓ} (n : ℕ) (l : List A) → length l ≤ n → take n l ≡ l
take-all zero [] h = refl
take-all zero (x ∷ l) h = absurd (omega arith)
take-all (suc n) [] h = refl
take-all (suc n) (x ∷ l) h = ap (λ t. x ∷ t) (take-all n l (omega arith))

-- Whatever the file holds, and also if there is none: there are as many devices as are simulated,
-- first the saved ones, as many as are still simulated, in their order, and behind them new ones that
-- are numbered on.
pub load_dummy_devices_keeps :
    (saved : Option (List Dummy)) (simulated : ℕ) (serial : Text)
    → (load_dummy_devices saved simulated serial
        ≡ take simulated (saved_devices saved)
          ++ numbered_from
              (length (take simulated (saved_devices saved)))
              (simulated - length (saved_devices saved))
              serial)
      × (length (load_dummy_devices saved simulated serial) ≡ simulated)
unfolding load_dummy_devices
load_dummy_devices_keeps saved simulated serial =
    elim (Bool-cases (ltb simulated (length (saved_devices saved)))) [
      | inl more ↦
          let l = take simulated (saved_devices saved) in
          let long = ltb→lt _ _ more in
          let full : length l ≡ simulated =
            omega (arith, long, length-take {0} simulated (saved_devices saved)) in
          rw more (
            append_missing-eq (simulated - length l) serial l
                ∙ ap (λ n. l ++ numbered_from (length l) n serial) (omega (arith, long, full)),
            omega (arith, full, length-append_missing (simulated - length l) serial l),
          )
      | inr fewer ↦
          let l = saved_devices saved in
          let short = not_ltb→le _ _ fewer in
          let all : take simulated l ≡ l = take-all simulated l short in
          rw (fewer, all)
            (
              append_missing-eq (simulated - length l) serial l,
              omega (arith, short, length-append_missing (simulated - length l) serial l),
            )
    ]
