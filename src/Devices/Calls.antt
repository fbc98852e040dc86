-- ===== src/Devices/Calls.antt =====
-- Chains of calls on the bus and on a handle (FindDevices of df10ch_setup_pkg/device_drv.py).
use df10ch_atmolight_control.Prelude.{◌≡◌, refl, ap, Bool, true, false, if◌then◌else◌}
use df10ch_atmolight_control.Result.{Result, ok, err, usb_error}
use df10ch_atmolight_control.Exec.{Exec, pure, continue, ◌>>=◌}
use df10ch_atmolight_control.Usb.{Reply, done, failed}
use df10ch_atmolight_control.Devices.{reply_result, ask, on_handle}

abbrev pub paired : {A B : Type 0} → A → B → A × B
paired a b = (a, b)

-- A chain of calls that gave a result asked first, and went on from the answer.
pub ask-inv :
    {B A C : Type 0} (call : B → Reply A × B) (f : A → Exec B C) (b : B) (x : C) (b' : B)
    → (ask call >>= f) b ≡ (ok x, b')
    → (a : A) × (b1 : B) × (call b ≡ (done a, b1)) × (f a b1 ≡ (ok x, b'))
ask-inv {B} {A} {C} call f b x b' h = by_reply (call b) refl h
  where
    by_reply :
        (q : Reply A × B)
        → call b ≡ q
        → continue (reply_result q.0) f q.1 ≡ (ok x, b')
        → (a : A) × (b1 : B) × (call b ≡ (done a, b1)) × (f a b1 ≡ (ok x, b'))
    by_reply (done a, b1) e k = (a, b1, e, k)
    by_reply (failed e', b1) e k = absurd (cc)

pub on_handle-inv :
    {B D C : Type 0} (call : D → Reply (Unit {0}) × D) (handle : D) (f : D → Exec B C) (b : B)
    (x : C) (b' : B)
    → (on_handle call handle >>= f) b ≡ (ok x, b')
    → (d : D) × (call handle ≡ (done tt, d)) × (f d b ≡ (ok x, b'))
on_handle-inv {B} {D} {C} call handle f b x b' h = by_reply (call handle) refl h
  where
    by_reply :
        (q : Reply (Unit {0}) × D)
        → call handle ≡ q
        → continue
            (elim q.0 as (λ z. Result D) [ done u ↦ ok q.1 | failed e ↦ err (usb_error e) ])
            f
            b
          ≡ (ok x, b')
        → (d : D) × (call handle ≡ (done tt, d)) × (f d b ≡ (ok x, b'))
    by_reply (done u, d) e k = (d, e, k)
    by_reply (failed e', d) e k = absurd (cc)

pub ok-injective : {A : Type 0} {x y : A} → ok x ≡ ok y → x ≡ y
ok-injective h = cc

pub ask-run :
    {B A C : Type 0} (call : B → Reply A × B) (f : A → Exec B C) (b : B) (a : A) (b1 : B)
    → call b ≡ (done a, b1)
    → (ask call >>= f) b ≡ f a b1
ask-run call f b a b1 e = rw e refl

pub on_handle-run :
    {B D C : Type 0} (call : D → Reply (Unit {0}) × D) (handle : D) (f : D → Exec B C) (b : B)
    (d : D)
    → call handle ≡ (done tt, d)
    → (on_handle call handle >>= f) b ≡ f d b
on_handle-run {B} {D} {C} call handle f b d e =
    ap
      (λ q.
        continue (elim q.0 as (λ z. Result D) [ done u ↦ ok q.1 | failed x ↦ err (usb_error x) ]) f
          b)
      e

-- A test that was passed: the other branch would have answered `false`.
pub if-inv :
    {B : Type 0} (test : Bool) (yes' : Exec B Bool) (b b' : B)
    → (if test then yes' else pure false) b ≡ (ok true, b')
    → (test ≡ true) × (yes' b ≡ (ok true, b'))
if-inv true yes' b b' h = (refl, h)
if-inv false yes' b b' h = absurd (cc)
