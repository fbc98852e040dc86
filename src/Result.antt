-- ===== src/Result.antt =====
-- Python exceptions as values: what a call of df10ch_setup_pkg may raise.
use df10ch_atmolight_control.Prelude.{
  ℕ, zero, suc, ◌+◌, ◌*◌, ◌≡◌, ◌⊎◌, inl, inr, refl, ap, ◌∙◌, length, Option, none, some, List, [],
  ◌∷◌, ltb, get_elem?, arith, arith, if◌then◌else◌,
}

-- libusb1.USBError by its `value`: LIBUSB_ERROR_PIPE, or any other code.
pub data UsbError : Type 0 where
  pipe : UsbError
  other : ℕ → UsbError

-- What an AtmoControllerError reports: the request, and why it failed.
pub data Report : Type 0 where
  write_failed read_failed : ℕ → UsbError → Report
  short_write short_read : ℕ → Report
  payload_too_long : Report
  verify_failed : ℕ → ℕ → ℕ → Report
  echo_failed : ℕ → Report

-- AtmoControllerError, FirmwareFlashError (at a line, if it names one), USBError, DeviceError, and the exceptions of Python
-- itself.
pub data Failure : Type 0 where
  atmo : Report → Failure
  flash : Option ℕ → Failure
  usb_error : UsbError → Failure
  index_error value_error key_error unbound_local zero_division attribute_error device_error :
      Failure

pub data Result {ℓ} (A : Type ℓ) : Type ℓ where
  ok : A → Result A
  err : Failure → Result A

infixl 5 ◌>>=◌ ◌>>◌
abbrev pub ◌>>=◌ {ℓ κ} : {X : Type ℓ} {Y : Type κ} → Result X → (X → Result Y) → Result Y
err failure >>= next = err failure
ok x >>= next = next x

abbrev pub ◌>>◌ {ℓ κ} : {X : Type ℓ} {Y : Type κ} → Result X → Result Y → Result Y
first >> next = first >>= λ _. next

abbrev pub or_raise {ℓ} : {A : Type ℓ} → Option A → Failure → Result A
or_raise none e = err e
or_raise (some a) e = ok a

pub ok-injective {ℓ} : {A : Type ℓ} {a b : A} → ok a ≡ ok b → a ≡ b
ok-injective e = cc

pub Result-cases {ℓ} :
    {A : Type ℓ} (r : Result A) → ((a : A) × (r ≡ ok a)) ⊎ ((e : Failure) × (r ≡ err e))
Result-cases (ok a) = inl (a, refl)
Result-cases (err e) = inr (e, refl)

-- `l[i]`
abbrev pub at {ℓ} : {A : Type ℓ} → List A → ℕ → Result A
at l i = or_raise (get_elem? l i) index_error

-- What a bytearray does with a value that is stored in it.
abbrev pub byte : ℕ → Result ℕ
byte v = if ltb v 256 then ok v else err value_error

unfoldable pub to_bytes : List ℕ → Result (List ℕ)
to_bytes [] = ok []
to_bytes (v ∷ vs) = do b ← byte v; bs ← to_bytes vs; ok (b ∷ bs)

-- Inversion of a successful bind.
pub >>=-eq-ok {ℓ κ} :
    {X : Type ℓ} {Y : Type κ} (first : Result X) (next : X → Result Y) {y : Y}
    → (first >>= next) ≡ ok y
    → (x : X) × (first ≡ ok x) × (next x ≡ ok y)
>>=-eq-ok (err failure) next returned = cc
>>=-eq-ok (ok x) next returned = (x, refl, returned)

-- `for i in range(start, start + n)`, collecting what each round gives.
unfoldable pub for_range {ℓ} : {A : Type ℓ} → (ℕ → Result A) → ℕ → ℕ → Result (List A)
for_range f zero start = ok []
for_range f (suc n) start = do x ← f start; xs ← for_range f n (start + 1); ok (x ∷ xs)

-- Two bytes, low byte first, at `i`.
abbrev pub word_at : List ℕ → ℕ → Result ℕ
word_at l i = do lo ← at l i; hi ← at l (i + 1); ok (lo + hi * 256)

-- A loop whose rounds give the elements of a list gives that list.
pub for_range-eq {ℓ} :
    {A : Type ℓ} (f : ℕ → Result A) (xs : List A) (start : ℕ)
    → ((i : ℕ) (x : A) → get_elem? xs i ≡ some x → f (start + i) ≡ ok x)
    → for_range f (length xs) start ≡ ok xs
unfolding for_range
for_range-eq f [] start h = refl
for_range-eq f (x ∷ xs) start h =
    rw (round, for_range-eq f xs (start + 1) λ i y e. ap f (reindex i) ∙ h (suc i) y e)
  where
    round : f start ≡ ok x
    round = ap f (omega arith) ∙ h 0 x refl

    reindex : (i : ℕ) → start + 1 + i ≡ start + suc i
    reindex i = omega arith
