-- ===== src/Firmware/Checks.antt =====
-- Loading a firmware file gives well-formed pages or a FirmwareFlashError, and verifying a page
-- compares all of it (df10ch_setup_pkg/firmware.py).
use df10ch_atmolight_control.Prelude.{
  All, ◌≢◌, ◌⊎◌, ==_iff, ℕ, zero, suc, ◌+◌, ◌*◌, ◌<◌, ◌≤◌, ◌≡◌, ◌↔◌, refl, ◌∙◌, Bool, true, false,
  not, ◌&&◌, ◌||◌, List, [], ◌∷◌, Text, Option, none, some, arith, ltb, ◌==◌, take, drop, length,
  length-take, if◌then◌else◌, Option-cases, inl, inr,
}
use df10ch_atmolight_control.Result.{Result, ok, err, flash, ◌>>=◌, or_raise}
use df10ch_atmolight_control.Prelude.Int.{ℤ, pos, negsuc}
use df10ch_atmolight_control.Decimal.{Avoids}
use df10ch_atmolight_control.Firmware.Numbers.{
  IsPos, Holds, parse_hex-Holds, parse_digits-lt_256, IsPlain, rstrip-IsPlain, Avoids-text_slice,
}
use df10ch_atmolight_control.Firmware.{FlashPage, FlashMem, new_mem, verify, verify_bytes, insert}
use df10ch_atmolight_control.Firmware.Image.{IsImage}
use df10ch_atmolight_control.Firmware.Image.Insert.{insert_lem}
use df10ch_atmolight_control.Firmware.Load.{
  byte_value, load_at, load_count, is_zero, parse_digits, Next, go_on, stop, parse_hex, hex_at,
  text_slice, load_bytes, set_info, load_data, load_line, load_lines, load_firmware, rstrip,
  words_from, lacks_info, syntax_error,
}

verify_bytes-ok :
    (read bytes : List ℕ) → verify_bytes read bytes ≡ ok tt → take (length bytes) read ≡ bytes
unfolding verify_bytes
verify_bytes-ok read [] h = refl
verify_bytes-ok [] (y ∷ ys) h = absurd (cc)
verify_bytes-ok (x ∷ xs) (y ∷ ys) h = ground (arith, verify_bytes-ok xs ys)

verify_bytes-same :
    (read bytes : List ℕ) → take (length bytes) read ≡ bytes → verify_bytes read bytes ≡ ok tt
unfolding verify_bytes
verify_bytes-same read [] h = refl
verify_bytes-same [] (y ∷ ys) h = absurd (cc)
verify_bytes-same (x ∷ xs) (y ∷ ys) h = ground (arith, verify_bytes-same xs ys)

-- A page verifies exactly if what was read begins with all its bytes.
pub verify_iff :
    (read : List ℕ) (page : FlashPage)
    → (verify read page ≡ ok tt) ↔ (take (length page.bytes) read ≡ page.bytes)
unfolding verify
verify_iff read page = (verify_bytes-ok read page.bytes, verify_bytes-same read page.bytes)

-- The computation gives a value with this property, or raises FirmwareFlashError.
abbrev pub Ensures : {A : Type 0} → (A → Type 0) → Result A → Type 0
Ensures P (ok a) = P a
Ensures P (err (flash lineno)) = Unit
Ensures P (err _) = ⊥

Ensures-bind :
    {A B : Type 0} (P : A → Type 0) (Q : B → Type 0) (m : Result A) (f : A → Result B)
    → Ensures P m
    → ((a : A) → P a → Ensures Q (f a))
    → Ensures Q (m >>= f)
Ensures-bind P Q (ok a) f h k = k a h
Ensures-bind P Q (err (flash lineno)) f h k = tt
Ensures-bind P Q (err _) f h k = absurd h

Ensures-if :
    {A : Type 0} (P : A → Type 0) (b : Bool) (m n : Result A)
    → Ensures P m
    → Ensures P n
    → Ensures P (if b then m else n)
Ensures-if P true m n h k = h
Ensures-if P false m n h k = k

Ensures-unless :
    {A : Type 0} (P : A → Type 0) (b : Bool) (m n : Result A)
    → Ensures P m
    → (b ≡ false → Ensures P n)
    → Ensures P (if b then m else n)
Ensures-unless P true m n h k = h
Ensures-unless P false m n h k = k refl

-- Well-formed pages of this size.
abbrev pub HasPages : ℕ → FlashMem → Type 0
HasPages size mem = IsImage mem × (mem.page_size ≡ size)

abbrev NextHasPages : ℕ → Next → Type 0
NextHasPages size (go_on mem) = HasPages size mem
NextHasPages size (stop mem) = HasPages size mem

abbrev IsAny : ℕ → Type 0
IsAny n = Unit {0}

abbrev FitsByte : ℕ → Type 0
FitsByte n = n < 256

Holds-IsAny : (o : Option ℕ) → Holds IsAny o
Holds-IsAny none = tt
Holds-IsAny (some n) = tt

or_raise-Ensures :
    (P : ℤ → Type 0) (o : Option ℤ) (lineno : ℕ)
    → Holds P o
    → Ensures P (or_raise o (syntax_error lineno))
or_raise-Ensures P none lineno h = tt
or_raise-Ensures P (some z) lineno h = h

hex_at-Ensures :
    (lineno : ℕ) (line : Text) (start n : ℕ)
    → Avoids b'-' line
    → Ensures (IsPos IsAny) (hex_at lineno line start n)
hex_at-Ensures lineno line start n h =
    or_raise-Ensures (IsPos IsAny) (parse_hex (text_slice line start n)) lineno (
      parse_hex-Holds IsAny n (λ u k. Holds-IsAny (parse_digits u)) (text_slice line start n)
        (Avoids-text_slice b'-' start n line h)
        (omega (arith, length-take {0} n (drop start line))))

parse_digits-FitsByte : (u : Text) → length u ≤ 2 → Holds FitsByte (parse_digits u)
parse_digits-FitsByte u k = elim (Option-cases (parse_digits u)) [
  | inl e ↦ rw e tt
  | inr (v, e) ↦ rw e (parse_digits-lt_256 u v k e)
]

hex_at-FitsByte :
    (lineno : ℕ) (line : Text) (start : ℕ)
    → Avoids b'-' line
    → Ensures (IsPos FitsByte) (hex_at lineno line start 2)
hex_at-FitsByte lineno line start h =
    or_raise-Ensures (IsPos FitsByte) (parse_hex (text_slice line start 2)) lineno (
      parse_hex-Holds FitsByte 2 parse_digits-FitsByte (text_slice line start 2)
        (Avoids-text_slice b'-' start 2 line h)
        (omega (arith, length-take {0} 2 (drop start line))))

insert-HasPages :
    (size addr value : ℕ) (mem : FlashMem)
    → HasPages size mem
    → value < 256
    → Ensures (HasPages size) (insert addr value mem)
insert-HasPages size addr value mem h v =
    let (mem', e, written) = insert_lem addr value mem h.0 v in rw e (written.0, written.1 ∙ h.1)

byte_value-Ensures : (z : ℤ) → IsPos FitsByte z → Ensures FitsByte (byte_value z)
byte_value-Ensures (pos n) h = h
byte_value-Ensures (negsuc n) h = absurd h

load_bytes-HasPages :
    (size lineno : ℕ) (line : Text) (addr n i : ℕ) (mem : FlashMem)
    → Avoids b'-' line
    → HasPages size mem
    → Ensures (HasPages size) (load_bytes lineno line addr n i mem)
unfolding load_bytes
load_bytes-HasPages size lineno line addr zero i mem a h = h
load_bytes-HasPages size lineno line addr (suc n) i mem a h =
    Ensures-bind (IsPos FitsByte) (HasPages size) (hex_at lineno line (i * 2 + 9) 2) _
      (hex_at-FitsByte lineno line (i * 2 + 9) a)
      λ value fits.
        Ensures-bind FitsByte (HasPages size) (byte_value value) _ (byte_value-Ensures value fits)
          λ byte small.
            Ensures-bind (HasPages size) (HasPages size) (insert (addr + i) byte mem) _
              (insert-HasPages size (addr + i) byte mem h small)
              λ mem' h'. load_bytes-HasPages size lineno line addr n (i + 1) mem' a h'

load_at-HasPages :
    (size lineno : ℕ) (line : Text) (addr : ℤ) (n : ℕ) (mem : FlashMem)
    → Avoids b'-' line
    → HasPages size mem
    → IsPos IsAny addr
    → Ensures (NextHasPages size) (load_at lineno line addr n mem)
load_at-HasPages size lineno line (pos addr) n mem a h k =
    Ensures-bind (HasPages size) (NextHasPages size) (load_bytes lineno line addr n 0 mem)
      (λ mem'. ok (go_on mem')) (load_bytes-HasPages size lineno line addr n 0 mem a h)
      (λ mem' h'. h')
load_at-HasPages size lineno line (negsuc addr) n mem a h k = absurd k

load_count-HasPages :
    (size lineno : ℕ) (line : Text) (addr n : ℤ) (mem : FlashMem)
    → Avoids b'-' line
    → HasPages size mem
    → IsPos IsAny addr
    → Ensures (NextHasPages size) (load_count lineno line addr n mem)
load_count-HasPages size lineno line addr (negsuc n) mem a h k = h
load_count-HasPages size lineno line addr (pos n) mem a h k =
    Ensures-if (NextHasPages size) (ltb 0 n) _ (ok (go_on mem))
      (Ensures-if (NextHasPages size) (ltb (length line) (9 + 2 * n)) (err (syntax_error lineno))
        (load_at lineno line addr n mem) tt (load_at-HasPages size lineno line addr n mem a h k))
      h

set_info-HasPages :
    (size lineno : ℕ) (words : List Text) (mem : FlashMem)
    → HasPages size mem
    → Ensures (HasPages size) (set_info lineno words mem)
set_info-HasPages size lineno [] mem h = tt
set_info-HasPages size lineno (a ∷ []) mem h = tt
set_info-HasPages size lineno (a ∷ b ∷ []) mem h =
    (record { size_pos = h.0.size_pos; pages = h.0.pages }, h.1)
set_info-HasPages size lineno (a ∷ b ∷ c ∷ ws) mem h = tt

load_data-HasPages :
    (size lineno : ℕ) (line : Text) (mem : FlashMem)
    → Avoids b'-' line
    → HasPages size mem
    → Ensures (NextHasPages size) (load_data lineno line mem)
unfolding load_data
load_data-HasPages size lineno line mem a h =
    Ensures-bind (IsPos IsAny) (NextHasPages size) (hex_at lineno line 1 2) _
      (hex_at-Ensures lineno line 1 2 a)
      λ n _.
        Ensures-bind (IsPos IsAny) (NextHasPages size) (hex_at lineno line 3 4) _
          (hex_at-Ensures lineno line 3 4 a)
          λ addr k.
            Ensures-bind (IsPos IsAny) (NextHasPages size) (hex_at lineno line 7 2) _
              (hex_at-Ensures lineno line 7 2 a)
              λ kind _.
                Ensures-if (NextHasPages size) (not (is_zero kind)) (ok (stop mem))
                  (load_count lineno line addr n mem) h
                  (load_count-HasPages size lineno line addr n mem a h k)

load_line-HasPages :
    (size lineno : ℕ) (line : Text) (mem : FlashMem)
    → IsPlain line
    → HasPages size mem
    → Ensures (NextHasPages size) (load_line lineno line mem)
unfolding load_line
load_line-HasPages size lineno [] mem a h = h
load_line-HasPages size lineno (kind ∷ rest) mem a h =
    Ensures-if (NextHasPages size) (kind == b'#') (ok (go_on mem)) other_line h (
      Ensures-if (NextHasPages size) (kind == b'@') info data_line
        (Ensures-bind (HasPages size) (NextHasPages size) (set_info lineno (words_from [] rest) mem)
          (λ mem'. ok (go_on mem')) (set_info-HasPages size lineno (words_from [] rest) mem h)
          (λ mem' h'. h'))
        (Ensures-unless (NextHasPages size) (ltb (length (kind ∷ rest)) 9 || not (kind == b':'))
          (err (syntax_error lineno)) (load_data lineno (kind ∷ rest) mem) tt
          (λ q.
            load_data-HasPages size lineno (kind ∷ rest) mem
              (avoids (ltb (length (kind ∷ rest)) 9) (kind == b':') refl q a) h)))
  where
    avoids :
        (short colon : Bool)
        → (kind == b':') ≡ colon
        → (short || not colon) ≡ false
        → (kind ≢ b':') ⊎ Avoids b'-' (kind ∷ rest)
        → Avoids b'-' (kind ∷ rest)
    avoids short colon e q (inr k) = k
    avoids true colon e q (inl other) = absurd (cc)
    avoids false true e q (inl other) = absurd (other ((==_iff kind b':').0 e))
    avoids false false e q (inl other) = absurd (cc)

    info : Result Next
    info = do mem' ← set_info lineno (words_from [] rest) mem; ok (go_on mem')

    data_line : Result Next
    data_line =
        if ltb (length (kind ∷ rest)) 9 || not (kind == b':')
        then err (syntax_error lineno)
        else load_data lineno (kind ∷ rest) mem

    other_line : Result Next
    other_line = if kind == b'@' then info else data_line

load_lines-HasPages :
    (size lineno : ℕ) (lines : List Text) (mem : FlashMem)
    → All IsPlain lines
    → HasPages size mem
    → Ensures (HasPages size) (load_lines lineno lines mem)
unfolding load_lines
load_lines-HasPages size lineno [] mem a h = h
load_lines-HasPages size lineno (line ∷ lines) mem a h =
    Ensures-bind (NextHasPages size) (HasPages size) (load_line lineno (rstrip line) mem)
      (λ next. elim next [ go_on mem' ↦ load_lines (lineno + 1) lines mem' | stop mem' ↦ ok mem' ])
      (load_line-HasPages size lineno (rstrip line) mem (rstrip-IsPlain line a.0) h)
      (elim [
        | go_on mem' ↦ λ h'. load_lines-HasPages size (lineno + 1) lines mem' a.1 h'
        | stop mem' ↦ λ h'. h'
      ])

abbrev pub ArePlain : Option (List Text) → Type 0
ArePlain none = Unit {0}
ArePlain (some lines) = All IsPlain lines

-- Loading a file whose data lines have no minus sign, whatever else it holds, or one that cannot be
-- read, for a page size that is not zero gives well-formed pages of that size or raises
-- FirmwareFlashError: no other exception, and no index out of range.
pub load_firmware-HasPages :
    (lines : Option (List Text)) (size : ℕ) (info_must_exist : Bool)
    → 0 < size
    → ArePlain lines
    → Ensures (HasPages size) (load_firmware lines size info_must_exist)
unfolding load_firmware
load_firmware-HasPages none size info_must_exist h a = tt
load_firmware-HasPages (some lines) size info_must_exist h a =
    Ensures-bind (HasPages size) (HasPages size) (load_lines 1 lines (new_mem size)) _
      (load_lines-HasPages size 1 lines (new_mem size) a
        (record { size_pos = h; pages = tt }, refl))
      λ mem h'.
        Ensures-if (HasPages size) (info_must_exist && lacks_info mem) (err (flash none)) (ok mem)
          tt h'
