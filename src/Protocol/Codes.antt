-- ===== src/Protocol/Codes.antt =====
-- The codes of the channel map and the bit masks (CM_CODE, CM_CHANNEL, CM_PORT, CM_BV and CM_BIT of
-- df10ch_setup_pkg/device_drv.py).
use native.Mathlib.Nat.{pow-suc}
use df10ch_atmolight_control.Prelude.{
  ℕ, zero, suc, ◌+◌, ◌*◌, ◌/◌, ◌^◌, ◌≤◌, ◌<◌, ◌≡◌, refl, true, bit_or, arith, ◌==◌, ==_iff, ap, ◌∙◌,
}
use df10ch_atmolight_control.Prelude.Int.{pos}
use df10ch_atmolight_control.Prelude.Bits.{all_below, all_below_sound}
use df10ch_atmolight_control.Protocol.{cm_code, cm_channel, cm_port, cm_bit, cm_bit_loop}

cm_code_table :
    all_below 64 (λ channel. all_below 4 (λ port. bit_or (channel * 4) port == channel * 4 + port))
    ≡ true
unfolding all_below
cm_code_table = refl

pub cm_code-eq_add :
    (port channel : ℕ) → port < 4 → channel < 64 → cm_code port channel ≡ channel * 4 + port
unfolding cm_code
cm_code-eq_add port channel p c =
    (==_iff _ _).0 (all_below_sound 4 _ port (all_below_sound 64 _ channel cm_code_table c) p)

-- Channels below 64 and ports below 4 have codes that fit a byte and are read back.
pub cm_code_fields :
    (port channel : ℕ)
    → port < 4
    → channel < 64
    → (cm_channel (cm_code port channel) ≡ channel)
      × (cm_port (cm_code port channel) ≡ port)
      × (cm_code port channel < 256)
unfolding cm_channel cm_port
cm_code_fields port channel p c = omega (arith, cm_code-eq_add port channel p c)

cm_bit_loop-zero : (fuel i : ℕ) → cm_bit_loop fuel i 0 ≡ i
unfolding cm_bit_loop
cm_bit_loop-zero zero i = refl
cm_bit_loop-zero (suc fuel) i = refl

cm_bit_loop_step :
    (fuel i bv : ℕ) → 1 ≤ bv → cm_bit_loop (suc fuel) i bv ≡ cm_bit_loop fuel (i + 1) (bv / 2)
unfolding cm_bit_loop
cm_bit_loop_step fuel i bv h = ground arith

half-one : (b : ℕ) → 1 ≤ b → b < 2 → b / 2 ≡ 0
half-one b lo hi = omega arith

exp_pos : (k : ℕ) → k < 2 ^ k
exp_pos zero = omega arith
exp_pos (suc k) = omega (arith, exp_pos k, pow-suc 2 k)

cm_bit_loop-eq :
    (k fuel i bv : ℕ) → k < fuel → 2 ^ k ≤ bv → bv < 2 ^ suc k → cm_bit_loop fuel i bv ≡ i + k + 1
cm_bit_loop-eq k zero i bv f lo hi = elim f [ ]
cm_bit_loop-eq zero (suc fuel) i bv f lo hi =
    cm_bit_loop_step fuel i bv lo
    ∙ ap (cm_bit_loop fuel (i + 1)) (half-one bv lo hi)
    ∙ cm_bit_loop-zero fuel (i + 1)
    ∙ omega arith
cm_bit_loop-eq (suc k) (suc fuel) i bv f lo hi =
    cm_bit_loop_step fuel i bv (omega (arith, exp_pos (suc k)))
    ∙ cm_bit_loop-eq k fuel (i + 1) (bv / 2) (omega arith) (omega (arith, pow-suc 2 k))
        (omega (arith, pow-suc 2 k, pow-suc 2 (suc k)))
    ∙ omega arith

-- CM_BIT finds the highest bit that is set.
pub cm_bit-eq : (k bv : ℕ) → 2 ^ k ≤ bv → bv < 2 ^ suc k → cm_bit bv ≡ pos k
unfolding cm_bit
cm_bit-eq k bv lo hi = rw (cm_bit_loop-eq k bv 0 bv (omega (arith, exp_pos k)) lo hi) (ground arith)
