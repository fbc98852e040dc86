-- ===== src/Firmware/Image/Pages.antt =====
-- The lookup of a page, and lists of pages that change (df10ch_setup_pkg/firmware.py).
use native.Mathlib.Nat.{mod-le}
use df10ch_atmolight_control.Prelude.{
  ℕ, zero, suc, ◌%◌, ◌<◌, ◌≡◌, refl, ◌∙◌, false, List, [], ◌∷◌, ◌++◌, ◌&&◌, Option, none, some,
  arith, ◌==◌, set, get_elem?, Option-cases, inl, inr,
}
use df10ch_atmolight_control.Firmware.{FlashPage, FlashMem, base_of, find_base, is_base, last_hit}
use df10ch_atmolight_control.Firmware.Image.{IsPage, ArePages}

-- The page at this place has this base.
abbrev pub StandsAt : ℕ → List FlashPage → ℕ → Type 0
StandsAt base ps i = (p : FlashPage) × (get_elem? ps i ≡ some p) × (p.base_addr ≡ base)

pub find_base-some :
    (base : ℕ) (ps : List FlashPage) (i : ℕ) → find_base base ps ≡ some i → StandsAt base ps i
unfolding find_base
find_base-some base [] i h = absurd (cc)
find_base-some base (x ∷ ps) zero h = (x, refl, ground arith)
find_base-some base (x ∷ ps) (suc i) h = find_base-some base ps i (ground arith)

pub is_base-some :
    (base i j : ℕ) (o : Option FlashPage)
    → is_base base o (some j) ≡ some i
    → (p : FlashPage) × (o ≡ some p) × (p.base_addr ≡ base) × (j ≡ i)
is_base-some base i j none h = absurd (cc)
is_base-some base i j (some p) h = (p, refl, ground arith, ground arith)

pub last_hit-some :
    (base i : ℕ) (mem : FlashMem) → last_hit base mem ≡ some i → StandsAt base mem.page_list i
last_hit-some base i mem h = elim (Option-cases mem.last_lookup) [
  | inl e ↦ absurd (ground arith)
  | inr (j, e) ↦
      let (p, found, based, same) =
        is_base-some base i j (get_elem? mem.page_list j) (ground arith) in
      (p, rw (← same) found, based)
]

-- What a lookup has found and what it leaves of the pages.
abbrev pub Looked : ℕ → List FlashPage → Option ℕ → Type 0
Looked base ps (some i) = StandsAt base ps i
Looked base ps none = find_base base ps ≡ none

-- What is written at an address is read there, and only there.
pub page_address :
    (size a b : ℕ)
    → 0 < size
    → (base_of size a == base_of size b) && (a % size == b % size) ≡ (a == b)
page_address size a b h = ground (arith, mod-le a size, mod-le b size)

pub find_base-set :
    (base : ℕ) (ps : List FlashPage) (i : ℕ) (p q : FlashPage)
    → get_elem? ps i ≡ some p
    → q.base_addr ≡ p.base_addr
    → find_base base (set ps i q) ≡ find_base base ps
unfolding find_base
find_base-set base [] i p q e s = refl
find_base-set base (x ∷ ps) zero p q e s = ground arith
find_base-set base (x ∷ ps) (suc i) p q e s = ground (arith, find_base-set base ps i p q e s)

pub ArePages-set :
    (size : ℕ) (ps : List FlashPage) (i : ℕ) (p q : FlashPage)
    → ArePages size ps
    → get_elem? ps i ≡ some p
    → q.base_addr ≡ p.base_addr
    → IsPage size q
    → ArePages size (set ps i q)
ArePages-set size [] i p q h e s k = tt
ArePages-set size (x ∷ ps) zero p q h e s k =
    (k, (let same : x.base_addr ≡ q.base_addr = ground arith in rw same at h.1), h.2)
ArePages-set size (x ∷ ps) (suc i) p q h e s k =
    (h.0, find_base-set x.base_addr ps i p q e s ∙ h.1, ArePages-set size ps i p q h.2 e s k)

pub find_base-append :
    (base : ℕ) (ps : List FlashPage) (q : FlashPage)
    → (q.base_addr == base) ≡ false
    → find_base base ps ≡ none
    → find_base base (ps ++ q ∷ []) ≡ none
unfolding find_base
find_base-append base [] q h k = ground arith
find_base-append base (x ∷ ps) q h k = ground (arith, find_base-append base ps q h)

pub ArePages-append :
    (size : ℕ) (ps : List FlashPage) (q : FlashPage)
    → ArePages size ps
    → find_base q.base_addr ps ≡ none
    → IsPage size q
    → ArePages size (ps ++ q ∷ [])
ArePages-append size [] q h e k = (k, unfold find_base in refl, tt)
ArePages-append size (x ∷ ps) q h e k = (
  h.0,
  find_base-append x.base_addr ps q (unfold find_base in ground arith) h.1,
  ArePages-append size ps q h.2 (unfold find_base in ground arith) k,
)
