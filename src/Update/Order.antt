-- ===== src/Update/Order.antt =====
-- The order in which an update flashes the pages of an image (firmwareUpdate of
-- df10ch_setup_pkg/device_dlg.py).
use mathlib.Core.Option.{some-injective}
use df10ch_atmolight_control.Prelude.{
  ℕ, zero, suc, ◌<◌, ◌≤◌, ◌≡◌, refl, ap, ◌∙◌, false, List, [], ◌∷◌, ◌++◌, Option, none, some, arith,
  ◌==◌, get_elem?, take, length, replicate, if◌then◌else◌, length-append, ==_refl, Bool-cases,
  Option-cases, inl, inr,
}
use df10ch_atmolight_control.Dummy.{Pages, lookup_page, store_page}
use df10ch_atmolight_control.Dummy.Laws.{lookup-store_page}
use df10ch_atmolight_control.Firmware.{FlashPage, FlashMem, find_base}
use df10ch_atmolight_control.Firmware.Image.{ArePages, IsImage, find_base-none}

-- The pages that are not at address 0, as addresses and bytes.
abbrev pub others : List FlashPage → List (ℕ × List ℕ)
others [] = []
others (p ∷ ps) = if p.base_addr == 0 then others ps else (p.base_addr, p.bytes) ∷ others ps

-- The bytes of the page at address 0.
abbrev pub first_bytes : List FlashPage → Option (List ℕ)
first_bytes [] = none
first_bytes (p ∷ ps) = if p.base_addr == 0 then some p.bytes else first_bytes ps

abbrev pub around : ℕ → List (ℕ × List ℕ) → Option (List ℕ) → List (ℕ × List ℕ)
around size steps none = steps
around size steps (some bytes) = (0, replicate size 0xFF) ∷ (steps ++ (0, bytes) ∷ [])

-- The pages to write, in their order: an image with a page at address 0 starts with an erased one
-- there, and ends with it.
abbrev pub plan : ℕ → List FlashPage → List (ℕ × List ℕ)
plan size ps = around size (others ps) (first_bytes ps)

-- A flash memory after these pages were written.
abbrev pub stored : List (ℕ × List ℕ) → Pages → Pages
stored [] flash = flash
stored ((a, page) ∷ rest) flash = stored rest (store_page a page flash)

stored-append :
    (xs ys : List (ℕ × List ℕ)) (flash : Pages)
    → stored (xs ++ ys) flash ≡ stored ys (stored xs flash)
stored-append [] ys flash = refl
stored-append ((a, page) ∷ xs) ys flash = stored-append xs ys (store_page a page flash)

others-keep_first :
    (ps : List FlashPage) (k : ℕ) (flash : Pages)
    → lookup_page 0 (stored (take k (others ps)) flash) ≡ lookup_page 0 flash
others-keep_first [] zero flash = refl
others-keep_first [] (suc k) flash = refl
others-keep_first (p ∷ ps) zero flash = ground arith
others-keep_first (p ∷ ps) (suc k) flash = elim (Bool-cases (p.base_addr == 0)) [
  | inl e ↦ rw e (others-keep_first ps (suc k) flash)
  | inr e ↦ rw e (
      others-keep_first ps k (store_page p.base_addr p.bytes flash)
      ∙ (lookup-store_page p.base_addr 0 p.bytes flash ∙ rw e refl))
]

-- A part of a list before its last element.
take-append_short {ℓ} :
    {A : Type ℓ} (k : ℕ) (xs ys : List A) → k ≤ length xs → take k (xs ++ ys) ≡ take k xs
take-append_short zero xs ys h = refl
take-append_short (suc k) [] ys h = absurd (omega arith)
take-append_short (suc k) (x ∷ xs) ys h = ap (λ l. x ∷ l) (take-append_short k xs ys (omega arith))

-- While an update of an image with a page at address 0 is under way, the flash memory has an erased
-- page there: after any number of writes but none and all of them, whatever it held before.
pub stored_part-blank :
    (size : ℕ) (ps : List FlashPage) (bytes : List ℕ) (flash : Pages) (k : ℕ)
    → first_bytes ps ≡ some bytes
    → suc k < length (plan size ps)
    → lookup_page 0 (stored (take (suc k) (plan size ps)) flash) ≡ some (replicate size 0xFF)
stored_part-blank size ps bytes flash k e h =
    let last : List (ℕ × List ℕ) = (0, bytes) ∷ [] in
    let h' : suc k < length (around size (others ps) (some bytes)) = rw e at h in
    let few : k ≤ length (others ps) = omega (arith, h', length-append {0} (others ps) last) in
    rw e (
      rw (take-append_short {0} k (others ps) last few) (
        others-keep_first ps k (store_page 0 (replicate size 0xFF) flash)
        ∙ (lookup-store_page 0 0 (replicate size 0xFF) flash ∙ refl)))

-- A page with a base that is not among the others' bases.
others-keep :
    (ps : List FlashPage) (base : ℕ) (flash : Pages)
    → find_base base ps ≡ none
    → lookup_page base (stored (others ps) flash) ≡ lookup_page base flash
unfolding find_base
others-keep [] base flash h = refl
others-keep (p ∷ ps) base flash h =
    let h' : find_base base ps ≡ none = ground arith in
    let ne : (p.base_addr == base) ≡ false = ground arith in
    elim (Bool-cases (p.base_addr == 0)) [
      | inl e ↦ rw e (others-keep ps base flash h')
      | inr e ↦ rw e (
          others-keep ps base (store_page p.base_addr p.bytes flash) h'
          ∙ (lookup-store_page p.base_addr base p.bytes flash ∙ rw ne refl))
    ]

others-store :
    (size : ℕ) (ps : List FlashPage) (i : ℕ) (p : FlashPage) (flash : Pages)
    → ArePages size ps
    → get_elem? ps i ≡ some p
    → (p.base_addr == 0) ≡ false
    → lookup_page p.base_addr (stored (others ps) flash) ≡ some p.bytes
others-store size [] i p flash pages e ne = absurd (cc)
others-store size (x ∷ ps) zero p flash pages e ne =
    let same : x ≡ p = some-injective _ _ e in
    let ne' : (x.base_addr == 0) ≡ false = rw same ne in
    rw (← same) (
      rw ne' (
        others-keep ps x.base_addr (store_page x.base_addr x.bytes flash) pages.1
        ∙ (lookup-store_page x.base_addr x.base_addr x.bytes flash
            ∙ rw (==_refl x.base_addr) refl)))
others-store size (x ∷ ps) (suc i) p flash pages e ne = elim (Bool-cases (x.base_addr == 0)) [
  | inl z ↦ rw z (others-store size ps i p flash pages.2 e ne)
  | inr z ↦ rw z (others-store size ps i p (store_page x.base_addr x.bytes flash) pages.2 e ne)
]

pub first_bytes-at :
    (size : ℕ) (ps : List FlashPage) (i : ℕ) (p : FlashPage)
    → ArePages size ps
    → get_elem? ps i ≡ some p
    → p.base_addr ≡ 0
    → first_bytes ps ≡ some p.bytes
first_bytes-at size [] i p pages e z = absurd (cc)
first_bytes-at size (x ∷ ps) zero p pages e z = ground arith
first_bytes-at size (x ∷ ps) (suc i) p pages e z =
    ground
      (arith, first_bytes-at size ps i p pages.2 e z, find_base-none x.base_addr ps i p pages.1 e)

-- After all the writes, every page of a well-formed image is in the flash memory.
pub stored-all :
    (mem : FlashMem) (i : ℕ) (p : FlashPage) (flash : Pages)
    → IsImage mem
    → get_elem? mem.page_list i ≡ some p
    → lookup_page p.base_addr (stored (plan mem.page_size mem.page_list) flash) ≡ some p.bytes
stored-all mem i p flash image e =
    let ps = mem.page_list in
    let blank : List ℕ = replicate mem.page_size 0xFF in
    elim (Option-cases (first_bytes ps)) [
      | inl none_first ↦ elim (Bool-cases (p.base_addr == 0)) [
        | inl z ↦ absurd (ground (arith, first_bytes-at mem.page_size ps i p image.pages e))
        | inr z ↦ rw none_first (others-store mem.page_size ps i p flash image.pages e z)
      ]
      | inr (bytes, some_first) ↦
          let started : Pages = store_page 0 blank flash in
          rw some_first (
            rw (stored-append (others ps) ((0, bytes) ∷ []) started) (
              lookup-store_page 0 p.base_addr bytes (stored (others ps) started)
              ∙ (elim (Bool-cases (p.base_addr == 0)) [
                | inl z ↦ ground (arith, first_bytes-at mem.page_size ps i p image.pages e)
                | inr z ↦ ground (arith, others-store mem.page_size ps i p started image.pages e z)
              ])))
    ]
