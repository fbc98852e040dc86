-- ===== src/Update/Steps.antt =====
-- Flashing an image is writing its plan, step by step (firmwareUpdate of
-- df10ch_setup_pkg/device_dlg.py).
use df10ch_atmolight_control.Prelude.{
  ℕ, zero, suc, ◌+◌, ◌<◌, ◌≡◌, refl, sym, ap, ◌∙◌, false, List, [], ◌∷◌, ◌++◌, Option, none, some,
  arith, ◌==◌, get_elem?, replicate, Bool-cases, Option-cases, inl, inr,
}
use df10ch_atmolight_control.Result.{Result, ok, err, at}
use df10ch_atmolight_control.Exec.{Exec, pure, lift, continue, ◌>>◌, ◌>>=◌}
use df10ch_atmolight_control.Firmware.{
  FlashPage, base_of, last_hit, new_page, find_base, get_page_for_addr,
}
use df10ch_atmolight_control.Firmware.Image.{ArePages, IsImage, find_base-none}
use df10ch_atmolight_control.Firmware.Image.Pages.{Looked, find_base-some, last_hit-some}
use df10ch_atmolight_control.Update.{
  Target, Session, is_first, flash_others, flash_all, flash_pages,
}
use df10ch_atmolight_control.Update.Order.{others, first_bytes, first_bytes-at, plan}

-- The place that is looked up is the place of the page at address 0.
abbrev Marks : ℕ → Option ℕ → List FlashPage → Type 0
Marks i first [] = Unit {0}
Marks i first (p ∷ ps) = (is_first i first ≡ (p.base_addr == 0)) × Marks (i + 1) first ps

Marks-none : (i : ℕ) (ps : List FlashPage) → find_base 0 ps ≡ none → Marks i none ps
unfolding find_base
Marks-none i [] h = tt
Marks-none i (p ∷ ps) h = (ground arith, Marks-none (i + 1) ps (ground arith))

Marks-past : (i j : ℕ) (ps : List FlashPage) → j < i → find_base 0 ps ≡ none → Marks i (some j) ps
unfolding find_base
Marks-past i j [] h k = tt
Marks-past i j (p ∷ ps) h k = (ground arith, Marks-past (i + 1) j ps (omega arith) (ground arith))

Marks-some :
    (size i j : ℕ) (ps : List FlashPage) (p : FlashPage)
    → ArePages size ps
    → get_elem? ps j ≡ some p
    → p.base_addr ≡ 0
    → Marks i (some (i + j)) ps
Marks-some size i j [] p pages e z = tt
Marks-some size i zero (x ∷ ps) p pages e z =
    let z' : x.base_addr ≡ 0 = ground arith in
    (ground arith, Marks-past (i + 1) (i + 0) ps (omega arith) (rw z' at pages.1))
Marks-some size i (suc j) (x ∷ ps) p pages e z =
    let move : i + suc j ≡ i + 1 + j = omega arith in
    (
      ground (arith, find_base-none x.base_addr ps j p pages.1 e),
      rw move (Marks-some size (i + 1) j ps p pages.2 e z),
    )

first_bytes-none : (ps : List FlashPage) → find_base 0 ps ≡ none → first_bytes ps ≡ none
unfolding find_base
first_bytes-none [] h = refl
first_bytes-none (p ∷ ps) h = ground (arith, first_bytes-none ps)

-- Laws of the sequence of two methods.
>>-assoc :
    {S A B C : Type 0} (m : Exec S A) (k : Exec S B) (l : Exec S C) → (m >> k) >> l ≡ m >> (k >> l)
>>-assoc {S} {A} {B} {C} m k l = λ i s. by_result (m s).0 (m s).1 i
  where
    by_result :
        (r : Result A) (s : S)
        → continue (continue r (λ _. k) s).0 (λ _. l) (continue r (λ _. k) s).1
          ≡ continue r (λ _. k >> l) s
    by_result (ok a) s = refl
    by_result (err e) s = refl

>>-pure : {S : Type 0} (m : Exec S (Unit {0})) → m >> pure tt ≡ m
>>-pure {S} m = λ i s. by_result (m s).0 (m s).1 i
  where
    by_result : (r : Result (Unit {0})) (s : S) → continue r (λ _. pure tt) s ≡ (r, s)
    by_result (ok u) s = refl
    by_result (err e) s = refl

base_zero : (size : ℕ) → base_of size 0 ≡ 0
base_zero size = omega arith

module _ {S : Type 0} (target : Target S) where
  -- Writing pages in their order, up to the first error.
  abbrev pub write_steps : List (ℕ × List ℕ) → Exec S (Unit {0})
  write_steps [] = pure tt
  write_steps ((a, page) ∷ rest) = target.write_page a page >> write_steps rest

  write_steps-append :
      (xs ys : List (ℕ × List ℕ)) → write_steps (xs ++ ys) ≡ write_steps xs >> write_steps ys
  write_steps-append [] ys = refl
  write_steps-append ((a, page) ∷ xs) ys =
      ap (λ k. target.write_page a page >> k) (write_steps-append xs ys)
      ∙ sym (>>-assoc (target.write_page a page) (write_steps xs) (write_steps ys))

  flash_others-steps :
      (i : ℕ) (first : Option ℕ) (ps : List FlashPage)
      → Marks i first ps
      → flash_others target i first ps ≡ write_steps (others ps)
  unfolding flash_others
  flash_others-steps i first [] marks = refl
  flash_others-steps i first (p ∷ ps) marks = elim (Bool-cases (p.base_addr == 0)) [
    | inl e ↦ rw (marks.0, e) (flash_others-steps (i + 1) first ps marks.1)
    | inr e ↦
        rw (marks.0, e)
          (ap (λ k. target.write_page p.base_addr p.bytes >> k)
            (flash_others-steps (i + 1) first ps marks.1))
  ]

  flash_all-steps :
      (size : ℕ) (first : Option ℕ) (ps : List FlashPage)
      → ArePages size ps
      → Looked 0 ps first
      → flash_all target size first ps ≡ write_steps (plan size ps)
  unfolding flash_all new_page
  flash_all-steps size none ps pages looked =
      rw (first_bytes-none ps looked) (flash_others-steps 0 none ps (Marks-none 0 ps looked))
  flash_all-steps size (some j) ps pages (p, e, z) =
      let left : 0 + j ≡ j = omega arith in
      let marks : Marks 0 (some j) ps = rw left at (Marks-some size 0 j ps p pages e z) in
      let tail : Exec S (Unit {0}) =
        lift (at ps j) >>= λ q. target.write_page q.base_addr q.bytes in
      let last : List (ℕ × List ℕ) = (0, p.bytes) ∷ [] in
      let last_eq : tail ≡ write_steps last =
        rw (e, z) (sym (>>-pure (target.write_page 0 p.bytes))) in
      rw (first_bytes-at size ps j p pages e z, base_zero size)
        (ap (λ k. target.write_page 0 (replicate size 0xFF) >> k)
          (ap (λ k. k >> tail) (flash_others-steps 0 (some j) ps marks)
            ∙ (ap (λ k. write_steps (others ps) >> k) last_eq
                ∙ sym (write_steps-append (others ps) last))))

  -- With a well-formed image, flashing does what writing the pages of the plan in their order does:
  -- if the image has a page at address 0, an erased page there first, then every other page, then
  -- this page; otherwise every page. It ends with the same result and the same controller.
  pub flash_pages-steps :
      (s : Session S)
      → IsImage s.fw
      → ((flash_pages target s).0 ≡ (write_steps (plan s.fw.page_size s.fw.page_list) s.ctrl).0)
        × ((flash_pages target s).1.ctrl
            ≡ (write_steps (plan s.fw.page_size s.fw.page_list) s.ctrl).1)
  unfolding flash_pages get_page_for_addr
  flash_pages-steps s image =
      let size = s.fw.page_size in
      let ps = s.fw.page_list in
      let run = flash_all-steps size in
      let positive : (size == 0) ≡ false = (let pos = image.size_pos in ground arith) in
      rw (positive, base_zero size)
        (elim (Option-cases (last_hit 0 s.fw)) [
          | inr (i, e) ↦ rw (e, run (some i) ps image.pages (last_hit-some 0 i s.fw e)) (refl, refl)
          | inl e ↦ elim (Option-cases (find_base 0 ps)) [
            | inr (i, e') ↦
                rw (e, e', run (some i) ps image.pages (find_base-some 0 ps i e')) (refl, refl)
            | inl e' ↦ rw (e, e', run none ps image.pages e') (refl, refl)
          ]
        ])
