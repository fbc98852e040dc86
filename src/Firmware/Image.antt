-- ===== src/Firmware/Image.antt =====
-- The pages of a FlashMem as one memory: an insertion changes one byte of it
-- (df10ch_setup_pkg/firmware.py).
pub mod Pages
pub mod Insert
use df10ch_atmolight_control.Prelude.{
  ℕ, zero, suc, ◌+◌, ◌-◌, ◌%◌, ◌<◌, ◌≤◌, ◌≡◌, ◌≢◌, refl, sym, ap, ◌∙◌, Bool, true, false, List, [],
  ◌∷◌, ◌++◌, Option, none, some, arith, ltb, ◌==◌, ==_iff, set, get_elem?, get_or, length,
  length-set, replicate, length-replicate, if◌then◌else◌, Bool-cases, Option-cases, inl, inr,
  get_or-set_self, get_or-set_ne, get_or-replicate,
}
use df10ch_atmolight_control.Result.{Result, ok, err, ◌>>=◌, at, byte}
use df10ch_atmolight_control.Firmware.{
  FlashPage, FlashMem, base_of, new_page, page_insert, find_base, last_hit, get_page_for_addr,
  write_at, insert,
}

-- The byte at an offset of the page with this base; what no page covers is erased.
pub page_content : ℕ → ℕ → List FlashPage → ℕ
page_content base off [] = 0xFF
page_content base off (p ∷ ps) =
    if p.base_addr == base then get_or p.bytes off 0xFF else page_content base off ps

pub content : FlashMem → ℕ → ℕ
content mem addr = page_content (base_of mem.page_size addr) (addr % mem.page_size) mem.page_list

-- A page of this size, with as many bytes.
pub record IsPage (size : ℕ) (p : FlashPage) : Type 0 where
  pub size_eq : p.page_size ≡ size
  pub length_eq : length p.bytes ≡ size

-- Every page is one of this size, and no base occurs twice.
abbrev pub ArePages : ℕ → List FlashPage → Type 0
ArePages size [] = Unit
ArePages size (p ∷ ps) = IsPage size p × (find_base p.base_addr ps ≡ none) × ArePages size ps

pub record IsImage (mem : FlashMem) : Type 0 where
  pub size_pos : 0 < mem.page_size
  pub pages : ArePages mem.page_size mem.page_list

pub find_base-none :
    (base : ℕ) (ps : List FlashPage) (i : ℕ) (p : FlashPage)
    → find_base base ps ≡ none
    → get_elem? ps i ≡ some p
    → (p.base_addr == base) ≡ false
unfolding find_base
find_base-none base [] i p h e = absurd (cc)
find_base-none base (x ∷ ps) zero p h e = ground arith
find_base-none base (x ∷ ps) (suc i) p h e = ground (arith, find_base-none base ps i p)

-- A page that is written in place is the content of its base.
content-set :
    (size b o : ℕ) (ps : List FlashPage) (i : ℕ) (p q : FlashPage)
    → ArePages size ps
    → get_elem? ps i ≡ some p
    → q.base_addr ≡ p.base_addr
    → page_content b o (set ps i q)
      ≡ (if p.base_addr == b then get_or q.bytes o 0xFF else page_content b o ps)
unfolding page_content
content-set size b o [] i p q h e s = absurd (cc)
content-set size b o (x ∷ ps) zero p q h e s = ground arith
content-set size b o (x ∷ ps) (suc i) p q h e s =
    ground (arith, content-set size b o ps i p q h.2 e s, find_base-none x.base_addr ps i p h.1 e)

content-append :
    (b o : ℕ) (ps : List FlashPage) (q : FlashPage)
    → find_base q.base_addr ps ≡ none
    → page_content b o (ps ++ q ∷ [])
      ≡ (if q.base_addr == b then get_or q.bytes o 0xFF else page_content b o ps)
unfolding page_content find_base
content-append b o [] q h = refl
content-append b o (x ∷ ps) q h = ground (arith, content-append b o ps q)

-- Where a base is found, the content is that of the page found.
content-at :
    (size b o : ℕ) (ps : List FlashPage) (i : ℕ) (p : FlashPage)
    → ArePages size ps
    → get_elem? ps i ≡ some p
    → p.base_addr ≡ b
    → page_content b o ps ≡ get_or p.bytes o 0xFF
unfolding page_content
content-at size b o [] i p h e s = absurd (cc)
content-at size b o (x ∷ ps) zero p h e s = ground arith
content-at size b o (x ∷ ps) (suc i) p h e s =
    ground (arith, content-at size b o ps i p h.2 e s, find_base-none x.base_addr ps i p h.1 e)

content-none : (b o : ℕ) (ps : List FlashPage) → find_base b ps ≡ none → page_content b o ps ≡ 0xFF
unfolding page_content find_base
content-none b o [] h = refl
content-none b o (x ∷ ps) h = ground (arith, content-none b o ps)
