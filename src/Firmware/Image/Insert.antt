-- ===== src/Firmware/Image/Insert.antt =====
-- FlashMem.insert on the memory that the pages stand for (df10ch_setup_pkg/firmware.py).
use native.Mathlib.Nat.{mod-lt}
use df10ch_atmolight_control.Prelude.{
  ℕ, zero, suc, ◌%◌, ◌<◌, ◌≡◌, refl, ◌∙◌, false, List, [], ◌∷◌, ◌++◌, Option, none, some, arith,
  ◌==◌, set, get_elem?, get_or, length, length-set, replicate, length-replicate, if◌then◌else◌,
  get_or-set, get_or-replicate,
}
use df10ch_atmolight_control.Result.{ok}
use df10ch_atmolight_control.Firmware.{
  FlashPage, FlashMem, base_of, new_page, page_insert, find_base, last_hit, remember,
  get_page_for_addr, write_at, insert,
}
use df10ch_atmolight_control.Firmware.Image.{
  page_content, content, IsPage, ArePages, IsImage, content-set, content-append, content-at,
  content-none,
}
use df10ch_atmolight_control.Firmware.Image.Pages.{
  StandsAt, find_base-some, last_hit-some, Looked, page_address, ArePages-set, ArePages-append,
}

-- What a memory holds after `value` was written at `addr` of `mem`.
abbrev pub Written : FlashMem → ℕ → ℕ → FlashMem → Type 0
Written mem addr value mem' =
    IsImage mem'
    × (mem'.page_size ≡ mem.page_size)
    × ((other : ℕ) → content mem' other ≡ (if addr == other then value else content mem other))

module _ (size addr value : ℕ) (ps : List FlashPage) (pages : ArePages size ps)
    (pos : 0 < size) where
  written_bytes :
      (bytes : List ℕ) (other : ℕ)
      → length bytes ≡ size
      → get_or (set bytes (addr % size) value) (other % size) 0xFF
        ≡ (if addr % size == other % size then value else get_or bytes (other % size) 0xFF)
  written_bytes bytes other h =
      get_or-set bytes (addr % size) (other % size) value 0xFF (rw h (mod-lt addr pos))

  set_content :
      (i other : ℕ) (p : FlashPage)
      → get_elem? ps i ≡ some p
      → p.base_addr ≡ base_of size addr
      → IsPage size p
      → page_content
          (base_of size other)
          (other % size)
          (set ps i (record p { bytes = set p.bytes (addr % size) value }))
        ≡ (if addr == other then value else page_content (base_of size other) (other % size) ps)
  set_content i other p e b page =
      let q : FlashPage = record p { bytes = set p.bytes (addr % size) value } in
      content-set size (base_of size other) (other % size) ps i p q pages e refl
      ∙ ground (
        arith,
        written_bytes p.bytes other page.length_eq,
        page_address size addr other pos,
        content-at size (base_of size other) (other % size) ps i p pages e,
      )

  append_content :
      (other : ℕ)
      → find_base (base_of size addr) ps ≡ none
      → page_content (base_of size other) (other % size) (
          ps
          ++ record (new_page addr size) {
            bytes = set (new_page addr size).bytes (addr % size) value;
          }
            ∷ [])
        ≡ (if addr == other then value else page_content (base_of size other) (other % size) ps)
  unfolding new_page
  append_content other none_there =
      content-append (base_of size other) (other % size) ps _ none_there
      ∙ ground (
        arith,
        written_bytes (replicate size 0xFF) other (length-replicate size 0xFF),
        page_address size addr other pos,
        get_or-replicate {A = ℕ} size (other % size) 0xFF,
        content-none (base_of size other) (other % size) ps,
      )

ArePages-get :
    (size : ℕ) (ps : List FlashPage) (i : ℕ) (p : FlashPage)
    → ArePages size ps
    → get_elem? ps i ≡ some p
    → IsPage size p
ArePages-get size [] i p h e = absurd (cc)
ArePages-get size (x ∷ ps) zero p h e = let same : x ≡ p = ground arith in rw (← same) h.0
ArePages-get size (x ∷ ps) (suc i) p h e = ArePages-get size ps i p h.2 e

-- The page with one byte written.
abbrev overwritten : ℕ → ℕ → ℕ → FlashPage → FlashPage
overwritten size addr value p = record p { bytes = set p.bytes (addr % size) value }

write_at_found-eq :
    (addr value i : ℕ) (mem mem' : FlashMem) (p : FlashPage)
    → get_elem? mem.page_list i ≡ some p
    → p.page_size ≡ mem.page_size
    → write_at addr value (some i) mem ≡ ok mem'
    → mem' ≡ record mem { page_list = set mem.page_list i (overwritten mem.page_size addr value p) }
unfolding write_at page_insert
write_at_found-eq addr value i mem mem' p e s h = ground arith

write_at_missing-eq :
    (addr value : ℕ) (mem mem' : FlashMem)
    → write_at addr value none mem ≡ ok mem'
    → mem' ≡ record mem {
      page_list =
          mem.page_list ++ overwritten mem.page_size addr value (new_page addr mem.page_size) ∷ [];
    }
unfolding write_at page_insert new_page
write_at_missing-eq addr value mem mem' h = ground arith

write_at_found :
    (addr value i : ℕ) (mem mem' : FlashMem)
    → IsImage mem
    → StandsAt (base_of mem.page_size addr) mem.page_list i
    → write_at addr value (some i) mem ≡ ok mem'
    → Written mem addr value mem'
write_at_found addr value i mem mem' image (p, e, b) h =
    let page = ArePages-get mem.page_size mem.page_list i p image.pages e in
    let q = overwritten mem.page_size addr value p in
    let q_page : IsPage mem.page_size q = record {
      size_eq = page.size_eq;
      length_eq = length-set p.bytes (addr % mem.page_size) value ∙ page.length_eq;
    } in
    rw (write_at_found-eq addr value i mem mem' p e page.size_eq h) (
      record {
        size_pos = image.size_pos;
        pages = ArePages-set mem.page_size mem.page_list i p q image.pages e refl q_page;
      },
      refl,
      λ other.
          unfold content in
          set_content mem.page_size addr value mem.page_list image.pages image.size_pos i other p e
            b page,
    )

write_at_missing :
    (addr value : ℕ) (mem mem' : FlashMem)
    → IsImage mem
    → find_base (base_of mem.page_size addr) mem.page_list ≡ none
    → write_at addr value none mem ≡ ok mem'
    → Written mem addr value mem'
write_at_missing addr value mem mem' image none_there h =
    let q = overwritten mem.page_size addr value (new_page addr mem.page_size) in
    let q_page : IsPage mem.page_size q =
      unfold new_page in
      record {
        size_eq = refl;
        length_eq =
            length-set (replicate mem.page_size 0xFF) (addr % mem.page_size) value
            ∙ length-replicate mem.page_size 0xFF;
      } in
    rw (write_at_missing-eq addr value mem mem' h) (
      record {
        size_pos = image.size_pos;
        pages =
            ArePages-append mem.page_size mem.page_list q image.pages
              (unfold new_page in none_there) q_page;
      },
      refl,
      λ other.
          unfold content in
          append_content mem.page_size addr value mem.page_list image.pages image.size_pos other
            none_there,
    )

write_at-Looked :
    (addr value : ℕ) (found : Option ℕ) (mem mem' : FlashMem)
    → IsImage mem
    → Looked (base_of mem.page_size addr) mem.page_list found
    → write_at addr value found mem ≡ ok mem'
    → Written mem addr value mem'
write_at-Looked addr value none mem mem' image l h = write_at_missing addr value mem mem' image l h
write_at-Looked addr value (some i) mem mem' image l h =
    write_at_found addr value i mem mem' image l h

-- Which page was found last makes no difference to what is written.
remember-Written :
    (addr value : ℕ) (hit found : Option ℕ) (mem mem' : FlashMem)
    → IsImage mem
    → ((i : ℕ) → hit ≡ some i → StandsAt (base_of mem.page_size addr) mem.page_list i)
    → find_base (base_of mem.page_size addr) mem.page_list ≡ found
    → (let (place, looked) = remember hit found mem in write_at addr value place looked) ≡ ok mem'
    → Written mem addr value mem'
unfolding content
remember-Written addr value (some i) found mem mem' image h k e =
    write_at-Looked addr value (some i) mem mem' image (h i refl) e
remember-Written addr value none (some i) mem mem' image h k e =
    write_at-Looked addr value (some i) (record mem { last_lookup = some i }) mem'
      (record { size_pos = image.size_pos; pages = image.pages })
      (find_base-some (base_of mem.page_size addr) mem.page_list i k) e
remember-Written addr value none none mem mem' image h k e =
    write_at-Looked addr value none mem mem' image k e

pub insert-Written :
    (addr value : ℕ) (mem mem' : FlashMem)
    → IsImage mem
    → insert addr value mem ≡ ok mem'
    → Written mem addr value mem'
insert-Written addr value mem mem' image h =
    let base = base_of mem.page_size addr in
    let positive : (mem.page_size == 0) ≡ false = (let pos = image.size_pos in ground arith) in
    remember-Written addr value (last_hit base mem) (find_base base mem.page_list) mem mem' image
      (λ i e. last_hit-some base i mem e) refl (unfold insert get_page_for_addr in rw positive at h)

write_at_returns :
    (addr value : ℕ) (found : Option ℕ) (mem : FlashMem)
    → value < 256
    → Looked (base_of mem.page_size addr) mem.page_list found
    → (mem' : FlashMem) × (write_at addr value found mem ≡ ok mem')
unfolding write_at page_insert
write_at_returns addr value none mem h l =
    let page = new_page addr mem.page_size in
    let page' : FlashPage = record page { bytes = set page.bytes (addr % page.page_size) value } in
    (record mem { page_list = mem.page_list ++ page' ∷ [] }, ground arith)
write_at_returns addr value (some i) mem h (p, e, b) =
    let p' : FlashPage = record p { bytes = set p.bytes (addr % p.page_size) value } in
    (record mem { page_list = set mem.page_list i p' }, ground arith)

remember_returns :
    (addr value : ℕ) (hit found : Option ℕ) (mem : FlashMem)
    → value < 256
    → ((i : ℕ) → hit ≡ some i → StandsAt (base_of mem.page_size addr) mem.page_list i)
    → find_base (base_of mem.page_size addr) mem.page_list ≡ found
    → (mem' : FlashMem) × ((let (place, looked) = remember hit found mem in
          write_at addr value place looked)
        ≡ ok mem')
remember_returns addr value (some i) found mem v h k =
    write_at_returns addr value (some i) mem v (h i refl)
remember_returns addr value none (some i) mem v h k =
    write_at_returns addr value (some i) (record mem { last_lookup = some i }) v
      (find_base-some (base_of mem.page_size addr) mem.page_list i k)
remember_returns addr value none none mem v h k = write_at_returns addr value none mem v k

insert_returns :
    (addr value : ℕ) (mem : FlashMem)
    → IsImage mem
    → value < 256
    → (mem' : FlashMem) × (insert addr value mem ≡ ok mem')
insert_returns addr value mem image h =
    let base = base_of mem.page_size addr in
    let positive : (mem.page_size == 0) ≡ false = (let pos = image.size_pos in ground arith) in
    let (mem', e) =
      remember_returns addr value (last_hit base mem) (find_base base mem.page_list) mem h
        (λ i f. last_hit-some base i mem f) refl in
    (mem', unfold insert get_page_for_addr in rw positive e)

-- An insertion of a byte into well-formed pages succeeds, leaves them well formed, and changes the
-- memory that they stand for at one address: there the byte is read, everywhere else what was read
-- before. Which page was found last makes no difference.
pub insert_lem :
    (addr value : ℕ) (mem : FlashMem)
    → IsImage mem
    → value < 256
    → (mem' : FlashMem) × (insert addr value mem ≡ ok mem') × Written mem addr value mem'
insert_lem addr value mem image h =
    let (mem', e) = insert_returns addr value mem image h in
    (mem', e, insert-Written addr value mem mem' image e)
