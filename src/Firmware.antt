-- ===== src/Firmware.antt =====
-- The flash image of a firmware file (df10ch_setup_pkg/firmware.py: FlashPage and FlashMem). The hex
-- file is read in `Load`.
pub mod Image
pub mod Load
pub mod Numbers
pub mod Checks
use df10ch_atmolight_control.Prelude.{
  ℕ, zero, suc, ◌+◌, ◌-◌, ◌%◌, List, [], ◌∷◌, ◌++◌, Text, Option, none, some, ltb, ◌==◌, set,
  get_elem?, replicate, if◌then◌else◌,
}
use df10ch_atmolight_control.Result.{
  Result, ok, err, ◌>>=◌, at, byte, flash, index_error, zero_division,
}

pub record FlashPage : Type 0 where
  pub page_size : ℕ
  pub base_addr : ℕ
  pub bytes : List ℕ

abbrev pub base_of : ℕ → ℕ → ℕ
base_of size addr = addr - addr % size

unfoldable pub new_page : ℕ → ℕ → FlashPage
new_page addr size = record {
  page_size = size;
  base_addr = base_of size addr;
  bytes = replicate size 0xFF;
}

unfoldable pub page_insert : ℕ → ℕ → FlashPage → Result FlashPage
page_insert addr value page = do
  v ← byte value
  ok (record page { bytes = set page.bytes (addr % page.page_size) v })

-- The loop over the page's bytes: the first that differs raises.
unfoldable pub verify_bytes : List ℕ → List ℕ → Result (Unit {0})
verify_bytes read [] = ok tt
verify_bytes [] (y ∷ ys) = err index_error
verify_bytes (x ∷ xs) (y ∷ ys) =
    let rest = verify_bytes xs ys in if x == y then rest else err (flash none)

unfoldable pub verify : List ℕ → FlashPage → Result (Unit {0})
unfolding verify_bytes
verify read page = verify_bytes read page.bytes

-- `last_lookup` is the place in the list of the page that was found last: the program holds the page
-- object itself, which stays in the list.
pub record FlashMem : Type 0 where
  pub page_size : ℕ
  pub page_list : List FlashPage
  pub last_lookup : Option ℕ
  pub target : Option Text
  pub version : Option Text

abbrev pub new_mem : ℕ → FlashMem
new_mem size = record {
  page_size = size;
  page_list = [];
  last_lookup = none;
  target = none;
  version = none;
}

-- The place of the first page with this base.
unfoldable pub find_base : ℕ → List FlashPage → Option ℕ
find_base base [] = none
find_base base (p ∷ ps) =
    let later = elim (find_base base ps) as (λ o. Option ℕ) [
      | none ↦ none
      | some i ↦ some (suc i)
    ] in
    if p.base_addr == base then some 0 else later

abbrev pub is_base : ℕ → Option FlashPage → Option ℕ → Option ℕ
is_base base none i = none
is_base base (some p) i = if p.base_addr == base then i else none

-- `self.lastLookupPage`, if it has this base.
abbrev pub last_hit : ℕ → FlashMem → Option ℕ
last_hit base mem = elim mem.last_lookup [
  | none ↦ none
  | some i ↦ is_base base (get_elem? mem.page_list i) (some i)
]

-- The page found last is tried first; a page that is found by the search is remembered.
abbrev pub remember : Option ℕ → Option ℕ → FlashMem → Option ℕ × FlashMem
remember (some i) found mem = (some i, mem)
remember none (some i) mem = (some i, record mem { last_lookup = some i })
remember none none mem = (none, mem)

unfoldable pub get_page_for_addr : ℕ → FlashMem → Option ℕ × FlashMem
get_page_for_addr addr mem =
    let base = base_of mem.page_size addr in
    remember (last_hit base mem) (find_base base mem.page_list) mem

-- Where a page is found it is written in place; otherwise a new page is written and appended.
unfoldable pub write_at : ℕ → ℕ → Option ℕ → FlashMem → Result FlashMem
write_at addr value none mem = do
  page ← page_insert addr value (new_page addr mem.page_size)
  ok (record mem { page_list = mem.page_list ++ page ∷ [] })
write_at addr value (some i) mem = do
  page ← at mem.page_list i
  page' ← page_insert addr value page
  ok (record mem { page_list = set mem.page_list i page' })

unfoldable pub insert : ℕ → ℕ → FlashMem → Result FlashMem
insert addr value mem =
    if mem.page_size == 0
    then err zero_division
    else (let (found, mem') = get_page_for_addr addr mem in write_at addr value found mem')
