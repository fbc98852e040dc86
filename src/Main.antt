-- ===== src/Main.antt =====
-- The main window and the start of the program (df10ch_setup_pkg/setup_dlg.py, df10ch_setup.py). A
-- sheet is named by its title; the widgets are left out.
use mathlib.Core.Option.{some-injective}
use df10ch_atmolight_control.Prelude.{
  ℕ, zero, suc, ◌+◌, ◌≡◌, refl, ap, sym, ◌∙◌, subst, List, [], ◌∷◌, ◌++◌, Text, text_eq, Bool,
  if◌then◌else◌, Option, none, some, length, length-append, get_elem?-append_left,
  get_elem?-some-lt, text_eq_refl, get_elem?, ltb, arith, Option-cases, inl, inr,
}
use df10ch_atmolight_control.Exec.{Exec, pure, ◌>>=◌}
use df10ch_atmolight_control.Decimal.{codes}
use df10ch_atmolight_control.Ctrl.{Ctrl}
use df10ch_atmolight_control.DeviceDialog.{Dialog}
use df10ch_atmolight_control.DeviceDialog.Scan.{scan_devices}

-- A button has the value that it gives to `choice`, and the sheet that it displays. `packed` are the
-- sheets that are visible.
pub record SetupDialog : Type 0 where
  pub active_sheet : Option Text
  pub count : ℕ
  pub choice : ℕ
  pub buttons : List (ℕ × Text)
  pub packed : List Text

abbrev pub empty_dialog : SetupDialog
empty_dialog = record { active_sheet = none; count = 0; choice = 0; buttons = []; packed = [] }

unfoldable pub forget : Text → List Text → List Text
forget sheet [] = []
forget sheet (s ∷ rest) =
    let others = forget sheet rest in if text_eq s sheet then others else s ∷ others

-- `sheet.pack`: a sheet that is packed already keeps one place.
abbrev pub pack : Text → List Text → List Text
pack sheet packed = forget sheet packed ++ sheet ∷ []

unfoldable pub add_sheet : Text → SetupDialog → SetupDialog
add_sheet sheet d =
    let d' = record d { buttons = d.buttons ++ (d.count, sheet) ∷ []; count = d.count + 1 } in
    elim d.active_sheet [
      | some active ↦ d'
      | none ↦ record d' { packed = pack sheet d.packed; active_sheet = some sheet }
    ]

-- (Without an active sheet there is no button that could call it.)
unfoldable pub display_sheet : Text → SetupDialog → SetupDialog
display_sheet sheet d = elim d.active_sheet [
  | none ↦ d
  | some active ↦ record d {
    packed = pack sheet (forget active d.packed);
    active_sheet = some sheet;
  }
]

-- A click on the button at this place.
unfoldable pub click : ℕ → SetupDialog → SetupDialog
click place d = elim (get_elem? d.buttons place) [
  | none ↦ d
  | some (value, sheet) ↦ display_sheet sheet (record d { choice = value })
]

unfoldable pub add_sheets : List Text → SetupDialog → SetupDialog
add_sheets [] d = d
add_sheets (sheet ∷ sheets) d = add_sheets sheets (add_sheet sheet d)

unfoldable pub click_all : List ℕ → SetupDialog → SetupDialog
click_all [] d = d
click_all (place ∷ places) d = click_all places (click place d)

-- The sheets of the program.
unfoldable pub sheets : List Text
sheets =
    codes "Devices"
    ∷ codes "RGB-Areas"
    ∷ codes "Mapping"
    ∷ codes "White Calibration"
    ∷ codes "Common Brightness"
    ∷ []

-- The size of the areas' window: that of the screen, or a small one to debug.
unfoldable pub window_size : ℕ → ℕ × ℕ → ℕ × ℕ
window_size debug screen = if ltb debug 1 then screen else (1280, 720)

module _ {S : Type 0} (ctrl : Ctrl S) (find : Exec (List S) (Unit {0}))
    (main_loop : Exec (Dialog S) (Unit {0})) where
  -- The main loop runs only if the scan has found a controller. `find` is FindDevices, and `answers`
  -- is what the user answers to it.
  unfoldable pub start : List Bool → Exec (Dialog S) (Unit {0})
  start answers = scan_devices ctrl find answers >>= λ found. elim found [
    | none ↦ pure tt
    | some b ↦ if b then main_loop else pure tt
  ]

-- The values of the buttons count from `n`.
abbrev pub Numbered : ℕ → List (ℕ × Text) → Type 0
Numbered n [] = Unit {0}
Numbered n (b ∷ bs) = (b.0 ≡ n) × Numbered (suc n) bs

Numbered-last :
    (n : ℕ) (bs : List (ℕ × Text)) (value : ℕ) (sheet : Text)
    → Numbered n bs
    → value ≡ n + length bs
    → Numbered n (bs ++ (value, sheet) ∷ [])
Numbered-last n [] value sheet h e = (omega arith, tt)
Numbered-last n (b ∷ bs) value sheet h e =
    (h.0, Numbered-last (suc n) bs value sheet h.1 (omega arith))

Numbered-at :
    (n : ℕ) (bs : List (ℕ × Text)) (place : ℕ) (b : ℕ × Text)
    → Numbered n bs
    → get_elem? bs place ≡ some b
    → b.0 ≡ n + place
Numbered-at n [] place b h found = absurd (cc)
Numbered-at n (x ∷ bs) zero b h found =
    ap (λ y. y.0) (sym (some-injective x b found)) ∙ h.0 ∙ omega arith
Numbered-at n (x ∷ bs) (suc place) b h found =
    Numbered-at (suc n) bs place b h.1 found ∙ omega arith

-- The active sheet is the only one that is packed, and it is the one of the button that is chosen.
pub record ShowsChosen (d : SetupDialog) : Type 0 where
  pub sheet : Text
  pub is_active : d.active_sheet ≡ some sheet
  pub only_packed : d.packed ≡ sheet ∷ []
  pub is_chosen : get_elem? d.buttons d.choice ≡ some (d.choice, sheet)
  pub counted : d.count ≡ length d.buttons
  pub numbered : Numbered 0 d.buttons

abbrev with_button : Text → SetupDialog → SetupDialog
with_button sheet d = record d { buttons = d.buttons ++ (d.count, sheet) ∷ []; count = d.count + 1 }

add_sheet-active :
    (sheet active : Text) (d : SetupDialog)
    → d.active_sheet ≡ some active
    → add_sheet sheet d ≡ with_button sheet d
unfolding add_sheet
add_sheet-active sheet active d h =
    (ap
      (λ a. elim a as (λ x. SetupDialog) [
        | some active ↦ with_button sheet d
        | none ↦ record (with_button sheet d) {
          packed = pack sheet d.packed;
          active_sheet = some sheet;
        }
      ])
      h)

add_sheet-ShowsChosen :
    (sheet : Text) (d : SetupDialog) → ShowsChosen d → ShowsChosen (add_sheet sheet d)
add_sheet-ShowsChosen sheet d h =
    subst ShowsChosen (sym (add_sheet-active sheet h.sheet d h.is_active)) (record {
      sheet = h.sheet;
      is_active = h.is_active;
      only_packed = h.only_packed;
      is_chosen =
          get_elem?-append_left d.buttons ((d.count, sheet) ∷ []) d.choice
            (get_elem?-some-lt d.buttons d.choice (d.choice, h.sheet) h.is_chosen)
          ∙ h.is_chosen;
      counted = omega (arith, length-append {0} d.buttons ((d.count, sheet) ∷ []), h.counted);
      numbered = Numbered-last 0 d.buttons d.count sheet h.numbered (omega (arith, h.counted));
    })

forget_only : (sheet : Text) → forget sheet (sheet ∷ []) ≡ []
unfolding forget
forget_only sheet = rw (text_eq_refl sheet) refl

abbrev chosen : ℕ → Text → List Text → SetupDialog → SetupDialog
chosen value sheet packed d = record d {
  choice = value;
  packed = packed;
  active_sheet = some sheet;
}

display_sheet-active :
    (sheet active : Text) (d : SetupDialog)
    → d.active_sheet ≡ some active
    → d.packed ≡ active ∷ []
    → display_sheet sheet d ≡ chosen d.choice sheet (sheet ∷ []) d
unfolding display_sheet forget
display_sheet-active sheet active d h only =
    (ap
        (λ a. elim a as (λ x. SetupDialog) [
          | none ↦ d
          | some active ↦ chosen d.choice sheet (pack sheet (forget active d.packed)) d
        ])
        h
      ∙ ap (λ packed. chosen d.choice sheet (pack sheet (forget active packed)) d) only
      ∙ ap (λ packed. chosen d.choice sheet (pack sheet packed) d) (forget_only active))

click-found :
    (place value : ℕ) (sheet : Text) (d : SetupDialog)
    → get_elem? d.buttons place ≡ some (value, sheet)
    → click place d ≡ display_sheet sheet (record d { choice = value })
unfolding click
click-found place value sheet d found = rw (found, click) refl

click-missing : (place : ℕ) (d : SetupDialog) → get_elem? d.buttons place ≡ none → click place d ≡ d
unfolding click
click-missing place d missing = rw (missing, click) refl

click-ShowsChosen : (place : ℕ) (d : SetupDialog) → ShowsChosen d → ShowsChosen (click place d)
click-ShowsChosen place d h = elim (Option-cases (get_elem? d.buttons place)) [
  | inl missing ↦ subst ShowsChosen (sym (click-missing place d missing)) h
  | inr ((value, sheet), found) ↦
      let value_eq : value ≡ place =
        Numbered-at 0 d.buttons place (value, sheet) h.numbered found ∙ omega arith in
      subst ShowsChosen
        (sym (
          click-found place value sheet d found
          ∙ display_sheet-active sheet h.sheet (record d { choice = value }) h.is_active
              h.only_packed))
        (record {
          sheet = sheet;
          is_active = refl;
          only_packed = refl;
          is_chosen = subst (λ v. get_elem? d.buttons v ≡ some (value, sheet)) (sym value_eq) found;
          counted = h.counted;
          numbered = h.numbered;
        })
]

add_sheets-ShowsChosen :
    (sheets : List Text) (d : SetupDialog) → ShowsChosen d → ShowsChosen (add_sheets sheets d)
unfolding add_sheets
add_sheets-ShowsChosen [] d h = h
add_sheets-ShowsChosen (sheet ∷ sheets) d h =
    add_sheets-ShowsChosen sheets (add_sheet sheet d) (add_sheet-ShowsChosen sheet d h)

click_all-ShowsChosen :
    (places : List ℕ) (d : SetupDialog) → ShowsChosen d → ShowsChosen (click_all places d)
unfolding click_all
click_all-ShowsChosen [] d h = h
click_all-ShowsChosen (place ∷ places) d h =
    click_all-ShowsChosen places (click place d) (click-ShowsChosen place d h)

first-ShowsChosen : (sheet : Text) → ShowsChosen (add_sheet sheet empty_dialog)
unfolding add_sheet forget
first-ShowsChosen sheet = record {
  sheet = sheet;
  is_active = refl;
  only_packed = refl;
  is_chosen = refl;
  counted = refl;
  numbered = (refl, tt);
}

-- Once there is a first sheet, whatever sheets are added after it and whatever buttons are clicked
-- then: one sheet is visible, it is the active one, and it is the sheet of the button that is chosen.
pub clicks-ShowChosen :
    (first : Text) (rest : List Text) (places : List ℕ)
    → ShowsChosen (click_all places (add_sheets (first ∷ rest) empty_dialog))
clicks-ShowChosen first rest places =
    click_all-ShowsChosen places (add_sheets (first ∷ rest) empty_dialog) (
      unfold add_sheets in
      add_sheets-ShowsChosen rest (add_sheet first empty_dialog) (first-ShowsChosen first))
