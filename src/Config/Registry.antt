-- ===== src/Config/Registry.antt =====
-- The dict of configurations (ConfigMap of df10ch_setup_pkg/device_drv.py) and the dict of outputs
-- that each has.
use df10ch_atmolight_control.Prelude.{
  ◌≡◌, refl, List, [], ◌∷◌, Text, text_eq, text_eq→eq, true, false, Option, none, some,
  if◌then◌else◌, Bool-cases, inl, inr, arith,
}
use df10ch_atmolight_control.Config.{Config, MapRec, ChannelMap}

-- `ConfigMap`, without the controllers: the configurations by the controllers' ids, in the order in
-- which the program goes through them.
abbrev pub Configs : Type 0
Configs = List (Text × Config)

unfoldable pub find_config : Text → Configs → Option Config
find_config id [] = none
find_config id ((k, config) ∷ rest) =
    let later = find_config id rest in if text_eq k id then some config else later

unfoldable pub store_config : Text → Config → Configs → Configs
store_config id config [] = []
store_config id config ((k, old) ∷ rest) =
    let later = store_config id config rest in
    if text_eq k id then (k, config) ∷ rest else (k, old) ∷ later

unfoldable pub find_entry : Text → ChannelMap → Option (Option MapRec)
find_entry name [] = none
find_entry name ((k, entry) ∷ rest) =
    let later = find_entry name rest in if text_eq k name then some entry else later

-- `channelMap[name] = entry`
unfoldable pub store_entry : Text → Option MapRec → ChannelMap → ChannelMap
store_entry name entry [] = (name, entry) ∷ []
store_entry name entry ((k, old) ∷ rest) =
    let later = store_entry name entry rest in
    if text_eq k name then (k, entry) ∷ rest else (k, old) ∷ later

-- A text that equals one of two texts tells whether it equals the other.
text_eq-same : (k name other : Text) → text_eq k name ≡ true → text_eq k other ≡ text_eq name other
text_eq-same k name other h = rw (text_eq→eq k name h) refl

-- Two texts that a third one tells apart differ.
text_eq-apart :
    (k name other : Text)
    → text_eq k name ≡ false
    → text_eq k other ≡ true
    → text_eq name other ≡ false
text_eq-apart k name other h e = elim (Bool-cases (text_eq name other)) [
  | inl same ↦ let ne = rw (text_eq→eq name other same) at h in cc
  | inr apart ↦ apart
]

-- An output that is set is found, and no other changes.
pub find-store_entry :
    (name other : Text) (entry : Option MapRec) (m : ChannelMap)
    → find_entry other (store_entry name entry m)
      ≡ (if text_eq name other then some entry else find_entry other m)
unfolding find_entry store_entry
find-store_entry name other entry [] = refl
find-store_entry name other entry ((k, old) ∷ rest) = elim (Bool-cases (text_eq k name)) [
  | inl e ↦ rw (e, text_eq-same k name other e) (ground arith)
  | inr e ↦ rw e (elim (Bool-cases (text_eq k other)) [
    | inl e' ↦ rw (e', text_eq-apart k name other e e') refl
    | inr e' ↦ rw e' (find-store_entry name other entry rest)
  ])
]

-- A configuration that is replaced is found, and no other changes.
pub find-store_config :
    (id other : Text) (config old : Config) (configs : Configs)
    → find_config id configs ≡ some old
    → find_config other (store_config id config configs)
      ≡ (if text_eq id other then some config else find_config other configs)
unfolding find_config store_config
find-store_config id other config old [] found = absurd (cc)
find-store_config id other config old ((k, c) ∷ rest) found = elim (Bool-cases (text_eq k id)) [
  | inl e ↦ rw (e, text_eq-same k id other e) (ground arith)
  | inr e ↦
      let found' = rw e at found in
      rw e (elim (Bool-cases (text_eq k other)) [
        | inl e' ↦ rw (e', text_eq-apart k id other e e') refl
        | inr e' ↦ rw e' (find-store_config id other config old rest found')
      ])
]
