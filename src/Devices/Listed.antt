-- ===== src/Devices/Listed.antt =====
-- No configuration is left out of the dict (LoadConfigs of df10ch_setup_pkg/device_drv.py).
use df10ch_atmolight_control.Prelude.{
  ℕ, ◌+◌, ◌≡◌, refl, List, [], ◌∷◌, Text, text_eq, text_eq_refl, Option, none, some, All, arith,
  true, false, Bool-cases, inl, inr, text_eq→eq, sym, subst, ap, ◌∙◌, if◌then◌else◌,
}
use df10ch_atmolight_control.Result.{Result, ok, err}
use df10ch_atmolight_control.Ctrl.{Ctrl}
use df10ch_atmolight_control.Config.{Config}
use df10ch_atmolight_control.Devices.Loading.{
  Managed, ConfigMap, put_managed, find_managed, load_one, with_config, load_from,
}

-- The dict has a configuration under the id.
abbrev pub HasEntry : Text → ConfigMap → Type 0
HasEntry id map = (m : Managed) × (find_managed id map ≡ some m)

-- Two ids that a third one is compared with, itself equal to the first.
text_eq_cong : (k id key : Text) → text_eq k id ≡ true → text_eq k key ≡ text_eq id key
text_eq_cong k id key e = ap (λ t. text_eq t key) (text_eq→eq k id e)

find-put_managed :
    (key id : Text) (m : Managed) (map : ConfigMap)
    → find_managed key (put_managed id m map)
      ≡ (if text_eq id key then some m else find_managed key map)
unfolding put_managed find_managed
find-put_managed key id m [] = refl
find-put_managed key id m ((k, old) ∷ rest) = elim (Bool-cases (text_eq k id)) [
  | inl e ↦ ground (arith, text_eq_cong k id key e)
  | inr e ↦ elim (Bool-cases (text_eq k key)) [
    | inl e' ↦ ground (arith, other e e')
    | inr e' ↦ ground (arith, find-put_managed key id m rest)
  ]
]
  where
    other : text_eq k id ≡ false → text_eq k key ≡ true → text_eq id key ≡ false
    other e e' = elim (Bool-cases (text_eq id key)) [
      | inl same ↦ absurd (
          let k_is : text_eq k id ≡ true =
            ap (λ t. text_eq t id) (text_eq→eq k key e')
            ∙ ap (λ t. text_eq key t) (text_eq→eq id key same)
            ∙ text_eq_refl key in
          cc)
      | inr differ ↦ differ
    ]

put_managed-HasEntry :
    (id : Text) (m : Managed) (map : ConfigMap) → HasEntry id (put_managed id m map)
put_managed-HasEntry id m map = (
  m,
  find-put_managed id id m map
      ∙ ap (λ b. if b then some m else find_managed id map) (text_eq_refl id),
)

put_managed-keeps :
    (key id : Text) (m : Managed) (map : ConfigMap)
    → HasEntry key map
    → HasEntry key (put_managed id m map)
put_managed-keeps key id m map (old, h) = elim (Bool-cases (text_eq id key)) [
  | inl e ↦ (m, find-put_managed key id m map ∙ rw e refl)
  | inr e ↦ (old, find-put_managed key id m map ∙ rw e h)
]

-- What reading a controller gave, the controller's id then, and the dict: a configuration that was
-- read has an entry under the id.
abbrev pub IsListed : Result (Option Config) → Text → ConfigMap → Type 0
IsListed (ok none) id map = Unit {0}
IsListed (ok (some config)) id map = HasEntry id map
IsListed (err e) id map = Unit {0}

module _ {S : Type 0} (ctrl : Ctrl S) where
  abbrev Listed : ConfigMap → S → Type 0
  Listed map c = IsListed (load_one ctrl c).0 (ctrl.id (load_one ctrl c).1) map

  -- After a loop that succeeded, every configuration that a controller gives is in the dict.
  abbrev pub AllListed : List S → Result (Unit {0}) → ConfigMap → Type 0
  AllListed cs (ok u) map = All (Listed map) cs
  AllListed cs (err e) map = Unit {0}

  abbrev Keeps : ConfigMap → Result (Unit {0}) → ConfigMap → Type 0
  Keeps map (ok u) map' = (key : Text) → HasEntry key map → HasEntry key map'
  Keeps map (err e) map' = Unit {0}

  with_config-keeps :
      (key id : Text) (place : ℕ) (loaded : Option Config) (map : ConfigMap)
      → HasEntry key map
      → HasEntry key (with_config ctrl id place loaded map)
  with_config-keeps key id place none map h = h
  with_config-keeps key id place (some config) map h = put_managed-keeps key id _ map h

  with_config-IsListed :
      (id : Text) (place : ℕ) (loaded : Option Config) (map : ConfigMap)
      → IsListed (ok loaded) id (with_config ctrl id place loaded map)
  with_config-IsListed id place none map = tt
  with_config-IsListed id place (some config) map = put_managed-HasEntry id _ map

  IsListed-keeps :
      (r : Result (Option Config)) (id : Text) (map map' : ConfigMap)
      → ((key : Text) → HasEntry key map → HasEntry key map')
      → IsListed r id map
      → IsListed r id map'
  IsListed-keeps (ok none) id map map' k h = tt
  IsListed-keeps (ok (some config)) id map map' k h = k id h
  IsListed-keeps (err e) id map map' k h = tt

  -- What stands for a loop over `c ∷ cs` whose rest is known.
  after_one :
      (c : S) (cs : List S) (id : Text) (map map1 map' : ConfigMap) (r : Result (Unit {0}))
      → ((key : Text) → HasEntry key map → HasEntry key map1)
      → Listed map1 c
      → Keeps map1 r map' × AllListed cs r map'
      → Keeps map r map' × AllListed (c ∷ cs) r map'
  after_one c cs id map map1 map' (ok u) k here (keeps, all) = (
    λ key h. keeps key (k key h),
    (IsListed-keeps (load_one ctrl c).0 (ctrl.id (load_one ctrl c).1) map1 map' keeps here, all),
  )
  after_one c cs id map map1 map' (err e) k here later = (tt, tt)

  pub load_from-AllListed :
      (place : ℕ) (map : ConfigMap) (cs : List S)
      → (let (r, map', cs') = load_from ctrl place map cs in Keeps map r map' × AllListed cs r map')
  unfolding load_from
  load_from-AllListed place map [] = (λ key h. h, tt)
  load_from-AllListed place map (c ∷ cs) =
      by_result (load_one ctrl c).0 refl (λ map1. load_from-AllListed (place + 1) map1 cs)
    where
      id : Text
      id = ctrl.id (load_one ctrl c).1

      by_result :
          (q : Result (Option Config))
          → (load_one ctrl c).0 ≡ q
          → ((map1 : ConfigMap)
              → (let (r, map', cs') = load_from ctrl (place + 1) map1 cs in
                  Keeps map1 r map' × AllListed cs r map'))
          → (let (r, map', cs') = (elim q as (λ x. Result (Unit {0}) × ConfigMap × List S) [
            | ok loaded ↦
                let (r', map', cs') =
                  load_from ctrl (place + 1) (with_config ctrl id place loaded map) cs in
                (r', map', (load_one ctrl c).1 ∷ cs')
            | err x ↦ (err x, map, (load_one ctrl c).1 ∷ cs)
          ]) in
              Keeps map r map' × AllListed (c ∷ cs) r map')
      by_result (ok loaded) e later =
          let map1 = with_config ctrl id place loaded map in
          after_one c cs id map map1 (load_from ctrl (place + 1) map1 cs).1
            (load_from ctrl (place + 1) map1 cs).0
            (λ key h. with_config-keeps key id place loaded map h)
            (subst (λ q. IsListed q id map1) (sym e) (with_config-IsListed id place loaded map))
            (later map1)
      by_result (err x) e later = (tt, tt)
