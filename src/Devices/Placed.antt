-- ===== src/Devices/Placed.antt =====
-- Every configuration that is loaded names its controller
-- (LoadConfigs of df10ch_setup_pkg/device_drv.py).
use mathlib.Core.List.{append_assoc}
use df10ch_atmolight_control.Prelude.{
  zero, ◌++◌, subst, get_elem?, get_elem?-append_left, get_elem?-some-lt, get_elem?-middle,
  length-append, ℕ, suc, ◌+◌, ◌≡◌, refl, sym, ap, ◌∙◌, List, [], ◌∷◌, Text, text_eq, text_eq→eq,
  Option, none, some, length, All, arith, Bool-cases, inl, inr,
}
use df10ch_atmolight_control.Result.{Result, ok, err}
use df10ch_atmolight_control.Exec.{Exec}
use df10ch_atmolight_control.Ctrl.{Ctrl}
use df10ch_atmolight_control.Config.{Config}
use df10ch_atmolight_control.Config.Methods.{read}
use df10ch_atmolight_control.Devices.Listed.{AllListed, load_from-AllListed}
use df10ch_atmolight_control.Devices.Loading.{
  Managed, ConfigMap, put_managed, load_one, with_config, load_from, load_configs,
}

module _ {S : Type 0} (ctrl : Ctrl S) where
  -- The controller that stood at the configuration's place before the loop, `c`, and what stands
  -- there now, `c'`: reading `c` gave the configuration and made it `c'`, whose id is the key.
  pub record IsPlaced (before after : List S) (entry : Text × Managed) : Type 0 where
    pub c : S
    pub c' : S
    pub stood : get_elem? before entry.1.place ≡ some c
    pub stands : get_elem? after entry.1.place ≡ some c'
    pub was_read : load_one ctrl c ≡ (ok (some entry.1.config), c')
    pub has_key : ctrl.id c' ≡ entry.0
    pub has_id : entry.1.config.id ≡ entry.0

  -- The first `k` controllers have been asked, and the others are as they were.
  abbrev pub visited : ℕ → List S → List S
  visited zero cs = cs
  visited (suc k) [] = []
  visited (suc k) (c ∷ cs) = (load_one ctrl c).1 ∷ visited k cs

  read-id :
      (s : S) (config : Config) → (read ctrl s).0 ≡ ok config → config.id ≡ ctrl.id (read ctrl s).1
  unfolding read
  read-id s config h = ground arith

  load_one-id :
      (s : S) (config : Config)
      → (load_one ctrl s).0 ≡ ok (some config)
      → config.id ≡ ctrl.id (load_one ctrl s).1
  unfolding load_one
  load_one-id s config h = ground (arith, read-id (ctrl.get_pwm_bootloader_mode s).1 config)

  IsPlaced-append :
      (before after cs ds : List S) (entry : Text × Managed)
      → IsPlaced before after entry
      → IsPlaced (before ++ cs) (after ++ ds) entry
  IsPlaced-append before after cs ds entry p = record {
    c = p.c;
    c' = p.c';
    stood =
        get_elem?-append_left before cs entry.1.place
          (get_elem?-some-lt before entry.1.place p.c p.stood)
        ∙ p.stood;
    stands =
        get_elem?-append_left after ds entry.1.place
          (get_elem?-some-lt after entry.1.place p.c' p.stands)
        ∙ p.stands;
    was_read = p.was_read;
    has_key = p.has_key;
    has_id = p.has_id;
  }

  All-IsPlaced-append :
      (before after cs ds : List S) (map : ConfigMap)
      → All (IsPlaced before after) map
      → All (IsPlaced (before ++ cs) (after ++ ds)) map
  All-IsPlaced-append before after cs ds [] h = tt
  All-IsPlaced-append before after cs ds (e ∷ map) h =
      (IsPlaced-append before after cs ds e h.0, All-IsPlaced-append before after cs ds map h.1)

  -- A dict whose entries are placed stays so when a placed one is put into it.
  put_managed-IsPlaced :
      (before after : List S) (id : Text) (m : Managed) (map : ConfigMap)
      → All (IsPlaced before after) map
      → IsPlaced before after (id, m)
      → All (IsPlaced before after) (put_managed id m map)
  unfolding put_managed
  put_managed-IsPlaced before after id m [] h k = (k, tt)
  put_managed-IsPlaced before after id m ((key, old) ∷ rest) h k =
      elim (Bool-cases (text_eq key id)) [
        | inl e ↦
            rw e
              (subst (λ name. IsPlaced before after (name, m)) (sym (text_eq→eq key id e)) k, h.1)
        | inr e ↦ rw e (h.0, put_managed-IsPlaced before after id m rest h.1 k)
      ]

  new-IsPlaced :
      (before after : List S) (c : S) (config : Config) (place : ℕ)
      → place ≡ length before
      → place ≡ length after
      → (load_one ctrl c).0 ≡ ok (some config)
      → (let c' = (load_one ctrl c).1 in
          IsPlaced
            (before ++ c ∷ [])
            (after ++ c' ∷ [])
            (ctrl.id c', record { config = config; place = place }))
  new-IsPlaced before after c config place e e' h =
      let c' = (load_one ctrl c).1 in
      record {
        c = c;
        c' = c';
        stood = get_elem?-middle before [] c place (sym e);
        stands = get_elem?-middle after [] c' place (sym e');
        was_read = ap (λ r. (r, c')) h;
        has_key = refl;
        has_id = load_one-id c config h;
      }

  abbrev Outcome : List S → List S → List S → Result (Unit {0}) × ConfigMap × List S → Type 0
  Outcome before after cs (r, map, ds) =
      All (IsPlaced (before ++ cs) (after ++ ds)) map × ((k : ℕ) × (ds ≡ visited k cs))

  Outcome-step :
      (before after cs : List S) (c : S) (r : Result (Unit {0}) × ConfigMap × List S)
      → Outcome (before ++ c ∷ []) (after ++ (load_one ctrl c).1 ∷ []) cs r
      → Outcome before after (c ∷ cs) (r.0, r.1, (load_one ctrl c).1 ∷ r.2)
  Outcome-step before after cs c r (placed, (k, same)) =
      let c' = (load_one ctrl c).1 in
      (
        subst (λ l. All (IsPlaced l (after ++ c' ∷ r.2)) r.1) (append_assoc before (c ∷ []) cs)
            (subst (λ l. All (IsPlaced ((before ++ c ∷ []) ++ cs) l) r.1)
              (append_assoc after (c' ∷ []) r.2) placed),
        (suc k, ap (λ l. c' ∷ l) same),
      )

  -- The dict and the list after the loop, from a dict that is placed in the list before `place`.
  load_from-Outcome :
      (place : ℕ) (before after : List S) (map : ConfigMap) (cs : List S)
      → place ≡ length before
      → place ≡ length after
      → All (IsPlaced before after) map
      → Outcome before after cs (load_from ctrl place map cs)
  unfolding load_from
  load_from-Outcome place before after map [] e e' h =
      (All-IsPlaced-append before after [] [] map h, (0, refl))
  load_from-Outcome place before after map (c ∷ cs) e e' h =
      by_result (load_one ctrl c).0 (new-IsPlaced before after c) λ map' k.
        load_from-Outcome (place + 1) (before ++ c ∷ []) (after ++ (load_one ctrl c).1 ∷ []) map' cs
          (omega (arith, e, length-append {0} before (c ∷ [])))
          (omega (arith, e', length-append {0} after ((load_one ctrl c).1 ∷ []))) k
    where
      c' : S
      c' = (load_one ctrl c).1

      old : All (IsPlaced (before ++ c ∷ []) (after ++ c' ∷ [])) map
      old = All-IsPlaced-append before after (c ∷ []) (c' ∷ []) map h

      by_result :
          (r : Result (Option Config))
          → ((config : Config) (i : ℕ)
              → i ≡ length before
              → i ≡ length after
              → r ≡ ok (some config)
              → IsPlaced
                  (before ++ c ∷ [])
                  (after ++ c' ∷ [])
                  (ctrl.id c', record { config = config; place = i }))
          → ((map' : ConfigMap)
              → All (IsPlaced (before ++ c ∷ []) (after ++ c' ∷ [])) map'
              → Outcome
                  (before ++ c ∷ [])
                  (after ++ c' ∷ [])
                  cs
                  (load_from ctrl (place + 1) map' cs))
          → Outcome before after (c ∷ cs) (elim r as (λ x. Result (Unit {0}) × ConfigMap × List S) [
            | ok loaded ↦
                let (r', map', cs') =
                  load_from ctrl (place + 1) (with_config ctrl (ctrl.id c') place loaded map) cs in
                (r', map', c' ∷ cs')
            | err x ↦ (err x, map, c' ∷ cs)
          ])
      by_result (ok none) new later =
          Outcome-step before after cs c (load_from ctrl (place + 1) map cs) (later map old)
      by_result (ok (some config)) new later =
          let m : Managed = record { config = config; place = place } in
          let map' = put_managed (ctrl.id c') m map in
          Outcome-step before after cs c (load_from ctrl (place + 1) map' cs) (
            later map' (
              put_managed-IsPlaced (before ++ c ∷ []) (after ++ c' ∷ []) (ctrl.id c') m map old
                (new config place e e' refl)))
      by_result (err x) new later =
          (All-IsPlaced-append before after (c ∷ cs) (c' ∷ cs) map h, (1, refl))

  -- After LoadConfigs, whether it succeeds or an exception ended it, for any FindDevices: each
  -- configuration is what reading the controller at its place gave, stands under the id of that
  -- controller and has it as its own id; the list is the one that FindDevices made, in which the
  -- controllers up to one have changed as asking and reading them changes them; and if it succeeds,
  -- the id of every controller that gives a configuration has an entry.
  pub load_configs-IsPlaced :
      (find : Exec (List S) (Unit {0})) (devices : List S)
      → (let (r, map, cs) = load_configs ctrl find devices in
          let found = (find devices).1 in
          All (IsPlaced found cs) map
          × ((k : ℕ) × (cs ≡ visited k found))
          × AllListed ctrl found r map)
  unfolding load_configs
  load_configs-IsPlaced find devices = by_found (find devices).0
    where
      by_found :
          (r : Result (Unit {0}))
          → (let (r', map, cs) = (elim r as (λ x. Result (Unit {0}) × ConfigMap × List S) [
            | err e ↦ (err e, [], (find devices).1)
            | ok u ↦ load_from ctrl 0 [] (find devices).1
          ]) in
              All (IsPlaced (find devices).1 cs) map
              × ((k : ℕ) × (cs ≡ visited k (find devices).1))
              × AllListed ctrl (find devices).1 r' map)
      by_found (err e) = (tt, (0, refl), tt)
      by_found (ok u) =
          let (placed, changed) = load_from-Outcome 0 [] [] [] (find devices).1 refl refl tt in
          (placed, changed, (load_from-AllListed ctrl 0 [] (find devices).1).1)
