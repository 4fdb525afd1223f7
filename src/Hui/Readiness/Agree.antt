-- ===== src/Hui/Readiness/Agree.antt =====
-- The report tells of a hold what its preflight would answer, and where it cannot be made.
use oqlos.Base.{
  String, ◌≡◌, refl, sym, ap, ◌∙◌, inl, inr, Bool, true, false, not, ◌&&◌, ◌||◌, Option, none, some,
  List, [], ◌∷◌, map, arith, eq_iff, if◌then◌else◌, is_some, Bool-cases, ◌>>=◌, get_or,
}
use oqlos.Base.Dict
use oqlos.Base.Dict.{Dict, get-set}
use oqlos.Hui.Gateway.{Gateway, Probe, checked, invalid, type_error, failed}
use oqlos.Hui.Operation.{Floats, Result}
use oqlos.Hui.Profiles.{Profile, Config, get_hui_hold_profiles}
use oqlos.Hui.Readiness.{
  invalid_response, Check, mem, read_plugin, read_cached, read_uncached, read_fresh, read_again,
  public_readiness, is_empty,
}
use oqlos.Hui.Readiness.Report.{
  Controls, controls_of, is_ok, ok_of, or_modbus, head, first, read_controls, hui_control_plugins,
  motor_plugins, InputHealth, build_hui_readiness, report_of, reported,
}
use oqlos.Hui.Readiness.Preflight.{mem-append, cs}

abbrev pub profiles_ok : {A : Type 0} → Result A → Bool
profiles_ok (Result.ok _) = true
profiles_ok (Result.err _) = false

module _ {F : Type 0} (fl : Floats F) (g : Gateway F) where
  again_id : (id : String) (p : Probe) → (read_again id p).plugin_id ≡ id
  unfolding read_again public_readiness
  again_id id (checked ok status message) = refl
  again_id id invalid = refl
  again_id id type_error = refl
  again_id id failed = refl

  fresh_id :
      (id : String) (readiness : String → Bool → Probe) (p : Probe)
      → (read_fresh id readiness p).plugin_id ≡ id
  unfolding read_fresh public_readiness
  fresh_id id readiness (checked ok status message) = refl
  fresh_id id readiness invalid = refl
  fresh_id id readiness type_error = again_id id (readiness id true)
  fresh_id id readiness failed = refl

  uncached_id : (id : String) → (read_uncached g id).plugin_id ≡ id
  unfolding read_uncached
  uncached_id id =
      elim g.plugin_readiness
        as (λ r.
          (elim r as (λ _. Check) [
            | none ↦ invalid_response id
            | some readiness ↦ read_fresh id readiness (readiness id false)
          ]).plugin_id
          ≡ id) [ none ↦ refl | some readiness ↦ fresh_id id readiness (readiness id false) ]

  cached_id : (id : String) (p : Probe) → (read_cached g id p).plugin_id ≡ id
  unfolding read_cached public_readiness
  cached_id id (checked ok status message) = refl
  cached_id id invalid = refl
  cached_id id type_error = uncached_id id
  cached_id id failed = uncached_id id

  plugin_id-read_plugin : (id : String) → (read_plugin g id).plugin_id ≡ id
  unfolding read_plugin
  plugin_id-read_plugin id =
      elim g.plugin_cached_readiness
        as (λ r.
          (elim r as (λ _. Check) [
            | none ↦ read_uncached g id
            | some cached ↦ read_cached g id (cached id)
          ]).plugin_id
          ≡ id) [ none ↦ uncached_id id | some cached ↦ cached_id id (cached id) ]

  -- A check is found under its plugin's id.
  get-controls_of :
      (ids : List String) (d : Controls) (x : String)
      → Dict.get (controls_of (map (read_plugin g) ids) d) x
        ≡ (if mem x ids then some (read_plugin g x) else Dict.get d x)
  unfolding controls_of
  get-controls_of [] d x = refl
  get-controls_of (id ∷ ids) d x =
      let d' = Dict.set d (read_plugin g id).plugin_id (read_plugin g id) in
      get-controls_of ids d' x
      ∙ ground (
        arith,
        get-set d (read_plugin g id).plugin_id x (read_plugin g id),
        plugin_id-read_plugin id,
        eq_iff id x,
        eq_iff x id,
      )

  abbrev pub ids : List String
  ids = hui_control_plugins fl g

  get-read_controls :
      (x : String)
      → Dict.get (read_controls fl g) x ≡ (if mem x ids then some (read_plugin g x) else none)
  unfolding read_controls Dict.get
  get-read_controls x = get-controls_of ids [] x

  pub is_ok-read_controls :
      (x : String) → is_ok (read_controls fl g) x ≡ (mem x ids && (read_plugin g x).ok)
  unfolding is_ok
  is_ok-read_controls x = ground (arith, get-read_controls x)

  ok_of-read_controls :
      (x : String)
      → ok_of (read_controls fl g) x ≡ (if mem x ids then some (read_plugin g x).ok else none)
  unfolding ok_of
  ok_of-read_controls x = ground (arith, get-read_controls x)

  -- The chosen controller is one of those it was chosen from.
  mem-first :
      (p : String → Bool) (d : String) (all_ids xs : List String)
      → ((x : String) → mem x xs ≡ true → mem x all_ids ≡ true)
      → mem d all_ids ≡ true
      → mem (get_or (first p xs) d) all_ids ≡ true
  mem-first p d all_ids [] h m = m
  mem-first p d all_ids (x ∷ xs) h m = elim (Bool-cases (p x)) [
    | inl e ↦ rw e (h x (ground (arith, eq_iff x x)))
    | inr e ↦ rw e (mem-first p d all_ids xs (λ y o. h y (ground (arith, o))) m)
  ]

  mem-or_modbus :
      (cs : List String) (p : String → Bool)
      → is_empty cs ≡ false
      → mem (get_or (first p (or_modbus cs)) (head (or_modbus cs))) cs ≡ true
  mem-or_modbus [] p h = ground (arith, h)
  mem-or_modbus (x ∷ xs) p h =
      mem-first p x (x ∷ xs) (x ∷ xs) (λ y m. m) (ground (arith, eq_iff x x))

  is_some-ok_of : (x : String) → is_some (ok_of (read_controls fl g) x) ≡ mem x ids
  is_some-ok_of x = ground (arith, ok_of-read_controls x)

  pub mem-ids : (x : String) → mem x ids ≡ (mem x g.valve_controllers || mem x motor_plugins)
  unfolding hui_control_plugins
  mem-ids x = mem-append x g.valve_controllers motor_plugins

  is_some-motor :
      (x : String) → mem x motor_plugins ≡ true → is_some (ok_of (read_controls fl g) x) ≡ true
  is_some-motor x m = ground (arith, is_some-ok_of x, mem-ids x, m)

  -- the plugin that the report takes for the valves
  abbrev valve_plugin_of : List String → String
  valve_plugin_of cs =
      get_or (first (is_ok (read_controls fl g)) (or_modbus cs)) (head (or_modbus cs))

  is_some-valve_plugin :
      (cs : List String)
      → cs ≡ g.valve_controllers
      → is_some (ok_of (read_controls fl g) (valve_plugin_of cs)) ≡ not (is_empty cs)
  is_some-valve_plugin [] e =
      let absent : mem "modbus-io" ids ≡ false = rw (mem-ids "modbus-io", sym e) refl in
      ground (arith, is_some-ok_of "modbus-io", absent, is_ok-read_controls "modbus-io")
  is_some-valve_plugin (c ∷ cs) e = ground (
    arith,
    is_some-ok_of (valve_plugin_of (c ∷ cs)),
    mem-ids (valve_plugin_of (c ∷ cs)),
    ap (mem (valve_plugin_of (c ∷ cs))) e,
    mem-or_modbus (c ∷ cs) (is_ok (read_controls fl g)) refl,
  )

  is_some-chain :
      {R : Type 0} (a b c : Option Bool) (make : Bool → Bool → R)
      → is_some a ≡ true
      → is_some c ≡ true
      → is_some (a >>= λ x. b >>= λ y. (if y then c else some false) >>= λ z. some (make x z))
        ≡ is_some b
  unfolding ◌>>=◌
  is_some-chain a b c make some_a some_c = ground arith

  is_some-report_of :
      (health : Option InputHealth) (profiles : List (String × Profile F))
      → is_some (report_of fl g health profiles) ≡ not (is_empty g.valve_controllers)
  unfolding report_of
  is_some-report_of health profiles =
      is_some-chain (ok_of (read_controls fl g) "motor-tic249")
        (ok_of (read_controls fl g) (valve_plugin_of g.valve_controllers))
        (ok_of (read_controls fl g) "motor-dri0050") _ (is_some-motor "motor-tic249" refl)
        (is_some-motor "motor-dri0050" refl)
      ∙ is_some-valve_plugin g.valve_controllers refl

  is_some-reported :
      (health : Option InputHealth) (found : Result (Dict (Profile F)))
      → is_some (reported fl g health found)
        ≡ (profiles_ok found && not (is_empty g.valve_controllers))
  unfolding reported
  is_some-reported health (Result.ok profiles) = is_some-report_of health profiles
  is_some-reported health (Result.err e) = refl

  -- The readiness report can be made just where the profiles can be read, with every OQL recipe
  -- valid, and the gateway has a valve controller; otherwise the call raises.
  pub is_some-build_hui_readiness :
      (cfg : Config F) (health : Option InputHealth)
      → is_some (build_hui_readiness fl g cfg health)
        ≡ (profiles_ok (get_hui_hold_profiles fl cfg) && not (is_empty g.valve_controllers))
  unfolding build_hui_readiness
  is_some-build_hui_readiness cfg health = is_some-reported health (get_hui_hold_profiles fl cfg)
