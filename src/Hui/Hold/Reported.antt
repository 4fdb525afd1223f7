-- ===== src/Hui/Hold/Reported.antt =====
-- What the readiness report tells of a hold, against what starting that hold does.
use oqlos.Base.{
  ℕ, String, ◌≡◌, refl, sym, ap, ◌∙◌, inl, inr, Bool, true, false, not, Option, none, some,
  some-injective, List, [], ◌∷◌, ◌++◌, map, arith, ◌==◌, if◌then◌else◌, is_some, Bool-cases, ◌>>=◌,
  any,
}
use oqlos.Base.Dict
use oqlos.Base.Dict.{Dict}
use oqlos.Power.{power_actuation_failure}
use oqlos.Hui.Gateway.{Gateway, State}
use oqlos.Hui.Operation.{Floats, Result, ok}
use oqlos.Hui.Profiles.{Profile, Config, get_hui_hold_profiles}
use oqlos.Hui.Readiness.{mem, read_plugin, required_plugins_failure, is_empty, Failure}
use oqlos.Hui.Readiness.Report.{
  ActionState, InputHealth, Report, is_ok, or_modbus, valve_action_state, read_controls, motors_of,
  motor_plugins, build_hui_readiness, report_of, reported,
}
use oqlos.Hui.Readiness.Preflight.{
  IsRequired, any_cong, is_some-first, is_empty-keep, is_some-required_plugins_failure,
}
use oqlos.Hui.Readiness.Agree.{is_ok-read_controls, mem-ids}
use oqlos.Hui.Hold.{
  start_hold, run_hold, HoldStart, start_known, start_profile, required_plugins, untouched,
}

module _ {F : Type 0} (fl : Floats F) (g : Gateway F) where
  -- What an action of valves and motors is told to be is what its preflight finds.
  module _ (ms : List String) (known : (x : String) → mem x ms ≡ true → mem x motor_plugins ≡ true)
      (r : IsRequired g.valve_controllers ms) where
    is_ok-controllers :
        any (is_ok (read_controls fl g)) g.valve_controllers
        ≡ any (λ x. (read_plugin g x).ok) g.valve_controllers
    is_ok-controllers =
        any_cong _ _ g.valve_controllers
          (λ x m. is_ok-read_controls fl g x ∙ rw (mem-ids fl g x, m) refl)

    is_ok-motors :
        any (λ x. not (is_ok (read_controls fl g) x)) ms ≡ any (λ x. not (read_plugin g x).ok) ms
    is_ok-motors =
        any_cong _ _ ms
          (λ x m. ap not (is_ok-read_controls fl g x ∙ ground (arith, mem-ids fl g x, known x m)))

    ready-valve_action_state :
        (command : String)
        → g.is_real ≡ true
        → (valve_action_state g.valve_controllers (read_controls fl g) ms).ready
          ≡ not (is_some (required_plugins_failure g (g.valve_controllers ++ ms) command false))
    unfolding valve_action_state
    ready-valve_action_state command real = ground (
      arith,
      is_some-first (is_ok (read_controls fl g)) g.valve_controllers,
      is_empty-keep (λ x. not (is_ok (read_controls fl g) x)) ms,
      is_ok-controllers,
      is_ok-motors,
      is_some-required_plugins_failure g ms r command real,
    )

  -- the motors of a profile

  motors_of-known :
      (p : Profile F) (x : String) → mem x (motors_of fl p) ≡ true → mem x motor_plugins ≡ true
  unfolding motors_of
  motors_of-known p x m = ground (arith, m)

  IsRequired-motors_of :
      (p : Profile F)
      → IsRequired g.valve_controllers motor_plugins
      → IsRequired g.valve_controllers (motors_of fl p)
  IsRequired-motors_of p r = record {
    some_controller = r.some_controller;
    named = r.named;
    motors_named = λ x m. r.motors_named x (motors_of-known p x m);
    apart = λ x m. r.apart x (motors_of-known p x m);
  }

  -- a power gate that is open

  required_plugins_failure-powered :
      (ids : List String) (command : String)
      → power_actuation_failure g.is_real g.power command false ≡ none
      → required_plugins_failure g ids command true ≡ required_plugins_failure g ids command false
  unfolding required_plugins_failure
  required_plugins_failure-powered ids command open_gate = rw open_gate refl

  -- the holds of the report

  get-map :
      {A B : Type 0} (f : A → B) (d : Dict A) (k : String) (v : A)
      → Dict.get d k ≡ some v
      → Dict.get (map (λ (e : String × A). (e.0, f e.1)) d) k ≡ some (f v)
  unfolding Dict.get
  get-map f [] k v e = cc e
  get-map f ((j, w) ∷ d) k v e = elim (Bool-cases (j == k)) [
    | inl same ↦ rw same (ap some (ap f (some-injective _ _ (ground (arith, e, same)))))
    | inr other ↦ rw other (get-map f d k v (ground (arith, e, other)))
  ]

  some-chain :
      {R B : Type 0} (a b c : Option Bool) (make : Bool → Bool → R) (field : R → B) (v : B)
      (made : R)
      → ((x y : Bool) → field (make x y) ≡ v)
      → (a >>= λ x. b >>= λ y. (if y then c else some false) >>= λ z. some (make x z)) ≡ some made
      → field made ≡ v
  unfolding ◌>>=◌
  some-chain (some x) (some true) (some z) make field v made h e =
      ap field (sym (some-injective _ _ e)) ∙ h x z
  some-chain (some x) (some true) none make field v made h e = cc e
  some-chain (some x) (some false) c make field v made h e =
      ap field (sym (some-injective _ _ e)) ∙ h x false
  some-chain (some x) none c make field v made h e = cc e
  some-chain none b c make field v made h e = cc e

  holds-report_of :
      (health : Option InputHealth) (profiles : List (String × Profile F)) (report : Report F)
      → report_of fl g health profiles ≡ some report
      → report.holds
        ≡ map
            (λ (e : String × Profile F). (
              e.0,
              valve_action_state
                  (or_modbus g.valve_controllers)
                  (read_controls fl g)
                  (motors_of fl e.1),
            ))
            profiles
  unfolding report_of
  holds-report_of health profiles report e =
      some-chain _ _ _ _ (λ (r : Report F). r.holds) _ report (λ x y. refl) e

  or_modbus-id : (cs : List String) → is_empty cs ≡ false → or_modbus cs ≡ cs
  or_modbus-id [] h = ground (arith, h)
  or_modbus-id (c ∷ cs) h = refl

  module _ (cfg : Config F) (now : ℕ) where
    start_hold-known :
        (key : String) (s : State F) (profiles : Dict (Profile F)) (p : Profile F)
        → get_hui_hold_profiles fl cfg ≡ ok profiles
        → Dict.get profiles (cfg.normalize key) ≡ some p
        → start_hold fl g cfg now key s ≡ start_profile fl g cfg now (cfg.normalize key) p s
    unfolding start_hold start_known
    start_hold-known key s profiles p e e' = rw (e, start_known, e') refl

    start_or_refuse :
        (key : String) (s : State F) (p : Profile F) (answer : Option Failure) (ready : Bool)
        → ready ≡ not (is_some answer)
        → elim answer as (λ _. Result (HoldStart F) × State F) [
          | some failure ↦ (ok (untouched key none (some failure)), s)
          | none ↦ run_hold fl g cfg now key p s
        ]
          ≡ (if ready then run_hold fl g cfg now key p s else (ok (untouched key none answer), s))
    start_or_refuse key s p none ready e = rw e refl
    start_or_refuse key s p (some failure) ready e = rw e refl

    -- what a profile's start does, by what its preflight answers
    start_profile-preflight :
        (key : String) (s : State F) (p : Profile F) (ready : Bool)
        → power_actuation_failure g.is_real g.power "hold_start" false ≡ none
        → ready
          ≡ not (
              is_some
                (required_plugins_failure g (required_plugins fl g cfg now p) "hold_start" false))
        → start_profile fl g cfg now key p s ≡ (
            if ready then run_hold fl g cfg now key p s else (
              ok (
                  untouched key none (
                    required_plugins_failure g
                      (required_plugins fl g cfg now p)
                      "hold_start"
                      true)),
              s,
            ))
    unfolding start_profile
    start_profile-preflight key s p ready open_gate e = start_or_refuse key s p _ ready (
        e
        ∙ ap (λ a. not (is_some a))
            (sym (
              required_plugins_failure-powered (required_plugins fl g cfg now p) "hold_start"
                open_gate)))

    -- On a real stand whose power gate is open, with at least one valve controller, no empty id
    -- among its controllers and motors, and no motor among the controllers: where the report tells
    -- that a hold is ready, its start passes the preflight, and does with the hardware what
    -- `run_hold` does, which may still fail; where it tells that the hold is not ready, the preflight
    -- refuses the start, with no hardware called and the state as it was. The plugins answer the
    -- report and the start alike.
    pub start_hold-build_hui_readiness :
        (key : String) (s : State F) (profiles : Dict (Profile F)) (p : Profile F)
        (health : Option InputHealth) (report : Report F) (state : ActionState)
        → g.is_real ≡ true
        → power_actuation_failure g.is_real g.power "hold_start" false ≡ none
        → IsRequired g.valve_controllers motor_plugins
        → get_hui_hold_profiles fl cfg ≡ ok profiles
        → Dict.get profiles (cfg.normalize key) ≡ some p
        → build_hui_readiness fl g cfg health ≡ some report
        → Dict.get report.holds (cfg.normalize key) ≡ some state
        → start_hold fl g cfg now key s ≡ (
            if state.ready then run_hold fl g cfg now (cfg.normalize key) p s else (
              ok (
                  untouched (cfg.normalize key) none (
                    required_plugins_failure g
                      (required_plugins fl g cfg now p)
                      "hold_start"
                      true)),
              s,
            ))
    unfolding required_plugins motors_of build_hui_readiness
    start_hold-build_hui_readiness key s profiles p health report state real open_gate r e e' built
          e'' =
        let hold_key = cfg.normalize key in
        let told : state
            ≡ valve_action_state g.valve_controllers (read_controls fl g) (motors_of fl p) =
          some-injective _ _ (
            sym e''
            ∙ ap (λ h. Dict.get h hold_key)
                (holds-report_of health profiles report (sym (ap (reported fl g health) e) ∙ built))
            ∙ get-map
                (λ (q : Profile F).
                  valve_action_state (or_modbus g.valve_controllers) (read_controls fl g)
                    (motors_of fl q))
                profiles hold_key p e')
          ∙ ap (λ cs. valve_action_state cs (read_controls fl g) (motors_of fl p))
              (or_modbus-id g.valve_controllers r.some_controller) in
        start_hold-known key s profiles p e e'
        ∙ start_profile-preflight hold_key s p state.ready open_gate (
            ap (λ (a : ActionState). a.ready) told
            ∙ ready-valve_action_state (motors_of fl p) (motors_of-known p)
                (IsRequired-motors_of p r) "hold_start" real)
