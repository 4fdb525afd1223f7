-- ===== src/Hui/Hold.antt =====
-- Starting a hold: `_start_hui_hold_unlocked` and the helpers that it calls, of
-- oqlos/hardware/hui_hold.py.
pub mod Requests
pub mod Pump
pub mod Active
pub mod Invariant
pub mod Reported
use oqlos.Base.{
  ℕ, String, Bool, true, false, not, ◌&&◌, ◌||◌, Option, none, some, List, [], ◌∷◌, ◌++◌, ◌==◌, ltb,
  if◌then◌else◌, is_some,
}
use Prim.Native.String.{◌++◌ as append_text}
use oqlos.Base.Dict
use oqlos.Base.Dict.{Dict}
use oqlos.Hui.Gateway.{Gateway, State, call, replace_valves_exact}
use oqlos.Hui.Readiness.{Failure, required_plugins_failure}
use oqlos.Hui.Operation.{
  Floats, Result, ok, err, Operation, valve_ids, seconds, plain, uncaught, set_valve_op,
  set_pump_op, set_pump_best_effort,
}
use oqlos.Hui.Shutdown.{Shutdown, shutdown}
use oqlos.Hui.Profiles.{Profile, Config, get_hui_hold_profiles}

-- What a start answers. `failure` is the preflight's, and `cleanup` the shutdown's answer after a
-- hardware operation failed.
pub record HoldStart (F : Type 0) : Type 0 where
  pub ok : Bool
  pub key : String
  pub error : Option String
  pub failure : Option Failure
  pub operations : List (Operation F)
  pub cleanup : Option (Shutdown F)

-- The hardware is prepared so far by these operations, or the start has failed.
pub data Prepared (F : Type 0) : Type 0 where
  ready : List (Operation F) → Prepared F
  refused : HoldStart F → Prepared F

-- the rest of a coroutine after an `await` that may raise
abbrev bind :
    {F A B : Type 0} → Result A × State F → (A → State F → Result B × State F) → Result B × State F
bind (ok a, s) k = k a s
bind (err e, s) k = (err e, s)

abbrev key_is : Option String → String → Bool
key_is none key = false
key_is (some k) key = k == key

abbrev not_ok : {F : Type 0} → Option (Operation F) → Bool
not_ok none = false
not_ok (some o) = not o.ok

abbrev as_list : {A : Type 0} → Option A → List A
as_list none = []
as_list (some x) = x ∷ []

abbrev stagger_ms : {F : Type 0} → Config F → Profile F → ℕ
stagger_ms cfg p = elim p.valve_stagger_ms [ none ↦ cfg.default_valve_stagger_ms | some ms ↦ ms ]

module _ {F : Type 0} where
  -- a start that has called no hardware
  abbrev pub untouched : String → Option String → Option Failure → HoldStart F
  untouched key error failure = record {
    ok = false;
    key = key;
    error = error;
    failure = failure;
    operations = [];
    cleanup = none;
  }

  abbrev answer_refused :
      (List (Operation F) → State F → Result (HoldStart F) × State F)
      → Prepared F
      → State F
      → Result (HoldStart F) × State F
  answer_refused k (ready operations) s = k operations s
  answer_refused k (refused answer) s = (ok answer, s)

  -- The hold is active from here on; `now` is the reading of `perf_counter_ns`.
  abbrev activated : String → ℕ → List (Operation F) → State F → Result (HoldStart F) × State F
  activated key now operations s = (
    ok (record {
      ok = true;
      key = key;
      error = none;
      failure = none;
      operations = operations;
      cleanup = none;
    }),
    record s { active_hold_key = some key; active_hold_started_at = some now },
  )

module _ {F : Type 0} (fl : Floats F) (g : Gateway F) where
  -- `_hold_start_failure`, after the shutdown that each caller makes first
  unfoldable pub refuse :
      String → String → List (Operation F) → State F → Result (Prepared F) × State F
  refuse key error operations s =
      let (cleanup, s') = shutdown fl g false s in
      (
        ok (
            refused (record {
              ok = false;
              key = key;
              error = some error;
              failure = none;
              operations = operations;
              cleanup = some cleanup;
            })),
        s',
      )

  -- `_engage_hold_valves`
  unfoldable pub engage_valves :
      String → List String → List (Operation F) → State F → Result (Prepared F) × State F
  unfolding refuse
  engage_valves key [] operations s = (ok (ready operations), s)
  engage_valves key (valve_id ∷ ids) operations s = bind (set_valve_op fl g valve_id true s) λ o s'.
      let operations' = operations ++ o ∷ [] in
      let rest = engage_valves key ids operations' s' in
      if o.ok
      then rest
      else refuse key (append_text "Valve " (append_text valve_id " failed")) operations' s'

  -- `_engage_hold_pump_if_needed`
  unfoldable pub engage_pump :
      String → F → List (Operation F) → State F → Result (Prepared F) × State F
  unfolding refuse
  engage_pump key pct operations s =
      let started = bind (set_pump_op fl g pct s) λ o s'.
        let operations' = operations ++ o ∷ [] in
        if o.ok
        then (ok (ready operations'), s')
        else refuse key "Pump command failed" operations' s' in
      if fl.is_zero pct then (ok (ready operations), s) else started

  -- the call of `replace_valves_exact`
  unfoldable pub replace_op : List String → State F → Result (Operation F) × State F
  unfolding call uncaught
  replace_op ids s =
      let (r, s') = call g (replace_valves_exact ids) s in
      (uncaught fl "replace_valves" (valve_ids ids) r, s')

  module _ (cfg : Config F) where
    -- the `valve_stagger` operation, after a sleep that makes no call
    abbrev staggered : Bool → Profile F → List (Operation F)
    staggered already_active p =
        if not already_active && (ltb 0 (stagger_ms cfg p) && not (fl.is_zero p.pump_pct))
        then record {
          operation = "valve_stagger";
          ok = true;
          detail = seconds (stagger_ms cfg p);
          reply = none;
        }
          ∷ []
        else []

    -- `need_pump_off`, and the pump-off that it asks for
    unfoldable pub pump_off_first : Bool → State F → Option (Operation F) × State F
    unfolding set_pump_best_effort
    pump_off_first already_active s =
        let idle = not (is_some s.active_hold_key) in
        let (o, s') = set_pump_best_effort fl g (fl.of_int 0) s in
        if not already_active && not (cfg.skip_idle_pump_off && idle)
        then (some o, s')
        else (none, s)

    -- the branch for a gateway that replaces all valves in one request
    unfoldable pub prepare_exact : String → Profile F → State F → Result (Prepared F) × State F
    unfolding pump_off_first replace_op refuse
    prepare_exact key p s =
        let already_active = key_is s.active_hold_key key in
        let (pump_off, s') = pump_off_first already_active s in
        bind (replace_op p.valves_on s') λ o s''.
          let operations = as_list pump_off ++ o ∷ [] in
          if not_ok pump_off || not o.ok
          then refuse key "Exact valve preparation failed" operations s''
          else (ok (ready (operations ++ staggered already_active p)), s'')

  -- the branch that shuts everything down and opens the valves one by one
  unfoldable pub prepare_each : String → Profile F → State F → Result (Prepared F) × State F
  unfolding engage_valves
  prepare_each key p s =
      let (safe, s') = shutdown fl g true s in
      let o : Operation F = record {
        operation = "shutdown";
        ok = safe.ok;
        detail = plain;
        reply = none;
      } in
      engage_valves key p.valves_on (o ∷ []) s'

  abbrev exact_replace : Bool
  exact_replace =
      g.has_replace_valves_exact
      && elim g.supports_exact_valve_replace [ none ↦ true | some supported ↦ supported ]

  module _ (cfg : Config F) (now : ℕ) where
    unfoldable pub prepare : String → Profile F → State F → Result (Prepared F) × State F
    unfolding prepare_exact prepare_each
    prepare key p s = if exact_replace then prepare_exact cfg key p s else prepare_each key p s

    -- after the preflight
    unfoldable pub run_hold : String → Profile F → State F → Result (HoldStart F) × State F
    unfolding prepare engage_pump
    run_hold key p s = bind (prepare key p s) (
        answer_refused λ operations s'.
          bind (engage_pump key p.pump_pct operations s') (answer_refused (activated key now)))

    unfoldable pub required_plugins : Profile F → List String
    required_plugins p =
        g.valve_controllers ++ (if fl.is_zero p.pump_pct then [] else "motor-dri0050" ∷ [])

    unfoldable pub start_profile : String → Profile F → State F → Result (HoldStart F) × State F
    unfolding run_hold required_plugins
    start_profile key p s =
        elim (required_plugins_failure g (required_plugins p) "hold_start" true) [
          | some failure ↦ (ok (untouched key none (some failure)), s)
          | none ↦ run_hold key p s
        ]

    start_known : String → Result (Dict (Profile F)) → State F → Result (HoldStart F) × State F
    unfolding start_profile
    start_known key (err e) s =
        (ok (untouched key (some (append_text "Invalid OQL hold profile: " e)) none), s)
    start_known key (ok profiles) s = elim (Dict.get profiles key) [
      | none ↦ (ok (untouched key (some "Unknown HUI hold key") none), s)
      | some p ↦ start_profile key p s
    ]

    -- `_start_hui_hold_unlocked`
    unfoldable pub start_hold : String → State F → Result (HoldStart F) × State F
    unfolding start_known
    start_hold key s =
        let hold_key = cfg.normalize key in start_known hold_key (get_hui_hold_profiles fl cfg) s
