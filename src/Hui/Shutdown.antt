-- ===== src/Hui/Shutdown.antt =====
-- `_shutdown_all_hui_hardware_unlocked` and `_shutdown_progress` of oqlos/hardware/hui_hold.py.
pub mod Trace
pub mod Confirm
use oqlos.Base.{
  String, Bool, true, false, not, ◌&&◌, Option, none, some, List, [], ◌∷◌, map, ◌==◌, if◌then◌else◌,
  all, keep,
}
use oqlos.Hui.Gateway.{Gateway, State}
use oqlos.Hui.Readiness.{Failure, mem, required_plugins_failure}
use oqlos.Hui.Operation.{
  Floats, Operation, Detail, valve, all_valve_ids, set_pump_best_effort, all_valves_off_op,
  each_valve_off,
}

pub record Progress : Type 0 where
  pub pump_off : Bool
  pub valves_off : List String

-- `requested` is the same for every shutdown: the pump, and all valves.
pub record Shutdown (F : Type 0) : Type 0 where
  pub ok : Bool
  pub status : String
  pub degraded : Bool
  pub operations : List (Operation F)
  pub requested : Progress
  pub executed : Progress
  pub confirmed : Progress
  pub failure : Option Failure

-- `str(operation.get("valve_id"))`
abbrev valve_id_of : {F : Type 0} → Detail F → String
valve_id_of (valve valve_id value) = valve_id
valve_id_of _ = "None"

-- `set(…).issuperset(HUI_ALL_VALVE_IDS)`
unfoldable pub covers : List String → Bool
covers ids = all (λ id. mem id ids) all_valve_ids

module _ {F : Type 0} where
  abbrev named : String → List (Operation F) → List (Operation F)
  named name operations = keep (λ (o : Operation F). o.operation == name) operations

  abbrev nonempty : List (Operation F) → Bool
  nonempty [] = false
  nonempty (_ ∷ _) = true

  -- `bool(operations and operations[-1].get("ok"))`
  abbrev last_ok : List (Operation F) → Bool
  last_ok [] = false
  last_ok (o ∷ []) = o.ok
  last_ok (o ∷ p ∷ rest) = last_ok (p ∷ rest)

  abbrev valve_names : List (Operation F) → List String
  valve_names operations = map (λ (o : Operation F). valve_id_of o.detail) operations

  -- `_shutdown_progress`: what was executed, and what was confirmed
  unfoldable pub executed : List (Operation F) → Progress
  executed operations = record {
    pump_off = nonempty (named "set_pump" operations);
    valves_off =
        if nonempty (named "all_valves_off" operations)
        then all_valve_ids
        else valve_names (named "set_valve" operations);
  }

  unfoldable pub confirmed : List (Operation F) → Progress
  confirmed operations = record {
    pump_off = last_ok (named "set_pump" operations);
    valves_off =
        if last_ok (named "all_valves_off" operations)
        then all_valve_ids
        else valve_names (keep (λ (o : Operation F). o.ok) (named "set_valve" operations));
  }

  unfoldable pub report : List (Operation F) → Option Failure → Bool → Shutdown F
  unfolding executed confirmed
  report operations failure ok = record {
    ok = ok;
    status = if ok then "safe" else "partial";
    degraded = not ok;
    operations = operations;
    requested = record { pump_off = true; valves_off = all_valve_ids };
    executed = executed operations;
    confirmed = confirmed operations;
    failure = failure;
  }

module _ {F : Type 0} (fl : Floats F) (g : Gateway F) where
  -- the valves one by one, unless one transaction has cleared them
  unfoldable pub valves_off : State F → List (Operation F) × State F
  unfolding all_valves_off_op each_valve_off
  valves_off s =
      let (bulk, s') = all_valves_off_op fl g s in
      let (each, s'') = each_valve_off fl g all_valve_ids s' in
      elim bulk [ none ↦ (each, s'') | some o ↦ if o.ok then (o ∷ [], s') else (o ∷ each, s'') ]

  -- after the readiness probe
  unfoldable pub finish : Operation F → Option Failure → State F → Shutdown F × State F
  unfolding valves_off report covers
  finish pump (some failure) s = (report (pump ∷ []) (some failure) false, s)
  finish pump none s =
      let (valves, s') = valves_off s in
      let progress = confirmed (pump ∷ valves) in
      (report (pump ∷ valves) none (progress.pump_off && covers progress.valves_off), s')

  unfoldable pub shutdown : Bool → State F → Shutdown F × State F
  unfolding set_pump_best_effort finish required_plugins_failure
  shutdown modbus_prechecked s =
      let idle = record s { active_hold_key = none; active_hold_started_at = none } in
      let (pump, s') = set_pump_best_effort fl g (fl.of_int 0) idle in
      let failure =
        if modbus_prechecked
        then none
        else required_plugins_failure g g.valve_controllers "shutdown" false in
      finish pump failure s'
