-- ===== src/Tests/GateRuns.antt =====
-- Thresholds, conditions and actions of scripts, run at concrete inputs.
use oqlos.Base.{ℕ, String, ◌≡◌, refl, true, false, Option, none, some, [], ◌∷◌}
use mathlib.Core.Option.{none-ne-some}
use oqlos.Oql.World.Table.{oql_handlers, action_handler}
use oqlos.Oql.World.Goals.{after_steps, execute_single_goal-IsGood}
use oqlos.Oql.World.Names.{KeepsThresholds}
use oqlos.Oql.World.Actions.{Devices}
use oqlos.Oql.World.Live.{scalar, live_outcome, status-evaluate_resolved_condition}
use oqlos.Oql.World.Sensors.{compare_sensor, scalar_op}
use oqlos.Oql.World.Conditions.{evaluate_resolved_condition}
use oqlos.Base.Dict
use oqlos.Oql.Variables
use oqlos.Oql.Blocks.{Header, action, empty, more}
use oqlos.Oql.Interpreter.{Goal, Effect, Interpreter, execute_action, failed}
use oqlos.Oql.Interpreter.Scripts.{
  execute_single_goal, execute_steps, execute_step, execute_actions, noted,
}
use oqlos.Oql.World.{
  World, Threshold, OqlCondition, execute, mem, resolve_live_val, live_or_read, stored_value,
  refresh_sensors, base_sensor, coerce_float, replace_commas,
}
use oqlos.Oql.World.Thresholds.{
  exec_action_min_max, register, evaluate_pending_thresholds, pending_thresholds, sorted, insert,
  evaluate_each, exec_action_val, val_of, record_val, evaluate_val_thresholds, verdict,
  auto_mock_threshold_value, within_thresholds, is_at_least, is_at_most,
}
use oqlos.Oql.World.Gates.{IsGood}
use oqlos.Oql.World.Gates.Pending.{evaluate_pending_thresholds-IsGood}
use oqlos.Tests.Floats.{runtime, at_start}

abbrev at_least_five : Threshold ℕ
at_least_five = record { min = some 5; max = none; unit = "bar" }

-- a threshold that nothing has evaluated, of a sensor that the firmware reads
abbrev registered : World ℕ
registered = record at_start { thresholds = ("AI01", at_least_five) ∷ [] }

no_error : (evaluate_pending_thresholds (runtime execute) [] registered).1.errors ≡ []
unfolding evaluate_pending_thresholds pending_thresholds sorted insert evaluate_each exec_action_val
    val_of record_val evaluate_val_thresholds verdict auto_mock_threshold_value within_thresholds
    is_at_least is_at_most resolve_live_val live_or_read stored_value refresh_sensors base_sensor
    coerce_float mem Dict.get Dict.set Dict.keys Dict.update Variables.get Variables.set
no_error = refl

evaluate_pending_thresholds-IsGood_example :
    IsGood
      (runtime execute)
      "AI01"
      at_least_five
      (evaluate_pending_thresholds (runtime execute) [] registered).1.world
unfolding Dict.get mem
evaluate_pending_thresholds-IsGood_example =
    evaluate_pending_thresholds-IsGood (runtime execute) [] registered "AI01" at_least_five
      (λ s member. refl) refl refl no_error

-- a condition of an error on the sensor that the firmware reads
abbrev below_five : OqlCondition ℕ
below_five = record {
  sensor = "AI01";
  operator = "<";
  value = none;
  value_min = none;
  value_max = none;
  unit = "";
  on_fail = "ERROR";
  fail_message = "too high";
}

status-evaluate_resolved_condition_example :
    (evaluate_resolved_condition (runtime execute) below_five (some 5) at_start).status
    ≡ live_outcome
        (runtime execute)
        (scalar (runtime execute) below_five 5)
        (resolve_live_val (runtime execute) "AI01" at_start).0
status-evaluate_resolved_condition_example =
    status-evaluate_resolved_condition (runtime execute) below_five 5 at_start refl refl refl

-- The firmware reads 7, so that condition fails.
too_high :
    (evaluate_resolved_condition (runtime execute) below_five (some 5) at_start).status ≡ failed
unfolding resolve_live_val live_or_read stored_value refresh_sensors base_sensor coerce_float
    compare_sensor scalar_op Dict.get Dict.set Dict.update Variables.get
too_high = status-evaluate_resolved_condition (runtime execute) below_five 5 at_start refl refl refl

abbrev devices : Devices ℕ
devices = record {
  try_exec_motor2_set = λ target value w. none;
  set_peripheral = λ target value w. (true, w);
}

abbrev diagnostics : String → Option (Header (OqlCondition ℕ) → World ℕ → Effect (World ℕ))
diagnostics kind = none

laws : KeepsThresholds (runtime execute) devices diagnostics
laws = record {
  motor2 = λ target value w e found. absurd (none-ne-some _ found);
  peripheral = λ target value w. refl;
  diagnostic = λ kind. tt;
}

abbrev min_five : Header (OqlCondition ℕ)
min_five = record {
  kind = "min";
  target = "AI01";
  method = "";
  args = "5";
  condition = none;
  raw = "MIN 'AI01' '5'";
}

-- a goal that only registers a threshold
abbrev guarded : Goal (OqlCondition ℕ)
guarded = record {
  name = "Guarded";
  steps =
      record {
        number = "1";
        name = "Limits";
        actions = more (action min_five empty empty empty) empty;
      }
      ∷ [];
}

abbrev idle : Interpreter (World ℕ)
idle = record {
  world = at_start;
  goal_skipped = false;
  loop_break = false;
  results = [];
  errors = [];
}

guarded_threshold :
    Dict.get
      (after_steps (runtime execute) devices diagnostics guarded idle).world.thresholds
      "AI01"
    ≡ some (record at_least_five { unit = "" })
unfolding execute_steps execute_step execute_actions execute_action oql_handlers action_handler
    exec_action_min_max register replace_commas Dict.get Dict.set noted
guarded_threshold = refl

guarded_clean :
    (execute_single_goal (oql_handlers (runtime execute) devices diagnostics) guarded idle).errors
    ≡ []
unfolding execute_single_goal execute_steps execute_step execute_actions execute_action oql_handlers
    action_handler exec_action_min_max register replace_commas Dict.get Dict.set noted
    evaluate_pending_thresholds pending_thresholds sorted insert evaluate_each exec_action_val
    val_of record_val evaluate_val_thresholds verdict auto_mock_threshold_value within_thresholds
    is_at_least is_at_most resolve_live_val live_or_read stored_value refresh_sensors base_sensor
    coerce_float mem Dict.keys Dict.update Variables.get
guarded_clean = refl

execute_single_goal-IsGood_example :
    IsGood
      (runtime execute)
      "AI01"
      (record at_least_five { unit = "" })
      (execute_single_goal (oql_handlers (runtime execute) devices diagnostics) guarded idle).world
unfolding execute_steps execute_step execute_actions execute_action oql_handlers action_handler
    exec_action_min_max register replace_commas Dict.get Dict.set noted mem
execute_single_goal-IsGood_example =
    execute_single_goal-IsGood (runtime execute) devices diagnostics (λ text. refl) laws guarded
      idle "AI01" (record at_least_five { unit = "" }) guarded_threshold refl guarded_clean
