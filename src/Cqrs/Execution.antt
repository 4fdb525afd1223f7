-- ===== src/Cqrs/Execution.antt =====
-- oqlos/core/cqrs/execution.py: the aggregate, the handlers and the projection of executions.
use oqlos.Base.{
  String, ◌≡◌, refl, Bool, true, false, Option, none, some, List, [], ◌∷◌, arith, is_some,
}
use oqlos.Base.Dict.{Dict}
use oqlos.Models.{ExecutionStatus}
use oqlos.Cqrs.Event.{
  Event, Payload, new_event, execution_started, execution_goal_started, execution_step_started,
  execution_progress_updated, execution_status_changed,
}
use oqlos.Cqrs.Command.{
  Handler, StartExecutionCommand, StartGoalCommand, StartStepCommand, UpdateProgressCommand,
  SetExecutionStatusCommand, start_execution, start_goal, start_step, update_progress,
  set_execution_status,
}
use oqlos.Cqrs.Aggregate.{Kind}
use oqlos.Cqrs.Projection
use oqlos.Cqrs.Projection.{ReadModel}

-- The float constants that the source writes: here 0.0, the progress of a new execution.
module _ {F : Type 0} (zero_float : F) where
  -- `ExecutionAggregate.apply`, as the value that it leaves in `self.execution`
  on_payload : String → Option (ExecutionStatus F) → Payload F → Option (ExecutionStatus F)
  on_payload id x (execution_started scenario_id) = some (record {
    execution_id = id;
    scenario_id = scenario_id;
    status = "running";
    current_goal = none;
    current_step = none;
    progress = zero_float;
  })
  on_payload id none _ = none
  on_payload id (some s) (execution_goal_started goal_id) =
      some (record s { current_goal = some goal_id })
  on_payload id (some s) (execution_step_started step_id) =
      some (record s { current_step = some step_id })
  on_payload id (some s) (execution_progress_updated p) = some (record s { progress = p })
  on_payload id (some s) (execution_status_changed st) = some (record s { status = st })
  on_payload id (some s) _ = some s

  unfoldable pub apply : String → Option (ExecutionStatus F) → Event F → Option (ExecutionStatus F)
  unfolding on_payload
  apply id x event = on_payload id x event.payload

module _ {F : Type 0} where
  -- the classes that `ExecutionsProjection.apply` does not return on
  handled : Payload F → Bool
  handled (execution_started _) = true
  handled (execution_goal_started _) = true
  handled (execution_step_started _) = true
  handled (execution_progress_updated _) = true
  handled (execution_status_changed _) = true
  handled _ = false

  unfoldable pub handles : Event F → Bool
  unfolding handled
  handles event = handled event.payload

module _ {F : Type 0} (zero_float : F) where
  ignored_payload :
      (id : String) (x : Option (ExecutionStatus F)) (e : Payload F)
      → handled e ≡ false
      → on_payload zero_float id x e ≡ x
  unfolding on_payload handled
  ignored_payload id none e h = ground arith
  ignored_payload id (some p) e h = ground arith

  pub apply_ignores :
      (id : String) (x : Option (ExecutionStatus F)) (event : Event F)
      → handles event ≡ false
      → apply zero_float id x event ≡ x
  unfolding apply handles
  apply_ignores id x event h = ignored_payload id x event.payload h

  stays_payload :
      (id : String) (s : ExecutionStatus F) (e : Payload F)
      → is_some (on_payload zero_float id (some s) e) ≡ true
  unfolding on_payload
  stays_payload id s (execution_started _) = refl
  stays_payload id s _ = refl

  pub apply_stays :
      (id : String) (s : ExecutionStatus F) (event : Event F)
      → is_some (apply zero_float id (some s) event) ≡ true
  unfolding apply
  apply_stays id s event = stays_payload id s event.payload

  abbrev pub kind : Kind F (ExecutionStatus F)
  kind = record {
    handles = handles;
    apply_state = apply zero_float;
    ignores = apply_ignores;
    stays = apply_stays;
  }

  -- `ExecutionsProjection.apply`
  unfoldable pub project : ReadModel (ExecutionStatus F) → Event F → ReadModel (ExecutionStatus F)
  project = Projection.project kind

module _ {F : Type 0} where
  unfoldable pub handle_start_execution : F → StartExecutionCommand → List (Event F)
  unfolding new_event
  handle_start_execution now cmd =
      new_event now cmd.execution_id (execution_started cmd.scenario_id) ∷ []

  unfoldable pub handle_start_goal : F → StartGoalCommand → List (Event F)
  unfolding new_event
  handle_start_goal now cmd =
      new_event now cmd.execution_id (execution_goal_started cmd.goal_id) ∷ []

  unfoldable pub handle_start_step : F → StartStepCommand → List (Event F)
  unfolding new_event
  handle_start_step now cmd =
      new_event now cmd.execution_id (execution_step_started cmd.step_id) ∷ []

  unfoldable pub handle_update_progress : F → UpdateProgressCommand F → List (Event F)
  unfolding new_event
  handle_update_progress now cmd =
      new_event now cmd.execution_id (execution_progress_updated cmd.progress) ∷ []

  unfoldable pub handle_set_execution_status : F → SetExecutionStatusCommand → List (Event F)
  unfolding new_event
  handle_set_execution_status now cmd =
      new_event now cmd.execution_id (execution_status_changed cmd.status) ∷ []

  start_execution_handler : Handler F
  start_execution_handler now (start_execution cmd) = some (handle_start_execution now cmd)
  start_execution_handler now _ = none

  start_goal_handler : Handler F
  start_goal_handler now (start_goal cmd) = some (handle_start_goal now cmd)
  start_goal_handler now _ = none

  start_step_handler : Handler F
  start_step_handler now (start_step cmd) = some (handle_start_step now cmd)
  start_step_handler now _ = none

  update_progress_handler : Handler F
  update_progress_handler now (update_progress cmd) = some (handle_update_progress now cmd)
  update_progress_handler now _ = none

  set_status_handler : Handler F
  set_status_handler now (set_execution_status cmd) = some (handle_set_execution_status now cmd)
  set_status_handler now _ = none

  unfoldable pub execution_handlers : Dict (Handler F)
  unfolding start_execution_handler start_goal_handler start_step_handler update_progress_handler
      set_status_handler handle_start_execution handle_start_goal handle_start_step
      handle_update_progress handle_set_execution_status
  execution_handlers =
      ("StartExecutionCommand", start_execution_handler)
      ∷ ("StartGoalCommand", start_goal_handler)
      ∷ ("StartStepCommand", start_step_handler)
      ∷ ("UpdateProgressCommand", update_progress_handler)
      ∷ ("SetExecutionStatusCommand", set_status_handler)
      ∷ []
