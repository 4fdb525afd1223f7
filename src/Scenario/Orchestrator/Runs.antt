-- ===== src/Scenario/Orchestrator/Runs.antt =====
-- `execute_scenario` and `_execute_goal_steps` of oqlos/core/executor.py.
use oqlos.Base.{
  ℕ, zero, suc, ◌+◌, ◌-◌, String, Bool, true, false, some, List, [], ◌∷◌, ◌++◌, ◌==◌, if◌then◌else◌,
  one_of, get_or, length, keep,
}
use Prim.Native.String.{◌++◌ as append_text}
use oqlos.Base.Int.{ℤ, pos, negsuc}
use oqlos.Base.Dict
use oqlos.Models.{ExecutionStatus, Step, Goal, Scenario}
use oqlos.Cqrs.Command.{
  start_execution, start_goal, start_step, update_progress, set_execution_status,
}
use oqlos.Cqrs.Projection.Sync.{shown}
use oqlos.Scenario.Orchestrator.{
  Setup, Run, info, success, error, starting_goal, goal_completed, goal_failed, executing,
  execution_update, key_error, scenario_not_found, ok, pure, gets, or_raise, nothing, ◌>>=◌, ◌>>◌,
  send, output, broadcast, log_event, is_running, slept,
}
use oqlos.Scenario.Orchestrator.Checks.{execute_step, validate_rules}

module _ {F V : Type 0} (rt : Setup F V) (execution_id : String) (mode : String) (speed : F)
    (total_steps : ℕ) where
  open rt use {floats}

  -- `while self.paused: await asyncio.sleep(0.1)`
  unfoldable pub wait_out : ℕ → Run F (Unit {0})
  unfolding output
  wait_out zero = nothing
  wait_out (suc polls) = output rt (slept (floats.decimal (pos 1) 1)) >> wait_out polls

  unfoldable pub human : Step F → String
  human step =
      let label = get_or step.label "" in
      let target = get_or step.peripheral "" in
      let suffix = if target == "" then "" else append_text " [" (append_text target "]") in
      if label == "" then append_text step.action suffix else label

  unfoldable pub take_index : Run F (Unit {0})
  take_index o =
      (ok tt, record o { current_index = pos o.step_counter; step_counter = o.step_counter + 1 })

  unfoldable pub progress : ℕ → F
  progress completed =
      floats.mul (floats.div (floats.of_int (pos completed)) (floats.of_int (pos total_steps)))
        (floats.of_int (pos 100))

  unfoldable pub execution : Run F (ExecutionStatus F)
  execution = do
    x ← gets λ o. shown o.manager.projections.executions execution_id
    or_raise x key_error

  unfoldable pub tell_update : Run F (Unit {0})
  unfolding execution broadcast
  tell_update = do
    x ← execution
    index ← gets λ o. o.current_index
    broadcast rt (
        execution_update
          (record { execution_id = execution_id; current_index = index; execution = x }))

  -- The step, with the events before it and after it
  unfoldable pub perform : Step F → ℕ → Run F (Unit {0})
  unfolding human take_index progress tell_update send log_event execute_step
  perform step completed = do
    send rt (start_step (record { execution_id = execution_id; step_id = step.id }))
    take_index
    log_event rt info (executing (human step))
    execute_step rt step mode speed
    send rt (
        update_progress
          (record { execution_id = execution_id; progress = progress (completed + 1) }))
    tell_update

  unfoldable pub run_step : Step F → ℕ → Run F (Unit {0})
  unfolding wait_out perform
  run_step step completed = do
    polls ← gets λ o. rt.polls o.step_counter
    wait_out polls
    perform step completed

  -- `_execute_goal_steps`, with the number of the steps completed
  unfoldable pub execute_goal_steps : List (Step F) → ℕ → Run F ℕ
  unfolding run_step is_running
  execute_goal_steps [] completed = pure completed
  execute_goal_steps (step ∷ steps) completed = do
    running ← is_running rt
    let go_on : Run F ℕ = do run_step step completed; execute_goal_steps steps (completed + 1)
    if running then go_on else pure completed

  unfoldable pub tell_validation : Bool → Run F (Unit {0})
  unfolding log_event
  tell_validation passed =
      if passed then log_event rt success goal_completed else log_event rt error goal_failed

  -- One goal, with the number of the steps completed
  unfoldable pub run_goal : Goal F → ℕ → Run F ℕ
  unfolding execute_goal_steps tell_validation send log_event validate_rules
  run_goal goal completed = do
    send rt (start_goal (record { execution_id = execution_id; goal_id = goal.id }))
    log_event rt info (starting_goal goal.name)
    completed' ← execute_goal_steps goal.steps completed
    passed ← validate_rules rt goal.validation_criteria
    tell_validation passed
    pure completed'

  unfoldable pub execute_goals : List (Goal F) → ℕ → Run F (Unit {0})
  unfolding run_goal is_running
  execute_goals [] completed = nothing
  execute_goals (goal ∷ goals) completed = do
    running ← is_running rt
    let go_on : Run F (Unit {0}) = do
      completed' ← run_goal goal completed
      execute_goals goals completed'
    if running then go_on else nothing

module _ {F V : Type 0} (rt : Setup F V) where
  abbrev pub steps_of : List (Goal F) → List (Step F)
  steps_of [] = []
  steps_of (goal ∷ goals) = goal.steps ++ steps_of goals

  -- `if goals: …`
  abbrev pub chosen : List String → List (Goal F) → List (Goal F)
  chosen [] goals = goals
  chosen ids goals = keep (λ goal. one_of goal.id ids) goals

  unfoldable pub begin : String → Run F (Unit {0})
  begin execution_id o =
      (ok tt, record o { current_execution_id = some execution_id; running = true })

  -- `_build_step_plan`
  unfoldable pub build_step_plan : List (Goal F) → Run F (Unit {0})
  build_step_plan goals o =
      (ok tt, record o { step_plan = steps_of goals; step_counter = 0; current_index = negsuc 0 })

  abbrev pub last_index : List (Step F) → ℤ → ℤ
  last_index [] index = index
  last_index plan index = pos (length plan - 1)

  unfoldable pub finish : Run F (Unit {0})
  finish o =
      (ok tt, record o { running = false; current_index = last_index o.step_plan o.current_index })

  -- Once the scenario is found
  unfoldable pub run_scenario :
      String → String → Scenario F → List String → String → F → Run F String
  unfolding begin build_step_plan finish execute_goals send
  run_scenario execution_id scenario_id scenario goals mode speed = do
    send rt (start_execution (record { execution_id = execution_id; scenario_id = scenario_id }))
    begin execution_id
    let goals_to_run = chosen goals scenario.goals
    build_step_plan goals_to_run
    execute_goals rt execution_id mode speed (length (steps_of goals_to_run)) goals_to_run 0
    send rt (set_execution_status (record { execution_id = execution_id; status = "completed" }))
    finish
    pure execution_id

  -- A scenario is given by its id; `execution_id` is the new id, which the source takes from the
  -- clock.
  unfoldable pub execute_scenario : String → String → List String → String → F → Run F String
  unfolding run_scenario
  execute_scenario execution_id scenario_id goals mode speed = do
    found ← gets λ o. Dict.get o.manager.scenarios scenario_id
    scenario ← or_raise found scenario_not_found
    run_scenario execution_id scenario_id scenario goals mode speed
