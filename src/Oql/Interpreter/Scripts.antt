-- ===== src/Oql/Interpreter/Scripts.antt =====
-- Steps, goals and scripts: the results that interpreter.py of packages/oqlos-core/src/oqlos/core
-- collects.
use oqlos.Base.{String, Bool, true, false, ◌&&◌, List, [], ◌∷◌, ◌++◌, all}
use Prim.Native.String.{◌++◌ as append_text}
use oqlos.Oql.Blocks.{Action, Actions, action, empty, more}
use oqlos.Oql.Interpreter.{
  StepStatus, passed, failed, skipped, error, StepResult, Step, Goal, Handlers, Interpreter,
  goes_on, applied, in_world, execute_action,
}

abbrev is_nil : {A : Type 0} → List A → Bool
is_nil [] = true
is_nil (_ ∷ _) = false

abbrev pub fresh_result : {C : Type 0} → Step C → StepResult
fresh_result step = record {
  name = append_text step.number (append_text ". " step.name);
  status = passed;
  message = "";
}

module _ {C W : Type 0} (h : Handlers C W) where
  raw_of : Action C → String
  raw_of (action hd _ _ _) = hd.raw

  -- the status and message of a step after one more action
  unfoldable pub noted : StepResult → Action C → StepStatus → StepResult
  unfolding raw_of
  noted result act failed = record result { status = failed; message = raw_of act }
  noted result act error = record result { status = error; message = raw_of act }
  noted result act skipped = record result { status = skipped }
  noted result act _ = result

  unfoldable pub execute_actions :
      Actions C → StepResult → Interpreter W → StepResult × Interpreter W
  unfolding execute_action noted
  execute_actions empty result s = (result, s)
  execute_actions (more act acts) result s =
      let r = execute_action h act s in execute_actions acts (noted result act r.0) r.1

  unfoldable pub execute_step : Step C → Interpreter W → StepResult × Interpreter W
  unfolding execute_actions
  execute_step step s = execute_actions step.actions (fresh_result step) s

  unfoldable pub execute_steps : List (Step C) → Interpreter W → Interpreter W
  unfolding execute_step
  execute_steps [] s = s
  execute_steps (step ∷ steps) s =
      let (result, s') = execute_step step s in
      execute_steps steps (record s' { results = s'.results ++ result ∷ [] })

  unfoldable pub execute_single_goal : Goal C → Interpreter W → Interpreter W
  unfolding execute_steps
  execute_single_goal goal s =
      let after = execute_steps goal.steps (in_world s h.reset_thresholds) in
      let (results, e) = h.evaluate_pending_thresholds after.results after.world in
      record (applied after e) { results = results }

  unfoldable pub execute_all_goals : List (Goal C) → Interpreter W → Interpreter W
  unfolding execute_single_goal
  execute_all_goals [] s = s
  execute_all_goals (goal ∷ goals) s =
      execute_all_goals goals (execute_single_goal goal (record s { goal_skipped = false }))

-- `ScriptResult.ok`, as `_build_script_result` computes it
unfoldable pub script_ok : {W : Type 0} → Interpreter W → Bool
script_ok s = all (λ (r : StepResult). goes_on r.status) s.results && is_nil s.errors
