-- ===== src/Oql/World/Same/Actions.antt =====
-- The handlers that leave the thresholds of a goal as they are.
use oqlos.Base.{refl, ◌∙◌, inl, inr, arith, Bool-cases, Option-cases}
use oqlos.Oql.Blocks.{Header}
use oqlos.Oql.World.{coerce_float, World, OqlCondition, Runtime, refresh_sensors, is_execute}
use oqlos.Oql.World.Thresholds.{exec_action_save, saved_value}
use oqlos.Oql.World.Gates.{refresh_sensors-SameGates}
use oqlos.Oql.World.Gates.Keeps.{evaluate-Keeps}
use oqlos.Oql.World.Conditions.{exec_action_condition}
use oqlos.Oql.World.Firmware.{call_gateway, execute_plugin_action, exec_action_action}
use oqlos.Oql.World.Functions.{func_handler, exec_action_func}
use oqlos.Oql.World.Actions.{
  waited, parse_wait_secs, exec_action_wait, exec_action_task, exec_action_error, exec_action_else,
  exec_action_goto, exec_action_var_set, exec_action_sample,
}
use oqlos.Oql.World.Same.{Same, evaluate_condition-Same}

module _ {F : Type 0} (rt : Runtime F) where
  pub condition-Same :
      (act : Header (OqlCondition F)) (w : World F) → Same w (exec_action_condition rt act w).world
  unfolding exec_action_condition
  condition-Same act w = elim (Bool-cases (is_execute rt.mode)) [
    | inl live ↦
        rw live (
          (refresh_sensors-SameGates rt w).1
          ∙ evaluate_condition-Same rt act (refresh_sensors rt w))
    | inr other ↦ rw other (evaluate_condition-Same rt act w)
  ]

  pub save-Same :
      (act : Header (OqlCondition F)) (w : World F) → Same w (exec_action_save rt act w).world
  unfolding exec_action_save
  save-Same act w = elim (Option-cases (coerce_float rt (saved_value rt act.target w))) [
    | inl text ↦ rw (text, exec_action_save) refl
    | inr (x, number) ↦ rw (number, exec_action_save) (evaluate-Keeps rt act.target "" x _).0
  ]

  pub action-Same :
      (act : Header (OqlCondition F)) (w : World F) → Same w (exec_action_action rt act w).world
  unfolding exec_action_action execute_plugin_action call_gateway
  action-Same act w = ground arith

  pub func-Same :
      (act : Header (OqlCondition F)) (w : World F) → Same w (exec_action_func rt act w).world
  unfolding exec_action_func
  func-Same act w = elim (Option-cases (func_handler rt (rt.upper (rt.strip act.method)))) [
    | inl unknown ↦ rw (unknown, exec_action_func) refl
    | inr (handler, found) ↦ rw (found, exec_action_func) refl
  ]

  pub waited-Same : (secs : F) (w : World F) → Same w (waited rt secs w)
  unfolding waited
  waited-Same secs w = ground arith

  pub else-Same :
      (act : Header (OqlCondition F)) (w : World F) → Same w (exec_action_else rt act w).world
  unfolding exec_action_else
  else-Same act w = ground arith

  pub sample-Same :
      (act : Header (OqlCondition F)) (w : World F) → Same w (exec_action_sample rt act w).world
  unfolding exec_action_sample
  sample-Same act w = ground arith

  pub task-Same :
      (act : Header (OqlCondition F)) (w : World F) → Same w (exec_action_task rt act w).world
  unfolding exec_action_task
  task-Same act w = refl

  pub wait-Same :
      (act : Header (OqlCondition F)) (w : World F) → Same w (exec_action_wait rt act w).world
  unfolding exec_action_wait
  wait-Same act w = waited-Same (parse_wait_secs rt act.args) w

  pub error-Same :
      (act : Header (OqlCondition F)) (w : World F) → Same w (exec_action_error rt act w).world
  unfolding exec_action_error
  error-Same act w = refl

  pub goto-Same :
      (act : Header (OqlCondition F)) (w : World F) → Same w (exec_action_goto rt act w).world
  unfolding exec_action_goto
  goto-Same act w = refl

  pub var_set-Same :
      (act : Header (OqlCondition F)) (w : World F) → Same w (exec_action_var_set rt act w).world
  unfolding exec_action_var_set
  var_set-Same act w = refl
