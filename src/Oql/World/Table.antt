-- ===== src/Oql/World/Table.antt =====
-- `ACTION_HANDLERS` of _interpreter_actions.py. `diagnostics` are the entries for "api", "expect",
-- "assert" and "shell".
use oqlos.Base.{String, Option, none, some, [], ◌∷◌, ◌==◌, if◌then◌else◌, one_of}
use Prim.Native.String.{◌++◌ as append_text}
use oqlos.Base.Int.{pos}
use oqlos.Models.{int}
use oqlos.Models.Truth.{truthy}
use oqlos.Oql.Blocks.{Header}
use oqlos.Oql.Variables.{VariableStore, root, child}
use oqlos.Oql.Interpreter.{Effect, Handlers}
use oqlos.Oql.World.{World, OqlCondition, Runtime, get_var, set_var}
use oqlos.Oql.World.Thresholds.{
  exec_action_min_max, exec_action_val, exec_action_save, evaluate_pending_thresholds,
}
use oqlos.Oql.World.Conditions.{evaluate_condition, exec_action_condition}
use oqlos.Oql.World.Functions.{exec_action_func}
use oqlos.Oql.World.Firmware.{exec_action_action}
use oqlos.Oql.World.Actions.{
  Devices, exec_action_task, exec_action_wait, exec_action_error, exec_action_else,
  exec_action_goto, exec_action_var_set, exec_action_sample, exec_action_set,
}

abbrev parent_of : {V : Type 0} → VariableStore V → VariableStore V
parent_of (root vars) = root vars
parent_of (child vars parent) = parent

module _ {F : Type 0} (rt : Runtime F) (devices : Devices F)
    (diagnostics : String → Option (Header (OqlCondition F) → World F → Effect (World F))) where
  -- The kinds of blocks and of REPEAT STOP are the interpreter's own.
  unfoldable pub action_handler :
      String → Option (Header (OqlCondition F) → World F → Effect (World F))
  unfolding exec_action_action exec_action_task exec_action_set exec_action_save exec_action_wait
      exec_action_min_max exec_action_val exec_action_error exec_action_else exec_action_sample
      exec_action_func exec_action_goto exec_action_condition exec_action_var_set
  action_handler kind =
      if kind == "action"
      then some (exec_action_action rt)
      else if one_of kind ("task" ∷ "log" ∷ [])
      then some (exec_action_task rt)
      else if kind == "set"
      then some (exec_action_set rt devices)
      else if kind == "save"
      then some (exec_action_save rt)
      else if kind == "wait"
      then some (exec_action_wait rt)
      else if one_of kind ("min" ∷ "max" ∷ [])
      then some (exec_action_min_max rt)
      else if kind == "val"
      then some (exec_action_val rt)
      else if kind == "error"
      then some (exec_action_error rt)
      else if kind == "else"
      then some (exec_action_else rt)
      else if kind == "sample"
      then some (exec_action_sample rt)
      else if kind == "func"
      then some (exec_action_func rt)
      else if kind == "goto"
      then some (exec_action_goto rt)
      else if one_of kind ("condition" ∷ "if_else" ∷ [])
      then some (exec_action_condition rt)
      else if kind == "var_set"
      then some (exec_action_var_set rt)
      else if one_of kind ("api" ∷ "expect" ∷ "assert" ∷ "shell" ∷ [])
      then diagnostics kind
      else none

  unfoldable pub oql_handlers : Handlers (OqlCondition F) (World F)
  unfolding action_handler evaluate_condition evaluate_pending_thresholds truthy
  oql_handlers = record {
    handler = action_handler;
    evaluate_condition = evaluate_condition rt;
    has_failed = λ target w.
        truthy (λ x. rt.floats.eq x (rt.floats.of_int (pos 0)))
          (get_var w (append_text "failure:" target));
    open_scope = λ w. record w { vars = child [] w.vars };
    set_iter = λ i w. set_var "ITER" (int (pos i)) w;
    close_scope = λ w. record w { vars = parent_of w.vars };
    digits = rt.digits;
    reset_thresholds = λ w. record w { thresholds = []; evaluated = [] };
    evaluate_pending_thresholds = evaluate_pending_thresholds rt;
  }
