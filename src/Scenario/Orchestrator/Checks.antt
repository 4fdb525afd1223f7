-- ===== src/Scenario/Orchestrator/Checks.antt =====
-- `execute_step`, with the VALIDATE steps, and `validate_goal` of oqlos/core/executor.py.
use oqlos.Base.{
  String, Bool, true, false, ◌&&◌, Option, none, some, List, [], ◌∷◌, ◌==◌, if◌then◌else◌, get_or,
}
use oqlos.Base.Int.{pos}
use oqlos.Base.Dict
use oqlos.Models.{int, Peripheral, Step, ValidationRule}
use oqlos.Cqrs.Projection.Sync.{shown}
use oqlos.Scenario.Expression.{Context, safe_eval_condition, rule_context}
use oqlos.Scenario.Orchestrator.{
  Setup, Orchestrator, Run, info, success, error, executing_step, target_peripheral,
  validation_passed, validation_failed, validation_error, rule_failed, rule_error, pure, gets,
  nothing, otherwise, ◌>>=◌, ◌>>◌, log_event,
}
use oqlos.Scenario.Orchestrator.Contexts.{sanitize_expression, build_eval_context}
use oqlos.Scenario.Orchestrator.Devices.{quotient, sleep, find, execute_valve_step}
use oqlos.Scenario.Orchestrator.Steps.{
  execute_pump_step, execute_lung_step, execute_wait_step, execute_sensor_read_step,
}

module _ {F V : Type 0} (rt : Setup F V) where
  open rt use {floats, objects, of_value, of_peripheral}

  unfoldable pub zero_value : V
  zero_value = of_value (int (pos 0))

  unfoldable pub eval : String → Context V → Option Bool
  unfolding zero_value safe_eval_condition
  eval expr context = safe_eval_condition objects rt.parse zero_value expr context

  -- what an identifier of a condition stands for
  unfoldable pub in_context : Orchestrator F → String → Option V
  unfolding build_eval_context
  in_context o id = elim (build_eval_context o.manager.projections.peripherals.items id) [
    | none ↦ none
    | some p ↦ some (of_peripheral p)
  ]

  abbrev pub with_value : Option (Peripheral F) → Context V → Context V
  with_value none context = context
  with_value (some p) context =
      λ id. if id == "value" then some (of_value p.current_value) else context id

  -- the context of a step: `value` is that of the step's peripheral, where there is one
  unfoldable pub step_context : Step F → Orchestrator F → Context V
  unfolding in_context
  step_context step o =
      let id = get_or step.peripheral "" in
      let target : Option (Peripheral F) =
        if id == "" then none else shown o.manager.projections.peripherals id in
      with_value target (in_context o)

  unfoldable pub verdict_of : String → Option Bool → Run F (Unit {0})
  unfolding log_event
  verdict_of condition (some true) =
      otherwise (log_event rt success (validation_passed condition))
        (log_event rt error (validation_error condition))
  verdict_of condition (some false) =
      otherwise (log_event rt error (validation_failed condition))
        (log_event rt error (validation_error condition))
  verdict_of condition none = log_event rt error (validation_error condition)

  unfoldable pub execute_validate_step : Step F → Run F (Unit {0})
  unfolding eval step_context verdict_of sanitize_expression
  execute_validate_step step =
      let condition = get_or step.condition "" in
      if condition == "" then nothing else do
        result ← gets λ o.
            eval (sanitize_expression (Dict.keys o.manager.projections.peripherals.items) condition)
              (step_context step o)
        verdict_of condition result

  abbrev pub announce_target : String → Run F (Unit {0})
  announce_target peripheral =
      if peripheral == "" then nothing else log_event rt info (target_peripheral peripheral)

  abbrev pub handle : String → Step F → String → F → Run F (Unit {0})
  handle act step mode speed =
      if act == "SET_VALVE"
      then execute_valve_step rt step mode
      else if act == "SET_PUMP"
      then execute_pump_step rt step mode speed
      else if act == "WAIT"
      then execute_wait_step rt step speed
      else if act == "READ_SENSOR"
      then execute_sensor_read_step rt step
      else if act == "SET_LUNG"
      then execute_lung_step rt step mode
      else if act == "VALIDATE"
      then execute_validate_step step
      else nothing

  unfoldable pub execute_step : Step F → String → F → Run F (Unit {0})
  unfolding log_event execute_valve_step execute_pump_step execute_lung_step execute_wait_step
      execute_sensor_read_step execute_validate_step quotient sleep
  execute_step step mode speed = do
    log_event rt info (executing_step step.id step.action)
    announce_target (get_or step.peripheral "")
    let half = floats.decimal (pos 5) 1
    delay ← if floats.lt (floats.of_int (pos 0)) speed then quotient rt half speed else pure half
    sleep rt delay
    handle (rt.upper step.action) step mode speed

  -- One rule: what it reports, and whether it lets the goal pass
  unfoldable pub judge : ValidationRule → Option Bool → Run F Bool
  unfolding log_event
  judge rule (some true) = pure true
  judge rule (some false) = do
    otherwise (log_event rt error (rule_failed rule.error_message))
        (log_event rt error (rule_error rule.condition))
    pure false
  judge rule none = do log_event rt error (rule_error rule.condition); pure false

  unfoldable pub check_rule : ValidationRule → Option (Peripheral F) → Run F Bool
  unfolding eval judge zero_value
  check_rule rule none = pure true
  check_rule rule (some p) =
      judge rule
        (eval rule.condition (rule_context objects rt.parse zero_value (of_value p.current_value)))

  -- `validate_goal`: every rule is checked, whatever the rules before it gave.
  unfoldable pub validate_rules : List ValidationRule → Run F Bool
  unfolding find check_rule
  validate_rules [] = pure true
  validate_rules (rule ∷ rules) = do
    p ← find rt rule.peripheral
    passed ← check_rule rule p
    rest ← validate_rules rules
    pure (passed && rest)
