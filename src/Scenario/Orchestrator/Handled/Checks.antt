-- ===== src/Scenario/Orchestrator/Handled/Checks.antt =====
-- What a step and the rules of a goal keep.
use oqlos.Base.{String, Bool, true, false, ◌&&◌, Option, none, some, List, [], ◌∷◌, get_or}
use oqlos.Models.{Peripheral, Step, ValidationRule}
use oqlos.State.{StateManager}
use oqlos.Scenario.Orchestrator.{Setup, Error}
use oqlos.Scenario.Orchestrator.Keeps.{
  Keeps-otherwise, Keeps, Keeps-pure, Keeps-gets, Keeps-if, Keeps-bind, Keeps-then,
}
use oqlos.Scenario.Orchestrator.Devices.{execute_valve_step}
use oqlos.Scenario.Orchestrator.Steps.{execute_pump_step, execute_sensor_read_step}
use oqlos.Scenario.Orchestrator.Checks.{
  verdict_of, execute_validate_step, handle, execute_step, judge, check_rule, validate_rules,
}
use oqlos.Scenario.Orchestrator.Handled.{Allows, IsKept, On, Keeps-log_event}
use oqlos.Scenario.Orchestrator.Handled.Devices.{
  Has, Has-IsKept, Keeps-on_peripheral, Keeps-sleep, Keeps-quotient, Keeps-drive_valve, Keeps-find,
}
use oqlos.Scenario.Orchestrator.Handled.Steps.{
  IsDivisor, Keeps-execute_lung_step, Keeps-execute_wait_step, Keeps-drive_pump, Keeps-read_once,
}

module _ {F V : Type 0} (rt : Setup F V) (zero_float : F) (E : Error → Type 0)
    (allowed : Allows rt E) (P : StateManager F → Type 0) (k : IsKept zero_float P) where
  Keeps-verdict_of :
      (condition : String) (result : Option Bool) → Keeps E (On P) (verdict_of rt condition result)
  unfolding verdict_of
  Keeps-verdict_of condition none = Keeps-log_event rt zero_float E k allowed _ _
  Keeps-verdict_of condition (some true) =
      Keeps-otherwise _ _ (Keeps-log_event rt zero_float E k allowed _ _)
        (Keeps-log_event rt zero_float E k allowed _ _)
  Keeps-verdict_of condition (some false) =
      Keeps-otherwise _ _ (Keeps-log_event rt zero_float E k allowed _ _)
        (Keeps-log_event rt zero_float E k allowed _ _)

  Keeps-execute_validate_step : (step : Step F) → Keeps E (On P) (execute_validate_step rt step)
  unfolding execute_validate_step
  Keeps-execute_validate_step step = Keeps-if _ _ _ (Keeps-pure tt) (
      Keeps-bind {A = Option Bool} _ _ (Keeps-gets _) (Keeps-verdict_of (get_or step.condition "")))

  Keeps-judge :
      (rule : ValidationRule) (result : Option Bool) → Keeps E (On P) (judge rt rule result)
  unfolding judge
  Keeps-judge rule (some true) = Keeps-pure true
  Keeps-judge rule (some false) =
      Keeps-then _ _
        (Keeps-otherwise _ _ (Keeps-log_event rt zero_float E k allowed _ _)
          (Keeps-log_event rt zero_float E k allowed _ _))
        (Keeps-pure false)
  Keeps-judge rule none =
      Keeps-then _ _ (Keeps-log_event rt zero_float E k allowed _ _) (Keeps-pure false)

  Keeps-check_rule :
      (rule : ValidationRule) (p : Option (Peripheral F)) → Keeps E (On P) (check_rule rt rule p)
  unfolding check_rule
  Keeps-check_rule rule none = Keeps-pure true
  Keeps-check_rule rule (some p) = Keeps-judge rule _

  pub Keeps-validate_rules :
      (rules : List ValidationRule) → Keeps E (On P) (validate_rules rt rules)
  unfolding validate_rules
  Keeps-validate_rules [] = Keeps-pure true
  Keeps-validate_rules (rule ∷ rules) = Keeps-bind _ _ (Keeps-find rt E P rule.peripheral) λ p.
      Keeps-bind _ _ (Keeps-check_rule rule p)
        λ passed. Keeps-bind _ _ (Keeps-validate_rules rules) λ rest. Keeps-pure (passed && rest)

  Keeps-execute_valve_step :
      (step : Step F) (mode : String) → Keeps E (On P) (execute_valve_step rt step mode)
  unfolding execute_valve_step
  Keeps-execute_valve_step step mode = Keeps-on_peripheral rt E P step _ λ id p.
      Keeps-drive_valve rt zero_float E allowed (Has P id) (Has-IsKept zero_float P id k) step mode
        id p

  Keeps-execute_sensor_read_step :
      (step : Step F) → Keeps E (On P) (execute_sensor_read_step rt step)
  unfolding execute_sensor_read_step
  Keeps-execute_sensor_read_step step = Keeps-on_peripheral rt E P step _ λ id p.
      Keeps-read_once rt zero_float E allowed (Has P id) (Has-IsKept zero_float P id k) id
        (λ m h. h.1) p

  module _ (speed : F) (divides : IsDivisor rt E speed) where
    Keeps-execute_pump_step :
        (step : Step F) (mode : String) → Keeps E (On P) (execute_pump_step rt step mode speed)
    unfolding execute_pump_step
    Keeps-execute_pump_step step mode = Keeps-on_peripheral rt E P step _ λ id p.
        Keeps-drive_pump rt zero_float E allowed (Has P id) (Has-IsKept zero_float P id k) speed
          divides id (λ m h. h.1) step mode p

    Keeps-handle :
        (act : String) (step : Step F) (mode : String)
        → Keeps E (On P) (handle rt act step mode speed)
    Keeps-handle act step mode = Keeps-if _ _ _ (Keeps-execute_valve_step step mode) (
        Keeps-if _ _ _ (Keeps-execute_pump_step step mode) (
          Keeps-if _ _ _ (Keeps-execute_wait_step rt zero_float E allowed P k speed divides step) (
            Keeps-if _ _ _ (Keeps-execute_sensor_read_step step) (
              Keeps-if _ _ _ (Keeps-execute_lung_step rt zero_float E allowed P k step mode)
                (Keeps-if _ _ _ (Keeps-execute_validate_step step) (Keeps-pure tt))))))

    pub Keeps-execute_step :
        (step : Step F) (mode : String) → Keeps E (On P) (execute_step rt step mode speed)
    unfolding execute_step
    Keeps-execute_step step mode = Keeps-then _ _ (Keeps-log_event rt zero_float E k allowed _ _) (
        Keeps-then _ _
          (Keeps-if _ _ _ (Keeps-pure tt) (Keeps-log_event rt zero_float E k allowed _ _))
          (Keeps-bind {A = F} _ _
            (Keeps-if _ _ _ (Keeps-quotient rt zero_float E k _ speed divides) (Keeps-pure _))
            λ delay.
              Keeps-then _ _ (Keeps-sleep rt zero_float E k delay)
                (Keeps-handle (rt.upper step.action) step mode)))
