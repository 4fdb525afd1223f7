-- ===== src/Tests/OrchestratorRuns.antt =====
-- Runs of scenarios, with numbers for Python's floats and objects.
use oqlos.Base.{
  ℕ, ◌+◌, ◌-◌, ◌*◌, ◌/◌, String, ◌≡◌, refl, false, Option, none, some, List, [], ◌∷◌, ltb,
}
use oqlos.Cqrs.Store.{append_many, append, all_events}
use oqlos.State.Broadcast.{broadcast_event}
use oqlos.Base.Int.{pos, negsuc}
use oqlos.Base.Dict
use oqlos.Models.{
  Value, null, int, float, Step, Scenario, PeripheralType, PeripheralStatus, PeripheralMode,
}
use oqlos.Hui.Gateway.{Reply}
use oqlos.Cqrs.Peripheral
use oqlos.Cqrs.Execution
use oqlos.Cqrs.Projection
use oqlos.Cqrs.Command.{type_of, register_peripheral, Command}
use oqlos.State.{StateManager, bare, send}
use oqlos.State.ReadModels.{IsManaged, bare-IsManaged, send-IsManaged}
use oqlos.Scenario.Orchestrator.{
  each, hardware_error, Arithmetic, Setup, Orchestrator, Result, err, python, Output, HardwareCall,
  Request, pause, resume,
}
use oqlos.Scenario.Orchestrator.Runs.{execute_scenario}
use oqlos.Scenario.Orchestrator.Outcome.{IsForeign, IsOutcome, execute_scenario-IsOutcome}
use oqlos.Tests.Floats.{whole}
use oqlos.Tests.ScenarioRuns.{numbers}

-- Every value counts as a number.
abbrev number_of : Value ℕ → ℕ
number_of (float x) = x
number_of (int (pos n)) = n
number_of _ = 0

abbrev on_numbers : (ℕ → ℕ → ℕ) → Value ℕ → Value ℕ → Option (Value ℕ)
on_numbers f x y = some (float (f (number_of x) (number_of y)))

abbrev arithmetic : Arithmetic ℕ
arithmetic = record {
  add = on_numbers (λ x y. x + y);
  sub = on_numbers (λ x y. x - y);
  mul = on_numbers (λ x y. x * y);
  div = on_numbers (λ x y. x / y);
  neg = λ x. some (float 0);
  is_positive = λ x. some (ltb 0 (number_of x));
  to_int = λ x. some (pos (number_of x));
  to_float = λ x. some (number_of x);
  one_decimal = λ x. some "?";
}

abbrev answering : List (Output ℕ) → HardwareCall ℕ → Reply ℕ
answering outs c = Reply.returned null

abbrev failing : List (Output ℕ) → HardwareCall ℕ → Reply ℕ
failing outs c = Reply.raised "undervoltage"

-- While the first event is sent, someone pauses the run, and while the second is, resumes it.
abbrev requests : List (Output ℕ) → List Request
requests [] = record { control = pause; execution_id = none } ∷ []
requests (_ ∷ []) = record { control = resume; execution_id = some "exec-1" } ∷ []
requests _ = []

abbrev setup : (List (Output ℕ) → HardwareCall ℕ → Reply ℕ) → Setup ℕ ℕ
setup hardware = record {
  floats = whole;
  python = arithmetic;
  objects = numbers;
  of_value = number_of;
  of_peripheral = λ p. 0;
  parse = λ text. none;
  upper = λ text. text;
  clock = λ n. n;
  sends = λ outs. [];
  hardware = hardware;
  requests = requests;
  polls = λ n. 0;
}

abbrev ramp_up : Step ℕ
ramp_up = record {
  id = "s1";
  action = "SET_PUMP";
  label = none;
  peripheral = some "pump-main";
  value = int (pos 50);
  duration = none;
  condition = none;
}

abbrev scenario : Scenario ℕ
scenario = record {
  id = "demo";
  name = "";
  description = "";
  device = "";
  protocol = "";
  code = none;
  slug = none;
  goals =
      record {
        id = "g1";
        name = "";
        description = "";
        steps = ramp_up ∷ [];
        expected_result = "";
        validation_criteria = [];
      }
      ∷ [];
}

abbrev pump : Command ℕ
pump = register_peripheral (record {
  peripheral_id = "pump-main";
  type = PeripheralType.pump;
  name = "Main Pump";
  current_value = int (pos 0);
  target_value = int (pos 0);
  unit = some "%";
  range = none;
  status = PeripheralStatus.ok;
  mode = PeripheralMode.auto;
  dependencies = [];
})

abbrev manager : StateManager ℕ
manager = record (send (bare 0) (0, pump)) { scenarios = ("demo", scenario) ∷ [] }

manager-IsManaged : IsManaged 0 manager
manager-IsManaged =
    let c = send-IsManaged 0 (bare 0) 0 pump (bare-IsManaged 0) in
    record { bus = c.bus; current = c.current }

abbrev at_rest : Orchestrator ℕ
at_rest = record {
  manager = manager;
  running = false;
  current_execution_id = none;
  current_index = negsuc 0;
  step_plan = [];
  step_counter = 0;
  ticks = 0;
  outputs = [];
}

abbrev run_with : (List (Output ℕ) → HardwareCall ℕ → Reply ℕ) → Result String × Orchestrator ℕ
run_with hardware = execute_scenario (setup hardware) "exec-1" "demo" [] "auto" 1 at_rest

execute_scenario-IsOutcome_example : IsOutcome 0 IsForeign "exec-1" (run_with failing)
execute_scenario-IsOutcome_example =
    execute_scenario-IsOutcome (setup failing) 0 "exec-1" "auto" "demo" 1 [] at_rest scenario
      (unfold Dict.get in refl) manager-IsManaged

-- The pump is told its power after the ramp; where that call raises, so does the run.
failing-raises : (run_with failing).0 ≡ err (hardware_error "undervoltage")
unfolding execute_scenario Dict.get send bare type_of broadcast_event append_many append
    Peripheral.project Projection.project Peripheral.handles Peripheral.apply all_events Dict.values
    each python Execution.project Execution.handles Execution.apply
failing-raises = refl
