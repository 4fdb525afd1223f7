-- ===== src/Lib.antt =====
-- OqlOS: the core of the runtime that drives a test rig for breathing equipment.
--
-- The program keeps what it knows of the rig and of running tests by event sourcing
-- (oqlos/core/cqrs): a command goes through a bus to its handler, the handler gives events, an
-- append-only store keeps them by stream, and projections that subscribe to the store show the
-- present state. `StateManager` (oqlos/core/state.py) owns one store, one bus and two projections.
-- Beside it, the hold recipes (oqlos/hardware/hui_hold.py) open valves and run a pump on the real
-- rig: a start checks that the plugins answer (hui_readiness.py) and that the supply is not low
-- (power_safety.py), then prepares the valves and sets the pump; a stop or a shutdown turns
-- everything off and reports what the hardware confirmed. Test scripts in OQL are parsed and run
-- by packages/oqlos-core (OqlInterpreter): goals of steps of actions, whose conditions and
-- thresholds are checked against sensors.
--
-- Files:
-- - Base: numbers, tests, lists, conversions that may fail, and Python's `dict` as an
--   association list in the order of first insertion
-- - Models: packages/oqlos-models/src/oqlos/models: peripherals, execution status and scenarios;
--   Models/Truth: Python's truth of a value
-- - Cqrs/Event, Cqrs/Store: oqlos/core/cqrs/events.py: `Event` and `EventStore`; Store/Log and
--   Store/Order compare it with one chronological log
-- - Cqrs/Aggregate: aggregate.py: `apply`, `load` and `rehydrate`, over the step of a subclass
--   (`Kind`)
-- - Cqrs/Projection: projection.py: `rebuild` and `attach`, and the read model that both
--   projections share; Sync and Follow relate it to the store
-- - Cqrs/Command, Cqrs/Bus: the commands of the package, and commands.py with
--   `build_command_bus` of __init__.py
-- - Cqrs/Peripheral, Cqrs/Execution: peripheral.py and execution.py: aggregates, handlers,
--   projections
-- - Cqrs/Telemetry: telemetry.py: the audit trail of sensor readings
-- - State: oqlos/core/state.py: `StateManager`; State/Devices its initial devices,
--   State/Broadcast `broadcast_event`, with Broadcast/Left on what it leaves, State/ReadModels,
--   State/Executions and State/Peripherals what it shows
-- - Power: oqlos/hardware/power_safety.py: the gate that refuses an actuation; Power/Telemetry
--   the change detection of `observe_power_telemetry`, Power/Policy `command_power_policy`,
--   Power/Sampling the cache of `sample_power_telemetry` and `ensure_power_safe`,
--   Power/Throttled the decoding of oqlos/hardware/usb_diagnostics.py
-- - Hui/Readiness: oqlos/hardware/hui_readiness.py: `required_plugins_failure` and the checks
--   that it reads; Readiness/Report is `build_hui_readiness`. Preflight, Agree and Hold/Reported
--   relate the report, the preflight and the start of a hold
-- - Hui/Valves: oqlos/hardware/valve_controller.py; Valves/Candidates which plugins are resolved
-- - Hui/Gateway, Hui/Operation: the gateway as a parameter, and the operations of hui_hold.py
--   that call it
-- - Hui/Shutdown: `_shutdown_all_hui_hardware_unlocked` and `_shutdown_progress`
-- - Hui/Profiles, Hui/Hold: the profiles, `_start_hui_hold_unlocked`, and in Hold/Requests
--   `_stop_hui_hold_unlocked` and the requests; Hold/Pump, Hold/Active and Hold/Invariant what
--   holds between requests
-- - Lung: oqlos/hardware/artificial_lung.py: the state of the lung; Lung/Commands its commands
--   and `execute_command`. Lung/Held and Lung/Stops, over Lung/Calls, are what a low supply
--   holds back and what it does not
-- - Oql/Variables: packages/oqlos-core/src/oqlos/core/base.py: `VariableStore`
-- - Oql/Blocks: packages/oqlos-core/src/oqlos/core/cql_parser.py: the block stack of
--   `_ParseState`; Blocks/Script and Blocks/RoundTrip print nested blocks and parse them again
-- - Oql/Interpolate: `VariableStore.interpolate` of base.py
-- - Oql/Motor2: motor2_runtime.py beside it: Config the configuration, Plan the speeds and
--   plans, Bounds what bounds them
-- - Oql/World: the state that the handlers of _interpreter_actions.py keep, and how they read
--   values. Thresholds, Conditions, Functions, Firmware and Actions are the handlers with what
--   they call of interpreter.py, _sensor_evaluator.py, _value_normalizers.py and
--   _firmware_executor.py; Table is `ACTION_HANDLERS`, which fills the interpreter's record.
--   Gates, Names and Goals are about thresholds, Live about conditions, Power about the pump
-- - Oql/Interpreter: interpreter.py and _interpreter_actions.py beside it: the control flow,
--   over a record of handlers of standard actions; Interpreter/Scripts the results of steps and
--   goals, Interpreter/Flow what the control flow guarantees, Interpreter/Keeps what it keeps
-- - Scenario/Expression: oqlos/core/executor.py: `safe_eval_condition` and `validate_goal`, with
--   packages/oqlos-core/src/oqlos/core/_compare.py; Chains is what its chains of comparisons
--   mean
-- - Scenario/Orchestrator: `ScenarioOrchestrator` beside it: its state, what it does through the
--   state manager and the hardware, what others ask of it meanwhile
--   (oqlos/api/utils/execution_ctrl.py), and in children the names of conditions (Contexts), the
--   handlers (Devices, Steps, Checks), goals and scenarios (Runs); Keeps, Handled and Outcome
--   say how a run ends
-- - Tests: runs at concrete inputs
--
-- How the state corresponds: an object of the program is a record, and a method takes the record
-- and returns it with its answer. A subscriber is a function on the state that the projections
-- keep, so `append` takes and returns that state as well. A gateway is a record of what it offers
-- and a function `reply` that answers each call, given all calls before it; the calls made so far
-- are part of the state of the recipes, so that a theorem can speak of their order. An answer is a
-- value or an exception, and whether an exception is recorded or ends the request is as in the
-- source. The operation lock of the recipes makes each request one step, and a sequence of
-- requests is a list.
--
-- Floats are a type parameter with the operations the code uses (Base/Float), of which no law is
-- assumed. Conversions of texts and numbers, what the regular expressions match, the clock, the
-- environment, the sensors' readings, the sends of a broadcast with what others ask meanwhile, and
-- the gateway's answers are parameters, as are the documents and recipes that add profiles. The loops are over lists and texts, except WHILE, whose 1000 turns
-- are the program's own limit; so no fuel is needed.
--
-- The thresholds of a goal are about the whole interpreter: a property of the handlers' state that
-- every handler keeps is kept by every script (Interpreter/Keeps), and the theorem on goals puts
-- that together with what the evaluation of thresholds does. It takes the SETs of the motor and of
-- peripherals as an interface, with the law that they leave the thresholds alone.
--
-- Not modelled: the regular expressions of the OQL tokenizer, the flat parser, the diagnostics of
-- scripts (API, EXPECT, ASSERT and shell actions), the drivers and the gateway behind the recipes,
-- the artificial lung's recipe (hui_artificial_lung.py), diagnosis, the HTTP API (but for the pause,
-- resume and stop of an execution, and a connection that comes or goes), the catalogue of
-- errors, and the command lines and scripts. Of the modelled files, the wall-clock fields of
-- answers, what is printed, the text of log messages and the locks are left out.
pub mod Base
pub mod Models
pub mod Cqrs
pub mod State
pub mod Power
pub mod Hui
pub mod Lung
pub mod Oql
pub mod Scenario
pub mod Tests
