-- ===== src/Scenario/Orchestrator.antt =====
-- The state that `ScenarioOrchestrator` of oqlos/core/executor.py keeps while it runs a scenario,
-- and what its methods do with the rest of the program. A method returns a value or raises, and
-- what it has changed stays changed when it raises.
pub mod Keeps
pub mod Contexts
pub mod Devices
pub mod Steps
pub mod Checks
pub mod Runs
pub mod Handled
pub mod Outcome
use oqlos.Base.{
  ℕ, ◌+◌, String, Bool, true, false, not, ◌&&◌, Option, none, some, List, [], ◌∷◌, ◌==◌,
  if◌then◌else◌, is_some, or_else, run,
}
use oqlos.Base.Int.{ℤ}
use oqlos.Base.Float.{Float}
use oqlos.Models.{Value, Peripheral, ExecutionStatus, Step}
use oqlos.Hui.Gateway.{Reply, returned, raised}
use oqlos.Cqrs.Command.{Command, set_execution_status}
use oqlos.Cqrs.Projection.Sync.{shown}
use oqlos.Cqrs.Bus
use oqlos.Cqrs.Bus.{Dispatched, DispatchError, dispatch}
use oqlos.State.{StateManager, Projections, after_dispatch}
use oqlos.State.Broadcast.{Sent, broadcast_event}
use oqlos.Scenario.Expression.{Node, Objects}

pub data HardwareCall (F : Type 0) : Type 0 where
  set_valve : String → Bool → HardwareCall F
  set_pump : F → HardwareCall F
  set_lung : ℤ → HardwareCall F
  stop_lung : HardwareCall F
  read_sensor : String → HardwareCall F

pub data Level : Type 0 where
  info success error : Level

-- What a message of `log_event` is about, with the values that it shows.
pub data Note (F : Type 0) : Type 0 where
  starting_goal : String → Note F
  goal_completed goal_failed : Note F
  executing : String → Note F
  executing_step : String → String → Note F
  target_peripheral : String → Note F
  lung_cycles : ℤ → Note F
  valve_is : String → Bool → Note F
  pump_power : Value F → Note F
  sensor_reading : String → Value F → Option String → Note F
  sensor_follows : String → String → Note F
  validation_passed validation_failed validation_error : String → Note F
  rule_failed rule_error : String → Note F

pub record Update (F : Type 0) : Type 0 where
  pub execution_id : String
  pub current_index : ℤ
  pub execution : ExecutionStatus F

-- What a run lets the world see: broadcasts, waits and calls of the hardware
pub data Output (F : Type 0) : Type 0 where
  event : Level → Note F → Output F
  execution_update : Update F → Output F
  peripheral_update : Peripheral F → Output F
  slept : F → Output F
  called : HardwareCall F → Output F

-- `raised` by the bus, a KeyError, a ValueError for a scenario that is not there, an error of
-- Python's arithmetic, a ValueError for a connection that was taken out during a broadcast, and an
-- exception of the hardware
pub data Error : Type 0 where
  not_dispatched : DispatchError → Error
  key_error scenario_not_found arithmetic_error connection_gone : Error
  hardware_error : String → Error

-- Python's arithmetic on the values that steps and peripherals hold; `none` where it raises.
pub record Arithmetic (F : Type 0) : Type 0 where
  pub add : Value F → Value F → Option (Value F)
  pub sub : Value F → Value F → Option (Value F)
  pub mul : Value F → Value F → Option (Value F)
  pub div : Value F → Value F → Option (Value F)
  pub neg : Value F → Option (Value F)
  pub is_positive : Value F → Option Bool
  pub to_int : Value F → Option ℤ
  pub to_float : Value F → Option F
  -- `f"{value:.1f}"`
  pub one_decimal : Value F → Option String

-- A call of `do_pause`, `do_resume` or `do_stop` of oqlos/api/utils/execution_ctrl.py
pub data Control : Type 0 where
  pause resume stop : Control

pub record Request : Type 0 where
  pub control : Control
  pub execution_id : Option String

-- the status that it sets
abbrev pub status_of : Control → String
status_of pause = "paused"
status_of resume = "running"
status_of stop = "stopped"

-- What the orchestrator runs over. Outputs come newest first; each of them is awaited, and
-- `requests` tells what others ask for meanwhile, and `sends` how the sends of a broadcast go.
-- `polls n` is how often `paused`, which only those requests set, is found set before the n-th
-- step.
pub record Setup (F V : Type 0) : Type 0 where
  pub floats : Float F
  pub python : Arithmetic F
  pub objects : Objects V
  pub of_value : Value F → V
  pub of_peripheral : Peripheral F → V
  pub parse : String → Option (Node V)
  pub upper : String → String
  pub clock : ℕ → F
  pub sends : List (Output F) → List Sent
  pub hardware : List (Output F) → HardwareCall F → Reply F
  pub requests : List (Output F) → List Request
  pub polls : ℕ → ℕ

pub record Orchestrator (F : Type 0) : Type 0 where
  pub manager : StateManager F
  pub running : Bool
  pub current_execution_id : Option String
  pub current_index : ℤ
  pub step_plan : List (Step F)
  pub step_counter : ℕ
  -- how many commands have been dispatched
  pub ticks : ℕ
  pub outputs : List (Output F)

pub data Result (A : Type 0) : Type 0 where
  ok : A → Result A
  err : Error → Result A

abbrev pub Run : Type 0 → Type 0 → Type 0
Run F A = Orchestrator F → Result A × Orchestrator F

module _ {F : Type 0} where
  abbrev pub after :
      {A B : Type 0} → Result A × Orchestrator F → (A → Run F B) → Result B × Orchestrator F
  after (ok a, o) f = f a o
  after (err e, o) f = (err e, o)

  abbrev pub pure : {A : Type 0} → A → Run F A
  pure a o = (ok a, o)

  abbrev pub raise : {A : Type 0} → Error → Run F A
  raise e o = (err e, o)

  abbrev pub gets : {A : Type 0} → (Orchestrator F → A) → Run F A
  gets f o = (ok (f o), o)

  abbrev pub or_raise : {A : Type 0} → Option A → Error → Run F A
  or_raise none e = raise e
  or_raise (some a) e = pure a

  abbrev pub caught : {A : Type 0} → Result A × Orchestrator F → Run F A → Result A × Orchestrator F
  caught (ok a, o) k = (ok a, o)
  caught (err e, o) k = k o

  -- `try: m except Exception: k`
  abbrev pub otherwise : {A : Type 0} → Run F A → Run F A → Run F A
  otherwise m k o = caught (m o) k

infixl 5 ◌>>=◌ ◌>>◌
abbrev pub ◌>>=◌ : {F A B : Type 0} → Run F A → (A → Run F B) → Run F B
◌>>=◌ m f o = after (m o) f

abbrev pub ◌>>◌ : {F A B : Type 0} → Run F A → Run F B → Run F B
m >> k = m >>= λ _. k

-- `for x in xs: …`
unfoldable pub each : {F A : Type 0} → (A → Run F (Unit {0})) → List A → Run F (Unit {0})
each f [] = pure tt
each f (x ∷ xs) = f x >> each f xs

abbrev pub nothing : {F : Type 0} → Run F (Unit {0})
nothing = pure tt

module _ {F V : Type 0} (rt : Setup F V) where
  abbrev dispatched : Dispatched F (Projections F) → Result (Unit {0})
  dispatched (Dispatched.done events store p) = ok tt
  dispatched (Dispatched.raised e) = err (not_dispatched e)

  -- `command_bus.dispatch(command)`
  unfoldable pub send : Command F → Run F (Unit {0})
  unfolding after_dispatch dispatch
  send command o =
      let m = o.manager in
      let d = dispatch m.command_bus (m.event_store, m.projections) (rt.clock o.ticks) command in
      (dispatched d, record o { manager = after_dispatch m d; ticks = o.ticks + 1 })

  -- `if execution_id and execution_id in sm.executions`
  abbrev pub known_id : Option String → Orchestrator F → Option String
  known_id none o = none
  known_id (some id) o =
      if not (id == "") && is_some (shown o.manager.projections.executions id)
      then some id
      else none

  -- the id of `current_execution`
  abbrev pub current_id : Option String → Orchestrator F → Option String
  current_id none o = none
  current_id (some id) o = elim (shown o.manager.projections.executions id) [
    | none ↦ none
    | some x ↦ some x.execution_id
  ]

  abbrev pub set_running : Control → Orchestrator F → Orchestrator F
  set_running stop o = record o { running = false }
  set_running _ o = o

  -- the dispatch of a request; what it raises goes to whoever asked
  unfoldable pub tell : Control → Option String → Orchestrator F → Orchestrator F
  unfolding send
  tell control none o = o
  tell control (some id) o =
      if id == ""
      then o
      else (send (set_execution_status (record { execution_id = id; status = status_of control }))
          o).1

  unfoldable pub serve : Orchestrator F → Request → Orchestrator F
  unfolding tell
  serve o request =
      let o' = set_running request.control o in
      tell request.control
        (or_else (known_id request.execution_id o') (current_id o'.current_execution_id o')) o'

  -- an output, and what is asked for while it is awaited
  unfoldable pub awaited : Output F → Orchestrator F → Orchestrator F
  unfolding serve
  awaited out o = run serve (record o { outputs = out ∷ o.outputs }) (rt.requests o.outputs)

  unfoldable pub output : Output F → Run F (Unit {0})
  unfolding awaited
  output out o = (ok tt, awaited out o)

  abbrev pub broadcasted : Bool → Result (Unit {0})
  broadcasted true = ok tt
  broadcasted false = err connection_gone

  -- `state_manager.broadcast_event(event)`
  unfoldable pub broadcast : Output F → Run F (Unit {0})
  unfolding awaited broadcast_event
  broadcast out o =
      let (returns, m) = broadcast_event (rt.sends o.outputs) o.manager in
      (broadcasted returns, awaited out (record o { manager = m }))

  unfoldable pub log_event : Level → Note F → Run F (Unit {0})
  unfolding broadcast
  log_event level note = broadcast (event level note)

  abbrev replied : Reply F → Result (Value F)
  replied (Reply.returned v) = ok v
  replied (Reply.raised message) = err (hardware_error message)

  unfoldable pub call : HardwareCall F → Run F (Value F)
  unfolding awaited
  call c o = (replied (rt.hardware o.outputs c), awaited (called c) o)

  unfoldable pub python : {A : Type 0} → Option A → Run F A
  python m = or_raise m arithmetic_error

  -- `if not self.running: break` reads the flag here.
  unfoldable pub is_running : Run F Bool
  is_running o = (ok o.running, o)
