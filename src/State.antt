-- ===== src/State.antt =====
-- `StateManager` of oqlos/core/state.py: the event store, the bus, the two projections that
-- follow the store, and the clients of the web socket. `of_int` makes a float of an `int`, and
-- `now` is the reading of the clock while the manager starts.
pub mod ReadModels
pub mod Executions
pub mod Peripherals
pub mod Broadcast
mod Devices
use oqlos.Base.{ℕ, List, [], map, run}
unfoldable pub use Devices.{initial_commands}
use oqlos.Base.Int.{ℤ, pos}
use oqlos.Base.Dict.{Dict}
use oqlos.Models.{Peripheral, ExecutionStatus, Scenario}
use oqlos.Cqrs.Event.{Event}
use oqlos.Cqrs.Store
use oqlos.Cqrs.Store.{EventStore}
use oqlos.Cqrs.Projection.{ReadModel, empty, attach}
use oqlos.Cqrs.Command.{Command}
use oqlos.Cqrs.Peripheral
use oqlos.Cqrs.Execution
use oqlos.Cqrs.Bus.{CommandBus, build_command_bus, Dispatched, done, raised, dispatch}

-- the state of the attached projections
pub record Projections (F : Type 0) : Type 0 where
  pub peripherals : ReadModel (Peripheral F)
  pub executions : ReadModel (ExecutionStatus F)

pub record StateManager (F : Type 0) : Type 0 where
  pub event_store : EventStore F (Projections F)
  pub command_bus : CommandBus F
  pub projections : Projections F
  pub scenarios : Dict (Scenario F)
  pub websocket_connections : List ℕ

module _ {F : Type 0} where
  unfoldable pub on_peripherals : Projections F → Event F → Projections F
  on_peripherals p event = record p { peripherals = Peripheral.project p.peripherals event }

  unfoldable pub on_executions : F → Projections F → Event F → Projections F
  on_executions zero_float p event = record p {
    executions = Execution.project zero_float p.executions event;
  }

  unfoldable pub after_dispatch : StateManager F → Dispatched F (Projections F) → StateManager F
  after_dispatch m (done events store p) = record m { event_store = store; projections = p }
  after_dispatch m (raised e) = m

  -- `self.command_bus.dispatch(command)`; a caller that goes on after an error goes on from `m`
  unfoldable pub send : StateManager F → F × Command F → StateManager F
  unfolding after_dispatch dispatch
  send m (now, command) =
      after_dispatch m (dispatch m.command_bus (m.event_store, m.projections) now command)

  unfoldable pub attached : F → EventStore F (Projections F) × Projections F
  unfolding attach on_peripherals on_executions Store.init empty Store.subscribe
  attached zero_float =
      attach (on_executions zero_float)
        (attach on_peripherals (Store.init, record { peripherals = empty; executions = empty }))

  -- `__init__` before the peripherals are registered
  unfoldable pub bare : F → StateManager F
  unfolding attached build_command_bus
  bare zero_float = record {
    event_store = (attached zero_float).0;
    command_bus = build_command_bus;
    projections = (attached zero_float).1;
    scenarios = [];
    websocket_connections = [];
  }

  -- `StateManager()`
  unfoldable pub start : (ℤ → F) → F → StateManager F
  unfolding bare initial_commands send
  start of_int now =
      run send (bare (of_int (pos 0))) (map (λ c. (now, c)) (initial_commands of_int))
