-- ===== src/Tests/CqrsRuns.antt =====
-- Runs of the event store, the state manager and the audit trail of sensors.
use oqlos.Base.{
  ℕ, String, ◌≡◌, refl, true, false, none, some, List, [], ◌∷◌, ◌++◌, map, length, keep, run,
}
use oqlos.Base.Int.{ℤ, pos, negsuc, last_index}
use oqlos.Base.Dict
use oqlos.Base.Dict.{Dict}
use oqlos.Models.{int, Value, float, null}
use oqlos.Models
use oqlos.Cqrs.Event.{Event, new_event, execution_started, execution_step_started, sensor_observed}
use oqlos.Cqrs.Store
use oqlos.Cqrs.Store.{EventStore, append_many, replay, all_events}
use oqlos.Cqrs.Store.Log.{in_stream, number_from, replay-append_many}
use oqlos.Cqrs.Store.Order.{IsFiledStore, append_many-IsFiledStore, keep-all_events}
use oqlos.Cqrs.Aggregate.{rehydrate}
use oqlos.Cqrs.Aggregate.Replay.{rehydrate-append_many}
use oqlos.Cqrs.Projection.{empty, rebuild}
use oqlos.Cqrs.Projection.Sync.{shown}
use oqlos.Cqrs.Command.{
  Command, set_peripheral_value, set_peripheral_mode, start_execution, start_goal,
}
use oqlos.Cqrs.Peripheral
use oqlos.Cqrs.Execution
use oqlos.Cqrs.Bus.{build_command_bus, dispatch, done, events_of, dispatch-build_command_bus}
use oqlos.Base.Parsed.{Parsed, number, invalid, overflow}
use oqlos.Cqrs.Telemetry.{record_sensor_readings, sensor_history, latest_sensor_values}
use oqlos.Cqrs.Telemetry.History.{
  observations, numeric, last_observed, get-latest_sensor_values,
  sensor_history-record_sensor_readings,
}
use oqlos.State.{StateManager, bare, send, initial_commands}
use oqlos.State.ReadModels.{shown-rehydrate-run, shown-rebuild-run}
use oqlos.State.Broadcast.{disconnected, broadcast_event}
use oqlos.State.Broadcast.Left.{uninterrupted, broadcast_event-uninterrupted}

-- floats are numbers here, and a negative `int` is read as 0
abbrev natural : ℤ → ℕ
natural (pos n) = n
natural (negsuc n) = 0

abbrev log : List (Event ℕ)
unfolding new_event
log =
    new_event 1 "exec-1" (execution_started "leak-test")
    ∷ new_event 2 "nc-sensor" (sensor_observed 7 "firmware")
    ∷ new_event 3 "exec-1" (execution_step_started "s1")
    ∷ []

abbrev stored : EventStore ℕ Unit
stored = (append_many Store.init tt log).1

replay-append_many_example :
    replay stored "exec-1"
    ≡ replay {F = ℕ} {S = Unit} Store.init "exec-1"
      ++ number_from
          (length (replay {F = ℕ} {S = Unit} Store.init "exec-1"))
          (keep (in_stream "exec-1") log)
replay-append_many_example = replay-append_many Store.init tt log "exec-1"

rehydrate-append_many_example :
    (rehydrate (Execution.kind 0) "exec-1" stored).version
    ≡ last_index (length (keep (in_stream "exec-1") log))
rehydrate-append_many_example = rehydrate-append_many (Execution.kind 0) tt log "exec-1"

-- two events, so version 1
rehydrated_version : last_index (length (keep (in_stream "exec-1") log)) ≡ pos 1
unfolding new_event
rehydrated_version = refl

stored-IsFiledStore : IsFiledStore stored
stored-IsFiledStore = append_many-IsFiledStore Store.init tt log (unfold Store.init in tt)

keep-all_events_example : keep (in_stream "exec-1") (all_events stored) ≡ replay stored "exec-1"
keep-all_events_example = keep-all_events stored "exec-1" stored-IsFiledStore

get-latest_sensor_values_example :
    Dict.get (latest_sensor_values stored) "nc-sensor"
    ≡ last_observed none (replay stored "nc-sensor")
get-latest_sensor_values_example = get-latest_sensor_values stored "nc-sensor" stored-IsFiledStore

abbrev goal_one : Command ℕ
goal_one = start_goal (record { execution_id = "exec-1"; goal_id = "g1" })

dispatch-build_command_bus_example :
    dispatch build_command_bus (stored, tt) 9 goal_one
    ≡ (let r = append_many stored tt (events_of 9 goal_one) in done r.0 r.1 r.2)
dispatch-build_command_bus_example = dispatch-build_command_bus stored tt 9 goal_one

-- an `int` stands for one that is too large for a float
abbrev as_float : Value ℕ → Parsed ℕ
as_float (float x) = number x
as_float (int x) = overflow
as_float _ = invalid

abbrev readings : Dict (Value ℕ)
readings =
    ("wc-sensor", null)
    ∷ ("nc-sensor", float 5)
    ∷ ("sc-sensor", int (pos 1))
    ∷ ("ac-sensor", float 2)
    ∷ []

sensor_history-record_sensor_readings_example :
    let r = record_sensor_readings as_float 9 "firmware" (some stored, tt) readings in
    (recorded : EventStore ℕ Unit) × (r.0 ≡ false)
    × (r.1.0 ≡ some recorded)
    × ((id : String)
        → observations (sensor_history recorded id)
          ≡ observations (sensor_history stored id) ++ numeric as_float id readings)
sensor_history-record_sensor_readings_example =
    sensor_history-record_sensor_readings as_float 9 "firmware" stored tt readings

abbrev commands : List (ℕ × Command ℕ)
commands =
    map (λ c. (0, c)) (initial_commands natural)
    ++ ((
      1,
      set_peripheral_value (record {
        peripheral_id = "pump-main";
        current_value = float 40;
        target_value = float 50;
      }),
    )
        ∷ (2, set_peripheral_mode (record { peripheral_id = "no-such"; mode = Models.manual }))
        ∷ (3, start_execution (record { execution_id = "exec-1"; scenario_id = "leak-test" }))
        ∷ (4, goal_one)
        ∷ [])

shown-rehydrate-run_example :
    let m = run send (bare 0) commands in
    (shown m.projections.peripherals "pump-main"
      ≡ (rehydrate Peripheral.kind "pump-main" m.event_store).state)
    × (shown m.projections.executions "pump-main"
        ≡ (rehydrate (Execution.kind 0) "pump-main" m.event_store).state)
shown-rehydrate-run_example = shown-rehydrate-run 0 commands "pump-main"

shown-rebuild-run_example :
    let m = run send (bare 0) commands in
    (shown (rebuild Peripheral.project empty m.event_store) "exec-1"
      ≡ shown m.projections.peripherals "exec-1")
    × (shown (rebuild (Execution.project 0) empty m.event_store) "exec-1"
        ≡ shown m.projections.executions "exec-1")
shown-rebuild-run_example = shown-rebuild-run 0 commands "exec-1"

abbrev clients : StateManager ℕ
clients = record (bare 0) { websocket_connections = 1 ∷ 2 ∷ 3 ∷ [] }

broadcast_event-uninterrupted_example :
    broadcast_event (uninterrupted ((1, true) ∷ (2, false) ∷ (3, true) ∷ [])) clients
    ≡ (true, record clients { websocket_connections = 1 ∷ 3 ∷ [] })
broadcast_event-uninterrupted_example =
    broadcast_event-uninterrupted clients ((1, true) ∷ (2, false) ∷ (3, true) ∷ []) refl
      (refl, (refl, (refl, tt)))

-- The first send raises, and during the second the endpoint takes the first client out.
gone-raises :
    (broadcast_event
      (record { returns = false; meanwhile = [] }
        ∷ record { returns = true; meanwhile = disconnected 1 ∷ [] }
        ∷ [])
      clients).0
    ≡ false
unfolding broadcast_event
gone-raises = refl
