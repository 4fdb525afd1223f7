-- ===== src/Cqrs/Telemetry.antt =====
-- oqlos/core/cqrs/telemetry.py: the audit trail of sensor readings. `to_float` is Python's
-- `float(value)`.
pub mod History
use oqlos.Base.{String, Bool, true, false, Option, none, some, List, [], ◌∷◌, keep}
use oqlos.Base.Dict
use oqlos.Base.Dict.{Dict}
use oqlos.Base.Parsed.{Parsed, number, invalid, overflow}
use oqlos.Models.{Value}
use oqlos.Cqrs.Event.{Event, Payload, sensor_observed, new_event}
use oqlos.Cqrs.Store.{EventStore, append, replay}
use oqlos.Cqrs.Projection.{rebuild}

module _ {F S : Type 0} (to_float : Value F → Parsed F) (now : F) (source : String) where
  observe : EventStore F S × S → String → F → EventStore F S × S
  unfolding new_event
  observe (store, s) sensor_id value =
      let (_, store', s') =
        append store s (new_event now sensor_id (sensor_observed value source)) in
      (store', s')

  -- The body of the loop: `continue` where the conversion raises TypeError or ValueError. An
  -- OverflowError is not caught: it ends the loop, and the call raises it, which `false` tells.
  abbrev observe_next :
      EventStore F S × S
      → String
      → Parsed F
      → (EventStore F S × S → Bool × (EventStore F S × S))
      → Bool × (EventStore F S × S)
  observe_next at sensor_id (number value) rest = rest (observe at sensor_id value)
  observe_next at sensor_id invalid rest = rest at
  observe_next at sensor_id overflow rest = (false, at)

  observe_all : EventStore F S × S → Dict (Value F) → Bool × (EventStore F S × S)
  observe_all at [] = (true, at)
  observe_all at ((sensor_id, value) ∷ readings) =
      observe_next at sensor_id (to_float value) (λ at'. observe_all at' readings)

  -- with no store nothing is recorded
  pub record_sensor_readings :
      Option (EventStore F S) × S → Dict (Value F) → Bool × (Option (EventStore F S) × S)
  record_sensor_readings (none, s) readings = (true, (none, s))
  record_sensor_readings (some store, s) readings =
      let (returns, (store', s')) = observe_all (store, s) readings in (returns, (some store', s'))

module _ {F : Type 0} where
  -- `SensorTelemetryProjection.apply`, on its dict `latest`
  latest_payload : Dict F → String → Payload F → Dict F
  latest_payload latest id (sensor_observed value source) = Dict.set latest id value
  latest_payload latest id _ = latest

  unfoldable pub apply : Dict F → Event F → Dict F
  unfolding latest_payload
  apply latest event = latest_payload latest event.stream_id event.payload

  is_sensor_observed : Payload F → Bool
  is_sensor_observed (sensor_observed _ _) = true
  is_sensor_observed _ = false

module _ {F S : Type 0} where
  pub latest_sensor_values : EventStore F S → Dict F
  unfolding apply rebuild
  latest_sensor_values store = rebuild apply [] store

  pub sensor_history : EventStore F S → String → List (Event F)
  unfolding is_sensor_observed
  sensor_history store sensor_id =
      keep (λ event. is_sensor_observed event.payload) (replay store sensor_id)
