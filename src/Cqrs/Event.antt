-- ===== src/Cqrs/Event.antt =====
-- The events of oqlos/core/cqrs: the base class of events.py with the fields that its subclasses
-- in peripheral.py, execution.py and telemetry.py add.
use oqlos.Base.{String, Option, List}
use oqlos.Base.Int.{ℤ, negsuc}
use oqlos.Base.Dict.{Dict}
use oqlos.Models.{Value, PeripheralType, PeripheralStatus, PeripheralMode}

pub record PeripheralRegistered (F : Type 0) : Type 0 where
  pub type : PeripheralType
  pub name : String
  pub current_value : Value F
  pub target_value : Value F
  pub unit : Option String
  pub range : Option (Dict F)
  pub status : PeripheralStatus
  pub mode : PeripheralMode
  pub dependencies : List String

-- The class of an event, with the fields of that class.
pub data Payload (F : Type 0) : Type 0 where
  peripheral_registered : PeripheralRegistered F → Payload F
  peripheral_value_set : Value F → Value F → Payload F
  peripheral_mode_changed : PeripheralMode → Payload F
  peripheral_status_changed : PeripheralStatus → Payload F
  execution_started : String → Payload F
  execution_goal_started : String → Payload F
  execution_step_started : String → Payload F
  execution_progress_updated : F → Payload F
  execution_status_changed : String → Payload F
  sensor_observed : F → String → Payload F

pub record Event (F : Type 0) : Type 0 where
  pub stream_id : String
  pub version : ℤ
  pub timestamp : F
  pub payload : Payload F

-- A new event has version -1 until a store appends it; `now` is the reading of `time.time`.
unfoldable pub new_event : {F : Type 0} → F → String → Payload F → Event F
new_event now stream_id payload = record {
  stream_id = stream_id;
  version = negsuc 0;
  timestamp = now;
  payload = payload;
}
