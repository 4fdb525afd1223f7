-- ===== src/Cqrs/Command.antt =====
-- The commands of oqlos/core/cqrs: the base class of commands.py and its subclasses in
-- peripheral.py and execution.py.
use oqlos.Base.{String, Option, List}
use oqlos.Base.Dict.{Dict}
use oqlos.Models.{Value, PeripheralType, PeripheralStatus, PeripheralMode}
use oqlos.Cqrs.Event.{Event}

pub record RegisterPeripheralCommand (F : Type 0) : Type 0 where
  pub peripheral_id : String
  pub type : PeripheralType
  pub name : String
  pub current_value : Value F
  pub target_value : Value F
  pub unit : Option String
  pub range : Option (Dict F)
  pub status : PeripheralStatus
  pub mode : PeripheralMode
  pub dependencies : List String

pub record SetPeripheralValueCommand (F : Type 0) : Type 0 where
  pub peripheral_id : String
  pub current_value : Value F
  pub target_value : Value F

pub record SetPeripheralModeCommand : Type 0 where
  pub peripheral_id : String
  pub mode : PeripheralMode

pub record SetPeripheralStatusCommand : Type 0 where
  pub peripheral_id : String
  pub status : PeripheralStatus

pub record StartExecutionCommand : Type 0 where
  pub execution_id : String
  pub scenario_id : String

pub record StartGoalCommand : Type 0 where
  pub execution_id : String
  pub goal_id : String

pub record StartStepCommand : Type 0 where
  pub execution_id : String
  pub step_id : String

pub record UpdateProgressCommand (F : Type 0) : Type 0 where
  pub execution_id : String
  pub progress : F

pub record SetExecutionStatusCommand : Type 0 where
  pub execution_id : String
  pub status : String

pub data Command (F : Type 0) : Type 0 where
  register_peripheral : RegisterPeripheralCommand F → Command F
  set_peripheral_value : SetPeripheralValueCommand F → Command F
  set_peripheral_mode : SetPeripheralModeCommand → Command F
  set_peripheral_status : SetPeripheralStatusCommand → Command F
  start_execution : StartExecutionCommand → Command F
  start_goal : StartGoalCommand → Command F
  start_step : StartStepCommand → Command F
  update_progress : UpdateProgressCommand F → Command F
  set_execution_status : SetExecutionStatusCommand → Command F

-- `type(command)`: a class is told by its name
unfoldable pub type_of : {F : Type 0} → Command F → String
type_of (register_peripheral _) = "RegisterPeripheralCommand"
type_of (set_peripheral_value _) = "SetPeripheralValueCommand"
type_of (set_peripheral_mode _) = "SetPeripheralModeCommand"
type_of (set_peripheral_status _) = "SetPeripheralStatusCommand"
type_of (start_execution _) = "StartExecutionCommand"
type_of (start_goal _) = "StartGoalCommand"
type_of (start_step _) = "StartStepCommand"
type_of (update_progress _) = "UpdateProgressCommand"
type_of (set_execution_status _) = "SetExecutionStatusCommand"

-- A handler makes its events at the clock reading given first. `none`: the command is of another
-- class than the handler's, and lacks the fields that the handler reads.
abbrev pub Handler : Type 0 → Type 0
Handler F = F → Command F → Option (List (Event F))
