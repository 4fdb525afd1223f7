-- ===== src/Models.antt =====
-- The data models of packages/oqlos-models/src/oqlos/models: peripherals, executions and
-- scenarios. `F` is the type of Python's floats, and `Value F` is what `Any` holds.
pub mod Truth
use oqlos.Base.{String, Bool, Option, List}
use oqlos.Base.Int.{ℤ}
use oqlos.Base.Dict.{Dict}

mutual
  pub data Value (F : Type 0) : Type 0 where
    null : Value F
    bool : Bool → Value F
    int : ℤ → Value F
    float : F → Value F
    str : String → Value F
    dict : Fields F → Value F
    list : Elements F → Value F

  pub data Fields (F : Type 0) : Type 0 where
    end : Fields F
    field : String → Value F → Fields F → Fields F

  -- of a list or a tuple
  pub data Elements (F : Type 0) : Type 0 where
    no_more : Elements F
    element : Value F → Elements F → Elements F

pub data PeripheralType : Type 0 where
  pressure_sensor valve pump artificial_lung encoder button : PeripheralType

pub data PeripheralStatus : Type 0 where
  ok warning error : PeripheralStatus

pub data PeripheralMode : Type 0 where
  auto manual : PeripheralMode

pub record Peripheral (F : Type 0) : Type 0 where
  pub id : String
  pub type : PeripheralType
  pub name : String
  pub current_value : Value F
  pub target_value : Value F
  pub unit : Option String
  pub range : Option (Dict F)
  pub status : PeripheralStatus
  pub mode : PeripheralMode
  pub dependencies : List String

pub record ExecutionStatus (F : Type 0) : Type 0 where
  pub execution_id : String
  pub scenario_id : String
  pub status : String
  pub current_goal : Option String
  pub current_step : Option String
  pub progress : F

pub record Step (F : Type 0) : Type 0 where
  pub id : String
  pub action : String
  pub label : Option String
  pub peripheral : Option String
  pub value : Value F
  pub duration : Option ℤ
  pub condition : Option String

pub record ValidationRule : Type 0 where
  pub peripheral : String
  pub condition : String
  pub error_message : String

pub record Goal (F : Type 0) : Type 0 where
  pub id : String
  pub name : String
  pub description : String
  pub steps : List (Step F)
  pub expected_result : String
  pub validation_criteria : List ValidationRule

pub record Scenario (F : Type 0) : Type 0 where
  pub id : String
  pub name : String
  pub description : String
  pub device : String
  pub protocol : String
  pub code : Option String
  pub slug : Option String
  pub goals : List (Goal F)
