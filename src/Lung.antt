-- ===== src/Lung.antt =====
-- oqlos/hardware/artificial_lung.py: the state of the artificial lung and its commands. The motor
-- is a parameter: `reply` answers each call, and may depend on all calls before it.
pub mod Commands
pub mod Calls
pub mod Held
pub mod Stops
use oqlos.Base.{
  ℕ, String, Bool, true, Option, none, some, List, [], ◌∷◌, ◌++◌, ◌==◌, ltb, if◌then◌else◌,
}
use oqlos.Base.Dict
use oqlos.Base.Dict.{Dict}
use oqlos.Base.Int.{ℤ, at_least}
use oqlos.Base.Float
use oqlos.Base.Float.{Float}
use oqlos.Models.{Value, Fields, null, dict, end, field}
use oqlos.Oql.Motor2.Config.{Parsed, number, invalid, overflow}
use oqlos.Power.Sampling.{Sampling, OqlosError}

-- `LUNG_STATE`
pub record LungState : Type 0 where
  pub running : Bool
  pub lpm : ℕ
  pub status : String

pub data MotorCall (F : Type 0) : Type 0 where
  set_lung : ℤ → ℤ → ℤ → F → MotorCall F
  stop_lung health : MotorCall F

pub data Reply (F : Type 0) : Type 0 where
  returned : Value F → Reply F
  raised : String → Reply F

pub record Motor (F : Type 0) : Type 0 where
  pub is_real : Bool
  pub reply : List (MotorCall F) → MotorCall F → Reply F

-- The module's state, the cache of the power gate, and the calls that the motor has received
pub record Lung (F : Type 0) : Type 0 where
  pub state : LungState
  pub sampling : Sampling
  pub calls : List (MotorCall F)

-- `_command_response`, with the fields that have no fixed value; of a result, the message is left
-- out, which repeats them.
pub record Response (F : Type 0) : Type 0 where
  pub ok : Bool
  pub command : String
  pub result : Fields F
  pub state : LungState
  pub error : Option String

-- What a command raises: the gate's error, that of a parameter which is no number, or the motor's
pub data Fault : Type 0 where
  refused : OqlosError → Fault
  bad_number : Fault
  motor_raised : String → Fault

pub data Outcome (F : Type 0) : Type 0 where
  answered : Response F → Outcome F
  raises : Fault → Outcome F

-- `data[key]` of a dict, None where it is missing
abbrev pub entry : {F : Type 0} → String → Fields F → Value F
entry key end = null
entry key (field k v rest) = if k == key then v else entry key rest

abbrev pub entry_of : {F : Type 0} → String → Value F → Value F
entry_of key (dict fields) = entry key fields
entry_of key _ = null

-- `_clamp_lpm`: an OverflowError is not caught
unfoldable pub clamp_lpm : Parsed ℤ → Option ℕ
clamp_lpm (number n) = some (if ltb 50 (at_least 0 n) then 50 else at_least 0 n)
clamp_lpm invalid = some 0
clamp_lpm overflow = none

module _ {F : Type 0} where
  abbrev pub answer : String → Fields F → Lung F → Outcome F × Lung F
  answer command result l = (
    answered
        (record { ok = true; command = command; result = result; state = l.state; error = none }),
    l,
  )

  abbrev pub called : MotorCall F → Lung F → Lung F
  called c l = record l { calls = l.calls ++ c ∷ [] }

  abbrev pub after_call : Reply F → (Lung F → Outcome F × Lung F) → Lung F → Outcome F × Lung F
  after_call (returned _) k l = k l
  after_call (raised e) k l = (raises (motor_raised e), l)

  -- a call of the motor where it is real; what it returns is not looked at
  abbrev pub on_motor :
      Option (Motor F) → MotorCall F → (Lung F → Outcome F × Lung F) → Lung F → Outcome F × Lung F
  on_motor none c k l = k l
  on_motor (some m) c k l = if m.is_real then after_call (m.reply l.calls c) k (called c l) else k l
