-- ===== src/Power/Policy.antt =====
-- `command_power_policy` of oqlos/hardware/power_safety.py.
use oqlos.Base.{
  String, Bool, true, false, not, ◌&&◌, ◌||◌, Option, none, some, List, [], ◌∷◌, ◌==◌,
  if◌then◌else◌, one_of, get_or, any,
}
use oqlos.Base.Dict
use oqlos.Base.Dict.{Dict}
use oqlos.Base.Int.{ℤ}
use oqlos.Base.Float.{Float}
use oqlos.Base.Texts.{strip, replace, starts_with}
use oqlos.Models.{Value, bool, float}
use oqlos.Models.Truth.{truthy}
use oqlos.Oql.Motor2.Config.{Parsed, number, invalid, overflow}

-- What the code uses of Python: `s.lower()`, `int(v)`, `float(v)` and `str(v)`
pub record Python (F : Type 0) : Type 0 where
  pub lower : String → String
  pub to_int : Value F → Parsed ℤ
  pub to_float : Value F → Parsed F
  pub text : Value F → String

pub data Policy : Type 0 where
  safe_state read_only actuation : Policy

abbrev safe_state_commands : List String
safe_state_commands =
    "deenergize" ∷ "disable" ∷ "emergency_stop" ∷ "lung_disable" ∷ "lung_stop" ∷ "motor_disable"
    ∷ "pump_off" ∷ "shutdown" ∷ "standby" ∷ "stop" ∷ "stop_lung" ∷ "valve_off" ∷ []

abbrev read_only_commands : List String
read_only_commands =
    "capabilities" ∷ "diagnose" ∷ "health" ∷ "identify" ∷ "ping" ∷ "probe" ∷ "read" ∷ "read_all"
    ∷ "read_config_snapshot" ∷ "read_io_snapshot" ∷ "read_sensor" ∷ "set_lpm" ∷ "status" ∷ []

abbrev is_false : {F : Type 0} → Option (Value F) → Bool
is_false (some (bool false)) = true
is_false _ = false

module _ {F : Type 0} (fl : Float F) (py : Python F) where
  abbrev zero_float : F
  zero_float = fl.of_int (ℤ.pos 0)

  -- `float(…) <= 0`, where a number too large for a float raises an OverflowError: `none`
  abbrev by_power : Parsed F → Option Policy
  by_power (number x) = some (if fl.le x zero_float then safe_state else actuation)
  by_power invalid = some actuation
  by_power overflow = none

  -- A command that is None is "" here, and parameters that are no dict are empty.
  unfoldable pub command_power_policy : String → Dict (Value F) → Option Policy
  unfolding strip replace truthy
  command_power_policy command values =
      let name = replace (py.lower (strip command)) "-" "_" in
      if one_of name safe_state_commands
      then some safe_state
      else if one_of name read_only_commands
          || any (λ p. starts_with p name) ("get_" ∷ "read_" ∷ "list_" ∷ [])
      then some read_only
      else if one_of name ("set_coil" ∷ "set_valve" ∷ [])
          && not (truthy (λ x. fl.eq x zero_float) (get_or (Dict.get values "value") (bool false)))
      then some safe_state
      else if name == "energize" && is_false (Dict.get values "enable")
      then some safe_state
      else if one_of name ("set_pump" ∷ "set_speed" ∷ [])
      then by_power (py.to_float (get_or (Dict.get values "power_pct") (float zero_float)))
      else some actuation
