-- ===== src/Oql/World.antt =====
-- The state that the action handlers of packages/oqlos-core/src/oqlos/core keep: `OqlInterpreter`
-- of interpreter.py with its `SensorEvaluator`, and how handlers read values
-- (_value_normalizers.py, _firmware_executor.py). `F` is the type of floats.
pub mod Thresholds
pub mod Gates
pub mod Sensors
pub mod Conditions
pub mod Live
pub mod Firmware
pub mod Functions
pub mod Actions
pub mod Table
pub mod Same
pub mod Names
pub mod Goals
pub mod Power
use oqlos.Base.{
  ℕ, suc, String, Bool, true, false, ◌&&◌, ◌||◌, Option, none, some, List, [], ◌∷◌, ◌==◌, nat_eq,
  if◌then◌else◌, or_else,
}
pub use oqlos.Base.Texts.{starts_with}
use Prim.Native.Char.{Char, code}
use Prim.Native.String.{◌++◌ as append_text}
use oqlos.Base.Int.{pos}
use oqlos.Base.Dict
use oqlos.Base.Dict.{Dict}
use oqlos.Base.Float.{Float}
use oqlos.Models.{Value, null, bool, int, float}
use oqlos.Oql.Variables
use oqlos.Oql.Variables.{VariableStore, root, child}
use oqlos.Oql.Interpolate.{interpolate}
use oqlos.Oql.Interpreter.{StepStatus, failed, Effect}

pub data Mode : Type 0 where
  validate dry_run execute : Mode

pub record OqlCondition (F : Type 0) : Type 0 where
  pub sensor : String
  pub operator : String
  pub value : Option F
  pub value_min : Option F
  pub value_max : Option F
  pub unit : String
  pub on_fail : String
  pub fail_message : String

-- an entry of `_oql_thresholds`
pub record Threshold (F : Type 0) : Type 0 where
  pub min : Option F
  pub max : Option F
  pub unit : String

-- a call of the plugin gateway
pub data Call (F : Type 0) : Type 0 where
  set_pump : F → Call F
  set_valve : String → Bool → Call F
  set_lung : Call F

-- `ticks` counts the readings of the clock, and `reads` those of the firmware's sensors;
-- `calls` are those of the gateway and `sleeps` the waits in seconds, the last one first.
pub record World (F : Type 0) : Type 0 where
  pub vars : VariableStore (Value F)
  pub sensor_values : Dict F
  pub thresholds : Dict (Threshold F)
  pub evaluated : List String
  pub warnings : List String
  pub ticks : ℕ
  pub reads : ℕ
  pub calls : List (Call F)
  pub sleeps : List F

-- How an interpreter is set up, and what it uses of Python and of the hardware.
pub record Runtime (F : Type 0) : Type 0 where
  pub mode : Mode
  -- as asked for; `SensorEvaluator` keeps it in a dry run only
  pub auto_mock : Bool
  pub skip_waits : Bool
  pub floats : Float F
  pub strip : String → String
  pub lower : String → String
  pub upper : String → String
  -- `sum(values)`, of floats
  pub sum : List F → F
  -- `int(text)` where `text.isdigit()`
  pub digits : String → Option ℕ
  -- `str(value)` and `f"{x:g}"`
  pub text : Value F → String
  pub short : F → String
  -- `re.search(r"[-+]?\d*\.?\d+", text)`, and `float(text)`, `none` for ValueError
  pub search_number : String → Option String
  pub parse_float : String → Option F
  -- what `\w` matches
  pub is_word : Char → Bool
  -- `text.split()`, and what the regular expressions of `_extract_unit`,
  -- `_extract_window_seconds`, `_INLINE_IF_SPLIT_RE` and `_INLINE_IF_CLAUSE_RE` find: a unit, the
  -- digits of a window, the clauses with the words between them, and the sensor, operator and
  -- value of a clause
  pub words : String → List String
  pub unit_of : String → String
  pub window_of : String → Option String
  pub split_condition : String → List String
  pub clause_of : String → Option (String × String × String)
  -- `time.monotonic()`, and `read_all_sensors()` of the firmware, `none` where it raises
  pub clock : ℕ → F
  pub readings : ℕ → Option (Dict F)
  -- what the gateway answers to its n-th call, `none` where that raises
  pub answers : ℕ → Option (Value F)
  -- `pump_flow_full_scale_lpm()` of the settings
  pub flow_full_scale : F

abbrev pub is_execute : Mode → Bool
is_execute execute = true
is_execute _ = false

abbrev pub is_dry_run : Mode → Bool
is_dry_run dry_run = true
is_dry_run _ = false

-- `sensor.startswith("Δ")`
abbrev pub is_delta : String → Bool
is_delta String.[] = false
is_delta (String.◌∷◌ c s) = nat_eq (code c) 916

unfoldable pub base_sensor : String → String
base_sensor String.[] = ""
base_sensor (String.◌∷◌ c s) = if nat_eq (code c) 916 then s else String.◌∷◌ c s

-- `text.replace(",", ".")`
unfoldable pub replace_commas : String → String
replace_commas String.[] = ""
replace_commas (String.◌∷◌ c s) =
    let rest = replace_commas s in
    if nat_eq (code c) b',' then append_text "." rest else String.◌∷◌ c rest

unfoldable pub mem : String → List String → Bool
mem x [] = false
mem x (y ∷ ys) = y == x || mem x ys

module _ {F : Type 0} where
  -- What handlers do: with no error, and with one.
  abbrev pub done : StepStatus → World F → Effect (World F)
  done status w = record { status = status; world = w; errors = []; skips = false }

  abbrev pub fails : String → World F → Effect (World F)
  fails message w = record { status = failed; world = w; errors = message ∷ []; skips = false }

  abbrev pub get_var : World F → String → Value F
  get_var w key = Variables.get w.vars key null

  abbrev pub set_var : String → Value F → World F → World F
  set_var key value w = record w { vars = Variables.set w.vars key value true }

  -- The normalizer and the firmware executor keep the store that the interpreter started with.
  abbrev pub root_store : VariableStore (Value F) → VariableStore (Value F)
  root_store (root vars) = root vars
  root_store (child vars parent) = root_store parent

  abbrev pub set_root : String → Value F → VariableStore (Value F) → VariableStore (Value F)
  set_root key value (root vars) = root (Dict.set vars key value)
  set_root key value (child vars parent) = child vars (set_root key value parent)

  abbrev pub set_sensor : String → F → World F → World F
  set_sensor sensor x w = record w { sensor_values = Dict.set w.sensor_values sensor x }

  abbrev pub of_option : Option F → Value F
  of_option none = null
  of_option (some x) = float x

module _ {F : Type 0} (rt : Runtime F) where
  -- `_sensor_eval._auto_mock`
  abbrev pub auto_mocks : Bool
  auto_mocks = rt.auto_mock && is_dry_run rt.mode

  abbrev zero_float : F
  zero_float = rt.floats.of_int (pos 0)

  -- The number is converted to an int where it is one, and back.
  unfoldable pub parse_numeric_value : String → Option F
  parse_numeric_value raw = elim (rt.search_number (replace_commas raw)) [
    | none ↦ none
    | some found ↦ rt.parse_float found
  ]

  unfoldable pub coerce_text : String → Option F
  coerce_text s = or_else (parse_numeric_value s) (rt.parse_float (rt.strip (replace_commas s)))

  -- `coerce_float`; a bool is an int
  unfoldable pub coerce_float : Value F → Option F
  coerce_float null = none
  coerce_float (bool b) = some (rt.floats.of_int (pos (if b then 1 else 0)))
  coerce_float (int n) = some (rt.floats.of_int n)
  coerce_float (float x) = some x
  coerce_float value = coerce_text (rt.text value)

  -- the text of a variable, where it is not None
  abbrev text_of_var : World F → String → Option String
  text_of_var w key = elim (get_var w key) [ null ↦ none | value ↦ some (rt.text value) ]

  unfoldable pub interpolated : World F → String → String
  unfolding interpolate
  interpolated w text = interpolate rt.is_word (text_of_var w) text

  -- `refresh_sensors_from_firmware`, which swallows every error
  unfoldable pub refresh_sensors : World F → World F
  unfolding Dict.update
  refresh_sensors w =
      let w' = record w { reads = suc w.reads } in
      elim (rt.readings w.reads) [
        | none ↦ w'
        | some values ↦ record w' { sensor_values = Dict.update w.sensor_values values }
      ]

  unfoldable pub stored_value : String → World F → Option F
  unfolding coerce_float base_sensor
  stored_value sensor w =
      let base = base_sensor sensor in
      or_else (Dict.get w.sensor_values sensor) (
        or_else (Dict.get w.sensor_values base)
          (or_else (coerce_float (get_var w sensor)) (coerce_float (get_var w base))))

  -- `_resolve_live_val`, given the value that is stored
  unfoldable pub live_or_read : String → World F → Option F → Option F × World F
  unfolding refresh_sensors base_sensor
  live_or_read sensor w (some x) = (some x, w)
  live_or_read sensor w none =
      let w' = refresh_sensors w in
      if is_execute rt.mode
      then (
        or_else (Dict.get w'.sensor_values sensor) (Dict.get w'.sensor_values (base_sensor sensor)),
        w',
      )
      else (none, w)

  unfoldable pub resolve_live_val : String → World F → Option F × World F
  unfolding stored_value live_or_read
  resolve_live_val sensor w = live_or_read sensor w (stored_value sensor w)

-- texts: a prefix, a part, an end, and a text without its spaces
abbrev pub contains : String → String → Bool
contains part String.[] = starts_with part String.[]
contains part (String.◌∷◌ c text) = starts_with part (String.◌∷◌ c text) || contains part text

abbrev pub ends_with : String → String → Bool
ends_with end String.[] = end == ""
ends_with end (String.◌∷◌ c text) = String.◌∷◌ c text == end || ends_with end text

abbrev pub without_spaces : String → String
without_spaces String.[] = ""
without_spaces (String.◌∷◌ c text) =
    let rest = without_spaces text in if nat_eq (code c) b' ' then rest else String.◌∷◌ c rest
