-- ===== src/Oql/Motor2/Config.antt =====
-- `normalize_motor2_runtime_config` of motor2_runtime.py. A conversion that raises an error which
-- the code does not catch, as for the text "inf", gives `none`.
use oqlos.Base.{
  ℕ, String, Bool, true, false, Option, none, some, List, [], ◌∷◌, ◌==◌, if◌then◌else◌, ◌>>=◌,
  smaller, larger, one_of, or_text, get_or,
}
use oqlos.Base.Int.{ℤ, at_least}
use oqlos.Base.Float
use oqlos.Base.Float.{Float}
use oqlos.Base.Dict
use oqlos.Base.Dict.{Dict}
use oqlos.Models.Truth.{truthy}
use mathlib.Core.Option
use oqlos.Models.{Value, null, bool, str}
pub use oqlos.Base.Parsed.{Parsed, number, invalid, overflow}

pub record Motor2RuntimeConfig (F : Type 0) : Type 0 where
  pub peripheral_id : String
  pub stroke_steps : ℕ
  pub cycle_volume_liters : F
  pub max_steps_per_second : ℕ
  pub default_speed_steps_per_second : ℕ
  pub acceleration_percent_per_second : Option ℕ
  pub speed_unit : String
  pub acceleration_unit : String
  pub limit_mode : String
  pub start_direction : String
  pub idle_state : String
  pub deenergize_on_stop : Bool
  pub deenergize_on_startup : Bool
  pub stop_at_limit : Bool

pub record Conversions (F : Type 0) : Type 0 where
  pub to_int : Value F → Parsed ℤ
  pub to_float : Value F → Option F
  -- `str(value)`, and `str(value).strip().lower()`
  pub text : Value F → String
  pub normalized : Value F → String
  -- `os.getenv`, with "" for a variable that is not set
  pub environment : String → String

-- the aliases of a direction; any other text is "left"
unfoldable pub as_direction : String → String
as_direction text =
    if one_of text ("reverse" ∷ "backward" ∷ [])
    then "left"
    else if text == "forward"
    then "right"
    else if one_of text ("left" ∷ "right" ∷ [])
    then text
    else "left"

as_limit_mode : String → String
as_limit_mode text =
    if one_of text ("reverse on limit" ∷ "reverse-at-limit" ∷ "reverse at limit" ∷ [])
    then "reverse_on_limit"
    else text

as_idle_state : String → String
as_idle_state text = if one_of text ("deenergized" ∷ "holding" ∷ []) then text else "deenergized"

module _ {F : Type 0} (fl : Float F) (c : Conversions F) where
  unfoldable pub clamped : Parsed ℤ → ℕ → ℕ → Option ℕ
  clamped (number n) default minimum = some (at_least minimum n)
  clamped invalid default minimum = some (larger minimum default)
  clamped overflow default minimum = none

  -- no call gives a maximum
  unfoldable pub coerce_int : Value F → ℕ → ℕ → Option ℕ
  unfolding clamped
  coerce_int value default minimum = clamped (c.to_int value) default minimum

  unfoldable pub coerce_float : Value F → F → F
  coerce_float value default =
      Float.max fl (fl.decimal (ℤ.pos 1) 3) (get_or (c.to_float value) default)

  coerce_text : String → Bool → Bool
  coerce_text text default =
      if one_of text ("1" ∷ "true" ∷ "yes" ∷ "on" ∷ [])
      then true
      else if one_of text ("0" ∷ "false" ∷ "no" ∷ "off" ∷ [])
      then false
      else default

  is_true : Value F → Bool
  unfolding truthy
  is_true value = truthy (λ x. fl.eq x (fl.of_int (ℤ.pos 0))) value

  -- `str(value or default).strip().lower()`, for a default in that form
  unfoldable pub normalized_or : Value F → String → String
  unfolding is_true
  normalized_or value default = if is_true value then c.normalized value else default

  unfoldable pub text_of : Value F → String → String
  unfolding is_true
  text_of value default = if is_true value then c.text value else default

  unfoldable pub coerce_bool : Value F → Bool → Bool
  unfolding coerce_text normalized_or
  coerce_bool (bool b) default = b
  coerce_bool value default = coerce_text (normalized_or value "") default

  is_blank : Value F → Bool
  is_blank null = true
  is_blank (str s) = s == ""
  is_blank _ = false

  unfoldable pub pick : Dict (Value F) → List String → Value F
  unfolding is_blank
  pick source [] = null
  pick source (key ∷ keys) =
      let rest = pick source keys in
      let value = get_or (Dict.get source key) null in if is_blank value then rest else value

  unfoldable pub motor2_max_steps_per_second : ℕ → Option ℕ
  unfolding coerce_int
  motor2_max_steps_per_second default =
      let raw =
        or_text (c.environment "OQLOS_TIC249_MAX_STEPS_PER_SECOND")
          (c.environment "TIC249_MAX_STEPS_PER_SECOND") in
      coerce_int (if raw == "" then null else str raw) default 1

  -- An explicit choice, else what the mode of stopping says.
  stop_at_limit_of : Value F → String → Bool
  unfolding coerce_bool
  stop_at_limit_of null stop_mode =
      if stop_mode == "reach_limit"
      then true
      else if one_of stop_mode ("immediate" ∷ "emergency" ∷ [])
      then false
      else true
  stop_at_limit_of value stop_mode = coerce_bool value true

  acceleration_of : Value F → Option (Option ℕ)
  unfolding coerce_int
  acceleration_of null = some none
  acceleration_of value = Option.map some (coerce_int value 100 0)

  -- A source that is not a dict counts as empty.
  unfoldable pub normalize_motor2_runtime_config :
      Option (Dict (Value F)) → Option (Motor2RuntimeConfig F)
  unfolding pick coerce_int coerce_float coerce_bool motor2_max_steps_per_second as_direction
      as_limit_mode as_idle_state stop_at_limit_of acceleration_of normalized_or text_of
  normalize_motor2_runtime_config source = do
    let src = get_or source []
    let idle_state =
        as_idle_state (normalized_or (pick src ("idleState" ∷ "idle_state" ∷ [])) "deenergized")
    let idle_default = idle_state == "deenergized"
    let stop_mode = normalized_or (pick src ("stopMode" ∷ "stop_mode" ∷ [])) ""
    environment_max ← motor2_max_steps_per_second 1000
    max_speed ←
        coerce_int
          (pick src (
            "maxStepsPerSecond" ∷ "max_steps_per_second" ∷ "maxSpeedStepsPerSecond"
            ∷ "speedLimitStepsPerSecond" ∷ []))
          environment_max 1
    default_speed ←
        coerce_int (pick src ("defaultSpeedStepsPerSecond" ∷ "default_speed_steps_per_second" ∷ []))
          (smaller 1000 max_speed) 1
    acceleration ← acceleration_of (
        pick src (
          "accelerationPercentPerSecond" ∷ "acceleration_percent_per_second" ∷ "acceleration" ∷ []))
    stroke_steps ← coerce_int (pick src ("strokeSteps" ∷ "stroke_steps" ∷ [])) 1000 1
    some (record {
      peripheral_id = text_of (pick src ("peripheralId" ∷ "peripheral_id" ∷ [])) "motor-tic249";
      stroke_steps = stroke_steps;
      cycle_volume_liters =
          coerce_float (pick src ("cycleVolumeLiters" ∷ "cycle_volume_liters" ∷ []))
            (fl.of_int (ℤ.pos 5));
      max_steps_per_second = max_speed;
      default_speed_steps_per_second = smaller max_speed default_speed;
      acceleration_percent_per_second = acceleration;
      speed_unit = text_of (pick src ("speedUnit" ∷ "speed_unit" ∷ [])) "steps/s";
      acceleration_unit = text_of (pick src ("accelerationUnit" ∷ "acceleration_unit" ∷ [])) "%/s";
      limit_mode =
          as_limit_mode
            (normalized_or (pick src ("limitMode" ∷ "limit_mode" ∷ [])) "reverse_on_limit");
      start_direction =
          as_direction
            (normalized_or (pick src ("startDirection" ∷ "start_direction" ∷ [])) "left");
      idle_state = idle_state;
      deenergize_on_stop =
          coerce_bool (pick src ("deenergizeOnStop" ∷ "deenergize_on_stop" ∷ [])) idle_default;
      deenergize_on_startup =
          coerce_bool (pick src ("deenergizeOnStartup" ∷ "deenergize_on_startup" ∷ []))
            idle_default;
      stop_at_limit = stop_at_limit_of (pick src ("stopAtLimit" ∷ "stop_at_limit" ∷ [])) stop_mode;
    })
