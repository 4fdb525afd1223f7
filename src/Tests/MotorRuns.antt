-- ===== src/Tests/MotorRuns.antt =====
-- The motor's plans, the pump's powers and interpolation, run at concrete inputs.
use oqlos.Base.{ℕ, ◌*◌, ◌≤◌, ◌≡◌, refl, true, none, some, ◌>>=◌}
use oqlos.Base.Int.{pos}
use oqlos.Base.Dict
use oqlos.Models.Truth.{truthy}
use oqlos.Oql.Blocks.{Header}
use oqlos.Oql.Motor2.Config.{
  Motor2RuntimeConfig, Conversions, invalid, normalize_motor2_runtime_config, pick, coerce_int,
  clamped, coerce_float, coerce_bool, motor2_max_steps_per_second, as_direction, normalized_or,
  text_of,
}
use oqlos.Oql.Motor2.Plan.{
  Motor2ReciprocatingPlan, Asked, build_motor2_reciprocating_plan, compute_motor2_cycles,
  compute_motor2_speed, requested_speed, motor2_speed_for_duration, motor2_acceleration_raw,
  motor2_speed_raw, scaled,
}
use oqlos.Oql.Motor2.Bounds.{
  IsWithin, build_motor2_reciprocating_plan-IsWithin, motor2_raw_bounds, IsSettable,
}
use oqlos.Oql.World.{OqlCondition, execute}
use oqlos.Oql.World.Firmware.{exec_action_action}
use oqlos.Oql.World.Power.{IsPowered, exec_action_action-IsPowered}
use oqlos.Tests.Floats.{whole, runtime, at_start}

-- no variable of the environment, and no number that parses
abbrev conversions : Conversions ℕ
conversions = record {
  to_int = λ value. invalid;
  to_float = λ value. none;
  text = λ value. "";
  normalized = λ value. "";
  environment = λ name. "";
}

abbrev defaults : Motor2RuntimeConfig ℕ
defaults = record {
  peripheral_id = "motor-tic249";
  stroke_steps = 1000;
  cycle_volume_liters = 5;
  max_steps_per_second = 1000;
  default_speed_steps_per_second = 1000;
  acceleration_percent_per_second = none;
  speed_unit = "steps/s";
  acceleration_unit = "%/s";
  limit_mode = "reverse_on_limit";
  start_direction = "left";
  idle_state = "deenergized";
  deenergize_on_stop = true;
  deenergize_on_startup = true;
  stop_at_limit = true;
}

defaults_of_nothing : normalize_motor2_runtime_config whole conversions none ≡ some defaults
unfolding normalize_motor2_runtime_config pick coerce_int clamped coerce_float coerce_bool
    motor2_max_steps_per_second as_direction normalized_or text_of truthy Dict.get ◌>>=◌
defaults_of_nothing = refl

-- 20 litres within 2 seconds
abbrev asked : Asked ℕ
asked = record {
  direction = "forward";
  steps = none;
  speed = none;
  cycles = none;
  volume_liters = some 20;
  duration_seconds = some 2;
  cycle_volume_liters = none;
  acceleration_percent = some (pos 50);
  limit_mode = "";
}

abbrev clamped_plan : Motor2ReciprocatingPlan ℕ
clamped_plan = record {
  direction = "right";
  steps = 1000;
  cycles = 4;
  requested_steps_per_second = 4000;
  effective_steps_per_second = 1000;
  max_steps_per_second = 1000;
  acceleration_percent_per_second = some (pos 50);
  limit_mode = "reverse_on_limit";
  start_direction = "right";
  volume_liters = some 20;
  duration_seconds = some 2;
  cycle_volume_liters = 5;
}

planned : build_motor2_reciprocating_plan whole (λ text. text) defaults asked ≡ some clamped_plan
unfolding build_motor2_reciprocating_plan compute_motor2_cycles compute_motor2_speed requested_speed
    motor2_speed_for_duration as_direction ◌>>=◌
planned = refl

build_motor2_reciprocating_plan-IsWithin_example : IsWithin whole conversions defaults clamped_plan
build_motor2_reciprocating_plan-IsWithin_example =
    build_motor2_reciprocating_plan-IsWithin whole conversions none defaults (λ text. text) asked
      clamped_plan defaults_of_nothing planned

motor2_raw_bounds_example :
    (10000 ≤ motor2_speed_raw (pos 1500) (pos 1000))
    × (motor2_speed_raw (pos 1500) (pos 1000) ≤ 10000 * 1000)
    × (motor2_speed_raw (pos 1500) (pos 1000) ≤ 10000 * 1500)
    × IsSettable (motor2_acceleration_raw whole (pos 1500) (some (pos 100)) (pos 1000))
motor2_raw_bounds_example = motor2_raw_bounds whole (pos 1500) (pos 1000) (some (pos 100))

-- the raw acceleration of a whole multiple of the speed
acceleration_run :
    motor2_acceleration_raw whole (pos 1500) (some (pos 100)) (pos 1000) ≡ some (some 100000)
unfolding motor2_acceleration_raw scaled ◌>>=◌
acceleration_run = refl

-- `pump.set 50`
abbrev pump_to_fifty : Header (OqlCondition ℕ)
pump_to_fifty = record {
  kind = "action";
  target = "pump";
  method = "set";
  args = "50";
  condition = none;
  raw = "pump.set 50";
}

exec_action_action-IsPowered_example :
    IsPowered
      (runtime execute)
      (exec_action_action (runtime execute) pump_to_fifty at_start).world.calls
exec_action_action-IsPowered_example =
    exec_action_action-IsPowered (runtime execute) pump_to_fifty at_start tt
