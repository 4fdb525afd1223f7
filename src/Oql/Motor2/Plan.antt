-- ===== src/Oql/Motor2/Plan.antt =====
-- Speeds and the plan of reciprocating strokes, of motor2_runtime.py. An argument that may be
-- `None` is an `Option`; 0 counts as absent wherever the code says `value or default`.
use oqlos.Base.{
  ℕ, zero, ◌*◌, String, Bool, true, false, not, Option, none, some, nat_eq, if◌then◌else◌, ◌>>=◌,
  smaller, larger, or_text, or_else,
}
use oqlos.Base.Int.{ℤ, pos, at_least}
use oqlos.Base.Float
use oqlos.Base.Float.{Float}
use mathlib.Core.Option
use oqlos.Oql.Motor2.Config.{Motor2RuntimeConfig, as_direction}

pub record Motor2ReciprocatingPlan (F : Type 0) : Type 0 where
  pub direction : String
  pub steps : ℕ
  pub cycles : ℕ
  pub requested_steps_per_second : ℕ
  pub effective_steps_per_second : ℕ
  pub max_steps_per_second : ℕ
  pub acceleration_percent_per_second : Option ℤ
  pub limit_mode : String
  pub start_direction : String
  pub volume_liters : Option F
  pub duration_seconds : Option F
  pub cycle_volume_liters : F

unfoldable pub speed_was_clamped : {F : Type 0} → Motor2ReciprocatingPlan F → Bool
speed_was_clamped plan =
    not (nat_eq plan.effective_steps_per_second plan.requested_steps_per_second)

-- `value or default`, on integers
abbrev pub or_int : Option ℤ → ℕ → ℤ
or_int none default = pos default
or_int (some (pos zero)) default = pos default
or_int (some n) default = n

abbrev pub is_given : Option ℤ → Bool
is_given none = false
is_given (some (pos zero)) = false
is_given (some _) = true

unfoldable pub motor2_speed_raw : ℤ → ℤ → ℕ
motor2_speed_raw steps_per_second max_steps_per_second =
    smaller (at_least 1 max_steps_per_second) (at_least 1 steps_per_second) * 10000

module _ {F : Type 0} (fl : Float F) where
  abbrev thousandth : F
  thousandth = fl.decimal (pos 1) 3

  -- of the steps and cycles of a plan, which are at least 1
  unfoldable pub motor2_speed_for_duration : ℕ → ℕ → F → Option ℕ
  motor2_speed_for_duration steps cycles duration_seconds =
      let half_cycles = larger 1 (cycles * 2) in
      fl.round (
        fl.div (fl.of_int (pos (larger 1 steps * half_cycles)))
          (Float.max fl thousandth duration_seconds))
      >>= λ n. some (at_least 1 n)

  unfoldable pub scaled : ℕ → ℤ → Option ℕ
  scaled effective percent =
      fl.trunc
        (fl.mul (fl.of_int (pos effective)) (fl.div (fl.of_int percent) (fl.of_int (pos 100))))
      >>= λ n. some (smaller 2147483647 (at_least 1 n * 100))

  -- `some none` where no acceleration is set
  unfoldable pub motor2_acceleration_raw : ℤ → Option ℤ → ℤ → Option (Option ℕ)
  unfolding scaled
  motor2_acceleration_raw steps_per_second none max_steps_per_second = some none
  motor2_acceleration_raw steps_per_second (some percent) max_steps_per_second =
      scaled (smaller (at_least 1 max_steps_per_second) (at_least 1 steps_per_second)) percent
      >>= λ n. some (some n)

  unfoldable pub compute_motor2_cycles : Option ℤ → Option F → F → Option ℕ
  compute_motor2_cycles cycles none cycle_volume = some (at_least 1 (or_int cycles 1000000))
  compute_motor2_cycles cycles (some volume) cycle_volume =
      fl.ceil (fl.div volume (Float.max fl thousandth cycle_volume)) >>= λ n. some (at_least 1 n)

  -- the requested speed: an explicit one, bounded by what the duration asks for
  unfoldable pub requested_speed : ℕ → ℕ → Option ℤ → Option F → ℕ → Option ℕ
  unfolding motor2_speed_for_duration
  requested_speed steps cycles speed none default_speed =
      some (at_least 1 (or_int speed default_speed))
  requested_speed steps cycles speed (some duration) default_speed =
      motor2_speed_for_duration steps cycles duration >>= λ duration_speed. some (
        if is_given speed
        then smaller (at_least 1 (or_int speed default_speed)) duration_speed
        else duration_speed)

  unfoldable pub compute_motor2_speed : ℕ → ℕ → Option ℤ → Option F → ℕ → ℕ → Option (ℕ × ℕ)
  unfolding requested_speed
  compute_motor2_speed steps cycles speed duration max_speed default_speed =
      requested_speed steps cycles speed duration default_speed >>= λ requested.
      some (requested, smaller max_speed requested)

  -- `value or default`, on floats
  or_float : Option F → F → F
  or_float none default = default
  or_float (some x) default = if fl.eq x (fl.of_int (pos 0)) then default else x

-- What a caller asks for. `normalized` is `str(…).strip().lower()`.
pub record Asked (F : Type 0) : Type 0 where
  pub direction : String
  pub steps : Option ℤ
  pub speed : Option ℤ
  pub cycles : Option ℤ
  pub volume_liters : Option F
  pub duration_seconds : Option F
  pub cycle_volume_liters : Option F
  pub acceleration_percent : Option ℤ
  pub limit_mode : String

unfoldable pub build_motor2_reciprocating_plan :
    {F : Type 0}
    → Float F
    → (String → String)
    → Motor2RuntimeConfig F
    → Asked F
    → Option (Motor2ReciprocatingPlan F)
unfolding or_float compute_motor2_cycles compute_motor2_speed as_direction
build_motor2_reciprocating_plan fl normalized config asked = do
  let planned_steps = at_least 1 (or_int asked.steps config.stroke_steps)
  let planned_cycle_volume = or_float fl asked.cycle_volume_liters config.cycle_volume_liters
  let planned_direction =
      as_direction (normalized (or_text asked.direction (or_text config.start_direction "left")))
  planned_cycles ← compute_motor2_cycles fl asked.cycles asked.volume_liters planned_cycle_volume
  (requested, effective) ←
      compute_motor2_speed fl planned_steps planned_cycles asked.speed asked.duration_seconds
        config.max_steps_per_second config.default_speed_steps_per_second
  some (record {
    direction = planned_direction;
    steps = planned_steps;
    cycles = planned_cycles;
    requested_steps_per_second = requested;
    effective_steps_per_second = effective;
    max_steps_per_second = config.max_steps_per_second;
    acceleration_percent_per_second =
        or_else asked.acceleration_percent (Option.map pos config.acceleration_percent_per_second);
    limit_mode = or_text asked.limit_mode config.limit_mode;
    start_direction = planned_direction;
    volume_liters = asked.volume_liters;
    duration_seconds = asked.duration_seconds;
    cycle_volume_liters = planned_cycle_volume;
  })
