-- ===== src/Oql/Motor2/Bounds.antt =====
-- The bounds of configurations, plans and raw settings of the motor.
use oqlos.Base.{
  ℕ, ◌*◌, ◌≤◌, String, ◌≡◌, refl, ◌⊎◌, Option, none, some, some-injective, arith, eq_iff, ◌>>=◌,
  smaller, or_text, >>=-eq-some,
}
use mathlib.Core.Option.{none-ne-some}
use mathlib.Core.Path.{subst}
use oqlos.Base.Int.{ℤ, at_least}
use oqlos.Base.Float.{Float}
use oqlos.Base.Dict.{Dict}
use oqlos.Models.{Value}
use oqlos.Oql.Motor2.Config.{
  Motor2RuntimeConfig, Parsed, number, invalid, overflow, Conversions, clamped, coerce_int,
  as_direction, normalize_motor2_runtime_config,
}
use oqlos.Oql.Motor2.Plan.{
  Motor2ReciprocatingPlan, Asked, or_int, compute_motor2_cycles, compute_motor2_speed,
  requested_speed, motor2_speed_for_duration, build_motor2_reciprocating_plan, motor2_speed_raw,
  motor2_acceleration_raw, scaled,
}

at_least_bound : (m : ℕ) (n : ℤ) → m ≤ at_least m n
at_least_bound m (ℤ.pos n) = ground arith
at_least_bound m (ℤ.negsuc n) = ground arith

smaller_bound : {k m n : ℕ} → k ≤ m → k ≤ n → k ≤ smaller m n
smaller_bound h h' = ground (arith, h, h')

smaller-le-left : (m n : ℕ) → smaller m n ≤ m
smaller-le-left m n = ground arith

smaller-le-right : (m n : ℕ) → smaller m n ≤ n
smaller-le-right m n = ground arith

abbrev pub IsDirection : String → Type 0
IsDirection d = (d ≡ "left") ⊎ (d ≡ "right")

as_direction-IsDirection : (text : String) → IsDirection (as_direction text)
unfolding as_direction
as_direction-IsDirection text = ground (arith, eq_iff text "left", eq_iff text "right")

module _ {F : Type 0} (fl : Float F) (c : Conversions F) where
  clamped_bound :
      (p : Parsed ℤ) (default minimum : ℕ) {n : ℕ}
      → clamped fl c p default minimum ≡ some n
      → minimum ≤ n
  unfolding clamped
  clamped_bound (number k) default minimum e =
      let e' = some-injective _ _ e in ground (arith, e', at_least_bound minimum k)
  clamped_bound invalid default minimum e = let e' = some-injective _ _ e in ground (arith, e')
  clamped_bound overflow default minimum e = absurd (none-ne-some _ e)

  -- What every normalized configuration satisfies.
  pub record IsConfig (config : Motor2RuntimeConfig F) : Type 0 where
    pub max_bound : 1 ≤ config.max_steps_per_second
    pub default_bound : 1 ≤ config.default_speed_steps_per_second
    pub default-le-max : config.default_speed_steps_per_second ≤ config.max_steps_per_second
    pub stroke_bound : 1 ≤ config.stroke_steps

  normalize-IsConfig :
      (source : Option (Dict (Value F))) {config : Motor2RuntimeConfig F}
      → normalize_motor2_runtime_config fl c source ≡ some config
      → IsConfig config
  unfolding normalize_motor2_runtime_config coerce_int
  normalize-IsConfig source e =
      let (environment_max, e1, e2) = >>=-eq-some _ _ e in
      let (max_speed, e3, e4) = >>=-eq-some _ _ e2 in
      let (default_speed, e5, e6) = >>=-eq-some _ _ e4 in
      let (acceleration, e7, e8) = >>=-eq-some _ _ e6 in
      let (stroke_steps, e9, e10) = >>=-eq-some _ _ e8 in
      let max_bound : 1 ≤ max_speed = clamped_bound _ _ 1 e3 in
      let default_bound : 1 ≤ default_speed = clamped_bound _ _ 1 e5 in
      subst IsConfig (some-injective _ _ e10) (record {
        max_bound = max_bound;
        default_bound = smaller_bound max_bound default_bound;
        default-le-max = smaller-le-left max_speed default_speed;
        stroke_bound = clamped_bound _ _ 1 e9;
      })

  requested_bound :
      (steps cycles : ℕ) (speed : Option ℤ) (duration : Option F) (default_speed : ℕ) {n : ℕ}
      → requested_speed fl steps cycles speed duration default_speed ≡ some n
      → 1 ≤ n
  unfolding requested_speed motor2_speed_for_duration
  requested_bound steps cycles speed none default_speed e =
      subst (λ n. 1 ≤ n) (some-injective _ _ e) (at_least_bound 1 (or_int speed default_speed))
  requested_bound steps cycles speed (some duration) default_speed e =
      let (by_duration, e1, e2) = >>=-eq-some _ _ e in
      let (rounded, e3, e4) = >>=-eq-some _ _ e1 in
      let by_duration_bound : 1 ≤ by_duration =
        subst (λ n. 1 ≤ n) (some-injective _ _ e4) (at_least_bound 1 rounded) in
      subst (λ n. 1 ≤ n) (some-injective _ _ e2)
        (ground (arith, by_duration_bound, at_least_bound 1 (or_int speed default_speed)))

  cycles_bound :
      (cycles : Option ℤ) (volume : Option F) (cycle_volume : F) {n : ℕ}
      → compute_motor2_cycles fl cycles volume cycle_volume ≡ some n
      → 1 ≤ n
  unfolding compute_motor2_cycles
  cycles_bound cycles none cycle_volume e =
      subst (λ n. 1 ≤ n) (some-injective _ _ e) (at_least_bound 1 (or_int cycles 1000000))
  cycles_bound cycles (some volume) cycle_volume e =
      let (quotient, e1, e2) = >>=-eq-some _ _ e in
      subst (λ n. 1 ≤ n) (some-injective _ _ e2) (at_least_bound 1 quotient)

  pub record IsWithin (config : Motor2RuntimeConfig F) (plan : Motor2ReciprocatingPlan F)
      : Type 0 where
    pub steps_bound : 1 ≤ plan.steps
    pub cycles_bound : 1 ≤ plan.cycles
    pub effective_bound : 1 ≤ plan.effective_steps_per_second
    pub effective-le-max : plan.effective_steps_per_second ≤ config.max_steps_per_second
    pub effective-le-requested : plan.effective_steps_per_second ≤ plan.requested_steps_per_second
    pub direction : IsDirection plan.direction

  -- Whatever a source configures and a caller asks for, a plan that is built runs at least one step
  -- and one cycle, to the left or to the right, at a speed of at least 1 that exceeds neither the
  -- configured maximum nor the requested speed.
  pub build_motor2_reciprocating_plan-IsWithin :
      (source : Option (Dict (Value F))) (config : Motor2RuntimeConfig F)
      (normalized : String → String) (asked : Asked F) (plan : Motor2ReciprocatingPlan F)
      → normalize_motor2_runtime_config fl c source ≡ some config
      → build_motor2_reciprocating_plan fl normalized config asked ≡ some plan
      → IsWithin config plan
  unfolding build_motor2_reciprocating_plan compute_motor2_speed
  build_motor2_reciprocating_plan-IsWithin source config normalized asked plan e e' =
      let is_config = normalize-IsConfig source e in
      let (planned_cycles, e1, e2) = >>=-eq-some _ _ e' in
      let (speeds, e3, e4) = >>=-eq-some _ _ e2 in
      let (requested, e5, e6) = >>=-eq-some _ _ e3 in
      let requested_bound : 1 ≤ requested =
        requested_bound (at_least 1 (or_int asked.steps config.stroke_steps)) planned_cycles
          asked.speed asked.duration_seconds config.default_speed_steps_per_second e5 in
      let same = some-injective _ _ e6 in
      subst (IsWithin config) (some-injective _ _ e4) (record {
        steps_bound = at_least_bound 1 (or_int asked.steps config.stroke_steps);
        cycles_bound = cycles_bound asked.cycles asked.volume_liters _ e1;
        effective_bound =
            subst (λ p. 1 ≤ p.1) same (smaller_bound is_config.max_bound requested_bound);
        effective-le-max =
            subst (λ p. p.1 ≤ config.max_steps_per_second) same
              (smaller-le-left config.max_steps_per_second requested);
        effective-le-requested =
            subst (λ p. p.1 ≤ p.0) same (smaller-le-right config.max_steps_per_second requested);
        direction =
            as_direction-IsDirection
              (normalized (or_text asked.direction (or_text config.start_direction "left")));
      })

abbrev pub IsSettable : Option (Option ℕ) → Type 0
IsSettable (some (some acceleration)) = (100 ≤ acceleration) × (acceleration ≤ 2147483647)
IsSettable _ = Unit {0}

acceleration-IsSettable :
    {F : Type 0} (fl : Float F) (effective : ℕ) (percent : ℤ) (r : Option (Option ℕ))
    → (scaled fl effective percent >>= λ n. some (some n)) ≡ r
    → IsSettable r
unfolding scaled
acceleration-IsSettable fl effective percent (some (some acceleration)) e =
    let (raw, e1, e2) = >>=-eq-some _ _ e in
    let (truncated, e3, e4) = >>=-eq-some _ _ e1 in
    let bound = at_least_bound 1 truncated in
    let same = some-injective _ _ e4 in
    let same' = some-injective _ _ (some-injective _ _ e2) in ground (arith, bound, same, same')
acceleration-IsSettable fl effective percent (some none) e = tt
acceleration-IsSettable fl effective percent none e = tt

-- The raw speed that the controller is given is at least one step per second, and at most both the
-- speed asked for and the maximum, each taken as 1 where it is lower, in ten-thousandths of a
-- step. Where an acceleration is set and its number can be converted, the raw one is at least 100
-- and fits 31 bits.
pub motor2_raw_bounds :
    {F : Type 0} (fl : Float F) (speed max_speed : ℤ) (percent : Option ℤ)
    → (10000 ≤ motor2_speed_raw speed max_speed)
      × (motor2_speed_raw speed max_speed ≤ 10000 * at_least 1 max_speed)
      × (motor2_speed_raw speed max_speed ≤ 10000 * at_least 1 speed)
      × IsSettable (motor2_acceleration_raw fl speed percent max_speed)
unfolding motor2_acceleration_raw motor2_speed_raw
motor2_raw_bounds fl speed max_speed percent =
    let low = at_least_bound 1 speed in
    let low' = at_least_bound 1 max_speed in
    (
      ground (arith, low, low'),
      ground arith,
      ground arith,
      elim percent as (λ p. IsSettable (motor2_acceleration_raw fl speed p max_speed)) [
        | none ↦ tt
        | some n ↦ acceleration-IsSettable fl _ n _ refl
      ],
    )
