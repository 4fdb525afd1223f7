-- ===== src/Oql/World/Live.antt =====
-- What the conditions of a script are decided on.
use oqlos.Base.{
  String, ◌≡◌, refl, ◌∙◌, inl, inr, Bool, true, false, Option, none, some, [], ◌∷◌, arith, ◌==◌,
  if◌then◌else◌, is_some, Bool-cases, or_else,
}
use oqlos.Base.Dict
use mathlib.Core.Option.{none-ne-some}
use oqlos.Oql.Interpreter.{StepStatus, passed, failed, warning}
use oqlos.Oql.World.{
  live_or_read, World, OqlCondition, Runtime, is_execute, is_delta, base_sensor, auto_mocks,
  refresh_sensors, resolve_live_val, stored_value,
}
use oqlos.Oql.World.Thresholds.{texts}
use oqlos.Oql.World.Sensors.{auto_mock_sensor, compare_sensor, resolve_sensor_value}
use oqlos.Oql.World.Conditions.{
  compared, judged, evaluate_scalar, may_read, evaluate_resolved_condition, is_timer,
  mark_threshold_evaluated,
}

base_sensor-plain : (sensor : String) → is_delta sensor ≡ false → base_sensor sensor ≡ sensor
unfolding base_sensor
base_sensor-plain String.[] h = refl
base_sensor-plain (String.◌∷◌ c s) h = ground (arith, h)

module _ {F : Type 0} (rt : Runtime F) where
  auto_mocks-execute : is_execute rt.mode ≡ true → auto_mocks rt ≡ false
  auto_mocks-execute h = ground (arith, h)

  -- A value that is stored is the one that a condition reads.
  resolve-stored :
      (sensor : String) (w : World F) (x : F)
      → is_delta sensor ≡ false
      → stored_value rt sensor w ≡ some x
      → resolve_sensor_value rt sensor w ≡ (x, w)
  unfolding resolve_sensor_value stored_value
  resolve-stored sensor w x plain e = ground (arith, plain, e)

  resolve-refreshed :
      (sensor : String) (w : World F) (x : F)
      → is_delta sensor ≡ false
      → or_else (Dict.get w.sensor_values sensor) (Dict.get w.sensor_values (base_sensor sensor))
        ≡ some x
      → resolve_sensor_value rt sensor w ≡ (x, w)
  unfolding resolve_sensor_value
  resolve-refreshed sensor w x plain e = ground (arith, plain, e, base_sensor-plain sensor plain)

  live_or_read-agrees :
      (sensor : String) (w : World F) (x : F) (stored : Option F)
      → is_delta sensor ≡ false
      → stored_value rt sensor w ≡ stored
      → (live_or_read rt sensor w stored).0 ≡ some x
      → resolve_sensor_value rt sensor (live_or_read rt sensor w stored).1
        ≡ (x, (live_or_read rt sensor w stored).1)
  unfolding live_or_read
  live_or_read-agrees sensor w x (some y) plain e = λ e'. resolve-stored sensor w x plain (e ∙ e')
  live_or_read-agrees sensor w x none plain e = elim (Bool-cases (is_execute rt.mode)) [
    | inl live ↦ rw live (resolve-refreshed sensor (refresh_sensors rt w) x plain)
    | inr other ↦ rw other (λ e'. absurd (none-ne-some _ e'))
  ]

  resolve-live :
      (sensor : String) (w : World F) (x : F)
      → is_delta sensor ≡ false
      → (resolve_live_val rt sensor w).0 ≡ some x
      → resolve_sensor_value rt sensor (resolve_live_val rt sensor w).1
        ≡ (x, (resolve_live_val rt sensor w).1)
  unfolding resolve_live_val
  resolve-live sensor w x plain =
      live_or_read-agrees sensor w x (stored_value rt sensor w) plain refl

  -- The outcome of a comparison, as its severity has it.
  abbrev pub outcome : String → Bool → StepStatus
  outcome on_fail true = passed
  outcome on_fail false = if on_fail == "ERROR" then failed else warning

  -- a condition `sensor operator target`
  abbrev pub scalar : OqlCondition F → F → OqlCondition F
  scalar cond target = record cond { value = some target; value_min = none; value_max = none }

  abbrev pub live_outcome : OqlCondition F → Option F → StepStatus
  live_outcome cond none = failed
  live_outcome cond (some x) = outcome cond.on_fail (compare_sensor rt cond x)

  judged-outcome :
      (on_fail message : String) (ok : Bool) (w : World F)
      → (judged rt on_fail message (ok, w)).status ≡ outcome on_fail ok
  unfolding judged
  judged-outcome on_fail message true w = refl
  judged-outcome on_fail message false w = ground arith

  compared-read :
      (sensor : String) (cond : OqlCondition F) (w : World F) (x : F)
      → auto_mocks rt ≡ false
      → resolve_sensor_value rt sensor w ≡ (x, w)
      → compared rt sensor cond w ≡ (compare_sensor rt cond x, mark_threshold_evaluated rt sensor w)
  unfolding compared auto_mock_sensor
  compared-read sensor cond w x off e = rw (e, compared) (rw off refl)

  evaluate_scalar-live :
      (cond : OqlCondition F) (p : Option F × World F)
      → auto_mocks rt ≡ false
      → ((x : F) → p.0 ≡ some x → resolve_sensor_value rt cond.sensor p.1 ≡ (x, p.1))
      → (evaluate_scalar rt cond (is_some p.0, p.1)).status ≡ live_outcome cond p.0
  unfolding evaluate_scalar
  evaluate_scalar-live cond (none, w) off agrees = refl
  evaluate_scalar-live cond (some x, w) off agrees =
      rw (compared-read cond.sensor cond w x off (agrees x refl)) (
        judged-outcome cond.on_fail (texts (cond.sensor ∷ ": " ∷ cond.fail_message ∷ []))
          (compare_sensor rt cond x) (mark_threshold_evaluated rt cond.sensor w))

  may_read-execute :
      (sensor : String) (w : World F)
      → is_execute rt.mode ≡ true
      → may_read rt sensor w
        ≡ (is_some (resolve_live_val rt sensor w).0, (resolve_live_val rt sensor w).1)
  unfolding may_read
  may_read-execute sensor w live = rw live refl

  -- In execute mode, with a target that could be resolved to a number, `_evaluate_resolved_condition`
  -- decides a condition on a sensor other than a timer or a delta on the live value: it fails where
  -- there is none, and otherwise passes exactly where that value compares.
  pub status-evaluate_resolved_condition :
      (cond : OqlCondition F) (target : F) (w : World F)
      → is_execute rt.mode ≡ true
      → is_timer rt cond.sensor ≡ false
      → is_delta cond.sensor ≡ false
      → (evaluate_resolved_condition rt cond (some target) w).status
        ≡ live_outcome (scalar cond target) (resolve_live_val rt cond.sensor w).0
  unfolding evaluate_resolved_condition
  status-evaluate_resolved_condition cond target w live no_timer plain = rw no_timer (
      rw (may_read-execute cond.sensor w live) (
        evaluate_scalar-live (scalar cond target) (resolve_live_val rt cond.sensor w)
          (auto_mocks-execute live) (λ x found. resolve-live cond.sensor w x plain found)))
