-- ===== src/Oql/World/Gates.antt =====
-- A VAL of a sensor with a threshold that records no error leaves it satisfied.
pub mod Keeps
pub mod Pending
use oqlos.Base.{
  String, ◌≡◌, sym, inl, inr, true, Option, none, some, [], ◌∷◌, arith, ◌==◌, eq_iff, if◌then◌else◌,
  Bool-cases, Option-cases,
}
use mathlib.Core.Path.{subst}
use oqlos.Base.Dict
use oqlos.Base.Dict.{Dict}
use oqlos.Models.{Value, null, float}
use oqlos.Oql.Blocks.{Header}
use oqlos.Oql.Variables
use oqlos.Oql.Variables.Scopes.{get-set_scoped}
use oqlos.Oql.Interpreter.{Effect}
use oqlos.Oql.World.{
  World, Threshold, OqlCondition, Runtime, get_var, set_var, set_sensor, auto_mocks,
  resolve_live_val, refresh_sensors,
}
use oqlos.Oql.World.Thresholds.{
  exec_action_val, record_val, mock_missing_val, evaluate_val_thresholds, verdict,
  auto_mock_threshold_value, within_thresholds, nudged, val_of,
}

abbrev pub SameGates : {F : Type 0} → World F → World F → Type 0
SameGates w w' = (w.vars ≡ w'.vars) × (w.thresholds ≡ w'.thresholds)

module _ {F : Type 0} where
  pub get_var-set_var :
      (w : World F) (key : String) (value : Value F) (name : String)
      → get_var (set_var key value w) name ≡ (if key == name then value else get_var w name)
  get_var-set_var w key value name = ground (arith, get-set_scoped w.vars key value true name null)

  get_var-set_var_same :
      (w : World F) (key : String) (value : Value F) → get_var (set_var key value w) key ≡ value
  get_var-set_var_same w key value = ground (arith, get_var-set_var w key value key, eq_iff key key)

module _ {F : Type 0} (rt : Runtime F) where
  -- Looking for a live value leaves the variables and the thresholds as they are.
  pub refresh_sensors-SameGates : (w : World F) → SameGates w (refresh_sensors rt w)
  unfolding refresh_sensors
  refresh_sensors-SameGates w = ground arith

  pub resolve_live_val-SameGates :
      (sensor : String) (w : World F) → SameGates w (resolve_live_val rt sensor w).1
  unfolding resolve_live_val
  resolve_live_val-SameGates sensor w = ground (arith, refresh_sensors-SameGates w)

  -- The variable of this name is a number within these bounds.
  abbrev pub IsGood : String → Threshold F → World F → Type 0
  IsGood sensor b w = (x : F) × (get_var w sensor ≡ float x) × (within_thresholds rt x b ≡ true)

  verdict-IsGood :
      (sensor unit : String) (b : Threshold F) (p : F × World F)
      → get_var p.1 sensor ≡ float p.0
      → (verdict rt sensor unit b p).errors ≡ []
      → IsGood sensor b (verdict rt sensor unit b p).world
  unfolding verdict
  verdict-IsGood sensor unit b (x, w) v = elim (Bool-cases (within_thresholds rt x b)) [
    | inl within ↦ rw (within) (λ h. (x, v, within))
    | inr outside ↦ rw (outside) (λ h. ground (arith, h))
  ]

  auto_mock_holds :
      (sensor : String) (x : F) (b : Threshold F) (w : World F)
      → get_var w sensor ≡ float x
      → get_var (auto_mock_threshold_value rt sensor x b w).1 sensor
        ≡ float (auto_mock_threshold_value rt sensor x b w).0
  unfolding auto_mock_threshold_value
  auto_mock_holds sensor x b w v = elim (Bool-cases (auto_mocks rt)) [
    | inl off ↦ rw off (elim (Option-cases (nudged rt x b.min b.max)) [
      | inl same ↦ rw same v
      | inr (y, changed) ↦ rw changed (get_var-set_var_same w sensor (float y))
    ])
    | inr on ↦ rw on v
  ]

  pub evaluate-found :
      (sensor unit : String) (x : F) (w : World F) (b : Threshold F)
      → Dict.get w.thresholds sensor ≡ some b
      → evaluate_val_thresholds rt sensor x unit w
        ≡ verdict rt sensor unit b (
            auto_mock_threshold_value rt sensor x b (record w { evaluated = sensor ∷ w.evaluated }))
  unfolding evaluate_val_thresholds
  evaluate-found sensor unit x w b e = ground (arith, e)

  evaluate-IsGood :
      (sensor unit : String) (x : F) (w : World F) (b : Threshold F)
      → get_var w sensor ≡ float x
      → Dict.get w.thresholds sensor ≡ some b
      → (evaluate_val_thresholds rt sensor x unit w).errors ≡ []
      → IsGood sensor b (evaluate_val_thresholds rt sensor x unit w).world
  evaluate-IsGood sensor unit x w b v e =
      subst (λ (r : Effect (World F)). r.errors ≡ [] → IsGood sensor b r.world)
        (sym (evaluate-found sensor unit x w b e))
        (verdict-IsGood sensor unit b _
          (auto_mock_holds sensor x b (record w { evaluated = sensor ∷ w.evaluated }) v))

  record_val-IsGood :
      (sensor args : String) (x : F) (w : World F) (b : Threshold F)
      → Dict.get w.thresholds sensor ≡ some b
      → (record_val rt sensor args x w).errors ≡ []
      → IsGood sensor b (record_val rt sensor args x w).world
  unfolding record_val
  record_val-IsGood sensor args x w b e =
      evaluate-IsGood sensor (rt.strip args) x (set_sensor sensor x (set_var sensor (float x) w)) b
        (get_var-set_var_same w sensor (float x)) e

  val_of-IsGood :
      (sensor args : String) (p : Option F × World F) (b : Threshold F)
      → Dict.get p.1.thresholds sensor ≡ some b
      → (val_of rt sensor args p).errors ≡ []
      → IsGood sensor b (val_of rt sensor args p).world
  unfolding val_of
  val_of-IsGood sensor args (some x, w) b e = record_val-IsGood sensor args x w b e
  val_of-IsGood sensor args (none, w) b e = elim (Bool-cases (auto_mocks rt)) [
    | inl on ↦ rw on (record_val-IsGood sensor args (mock_missing_val rt sensor w) w b e)
    | inr off ↦ rw (off, e) (λ h. ground (arith, h))
  ]

  pub exec_action_val-IsGood :
      (act : Header (OqlCondition F)) (w : World F) (b : Threshold F)
      → Dict.get w.thresholds (rt.strip act.target) ≡ some b
      → (exec_action_val rt act w).errors ≡ []
      → IsGood (rt.strip act.target) b (exec_action_val rt act w).world
  unfolding exec_action_val
  exec_action_val-IsGood act w b e =
      let sensor = rt.strip act.target in
      val_of-IsGood sensor act.args (resolve_live_val rt sensor w) b (
        subst (λ thresholds. Dict.get thresholds sensor ≡ some b)
          (resolve_live_val-SameGates sensor w).1 e)
