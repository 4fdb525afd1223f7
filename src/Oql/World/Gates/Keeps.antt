-- ===== src/Oql/World/Gates/Keeps.antt =====
-- What a VAL leaves as it is: the thresholds, and every variable but its own.
use oqlos.Base.{
  String, ◌≡◌, refl, sym, ap, ◌∙◌, inl, inr, false, Option, none, some, ◌∷◌, arith, ◌==◌,
  Bool-cases, Option-cases,
}
use mathlib.Core.Path.{subst}
use oqlos.Base.Dict
use oqlos.Base.Dict.{Dict}
use oqlos.Models.{null, float}
use oqlos.Oql.Blocks.{Header}
use oqlos.Oql.Variables
use oqlos.Oql.Interpreter.{passed, Effect}
use oqlos.Oql.World.{
  World, Threshold, OqlCondition, Runtime, done, get_var, set_var, set_sensor, auto_mocks,
  resolve_live_val,
}
use oqlos.Oql.World.Thresholds.{
  exec_action_val, record_val, missing_val, mock_missing_val, evaluate_val_thresholds, verdict,
  auto_mock_threshold_value, within_thresholds, nudged, val_of,
}
use oqlos.Oql.World.Gates.{resolve_live_val-SameGates, get_var-set_var, evaluate-found}

module _ {F : Type 0} (rt : Runtime F) where
  -- What a step keeps: the thresholds, and every variable but one.
  abbrev pub Keeps : String → World F → World F → Type 0
  Keeps sensor w w' =
      (w.thresholds ≡ w'.thresholds)
      × ((name : String) → (sensor == name) ≡ false → get_var w name ≡ get_var w' name)

  Keeps-trans :
      (sensor : String) (w w' w'' : World F)
      → Keeps sensor w w'
      → Keeps sensor w' w''
      → Keeps sensor w w''
  Keeps-trans sensor w w' w'' (e, k) (e', k') = (e ∙ e', λ name other. k name other ∙ k' name other)

  set_both-Keeps :
      (sensor : String) (x : F) (w : World F)
      → Keeps sensor w (set_sensor sensor x (set_var sensor (float x) w))
  set_both-Keeps sensor x w =
      (refl, λ name other. ground (arith, other, get_var-set_var w sensor (float x) name))

  auto_mock-Keeps :
      (sensor : String) (x : F) (b : Threshold F) (w : World F)
      → Keeps sensor w (auto_mock_threshold_value rt sensor x b w).1
  unfolding auto_mock_threshold_value
  auto_mock-Keeps sensor x b w = elim (Bool-cases (auto_mocks rt)) [
    | inr off ↦ rw off (refl, λ name other. refl)
    | inl on ↦ rw on (elim (Option-cases (nudged rt x b.min b.max)) [
      | inl same ↦ rw same (refl, λ name other. refl)
      | inr (y, changed) ↦ rw changed (set_both-Keeps sensor y w)
    ])
  ]

  verdict-Keeps :
      (sensor unit : String) (b : Threshold F) (w : World F) (p : F × World F)
      → Keeps sensor w p.1
      → Keeps sensor w (verdict rt sensor unit b p).world
  unfolding verdict
  verdict-Keeps sensor unit b w (x, w') k = elim (Bool-cases (within_thresholds rt x b)) [
    | inl within ↦ rw within k
    | inr outside ↦ rw outside k
  ]

  evaluate-unregistered :
      (sensor unit : String) (x : F) (w : World F)
      → Dict.get w.thresholds sensor ≡ none
      → evaluate_val_thresholds rt sensor x unit w ≡ done passed w
  unfolding evaluate_val_thresholds
  evaluate-unregistered sensor unit x w e = ground (arith, e)

  pub evaluate-Keeps :
      (sensor unit : String) (x : F) (w : World F)
      → Keeps sensor w (evaluate_val_thresholds rt sensor x unit w).world
  evaluate-Keeps sensor unit x w = elim (Option-cases (Dict.get w.thresholds sensor)) [
    | inl missing ↦
        subst (λ (r : Effect (World F)). Keeps sensor w r.world)
          (sym (evaluate-unregistered sensor unit x w missing)) (refl, λ name other. refl)
    | inr (b, found) ↦
        subst (λ (r : Effect (World F)). Keeps sensor w r.world)
          (sym (evaluate-found rt sensor unit x w b found))
          (verdict-Keeps sensor unit b w _
            (auto_mock-Keeps sensor x b (record w { evaluated = sensor ∷ w.evaluated })))
  ]

  record_val-Keeps :
      (sensor args : String) (x : F) (w : World F)
      → Keeps sensor w (record_val rt sensor args x w).world
  unfolding record_val
  record_val-Keeps sensor args x w =
      Keeps-trans sensor w (set_sensor sensor x (set_var sensor (float x) w))
        (record_val rt sensor args x w).world (set_both-Keeps sensor x w)
        (evaluate-Keeps sensor (rt.strip args) x _)

  missing_val-Keeps :
      (sensor : String) (w : World F) (threshold : Option (Threshold F))
      → Keeps sensor w (missing_val rt sensor w threshold).world
  unfolding missing_val
  missing_val-Keeps sensor w none = (refl, λ name other. refl)
  missing_val-Keeps sensor w (some b) = (refl, λ name other. refl)

  val_of-Keeps :
      (sensor args : String) (p : Option F × World F)
      → Keeps sensor p.1 (val_of rt sensor args p).world
  unfolding val_of
  val_of-Keeps sensor args (some x, w) = record_val-Keeps sensor args x w
  val_of-Keeps sensor args (none, w) = elim (Bool-cases (auto_mocks rt)) [
    | inl on ↦ rw on (record_val-Keeps sensor args (mock_missing_val rt sensor w) w)
    | inr off ↦ rw off (missing_val-Keeps sensor w (Dict.get w.thresholds sensor))
  ]

  pub exec_action_val-Keeps :
      (act : Header (OqlCondition F)) (w : World F)
      → Keeps (rt.strip act.target) w (exec_action_val rt act w).world
  unfolding exec_action_val
  exec_action_val-Keeps act w =
      let sensor = rt.strip act.target in
      let (vars, thresholds) = resolve_live_val-SameGates rt sensor w in
      Keeps-trans sensor w (resolve_live_val rt sensor w).1 (exec_action_val rt act w).world
        (thresholds, λ name other. ap (λ store. Variables.get store name null) vars)
        (val_of-Keeps sensor act.args (resolve_live_val rt sensor w))
