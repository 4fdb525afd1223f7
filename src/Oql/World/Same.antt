-- ===== src/Oql/World/Same.antt =====
-- Evaluating a condition leaves the thresholds of a goal as they are.
pub mod Actions
use oqlos.Base.{
  String, ◌≡◌, refl, ◌∙◌, inl, inr, Bool, true, false, not, ◌&&◌, Option, none, some, List, [], ◌∷◌,
  arith, ◌==◌, Option-cases, one_of, or_text, if_holds, keep,
}
use oqlos.Base.Dict
use oqlos.Base.Dict.{Dict}
use oqlos.Oql.Blocks.{Header}
use oqlos.Oql.Interpreter.{Effect}
use oqlos.Oql.World.{is_delta, World, OqlCondition, Runtime}
use oqlos.Oql.World.Gates.{resolve_live_val-SameGates}
use oqlos.Oql.World.Sensors.{
  auto_mock_sensor, range_of, resolve_sensor_value, resolve_delta, resolve_windowed_delta,
}
use oqlos.Oql.World.Conditions.{
  compared, judged, may_read, evaluate_scalar, evaluate_resolved_condition,
  evaluate_range_condition, eval_parsed_clause, eval_condition_clause, aggregate, evaluate_inline,
  evaluate_scalar_condition, evaluate_condition, windowed, with_window, clause_on, is_timer,
  resolve_condition_rhs, clause_condition, finalized,
}

abbrev pub Same : {F : Type 0} → World F → World F → Type 0
Same w w' = w.thresholds ≡ w'.thresholds

module _ {F : Type 0} (rt : Runtime F) where
  pub resolve_sensor_value-Same :
      (sensor : String) (w : World F) → Same w (resolve_sensor_value rt sensor w).1
  unfolding resolve_sensor_value resolve_delta
  resolve_sensor_value-Same sensor w = ground arith

  pub compared-Same :
      (sensor : String) (cond : OqlCondition F) (w : World F) → Same w (compared rt sensor cond w).1
  unfolding compared auto_mock_sensor
  compared-Same sensor cond w = ground (arith, resolve_sensor_value-Same sensor w)

  pub judged-Same :
      (on_fail message : String) (p : Bool × World F) → Same p.1 (judged rt on_fail message p).world
  unfolding judged
  judged-Same on_fail message (true, w) = refl
  judged-Same on_fail message (false, w) = ground arith

  pub may_read-Same : (sensor : String) (w : World F) → Same w (may_read rt sensor w).1
  unfolding may_read
  may_read-Same sensor w = ground (arith, resolve_live_val-SameGates rt sensor w)

  pub evaluate_scalar-Same :
      (cond : OqlCondition F) (p : Bool × World F) → Same p.1 (evaluate_scalar rt cond p).world
  unfolding evaluate_scalar
  evaluate_scalar-Same cond (true, w) =
      compared-Same cond.sensor cond w ∙ judged-Same _ _ (compared rt cond.sensor cond w)
  evaluate_scalar-Same cond (false, w) = refl

  pub evaluate_resolved-Same :
      (cond : OqlCondition F) (threshold : Option F) (w : World F)
      → Same w (evaluate_resolved_condition rt cond threshold w).world
  unfolding evaluate_resolved_condition
  evaluate_resolved-Same cond none w = ground arith
  evaluate_resolved-Same cond (some x) w =
      if_holds (λ (e : Effect (World F)). Same w e.world) (is_timer rt cond.sensor) refl
        (may_read-Same cond.sensor w
          ∙ evaluate_scalar-Same
              (record cond { value = some x; value_min = none; value_max = none })
              (may_read rt cond.sensor w))

  pub evaluate_range-Same :
      (cond : OqlCondition F) (w : World F) → Same w (evaluate_range_condition rt cond w).world
  unfolding evaluate_range_condition
  evaluate_range-Same cond w =
      if_holds (λ (e : Effect (World F)). Same w e.world) (is_timer rt cond.sensor) refl
        (compared-Same cond.sensor cond w ∙ judged-Same _ _ (compared rt cond.sensor cond w))

  pub clause_on-Same :
      (sensor operator : String) (w : World F) (x : Option F)
      → Same w (clause_on rt sensor operator w x).1
  unfolding clause_on
  clause_on-Same sensor operator w none = refl
  clause_on-Same sensor operator w (some x) =
      compared-Same sensor (clause_condition rt sensor operator x) w

  pub clause-Same : (token : String) (w : World F) → Same w (eval_condition_clause rt token w).1
  unfolding eval_condition_clause eval_parsed_clause
  clause-Same token w = elim (Option-cases (rt.clause_of token)) [
    | inl none_found ↦ rw (none_found, eval_condition_clause) refl
    | inr ((sensor, operator, raw), found) ↦
        rw (found, eval_condition_clause)
          (clause_on-Same (rt.strip sensor) (rt.strip operator) w
            (resolve_condition_rhs rt (rt.strip raw) none w))
  ]

  pub aggregate-Same :
      (tokens : List String) (result : Option Bool) (is_and : Bool) (w : World F)
      → Same w (aggregate rt tokens result is_and w).1
  unfolding aggregate
  aggregate-Same [] result is_and w = refl
  aggregate-Same (token ∷ tokens) result is_and w =
      let r = eval_condition_clause rt token w in
      let connector = rt.upper token in
      if_holds (λ (p : Option Bool × World F). Same w p.1) (one_of connector ("AND" ∷ "OR" ∷ []))
        (aggregate-Same tokens result (connector == "AND") w)
        (elim (Option-cases r.0) [
          | inl failing ↦ rw failing (clause-Same token w)
          | inr (ok, found) ↦ rw found (clause-Same token w ∙ aggregate-Same tokens _ is_and r.1)
        ])

  pub finalized-Same :
      (on_fail message : String) (p : Option Bool × World F)
      → Same p.1 (finalized rt on_fail message p).world
  finalized-Same on_fail message (none, w) = refl
  finalized-Same on_fail message (some ok, w) = judged-Same on_fail message (ok, w)

  pub inline-Same :
      (expression on_fail message : String) (w : World F)
      → Same w (evaluate_inline rt expression on_fail message w).world
  unfolding evaluate_inline
  inline-Same expression on_fail message w =
      aggregate-Same (keep (λ t. not (t == "")) (rt.split_condition (rt.strip expression))) none
        true w
      ∙ finalized-Same on_fail (or_text message expression) _

  pub with_window-Same :
      (cond : OqlCondition F) (w : World F) (window : Option F)
      → Same w (with_window rt cond w window).1
  unfolding with_window resolve_windowed_delta
  with_window-Same cond w none = refl
  with_window-Same cond w (some x) = ground arith

  pub windowed-Same :
      (cond : OqlCondition F) (args : String) (w : World F) → Same w (windowed rt cond args w).1
  unfolding windowed
  windowed-Same cond args w =
      if_holds (λ (p : Option F × World F). Same w p.1) (is_delta cond.sensor)
        (with_window-Same cond w _) refl

  pub scalar_condition-Same :
      (cond : OqlCondition F) (args : String) (p : Option F × World F)
      → Same p.1 (evaluate_scalar_condition rt cond args p).world
  unfolding evaluate_scalar_condition
  scalar_condition-Same cond args (none, w) = evaluate_resolved-Same cond _ w
  scalar_condition-Same cond args (some _, w) = evaluate_resolved-Same cond _ w

  pub evaluate_condition-Same :
      (act : Header (OqlCondition F)) (w : World F) → Same w (evaluate_condition rt act w).world
  unfolding evaluate_condition
  evaluate_condition-Same act w = elim (Option-cases act.condition) [
    | inl bare ↦
        rw (bare, evaluate_condition)
          (if_holds (λ (e : Effect (World F)). Same w e.world) (act.args == "") refl
            (inline-Same act.args "" "" w))
    | inr (cond, found) ↦
        rw (found, evaluate_condition)
          (if_holds (λ (e : Effect (World F)). Same w e.world)
            (cond.sensor == "" && not (act.args == ""))
            (inline-Same act.args cond.on_fail cond.fail_message w)
            (elim (Option-cases (range_of rt cond)) [
              | inl scalar ↦ rw scalar (
                  windowed-Same cond act.args w
                  ∙ scalar_condition-Same cond act.args (windowed rt cond act.args w))
              | inr (bounds, within) ↦ rw within (evaluate_range-Same cond w)
            ]))
  ]
