-- ===== src/Oql/World/Conditions.antt =====
-- `_evaluate_condition` of interpreter.py with what it calls.
use oqlos.Base.{
  String, Bool, true, false, not, ◌&&◌, ◌||◌, Option, none, some, List, [], ◌∷◌, ◌==◌,
  if◌then◌else◌, is_some, one_of, or_text, get_or, or_else, keep,
}
use oqlos.Base.Int.{pos}
use oqlos.Models.{null}
use oqlos.Oql.Blocks.{Header}
use oqlos.Oql.Interpreter.{passed, error, warning, Effect}
use oqlos.Oql.World.{
  World, OqlCondition, Runtime, done, fails, get_var, set_sensor, is_execute, is_delta, base_sensor,
  coerce_text, interpolated, refresh_sensors, resolve_live_val,
}
use oqlos.Oql.World.Thresholds.{texts}
use oqlos.Oql.World.Sensors.{
  auto_mock_sensor, compare_sensor, range_of, resolve_sensor_value, resolve_windowed_delta,
}

module _ {F : Type 0} (rt : Runtime F) where
  -- A condition on a sensor counts as an evaluation of its threshold.
  abbrev pub mark_threshold_evaluated : String → World F → World F
  mark_threshold_evaluated sensor w = record w {
    evaluated =
        if sensor == ""
        then w.evaluated
        else if is_delta sensor
        then base_sensor sensor ∷ sensor ∷ w.evaluated
        else sensor ∷ w.evaluated;
  }

  -- the value of the sensor, automocked in a dry run, against the condition
  unfoldable pub compared : String → OqlCondition F → World F → Bool × World F
  unfolding resolve_sensor_value auto_mock_sensor compare_sensor base_sensor
  compared sensor cond w =
      let (x, w') = auto_mock_sensor rt sensor cond (resolve_sensor_value rt sensor w) in
      (compare_sensor rt cond x, mark_threshold_evaluated sensor w')

  -- A condition that does not hold fails where that is an error, and warns otherwise.
  unfoldable pub judged : String → String → Bool × World F → Effect (World F)
  judged on_fail message (true, w) = done passed w
  judged on_fail message (false, w) = if on_fail == "ERROR" then fails message w else done warning w

  abbrev pub is_timer : String → Bool
  is_timer sensor = rt.lower sensor == "timer"

  -- what the text of a threshold stands for: a variable of that name, where it has no references
  unfoldable pub rhs_text : String → World F → String
  unfolding interpolated
  rhs_text text w =
      let replaced = interpolated rt w text in
      if replaced == text
      then elim (get_var w text) [ null ↦ replaced | value ↦ rt.text value ]
      else replaced

  -- `_resolve_condition_rhs`, without the unit
  unfoldable pub resolve_condition_rhs : String → Option F → World F → Option F
  unfolding rhs_text coerce_text
  resolve_condition_rhs raw fallback w =
      let text = rt.strip raw in
      if text == "" then fallback else or_else (coerce_text rt (rhs_text text w)) fallback

  missing_message : String → String
  missing_message sensor =
      texts ("IF " ∷ sensor ∷ ": missing real sensor/variable value for condition evaluation" ∷ [])

  -- a scalar condition with its threshold, and whether its sensor may be read
  unfoldable pub evaluate_scalar : OqlCondition F → Bool × World F → Effect (World F)
  unfolding compared judged missing_message
  evaluate_scalar cond (true, w) =
      judged cond.on_fail (texts (cond.sensor ∷ ": " ∷ cond.fail_message ∷ []))
        (compared cond.sensor cond w)
  evaluate_scalar cond (false, w) = fails (missing_message cond.sensor) w

  -- In execute mode the sensor must have a live value.
  unfoldable pub may_read : String → World F → Bool × World F
  unfolding resolve_live_val
  may_read sensor w =
      let (value, w') = resolve_live_val rt sensor w in
      if is_execute rt.mode then (is_some value, w') else (true, w)

  -- `_evaluate_resolved_condition`
  unfoldable pub evaluate_resolved_condition :
      OqlCondition F → Option F → World F → Effect (World F)
  unfolding may_read evaluate_scalar
  evaluate_resolved_condition cond threshold w =
      if is_timer cond.sensor then done passed w else elim threshold [
        | none ↦ done error w
        | some x ↦
            evaluate_scalar (record cond { value = some x; value_min = none; value_max = none })
              (may_read cond.sensor w)
      ]

  unfoldable pub evaluate_range_condition : OqlCondition F → World F → Effect (World F)
  unfolding compared judged
  evaluate_range_condition cond w =
      if is_timer cond.sensor
      then done passed w
      else judged cond.on_fail (texts (cond.sensor ∷ ": " ∷ cond.fail_message ∷ []))
          (compared cond.sensor cond w)

  -- the condition of a clause
  abbrev pub clause_condition : String → String → F → OqlCondition F
  clause_condition sensor operator x = record {
    sensor = sensor;
    operator = operator;
    value = some x;
    value_min = none;
    value_max = none;
    unit = "";
    on_fail = "";
    fail_message = "";
  }

  unfoldable pub clause_on : String → String → World F → Option F → Option Bool × World F
  unfolding compared
  clause_on sensor operator w none = (none, w)
  clause_on sensor operator w (some x) =
      let (ok, w') = compared sensor (clause_condition sensor operator x) w in (some ok, w')

  -- one clause of a chain, with its sensor, operator and value; `none` where it has no value
  unfoldable pub eval_parsed_clause : String × String × String → World F → Option Bool × World F
  unfolding resolve_condition_rhs clause_on
  eval_parsed_clause (sensor, operator, raw) w =
      clause_on sensor operator w (resolve_condition_rhs raw none w)

  unfoldable pub eval_condition_clause : String → World F → Option Bool × World F
  unfolding eval_parsed_clause
  eval_condition_clause token w = elim (rt.clause_of token) [
    | none ↦ (none, w)
    | some (sensor, operator, raw) ↦
        eval_parsed_clause (rt.strip sensor, rt.strip operator, rt.strip raw) w
  ]

  unfoldable pub apply_connector : Option Bool → Bool → Bool → Bool
  apply_connector none clause is_and = clause
  apply_connector (some current) clause is_and =
      if is_and then current && clause else current || clause

  -- `_aggregate_condition_results`; `is_and` is the pending connector
  unfoldable pub aggregate : List String → Option Bool → Bool → World F → Option Bool × World F
  unfolding eval_condition_clause apply_connector
  aggregate [] result is_and w = (result, w)
  aggregate (token ∷ tokens) result is_and w =
      let connector = rt.upper token in
      let after_word = aggregate tokens result (connector == "AND") w in
      let (ok, w') = eval_condition_clause token w in
      let after_clause =
        aggregate tokens (some (apply_connector result (get_or ok false) is_and)) is_and w' in
      if one_of connector ("AND" ∷ "OR" ∷ [])
      then after_word
      else elim ok [ none ↦ (none, w') | some _ ↦ after_clause ]

  abbrev pub finalized : String → String → Option Bool × World F → Effect (World F)
  finalized on_fail message (none, w) = done error w
  finalized on_fail message (some ok, w) = judged on_fail message (ok, w)

  -- `_evaluate_inline_condition_expression`
  unfoldable pub evaluate_inline : String → String → String → World F → Effect (World F)
  unfolding aggregate
  evaluate_inline expression on_fail fail_message w =
      finalized on_fail (or_text fail_message expression) (
        aggregate (keep (λ t. not (t == "")) (rt.split_condition (rt.strip expression))) none true
          w)

  window_seconds : Option String → Option F
  window_seconds none = none
  window_seconds (some digits) = rt.parse_float digits

  unfoldable pub with_window : OqlCondition F → World F → Option F → Option F × World F
  unfolding resolve_windowed_delta base_sensor
  with_window cond w none = (none, w)
  with_window cond w (some window) =
      let (r, w') = resolve_windowed_delta rt (base_sensor cond.sensor) window w in
      (
        some window,
        if rt.floats.lt (rt.floats.of_int (pos 0)) window then set_sensor cond.sensor r w' else w,
      )

  -- the window of a delta sensor, and the world with its rate
  unfoldable pub windowed : OqlCondition F → String → World F → Option F × World F
  unfolding with_window window_seconds
  windowed cond args w =
      if is_delta cond.sensor
      then with_window cond w (window_seconds (rt.window_of (rt.strip args)))
      else (none, w)

  unfoldable pub evaluate_scalar_condition :
      OqlCondition F → String → Option F × World F → Effect (World F)
  unfolding evaluate_resolved_condition resolve_condition_rhs
  evaluate_scalar_condition cond args (none, w) =
      evaluate_resolved_condition cond (resolve_condition_rhs args cond.value w) w
  evaluate_scalar_condition cond args (some _, w) = evaluate_resolved_condition cond cond.value w

  unfoldable pub evaluate_condition : Header (OqlCondition F) → World F → Effect (World F)
  unfolding evaluate_inline evaluate_range_condition windowed evaluate_scalar_condition
  evaluate_condition act w = elim act.condition [
    | none ↦ if act.args == "" then done passed w else evaluate_inline act.args "" "" w
    | some cond ↦
        if cond.sensor == "" && not (act.args == "")
        then evaluate_inline act.args cond.on_fail cond.fail_message w
        else elim (range_of rt cond) [
          | some _ ↦ evaluate_range_condition cond w
          | none ↦ evaluate_scalar_condition cond act.args (windowed cond act.args w)
        ]
  ]

  unfoldable pub exec_action_condition : Header (OqlCondition F) → World F → Effect (World F)
  unfolding refresh_sensors evaluate_condition
  exec_action_condition act w =
      evaluate_condition act (if is_execute rt.mode then refresh_sensors rt w else w)
