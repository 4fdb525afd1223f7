-- ===== src/Oql/World/Thresholds.antt =====
-- MIN, MAX, VAL and SAVE of _interpreter_actions.py, and the thresholds that a goal leaves pending
-- (`_evaluate_pending_thresholds` of interpreter.py).
use oqlos.Base.{
  String, Bool, true, false, not, ◌&&◌, ◌||◌, Option, none, some, List, [], ◌∷◌, ◌++◌, ◌==◌, ltb,
  nat_eq, if◌then◌else◌, or_text, get_or, keep,
}
use Prim.Native.Char.{code}
use Prim.Native.String.{◌++◌ as append_text}
use oqlos.Base.Int.{pos}
use oqlos.Base.Dict
use oqlos.Base.Dict.{Dict}
use oqlos.Models.{Value, null, float, str}
use oqlos.Oql.Blocks.{Header}
use oqlos.Oql.Interpreter.{StepStatus, StepResult, passed, failed, error, Effect}
use oqlos.Oql.World.{
  World, Threshold, OqlCondition, Runtime, done, fails, get_var, set_var, set_sensor, of_option,
  auto_mocks, mem, coerce_float, resolve_live_val, replace_commas,
}

abbrev pub texts : List String → String
texts [] = ""
texts (t ∷ ts) = append_text t (texts ts)

-- Python's order on texts, by code points
before : String → String → Bool
before s String.[] = false
before String.[] (String.◌∷◌ d t) = true
before (String.◌∷◌ c s) (String.◌∷◌ d t) =
    let rest = before s t in ltb (code c) (code d) || (nat_eq (code c) (code d) && rest)

unfoldable pub insert : String → List String → List String
unfolding before
insert x [] = x ∷ []
insert x (y ∷ ys) = let rest = insert x ys in if before y x then y ∷ rest else x ∷ y ∷ ys

-- `sorted(names)`
unfoldable pub sorted : List String → List String
unfolding insert
sorted [] = []
sorted (x ∷ xs) = insert x (sorted xs)

-- `VAL` of a threshold that nothing has evaluated
abbrev pub val_action : {C : Type 0} → String → Header C
val_action sensor = record {
  kind = "val";
  target = sensor;
  method = "";
  args = "";
  condition = none;
  raw = texts ("VAL '" ∷ sensor ∷ "'" ∷ []);
}

-- The last result of a goal that passed fails after all.
abbrev pub fail_last : String → List StepResult → List StepResult
fail_last message [] = []
fail_last message (r ∷ []) = elim r.status [
  | passed ↦ record r { status = failed; message = message } ∷ []
  | _ ↦ r ∷ []
]
fail_last message (r ∷ rs) = r ∷ fail_last message rs

abbrev pub is_failed : StepStatus → Bool
is_failed failed = true
is_failed _ = false

module _ {F : Type 0} (rt : Runtime F) where
  -- the number that the first of these words is
  first_number : List String → Option F
  first_number [] = none
  first_number (word ∷ _) = rt.parse_float word

  -- a MIN or a MAX with its value, or with none
  unfoldable pub register : Header (OqlCondition F) → World F → Option F → Effect (World F)
  register act w none = done error w
  register act w (some x) =
      let sensor = rt.strip act.target in
      let entry =
        get_or (Dict.get w.thresholds sensor) (record { min = none; max = none; unit = "" }) in
      done passed (record w {
        thresholds = Dict.set w.thresholds sensor (record entry {
          min = if act.kind == "min" then some x else entry.min;
          max = if act.kind == "min" then entry.max else some x;
          unit = or_text (rt.unit_of (rt.strip act.args)) entry.unit;
        });
      })

  unfoldable pub exec_action_min_max : Header (OqlCondition F) → World F → Effect (World F)
  unfolding replace_commas first_number register
  exec_action_min_max act w =
      if rt.strip act.target == ""
      then done error w
      else register act w (first_number (rt.words (replace_commas act.args)))

  midpoint : F → F → F
  midpoint x y = rt.floats.div (rt.floats.add x y) (rt.floats.of_int (pos 2))

  unfoldable pub is_at_least : Option F → F → Bool
  is_at_least none x = true
  is_at_least (some m) x = rt.floats.le m x

  unfoldable pub is_at_most : Option F → F → Bool
  is_at_most none x = true
  is_at_most (some m) x = rt.floats.le x m

  -- `_within_thresholds`
  unfoldable pub within_thresholds : F → Threshold F → Bool
  unfolding is_at_least is_at_most
  within_thresholds x b = is_at_least b.min x && is_at_most b.max x

  -- the value that an automock puts in place of `x`, if any
  unfoldable pub nudged : F → Option F → Option F → Option F
  unfolding midpoint
  nudged x (some m) (some n) =
      if not (rt.floats.le m x && rt.floats.le x n)
      then some (midpoint m n)
      else if rt.floats.lt x m
      then some m
      else if rt.floats.lt n x
      then some n
      else none
  nudged x (some m) none = if rt.floats.lt x m then some m else none
  nudged x none (some n) = if rt.floats.lt n x then some n else none
  nudged x none none = none

  unfoldable pub auto_mock_threshold_value : String → F → Threshold F → World F → F × World F
  unfolding nudged
  auto_mock_threshold_value sensor x b w =
      if auto_mocks rt
      then elim (nudged x b.min b.max) [
        | none ↦ (x, w)
        | some y ↦ (y, set_sensor sensor y (set_var sensor (float y) w))
      ]
      else (x, w)

  abbrev threshold_message : String → F → String → Threshold F → String
  threshold_message sensor x unit b = rt.strip (
      texts (
        sensor
        ∷ " = "
        ∷ rt.short x
        ∷ " "
        ∷ unit
        ∷ " outside ["
        ∷ rt.text (of_option b.min)
        ∷ ", "
        ∷ rt.text (of_option b.max)
        ∷ "]"
        ∷ []))

  -- the end of `_evaluate_val_thresholds`
  unfoldable pub verdict : String → String → Threshold F → F × World F → Effect (World F)
  unfolding within_thresholds
  verdict sensor unit b (x, w) =
      if within_thresholds x b
      then done passed w
      else fails (threshold_message sensor x (or_text unit b.unit) b) w

  unfoldable pub evaluate_val_thresholds : String → F → String → World F → Effect (World F)
  unfolding auto_mock_threshold_value verdict
  evaluate_val_thresholds sensor x unit w = elim (Dict.get w.thresholds sensor) [
    | none ↦ done passed w
    | some b ↦
        verdict sensor unit b
          (auto_mock_threshold_value sensor x b (record w { evaluated = sensor ∷ w.evaluated }))
  ]

  -- `_mock_missing_val`
  mocked : Option F → Option F → F
  unfolding midpoint
  mocked (some m) (some n) = midpoint m n
  mocked (some m) none = m
  mocked none (some n) = n
  mocked none none = rt.floats.of_int (pos 0)

  unfoldable pub mock_missing_val : String → World F → F
  unfolding mocked
  mock_missing_val sensor w = elim (Dict.get w.thresholds sensor) [
    | none ↦ rt.floats.of_int (pos 0)
    | some b ↦ mocked b.min b.max
  ]

  -- a VAL that has a value
  unfoldable pub record_val : String → String → F → World F → Effect (World F)
  unfolding evaluate_val_thresholds
  record_val sensor args x w =
      evaluate_val_thresholds sensor x (rt.strip args)
        (set_sensor sensor x (set_var sensor (float x) w))

  -- a VAL that has no value, of a sensor with this threshold
  unfoldable pub missing_val : String → World F → Option (Threshold F) → Effect (World F)
  missing_val sensor w (some _) =
      fails
        (texts
          ("VAL " ∷ sensor ∷ ": missing real sensor/variable value for threshold evaluation" ∷ []))
        w
  missing_val sensor w none = done passed (record w {
    warnings =
        w.warnings
        ++ texts ("VAL " ∷ sensor ∷ ": brak odczytu (pomiar bez progu — pominięto zapis)" ∷ [])
          ∷ [];
  })

  -- VAL of what was found of its sensor
  unfoldable pub val_of : String → String → Option F × World F → Effect (World F)
  unfolding record_val missing_val mock_missing_val
  val_of sensor args (some x, w) = record_val sensor args x w
  val_of sensor args (none, w) =
      if auto_mocks rt
      then record_val sensor args (mock_missing_val sensor w) w
      else missing_val sensor w (Dict.get w.thresholds sensor)

  unfoldable pub exec_action_val : Header (OqlCondition F) → World F → Effect (World F)
  unfolding resolve_live_val val_of
  exec_action_val act w =
      let sensor = rt.strip act.target in val_of sensor act.args (resolve_live_val rt sensor w)

  -- what SAVE writes: the variable, else the sensor's value, else a default
  unfoldable pub saved_value : String → World F → Value F
  saved_value target w = elim (get_var w target) [
    | null ↦ elim (Dict.get w.sensor_values target) [
      | some x ↦ float x
      | none ↦ if starts_with_ai target then float (rt.floats.of_int (pos 0)) else str "OK"
    ]
    | value ↦ value
  ]
    where
      starts_with_ai : String → Bool
      starts_with_ai (String.◌∷◌ c (String.◌∷◌ d _)) = nat_eq (code c) b'A' && nat_eq (code d) b'I'
      starts_with_ai _ = false

  unfoldable pub exec_action_save : Header (OqlCondition F) → World F → Effect (World F)
  unfolding coerce_float evaluate_val_thresholds saved_value
  exec_action_save act w =
      let value = saved_value act.target w in
      let w' = set_var act.target value w in
      elim (coerce_float rt value) [
        | none ↦ done passed w'
        | some x ↦ evaluate_val_thresholds act.target x "" w'
      ]

  unfoldable pub evaluate_each :
      List String → List StepResult → World F → List StepResult × Effect (World F)
  unfolding exec_action_val
  evaluate_each [] results w = (results, done passed w)
  evaluate_each (sensor ∷ sensors) results w =
      let act = val_action sensor in
      let e = exec_action_val act w in
      let (results', rest) =
        evaluate_each sensors (if is_failed e.status then fail_last act.raw results else results)
          e.world in
      (results', record rest { errors = e.errors ++ rest.errors })

  -- the registered thresholds that are not evaluated, in order
  unfoldable pub pending_thresholds : World F → List String
  unfolding sorted mem
  pending_thresholds w = sorted (keep (λ s. not (mem s w.evaluated)) (Dict.keys w.thresholds))

  unfoldable pub evaluate_pending_thresholds :
      List StepResult → World F → List StepResult × Effect (World F)
  unfolding pending_thresholds evaluate_each
  evaluate_pending_thresholds results w = evaluate_each (pending_thresholds w) results w
