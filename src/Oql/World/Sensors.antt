-- ===== src/Oql/World/Sensors.antt =====
-- `SensorEvaluator` of _sensor_evaluator.py, and how a condition reads a sensor
-- (`_resolve_sensor_value` and the delta rates of interpreter.py). Descriptions are left out.
use oqlos.Base.{
  suc, String, Bool, true, false, not, ◌&&◌, Option, none, some, [], ◌∷◌, ◌==◌, if◌then◌else◌,
  one_of, get_or, or_else,
}
use Prim.Native.String.{◌++◌ as append_text}
use oqlos.Base.Int.{pos}
use oqlos.Base.Dict
use oqlos.Base.Dict.{Dict}
use oqlos.Base.Float
use oqlos.Base.Float.{Float}
use oqlos.Models.{Value, float, list, no_more, element}
use oqlos.Oql.World.{
  World, OqlCondition, Runtime, get_var, set_var, set_sensor, auto_mocks, coerce_float, is_delta,
  base_sensor,
}

abbrev pub both {ℓ} : {A : Type ℓ} → Option A → Option A → Option (A × A)
both (some x) (some y) = some (x, y)
both _ _ = none

module _ {F : Type 0} (rt : Runtime F) where
  abbrev fl : Float F
  fl = rt.floats

  abbrev zero_float : F
  zero_float = fl.of_int (pos 0)

  -- `_SCALAR_OPS`: whether to nudge down, and the comparison
  unfoldable pub scalar_op : String → Option (Bool × (F → F → Bool))
  scalar_op op =
      if one_of op ("≤" ∷ "<=" ∷ [])
      then some (true, fl.le)
      else if op == "<"
      then some (true, fl.lt)
      else if one_of op ("≥" ∷ ">=" ∷ [])
      then some (false, λ x y. fl.le y x)
      else if op == ">"
      then some (false, λ x y. fl.lt y x)
      else if one_of op ("=" ∷ "==" ∷ [])
      then some (false, fl.eq)
      else if op == "!="
      then some (false, λ x y. not (fl.eq x y))
      else none

  -- the bounds of a condition `∈ [min, max]`
  abbrev pub range_of : OqlCondition F → Option (F × F)
  range_of cond = if cond.operator == "∈" then both cond.value_min cond.value_max else none

  -- `abs(x) * 0.1 + 0.1`
  offset : F → F
  offset x =
      let tenth = fl.decimal (pos 1) 1 in
      fl.add (fl.mul (if fl.lt x zero_float then fl.sub zero_float x else x) tenth) tenth

  mocked_scalar : Option (Bool × (F → F → Bool)) → Option F → F → F
  unfolding offset
  mocked_scalar (some (nudge_down, compare)) (some target) x =
      if compare x target
      then x
      else if nudge_down
      then fl.sub target (offset target)
      else fl.add target (offset target)
  mocked_scalar _ _ x = x

  unfoldable pub mocked_value : OqlCondition F → F → F
  unfolding mocked_scalar scalar_op
  mocked_value cond x = elim (range_of cond) [
    | some (low, high) ↦ fl.div (fl.add low high) (fl.of_int (pos 2))
    | none ↦ mocked_scalar (scalar_op cond.operator) cond.value x
  ]

  -- `auto_mock_sensor`, where it is called at all
  unfoldable pub auto_mock_sensor : String → OqlCondition F → F × World F → F × World F
  unfolding mocked_value
  auto_mock_sensor sensor cond (x, w) =
      let y = mocked_value cond x in if auto_mocks rt then (y, set_sensor sensor y w) else (x, w)

  unfoldable pub compare_sensor : OqlCondition F → F → Bool
  unfolding scalar_op
  compare_sensor cond x = elim (range_of cond) [
    | some (low, high) ↦ fl.le low x && fl.le x high
    | none ↦ elim (scalar_op cond.operator) [
      | some (_, compare) ↦ compare x (get_or cond.value zero_float)
      | none ↦ true
    ]
  ]

  abbrev pub current_value : String → World F → F
  current_value base w =
      get_or (or_else (Dict.get w.sensor_values base) (coerce_float rt (get_var w base))) zero_float

  rate : F → F → Option F → Option F → F
  rate current now (some prev_value) (some prev_time) =
      if fl.le now prev_time
      then zero_float
      else fl.div (fl.sub current prev_value) (fl.sub now prev_time)
  rate current now _ _ = zero_float

  -- `_resolve_delta_sensor_value`
  unfoldable pub resolve_delta : String → World F → F × World F
  unfolding coerce_float rate
  resolve_delta base w =
      let now = rt.clock w.ticks in
      let current = current_value base w in
      let value_key = append_text "__delta_prev_value:" base in
      let time_key = append_text "__delta_prev_time:" base in
      (
        rate current now (coerce_float rt (get_var w value_key))
            (coerce_float rt (get_var w time_key)),
        set_var time_key (float now)
            (set_var value_key (float current) (record w { ticks = suc w.ticks })),
      )

  -- the two numbers of `(value, time)`
  state_of : Value F → Option (F × F)
  unfolding coerce_float
  state_of (list (element value (element time no_more))) =
      both (coerce_float rt value) (coerce_float rt time)
  state_of _ = none

  -- the rate over a window, and whether the state is renewed
  window_rate : F → F → F → Option (F × F) → F × Bool
  window_rate window current now none = (zero_float, true)
  window_rate window current now (some (prev_value, prev_time)) =
      let elapsed = fl.sub now prev_time in
      let effective = Float.max fl window (fl.decimal (pos 1) 3) in
      if fl.le now prev_time
      then (zero_float, true)
      else if fl.le elapsed zero_float
      then (zero_float, false)
      else (
        fl.div (fl.sub current prev_value) (if fl.lt elapsed effective then effective else elapsed),
        fl.le effective elapsed,
      )

  -- `_resolve_windowed_delta_sensor_value`
  unfoldable pub resolve_windowed_delta : String → F → World F → F × World F
  unfolding state_of window_rate
  resolve_windowed_delta base window w =
      let now = rt.clock w.ticks in
      let current = current_value base w in
      let prefix = append_text "__delta_window_state:" (append_text base ":") in
      let key = append_text prefix (rt.text (float window)) in
      let (r, renews) = window_rate window current now (state_of (get_var w key)) in
      let w' = record w { ticks = suc w.ticks } in
      (
        r,
        if renews
            then set_var key (list (element (float current) (element (float now) no_more))) w'
            else w',
      )

  unfoldable pub resolve_sensor_value : String → World F → F × World F
  unfolding resolve_delta base_sensor coerce_float
  resolve_sensor_value sensor w =
      let base = base_sensor sensor in
      let number =
        or_else (coerce_float rt (get_var w sensor)) (coerce_float rt (get_var w base)) in
      elim (Dict.get w.sensor_values sensor) [
        | some x ↦ (x, w)
        | none ↦
            if is_delta sensor
            then resolve_delta base w
            else (get_or (or_else (Dict.get w.sensor_values base) number) zero_float, w)
      ]
