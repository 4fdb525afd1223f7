-- ===== src/Oql/World/Functions.antt =====
-- FUNC of _interpreter_actions.py: arithmetic over literals, variables and sensors.
use oqlos.Base.{
  String, not, Option, none, some, List, [], ◌∷◌, map, ◌==◌, if◌then◌else◌, one_of, get_or, or_else,
  length, keep, run,
}
use oqlos.Base.Int.{pos}
use oqlos.Base.Dict
use oqlos.Base.Float
use oqlos.Base.Float.{Float}
use oqlos.Base.Texts.{split_commas}
use oqlos.Models.{float}
use oqlos.Oql.Blocks.{Header}
use oqlos.Oql.Interpreter.{passed, error, Effect}
use oqlos.Oql.World.{
  World, OqlCondition, Runtime, done, get_var, set_var, set_sensor, coerce_float, coerce_text,
  interpolated,
}

module _ {F : Type 0} (rt : Runtime F) where
  abbrev fl : Float F
  fl = rt.floats

  abbrev zero_float : F
  zero_float = fl.of_int (pos 0)

  unfoldable pub resolve_numeric_token : World F → String → F
  unfolding interpolated coerce_float coerce_text
  resolve_numeric_token w token =
      let key = rt.strip token in
      if key == ""
      then zero_float
      else get_or
          (or_else (Dict.get w.sensor_values key)
            (or_else (coerce_text rt (interpolated rt w key)) (coerce_float rt (get_var w key))))
          zero_float

  func_sum : List F → F
  func_sum values = rt.sum values

  func_avg : List F → F
  unfolding func_sum
  func_avg [] = zero_float
  func_avg values = fl.div (func_sum values) (fl.of_int (pos (length values)))

  func_reduce_or_zero : List F → (F → F → F) → F
  func_reduce_or_zero [] reducer = zero_float
  func_reduce_or_zero (x ∷ xs) reducer = run reducer x xs

  func_sub : List F → F
  unfolding func_sum
  func_sub [] = zero_float
  func_sub (x ∷ xs) = fl.sub x (func_sum xs)

  -- A divisor that is zero makes the result 0.
  divided : F → List F → F
  divided result [] = result
  divided result (divisor ∷ divisors) =
      let rest = divided (fl.div result divisor) divisors in
      if fl.eq divisor zero_float then zero_float else rest

  func_div : List F → F
  unfolding divided
  func_div [] = zero_float
  func_div (x ∷ xs) = divided x xs

  func_mul : List F → F
  func_mul values = run fl.mul (fl.of_int (pos 1)) values

  -- `_FUNC_HANDLERS`
  unfoldable pub func_handler : String → Option (List F → F)
  unfolding func_sum func_avg func_reduce_or_zero func_sub func_div func_mul
  func_handler method =
      if method == "AVG"
      then some func_avg
      else if one_of method ("SUM" ∷ "ADD" ∷ [])
      then some func_sum
      else if method == "MIN"
      then some (λ values. func_reduce_or_zero values (Float.min fl))
      else if method == "MAX"
      then some (λ values. func_reduce_or_zero values (Float.max fl))
      else if method == "SUB"
      then some func_sub
      else if method == "DIV"
      then some func_div
      else if method == "MUL"
      then some func_mul
      else none

  func_values : Header (OqlCondition F) → World F → List F
  unfolding resolve_numeric_token
  func_values act w =
      map (resolve_numeric_token w)
        (keep (λ t. not (t == "")) (map rt.strip (split_commas act.args)))

  unfoldable pub exec_action_func : Header (OqlCondition F) → World F → Effect (World F)
  unfolding func_handler func_values
  exec_action_func act w = elim (func_handler (rt.upper (rt.strip act.method))) [
    | none ↦ done error w
    | some handler ↦
        let result = handler (func_values act w) in
        done passed (set_sensor act.target result (set_var act.target (float result) w))
  ]
