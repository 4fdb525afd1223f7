-- ===== src/Oql/World/Firmware.antt =====
-- A generic action on the hardware: `ValueNormalizer.normalize_pump_power` of
-- _value_normalizers.py, and `FirmwareExecutor._execute_plugin_action` of _firmware_executor.py.
use oqlos.Base.{
  String, Bool, false, not, ◌&&◌, ◌||◌, Option, none, some, [], ◌∷◌, ◌==◌, if◌then◌else◌, one_of,
  get_or, or_else, length,
}
use oqlos.Base.Int.{pos}
use oqlos.Base.Float
use oqlos.Base.Float.{Float}
use oqlos.Models.{Value, bool, str, dict, Fields, end, field}
use oqlos.Models.Truth.{truthy}
use oqlos.Oql.Blocks.{Header}
use oqlos.Oql.Interpreter.{passed, failed, Effect}
use oqlos.Oql.World.{
  World, OqlCondition, Runtime, Call, set_pump, set_valve, set_lung, done, get_var, root_store,
  set_root, is_execute, coerce_float, coerce_text, interpolated, contains, ends_with,
  without_spaces,
}

abbrev pub is_litres : String → Bool
is_litres compact =
    contains "l/min" compact
    || ends_with "lpm" compact
    || (ends_with "l" compact && not (ends_with "ml" compact))

module _ {F : Type 0} (rt : Runtime F) where
  abbrev fl : Float F
  fl = rt.floats

  -- the world as the executor and the normalizer see its variables, outside every scope
  abbrev pub at_root : World F → World F
  at_root w = record w { vars = root_store w.vars }

  abbrev pub set_at_root : String → Value F → World F → World F
  set_at_root key value w = record w { vars = set_root key value w.vars }

  abbrev zero_float : F
  zero_float = fl.of_int (pos 0)

  abbrev hundred : F
  hundred = fl.of_int (pos 100)

  positive : Option F → Option F
  positive none = none
  positive (some x) = if fl.lt zero_float x then some x else none

  scale_of : World F → String → Option F
  unfolding positive coerce_float
  scale_of w key = positive (coerce_float rt (get_var w key))

  -- `_get_pump_flow_full_scale_lpm`
  unfoldable pub pump_flow_full_scale : World F → F
  unfolding positive scale_of
  pump_flow_full_scale w =
      get_or
        (or_else (scale_of w "PUMP_FLOW_FULL_SCALE_LPM")
          (or_else (scale_of w "pump_flow_full_scale_lpm") (positive (some rt.flow_full_scale))))
        (fl.of_int (pos 10))

  unfoldable pub clamped_power : F → F
  clamped_power x = Float.max fl zero_float (Float.min fl hundred x)

  unfoldable pub power_of : String → F → World F → F
  unfolding clamped_power pump_flow_full_scale
  power_of lowered x w =
      let scale = pump_flow_full_scale w in
      if is_litres (without_spaces lowered)
      then (if fl.le scale zero_float
          then zero_float
          else clamped_power (fl.mul (fl.div x scale) hundred))
      else clamped_power x

  unfoldable pub normalize_pump_power : String → World F → F
  unfolding power_of coerce_text interpolated
  normalize_pump_power raw w =
      let text = interpolated rt w (rt.strip raw) in
      let lowered = rt.strip (rt.lower text) in
      if one_of lowered ("on" ∷ "true" ∷ [])
      then hundred
      else if one_of lowered ("off" ∷ "false" ∷ [])
      then zero_float
      else elim (coerce_text rt text) [ none ↦ zero_float | some x ↦ power_of lowered x w ]

  look_up : String → Fields F → Option (Value F)
  look_up key end = none
  look_up key (field name value rest) =
      let later = look_up key rest in if name == key then some value else later

  -- `_is_success`
  unfoldable pub is_success : Value F → Bool
  unfolding truthy look_up
  is_success (dict fields) =
      truthy (λ x. fl.eq x zero_float)
        (get_or (or_else (look_up "success" fields) (look_up "ok" fields)) (bool false))
  is_success value = truthy (λ x. fl.eq x zero_float) value

  unfoldable pub answered : Option (Value F) → Bool
  unfolding is_success
  answered none = false
  answered (some value) = is_success value

  -- A call of the gateway; its variable is set where that succeeds.
  unfoldable pub call_gateway : Call F → (World F → World F) → World F → Effect (World F)
  unfolding answered
  call_gateway call on_success w =
      let w' = record w { calls = call ∷ w.calls } in
      if answered (rt.answers (length w.calls)) then done passed (on_success w') else done failed w'

  unfoldable pub execute_plugin_action :
      Header (OqlCondition F) → String → World F → Effect (World F)
  unfolding call_gateway normalize_pump_power
  execute_plugin_action act to_send w =
      if one_of act.method ("set" ∷ "off" ∷ [])
      then call_gateway
          (set_pump
            (if act.method == "set" then normalize_pump_power to_send (at_root w) else zero_float))
          (set_at_root act.target (str to_send)) w
      else if one_of act.method ("open" ∷ "close" ∷ [])
      then call_gateway (set_valve act.target (act.method == "open"))
          (set_at_root act.target (bool (act.method == "open"))) w
      else if act.method == "reciprocate"
      then call_gateway set_lung (λ w'. w') w
      else done passed w

  unfoldable pub exec_action_action : Header (OqlCondition F) → World F → Effect (World F)
  unfolding interpolated execute_plugin_action
  exec_action_action act w =
      if is_execute rt.mode
      then execute_plugin_action act (interpolated rt w act.args) w
      else done passed w
