-- ===== src/Oql/World/Actions.antt =====
-- The handlers of _interpreter_actions.py that are a few assignments.
use oqlos.Base.{
  String, Bool, true, not, ◌&&◌, ◌||◌, Option, none, some, List, [], ◌∷◌, ◌++◌, ◌==◌, if◌then◌else◌,
  one_of, or_text, get_or,
}
use Prim.Native.String.{◌++◌ as append_text}
use oqlos.Base.Int.{pos}
use oqlos.Base.Dict
use oqlos.Base.Float
use oqlos.Models.{str}
use oqlos.Oql.Blocks.{Header}
use oqlos.Oql.Interpreter.{passed, error, warning, Effect}
use oqlos.Oql.World.{
  World, OqlCondition, Runtime, done, fails, get_var, set_var, set_sensor, is_dry_run, is_execute,
  coerce_float, interpolated, replace_commas, contains,
}

-- The SETs of the motor and of peripherals, which _action_motor2.py and the firmware adapter do.
pub record Devices (F : Type 0) : Type 0 where
  -- `_try_exec_motor2_set`
  pub try_exec_motor2_set : String → String → World F → Option (Effect (World F))
  -- whether the target, where it is a peripheral, takes the value
  pub set_peripheral : String → String → World F → Bool × World F

module _ {F : Type 0} (rt : Runtime F) where
  abbrev zero_float : F
  zero_float = rt.floats.of_int (pos 0)

  seconds : String → Option F → F
  seconds low none = zero_float
  seconds low (some x) =
      if contains "s" low && not (contains "ms" low)
      then x
      else rt.floats.div x (rt.floats.of_int (pos 1000))

  number_of : Option String → Option F
  number_of none = none
  number_of (some digits) = rt.parse_float digits

  unfoldable pub parse_wait_secs : String → F
  unfolding seconds number_of replace_commas
  parse_wait_secs raw =
      let low = rt.strip (rt.lower raw) in
      seconds low (number_of (rt.search_number (replace_commas low)))

  -- No sleep in a dry run, or where waits are skipped; a negative wait is none.
  unfoldable pub waited : F → World F → World F
  waited secs w =
      if is_dry_run rt.mode || rt.skip_waits
      then w
      else record w { sleeps = Float.max rt.floats secs zero_float ∷ w.sleeps }

  unfoldable pub exec_action_wait : Header (OqlCondition F) → World F → Effect (World F)
  unfolding waited parse_wait_secs
  exec_action_wait act w = done passed (waited (parse_wait_secs act.args) w)

  -- TASK and LOG only print.
  unfoldable pub exec_action_task : Header (OqlCondition F) → World F → Effect (World F)
  exec_action_task act w = done passed w

  unfoldable pub exec_action_error : Header (OqlCondition F) → World F → Effect (World F)
  unfolding interpolated
  exec_action_error act w = fails (interpolated rt w (or_text act.args act.raw)) w

  -- an ELSE of this severity
  said : String → String → World F → Effect (World F)
  said severity message w =
      if severity == "ERROR"
      then fails message w
      else if severity == "WARNING"
      then done warning (record w { warnings = w.warnings ++ message ∷ [] })
      else done passed w

  else_severity : Option (OqlCondition F) → String
  else_severity none = "INFO"
  else_severity (some cond) = rt.upper (or_text cond.on_fail "INFO")

  else_message : Option (OqlCondition F) → String
  else_message none = ""
  else_message (some cond) = cond.fail_message

  unfoldable pub exec_action_else : Header (OqlCondition F) → World F → Effect (World F)
  unfolding said else_severity else_message interpolated
  exec_action_else act w =
      said (else_severity act.condition)
        (interpolated rt w (or_text (else_message act.condition) (or_text act.args act.raw))) w

  unfoldable pub exec_action_goto : Header (OqlCondition F) → World F → Effect (World F)
  exec_action_goto act w = record (done passed (set_var "last_goto" (str act.target) w)) {
    skips = true;
  }

  unfoldable pub exec_action_var_set : Header (OqlCondition F) → World F → Effect (World F)
  unfolding interpolated
  exec_action_var_set act w = done passed (set_var act.target (str (interpolated rt w act.args)) w)

  -- Arguments of white space alone, which the parser makes none of, raise an IndexError.
  first_word : List String → String
  first_word [] = ""
  first_word (word ∷ _) = rt.upper word

  sample_state : Header (OqlCondition F) → String
  unfolding first_word
  sample_state act =
      or_text (rt.upper (rt.strip act.method))
        (if act.args == "" then "START" else first_word (rt.words act.args))

  -- `sensor_values.setdefault(target, current)`
  sampled : String → World F → World F
  unfolding coerce_float
  sampled target w = elim (Dict.get w.sensor_values target) [
    | some _ ↦ w
    | none ↦ set_sensor target (get_or (coerce_float rt (get_var w target)) zero_float) w
  ]

  unfoldable pub exec_action_sample : Header (OqlCondition F) → World F → Effect (World F)
  unfolding sampled sample_state
  exec_action_sample act w =
      done passed
        (set_var (append_text "sample:" act.target) (str (sample_state act)) (sampled act.target w))

  -- a SET that is not one of the motor
  unfoldable pub plain_set :
      Devices F → Header (OqlCondition F) → String → World F → Effect (World F)
  unfolding waited parse_wait_secs
  plain_set devices act value w =
      let (ok, w') = devices.set_peripheral act.target value w in
      if one_of (rt.lower (rt.strip act.target)) ("wait" ∷ "delay" ∷ "pause" ∷ "timeout" ∷ [])
      then done passed (waited (parse_wait_secs value) w)
      else if is_execute rt.mode
      then done (if ok then passed else error) w'
      else done passed w

  unfoldable pub exec_action_set : Devices F → Header (OqlCondition F) → World F → Effect (World F)
  unfolding plain_set interpolated
  exec_action_set devices act w =
      let value = interpolated rt w (rt.strip act.args) in
      let w' = set_var act.target (str value) w in
      get_or (devices.try_exec_motor2_set (rt.lower (rt.strip act.target)) value w')
        (plain_set devices act value w')
