-- ===== src/Oql/World/Goals.antt =====
-- The gate of a whole goal: its steps, and then the thresholds that they leave pending.
use oqlos.Base.{String, ◌≡◌, false, Option, some, []}
use mathlib.Core.List.{append-eq-nil_iff}
use oqlos.Base.Dict
use mathlib.Core.Bool.{false≢true}
use oqlos.Oql.Blocks.{Header}
use oqlos.Oql.Interpreter.{Goal, Effect, Interpreter, in_world}
use oqlos.Oql.Interpreter.Keeps.{execute_steps-keeps}
use oqlos.Oql.Interpreter.Scripts.{execute_steps, execute_single_goal}
use oqlos.Oql.World.{World, Threshold, OqlCondition, Runtime, mem}
use oqlos.Oql.World.Actions.{Devices}
use oqlos.Oql.World.Table.{oql_handlers}
use oqlos.Oql.World.Gates.{IsGood}
use oqlos.Oql.World.Gates.Pending.{IsStripped, evaluate_pending_thresholds-IsGood}
use oqlos.Oql.World.Names.{KeepsThresholds, oql_handlers-IsKept}

module _ {F : Type 0} (rt : Runtime F) (devices : Devices F)
    (diagnostics : String → Option (Header (OqlCondition F) → World F → Effect (World F))) where
  -- the state after the steps of a goal
  abbrev pub after_steps : Goal (OqlCondition F) → Interpreter (World F) → Interpreter (World F)
  after_steps goal s =
      let h = oql_handlers rt devices diagnostics in
      execute_steps h goal.steps (in_world s h.reset_thresholds)

  -- A goal that ends with no error recorded has every threshold that its steps registered and did
  -- not evaluate satisfied: the variable of that name is then a number within the bounds. The
  -- devices and the diagnostics leave the thresholds alone, and stripping a text twice is
  -- stripping it once.
  pub execute_single_goal-IsGood :
      ((text : String) → rt.strip (rt.strip text) ≡ rt.strip text)
      → KeepsThresholds rt devices diagnostics
      → (goal : Goal (OqlCondition F)) (s : Interpreter (World F)) (sensor : String)
        (b : Threshold F)
      → Dict.get (after_steps goal s).world.thresholds sensor ≡ some b
      → mem sensor (after_steps goal s).world.evaluated ≡ false
      → (execute_single_goal (oql_handlers rt devices diagnostics) goal s).errors ≡ []
      → IsGood rt sensor b (execute_single_goal (oql_handlers rt devices diagnostics) goal s).world
  unfolding execute_single_goal oql_handlers mem Dict.keys
  execute_single_goal-IsGood idem laws goal s sensor b found pending h =
      let handlers = oql_handlers rt devices diagnostics in
      let after = after_steps goal s in
      let stripped : IsStripped rt after.world =
        execute_steps-keeps (IsStripped rt) handlers
          (oql_handlers-IsKept rt idem devices diagnostics laws) goal.steps
          (in_world s handlers.reset_thresholds) (λ name member. absurd (false≢true member)) in
      evaluate_pending_thresholds-IsGood rt after.results after.world sensor b stripped found
        pending ((append-eq-nil_iff {p = after.errors}).0 h).1
