-- ===== src/Oql/World/Names.antt =====
-- The names of thresholds, as the handlers leave them.
use oqlos.Base.{
  String, ◌≡◌, refl, sym, ◌∙◌, inl, inr, true, ◌||◌, Option, none, some, [], ◌∷◌, arith, ◌==◌,
  eq_iff, Bool-cases, Option-cases, one_of, if_holds,
}
use mathlib.Core.Path.{subst}
use oqlos.Base.Dict
use oqlos.Base.Dict.{Dict}
use oqlos.Oql.Blocks.{Header}
use oqlos.Oql.Interpreter.{Effect}
use oqlos.Oql.Interpreter.Keeps.{Keeps, IsKept}
use oqlos.Models.{str}
use oqlos.Oql.World.{interpolated, World, OqlCondition, Runtime, set_var, mem}
use oqlos.Oql.World.Thresholds.{exec_action_val, exec_action_save, exec_action_min_max, register}
use oqlos.Oql.World.Gates.Keeps.{exec_action_val-Keeps}
use oqlos.Oql.World.Gates.Pending.{IsStripped}
use oqlos.Oql.World.Conditions.{evaluate_condition, exec_action_condition}
use oqlos.Oql.World.Firmware.{exec_action_action}
use oqlos.Oql.World.Functions.{exec_action_func}
use oqlos.Oql.World.Actions.{
  Devices, plain_set, parse_wait_secs, exec_action_wait, exec_action_task, exec_action_error,
  exec_action_else, exec_action_goto, exec_action_var_set, exec_action_sample, exec_action_set,
}
use oqlos.Oql.World.Table.{action_handler, oql_handlers}
use oqlos.Oql.World.Same.{Same, evaluate_condition-Same}
use oqlos.Oql.World.Same.Actions.{
  condition-Same, save-Same, action-Same, func-Same, waited-Same, else-Same, sample-Same, task-Same,
  wait-Same, error-Same, goto-Same, var_set-Same,
}

mem-keys-set :
    {V : Type 0} (d : Dict V) (k : String) (v : V) (s : String)
    → mem s (Dict.keys (Dict.set d k v)) ≡ (k == s || mem s (Dict.keys d))
unfolding mem Dict.keys Dict.set
mem-keys-set [] k v s = refl
mem-keys-set ((j, w) ∷ d) k v s = ground (arith, mem-keys-set d k v s, eq_iff j k)

stripped-set :
    {V : Type 0} (strip : String → String) (d : Dict V) (k : String) (v : V)
    → strip k ≡ k
    → ((s : String) → mem s (Dict.keys d) ≡ true → strip s ≡ s)
    → (s : String) → mem s (Dict.keys (Dict.set d k v)) ≡ true
    → strip s ≡ s
stripped-set strip d k v fixed stripped s member =
    let m = sym (mem-keys-set d k v s) ∙ member in
    elim (Bool-cases (k == s)) [
      | inl same ↦ subst (λ n. strip n ≡ n) ((eq_iff k s).0 same) fixed
      | inr other ↦ stripped s (ground (arith, m, other))
    ]

module _ {F : Type 0} (rt : Runtime F) where
  -- The laws of the devices and of the diagnostics: they leave the thresholds alone.
  pub record KeepsThresholds (devices : Devices F)
      (diagnostics : String → Option (Header (OqlCondition F) → World F → Effect (World F)))
      : Type 0 where
    pub motor2 :
        (target value : String) (w : World F) (e : Effect (World F))
        → devices.try_exec_motor2_set target value w ≡ some e
        → w.thresholds ≡ e.world.thresholds
    pub peripheral :
        (target value : String) (w : World F)
        → w.thresholds ≡ (devices.set_peripheral target value w).1.thresholds
    pub diagnostic : (kind : String) → Keeps (IsStripped rt) (diagnostics kind)

  stays : (w w' : World F) → Same w w' → IsStripped rt w → IsStripped rt w'
  stays w w' same stripped s member =
      stripped s (subst (λ thresholds. mem s (Dict.keys thresholds) ≡ true) (sym same) member)

  Same-Keeps :
      (run_handler : Header (OqlCondition F) → World F → Effect (World F))
      → ((act : Header (OqlCondition F)) (w : World F) → Same w (run_handler act w).world)
      → Keeps (IsStripped rt) (some run_handler)
  Same-Keeps run_handler same act w stripped =
      stays w (run_handler act w).world (same act w) stripped

  module _ (idem : (text : String) → rt.strip (rt.strip text) ≡ rt.strip text) where
    register-IsStripped :
        (act : Header (OqlCondition F)) (w : World F) (x : Option F)
        → IsStripped rt w
        → IsStripped rt (register rt act w x).world
    unfolding register
    register-IsStripped act w none stripped s member = stripped s member
    register-IsStripped act w (some x) stripped s member =
        stripped-set rt.strip w.thresholds (rt.strip act.target) _ (idem act.target) stripped s
          member

    min_max-IsStripped :
        (act : Header (OqlCondition F)) (w : World F)
        → IsStripped rt w
        → IsStripped rt (exec_action_min_max rt act w).world
    unfolding exec_action_min_max
    min_max-IsStripped act w stripped =
        if_holds (λ (e : Effect (World F)). IsStripped rt e.world) (rt.strip act.target == "")
          stripped (register-IsStripped act w _ stripped)

    module _ (devices : Devices F)
        (diagnostics : String → Option (Header (OqlCondition F) → World F → Effect (World F)))
        (laws : KeepsThresholds devices diagnostics) where
      plain_set-Same :
          (act : Header (OqlCondition F)) (value : String) (w : World F)
          → Same w (plain_set rt devices act value w).world
      unfolding plain_set
      plain_set-Same act value w =
          ground
            (arith, laws.peripheral act.target value w, waited-Same rt (parse_wait_secs rt value) w)

      set-Same :
          (act : Header (OqlCondition F)) (w : World F)
          → Same w (exec_action_set rt devices act w).world
      unfolding exec_action_set
      set-Same act w =
          let value = interpolated rt w (rt.strip act.args) in
          let w' = set_var act.target (str value) w in
          let target = rt.lower (rt.strip act.target) in
          elim (Option-cases (devices.try_exec_motor2_set target value w')) [
            | inl other ↦ rw other (plain_set-Same act value w')
            | inr (e, done_by_motor) ↦
                rw done_by_motor (laws.motor2 target value w' e done_by_motor)
          ]

      handler-IsStripped :
          (kind : String) → Keeps (IsStripped rt) (action_handler rt devices diagnostics kind)
      unfolding action_handler
      handler-IsStripped kind =
          let Q : Option (Header (OqlCondition F) → World F → Effect (World F)) → Type 0 =
            Keeps (IsStripped rt) in
          if_holds Q (kind == "action") (Same-Keeps (exec_action_action rt) (action-Same rt)) (
            if_holds Q (one_of kind ("task" ∷ "log" ∷ []))
              (Same-Keeps (exec_action_task rt) (task-Same rt))
              (if_holds Q (kind == "set") (Same-Keeps (exec_action_set rt devices) set-Same) (
                if_holds Q (kind == "save") (Same-Keeps (exec_action_save rt) (save-Same rt)) (
                  if_holds Q (kind == "wait") (Same-Keeps (exec_action_wait rt) (wait-Same rt)) (
                    if_holds Q (one_of kind ("min" ∷ "max" ∷ [])) min_max-IsStripped (
                      if_holds Q (kind == "val")
                        (Same-Keeps (exec_action_val rt)
                          (λ act w. (exec_action_val-Keeps rt act w).0))
                        (if_holds Q (kind == "error")
                          (Same-Keeps (exec_action_error rt) (error-Same rt))
                          (if_holds Q (kind == "else")
                            (Same-Keeps (exec_action_else rt) (else-Same rt))
                            (if_holds Q (kind == "sample")
                              (Same-Keeps (exec_action_sample rt) (sample-Same rt))
                              (if_holds Q (kind == "func")
                                (Same-Keeps (exec_action_func rt) (func-Same rt))
                                (if_holds Q (kind == "goto")
                                  (Same-Keeps (exec_action_goto rt) (goto-Same rt))
                                  (if_holds Q (one_of kind ("condition" ∷ "if_else" ∷ []))
                                    (Same-Keeps (exec_action_condition rt) (condition-Same rt))
                                    (if_holds Q (kind == "var_set")
                                      (Same-Keeps (exec_action_var_set rt) (var_set-Same rt))
                                      (if_holds Q
                                        (one_of kind ("api" ∷ "expect" ∷ "assert" ∷ "shell" ∷ []))
                                        (laws.diagnostic kind) tt))))))))))))))

      -- Whatever a script does, the names of its thresholds stay stripped.
      pub oql_handlers-IsKept : IsKept (IsStripped rt) (oql_handlers rt devices diagnostics)
      unfolding oql_handlers
      oql_handlers-IsKept = record {
        handler = handler-IsStripped;
        condition = λ act w stripped.
            stays w (evaluate_condition rt act w).world (evaluate_condition-Same rt act w) stripped;
        open_scope = λ w stripped. stripped;
        set_iter = λ n w stripped. stripped;
        close_scope = λ w stripped. stripped;
      }
