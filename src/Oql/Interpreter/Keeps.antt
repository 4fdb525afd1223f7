-- ===== src/Oql/Interpreter/Keeps.antt =====
-- What every handler keeps, every script keeps.
use oqlos.Base.{
  ℕ, zero, suc, String, inl, inr, false, not, ◌&&◌, Option, none, some, List, [], ◌∷◌, ◌==◌,
  Bool-cases, Option-cases, if_holds,
}
use mathlib.Core.Path.{subst}
use oqlos.Oql.Blocks.{Header, Action, Actions, action, empty, more}
use oqlos.Oql.Interpreter.{
  is_empty, StepStatus, StepResult, Step, Effect, Handlers, Interpreter, applied, in_world,
  execute_action, execute_all, execute_body, times, while_passed, looped, standard, is_passed,
  goes_on, or_one, max_iters, loop_method,
}
use oqlos.Oql.Interpreter.Scripts.{execute_actions, execute_step, execute_steps, fresh_result}

module _ {C W : Type 0} where
  -- of a handler, where there is one
  abbrev pub Keeps : (W → Type 0) → Option (Header C → W → Effect W) → Type 0
  Keeps P none = Unit
  Keeps P (some run_handler) = (hd : Header C) (w : W) → P w → P (run_handler hd w).world

  -- A property of worlds that all the handlers keep.
  pub record IsKept (P : W → Type 0) (h : Handlers C W) : Type 0 where
    pub handler : (kind : String) → Keeps P (h.handler kind)
    pub condition : (hd : Header C) (w : W) → P w → P (h.evaluate_condition hd w).world
    pub open_scope : (w : W) → P w → P (h.open_scope w)
    pub set_iter : (n : ℕ) (w : W) → P w → P (h.set_iter n w)
    pub close_scope : (w : W) → P w → P (h.close_scope w)

module _ {C W : Type 0} (P : W → Type 0) (h : Handlers C W) (kept : IsKept P h) where
  abbrev Holds : {A : Type 0} → A × Interpreter W → Type 0
  Holds r = P r.1.world

  standard-keeps :
      (hd : Header C) (s : Interpreter W)
      → Keeps P (h.handler hd.kind)
      → P s.world
      → P (standard h hd s).1.world
  standard-keeps hd s k p = elim (Option-cases (h.handler hd.kind)) [
    | inl missing ↦ rw (missing, standard) p
    | inr (run_handler, found) ↦ rw (found, standard) (subst (Keeps P) found k hd s.world p)
  ]

  times-keeps :
      (body : Interpreter W → Option StepStatus × Interpreter W)
      → ((s : Interpreter W) → P s.world → Holds (body s))
      → (n i : ℕ) (s : Interpreter W) → P s.world
      → P (times h.set_iter body n i s).1.world
  unfolding times
  times-keeps body keeps zero i s p = p
  times-keeps body keeps (suc n) i s p =
      let r = body (in_world s (h.set_iter i)) in
      let q = keeps (in_world s (h.set_iter i)) (kept.set_iter i s.world p) in
      elim (Option-cases r.0) [
        | inl none_yet ↦ rw (none_yet, times) (times-keeps body keeps n (suc i) r.1 q)
        | inr (status, ended) ↦ rw (ended, times) q
      ]

  while-keeps :
      (hd : Header C) (body : Interpreter W → Option StepStatus × Interpreter W)
      → ((s : Interpreter W) → P s.world → Holds (body s))
      → (n : ℕ) (s : Interpreter W) → P s.world
      → P (while_passed (h.evaluate_condition hd) body n s).1.world
  unfolding while_passed
  while-keeps hd body keeps zero s p = kept.condition hd s.world p
  while-keeps hd body keeps (suc n) s p =
      let e = h.evaluate_condition hd s.world in
      let p' = kept.condition hd s.world p in
      let r = body (applied s e) in
      elim (Bool-cases (is_passed e.status)) [
        | inr ends ↦ rw (ends, while_passed) p'
        | inl goes ↦ elim (Option-cases r.0) [
          | inl none_yet ↦
              rw (goes, none_yet, while_passed)
                (while-keeps hd body keeps n r.1 (keeps (applied s e) p'))
          | inr (status, ended) ↦ rw (goes, ended, while_passed) (keeps (applied s e) p')
        ]
      ]

  looped-keeps :
      (hd : Header C) (body : Interpreter W → Option StepStatus × Interpreter W)
      → ((s : Interpreter W) → P s.world → Holds (body s))
      → (s : Interpreter W) → P s.world
      → P (looped h hd body s).1.world
  unfolding looped
  looped-keeps hd body keeps s p =
      if_holds Holds (loop_method hd.method == "times")
        (times-keeps body keeps (or_one (h.digits hd.args)) 0 s p)
        (if_holds Holds (loop_method hd.method == "while") (while-keeps hd body keeps max_iters s p)
          p)

  mutual
    unfolding execute_action

    pub execute_action-keeps :
        (act : Action C) (s : Interpreter W) → P s.world → Holds (execute_action h act s)
    execute_action-keeps (action hd then_actions else_actions loop_actions) s p =
        let tested = kept.condition hd s.world p in
        let s' = applied s (h.evaluate_condition hd s.world) in
        let opened = record s { world = h.open_scope s.world; loop_break = false } in
        if_holds Holds s.goal_skipped p (
          if_holds Holds (hd.kind == "if_block")
            (if_holds Holds (not (is_empty then_actions && is_empty else_actions))
              (if_holds Holds (is_passed (h.evaluate_condition hd s.world).status)
                (execute_all-keeps then_actions s' tested)
                (execute_all-keeps else_actions s' tested))
              tested)
            (if_holds Holds (hd.kind == "if_fail_block")
              (if_holds Holds (h.has_failed hd.target s.world) (execute_all-keeps then_actions s p)
                p)
              (if_holds Holds (hd.kind == "loop_block")
                (kept.close_scope (looped h hd (execute_body h loop_actions) opened).1.world (
                  looped-keeps hd (execute_body h loop_actions)
                    (λ s'' q. execute_body-keeps loop_actions s'' q) opened
                    (kept.open_scope s.world p)))
                (if_holds Holds (hd.kind == "endloop") p
                  (standard-keeps hd s (kept.handler hd.kind) p)))))

    pub execute_all-keeps :
        (acts : Actions C) (s : Interpreter W) → P s.world → Holds (execute_all h acts s)
    execute_all-keeps empty s p = p
    execute_all-keeps (more act acts) s p =
        let q = execute_action-keeps act s p in
        if_holds Holds (goes_on (execute_action h act s).0)
          (execute_all-keeps acts (execute_action h act s).1 q) q

    pub execute_body-keeps :
        (acts : Actions C) (s : Interpreter W) → P s.world → Holds (execute_body h acts s)
    execute_body-keeps empty s p = p
    execute_body-keeps (more act acts) s p =
        let r = execute_action h act s in
        let q = execute_action-keeps act s p in
        if_holds Holds r.1.loop_break q
          (if_holds Holds (goes_on r.0) (execute_body-keeps acts r.1 q) q)

  execute_actions-keeps :
      (acts : Actions C) (result : StepResult) (s : Interpreter W)
      → P s.world
      → Holds (execute_actions h acts result s)
  unfolding execute_actions
  execute_actions-keeps empty result s p = p
  execute_actions-keeps (more act acts) result s p =
      execute_actions-keeps acts _ (execute_action h act s).1 (execute_action-keeps act s p)

  pub execute_steps-keeps :
      (steps : List (Step C)) (s : Interpreter W) → P s.world → P (execute_steps h steps s).world
  unfolding execute_steps execute_step
  execute_steps-keeps [] s p = p
  execute_steps-keeps (step ∷ steps) s p =
      execute_steps-keeps steps _ (execute_actions-keeps step.actions (fresh_result step) s p)
