-- ===== src/Oql/Interpreter/Flow.antt =====
-- Where control goes: skipped goals, broken loops, and the safety limit of WHILE.
use oqlos.Base.{
  ℕ, zero, suc, ◌≡◌, refl, sym, ap, ◌∙◌, inl, inr, true, false, Option, none, List, [], ◌∷◌, ◌++◌,
  map, arith, if◌then◌else◌, Bool-cases, Option-cases,
}
use mathlib.Core.List.{append-nil, append_assoc}
use oqlos.Oql.Blocks.{Header, Action, Actions, action, empty, more, add}
use oqlos.Oql.Interpreter.{
  StepStatus, passed, skipped, error, StepResult, Step, Effect, Handlers, Interpreter, times,
  while_passed, applied, is_passed, execute_action, execute_body, is_empty, looped, in_world,
  max_iters, or_one,
}
use oqlos.Oql.Interpreter.Scripts.{
  execute_actions, noted, execute_step, execute_steps, fresh_result,
}

module _ {W : Type 0} where
  times-keeps :
      (set_iter : ℕ → W → W) (body : Interpreter W → Option StepStatus × Interpreter W) (n i : ℕ)
      (s : Interpreter W)
      → ((t : Interpreter W) → t.loop_break ≡ false → (body t).1.loop_break ≡ false)
      → s.loop_break ≡ false
      → (times set_iter body n i s).1.loop_break ≡ false
  unfolding times
  times-keeps set_iter body zero i s keeps e = e
  times-keeps set_iter body (suc n) i s keeps e =
      let s' = in_world s (set_iter i) in
      elim (Option-cases (body s').0) [
        | inl on ↦
            rw (on, times) (times-keeps set_iter body n (suc i) (body s').1 keeps (keeps s' e))
        | inr (status, stopped) ↦ rw (stopped, times) (keeps s' e)
      ]

  while_passed-keeps :
      (condition : W → Effect W) (body : Interpreter W → Option StepStatus × Interpreter W) (n : ℕ)
      (s : Interpreter W)
      → ((t : Interpreter W) → t.loop_break ≡ false → (body t).1.loop_break ≡ false)
      → s.loop_break ≡ false
      → (while_passed condition body n s).1.loop_break ≡ false
  unfolding while_passed
  while_passed-keeps condition body zero s keeps e = e
  while_passed-keeps condition body (suc n) s keeps e =
      let s' = applied s (condition s.world) in
      elim (Bool-cases (is_passed (condition s.world).status)) [
        | inr left ↦ rw (left, while_passed) e
        | inl again ↦ elim (Option-cases (body s').0) [
          | inl on ↦
              rw (again, on, while_passed)
                (while_passed-keeps condition body n (body s').1 keeps (keeps s' e))
          | inr (status, stopped) ↦ rw (again, stopped, while_passed) (keeps s' e)
        ]
      ]

  -- In every state of `P` the condition passes and the body goes on, to a state of `P` again.
  pub record IsEndless (P : Interpreter W → Type 0) (condition : W → Effect W)
      (body : Interpreter W → Option StepStatus × Interpreter W) : Type 0 where
    pub passes : (s : Interpreter W) → P s → (condition s.world).status ≡ passed
    pub goes : (s : Interpreter W) → P s → (body (applied s (condition s.world))).0 ≡ none
    pub stays : (s : Interpreter W) → P s → P (body (applied s (condition s.world))).1

  while_passed-limit :
      (P : Interpreter W → Type 0) (condition : W → Effect W)
      (body : Interpreter W → Option StepStatus × Interpreter W) (n : ℕ) (s : Interpreter W)
      → IsEndless P condition body
      → P s
      → (while_passed condition body n s).0 ≡ error
  unfolding while_passed
  while_passed-limit P condition body zero s endless p = rw (endless.passes s p, while_passed) refl
  while_passed-limit P condition body (suc n) s endless p =
      rw (endless.passes s p, endless.goes s p, while_passed)
        (while_passed-limit P condition body n _ endless (endless.stays s p))

-- what is reported of actions that are all skipped
abbrev pub as_skipped : {C : Type 0} → Actions C → StepResult → StepResult
as_skipped acts result = if is_empty acts then result else record result { status = skipped }

module _ {C W : Type 0} (h : Handlers C W) where
  looped-limit :
      (P : Interpreter W → Type 0) (hd : Header C)
      (body : Interpreter W → Option StepStatus × Interpreter W) (s : Interpreter W)
      → hd.method ≡ "while"
      → IsEndless P (h.evaluate_condition hd) body
      → P s
      → (looped h hd body s).0 ≡ error
  unfolding looped
  looped-limit P hd body s is_while endless p =
      simp is_while (while_passed-limit P (h.evaluate_condition hd) body max_iters s endless p)

  looped-keeps :
      (hd : Header C) (body : Interpreter W → Option StepStatus × Interpreter W) (s : Interpreter W)
      → ((t : Interpreter W) → t.loop_break ≡ false → (body t).1.loop_break ≡ false)
      → s.loop_break ≡ false
      → (looped h hd body s).1.loop_break ≡ false
  unfolding looped
  looped-keeps hd body s keeps e =
      let n = or_one (h.digits hd.args) in
      ground (
        arith,
        e,
        times-keeps h.set_iter body n 0 s keeps e,
        while_passed-keeps (h.evaluate_condition hd) body max_iters s keeps e,
      )

  execute_body-keeps :
      (acts : Actions C) (s : Interpreter W)
      → s.loop_break ≡ false
      → (execute_body h acts s).1.loop_break ≡ false
  unfolding execute_body
  execute_body-keeps empty s e = e
  execute_body-keeps (more act acts) s e =
      let r = execute_action h act s in
      elim (Bool-cases r.1.loop_break) [
        | inl broken ↦ rw broken refl
        | inr on ↦ ground (arith, on, execute_body-keeps acts r.1 on)
      ]

  -- A REPEAT STOP never outlives its loop: after a loop that was not skipped, no break is pending,
  -- whatever the actions of its body do and however it ends.
  pub loop_break-execute_action :
      (hd : Header C) (then_actions else_actions loop_actions : Actions C) (s : Interpreter W)
      → hd.kind ≡ "loop_block"
      → s.goal_skipped ≡ false
      → (execute_action h (action hd then_actions else_actions loop_actions) s).1.loop_break ≡ false
  unfolding execute_action
  loop_break-execute_action hd t e l s is_loop on =
      simp (on, is_loop) (looped-keeps hd (execute_body h l) _ (execute_body-keeps l) refl)

  -- A WHILE loop, in states of some kind `P` that its body leads back to, whose condition passes in
  -- them and whose body does not end it there, stops with ERROR when it is entered in such a state:
  -- the scope is open, and nothing is skipped or broken.
  pub execute_action-while :
      (P : Interpreter W → Type 0) (hd : Header C)
      (then_actions else_actions loop_actions : Actions C) (s : Interpreter W)
      → hd.kind ≡ "loop_block"
      → hd.method ≡ "while"
      → s.goal_skipped ≡ false
      → IsEndless P (h.evaluate_condition hd) (execute_body h loop_actions)
      → P (record s { world = h.open_scope s.world; goal_skipped = false; loop_break = false })
      → (execute_action h (action hd then_actions else_actions loop_actions) s).0 ≡ error
  unfolding execute_action
  execute_action-while P hd t e l s is_loop is_while on endless p =
      simp (on, is_loop) (looped-limit P hd (execute_body h l) _ is_while endless p)

  action-skipped :
      (act : Action C) (s : Interpreter W)
      → s.goal_skipped ≡ true
      → execute_action h act s ≡ (skipped, s)
  unfolding execute_action
  action-skipped (action hd t e l) s skip = rw skip refl

  actions-skipped :
      (acts : Actions C) (result : StepResult) (s : Interpreter W)
      → s.goal_skipped ≡ true
      → execute_actions h acts result s ≡ (as_skipped acts result, s)
  unfolding execute_actions noted
  actions-skipped empty result s skip = refl
  actions-skipped (more act empty) result s skip = rw (action-skipped act s skip) refl
  actions-skipped (more act (more b acts)) result s skip =
      rw (action-skipped act s skip)
        (actions-skipped (more b acts) (record result { status = skipped }) s skip)

  -- Once the rest of a goal is skipped, its further steps run no handler and record no error: each
  -- is reported as skipped, or as passed where it has no action.
  pub execute_steps-skipped :
      (steps : List (Step C)) (s : Interpreter W)
      → s.goal_skipped ≡ true
      → execute_steps h steps s ≡ record s {
        results =
            s.results ++ map (λ (step : Step C). as_skipped step.actions (fresh_result step)) steps;
      }
  unfolding execute_steps execute_step
  execute_steps-skipped [] s skip =
      ap (λ rs. record s { results = rs }) (sym (append-nil s.results))
  execute_steps-skipped (step ∷ steps) s skip =
      let result = as_skipped step.actions (fresh_result step) in
      rw (actions-skipped step.actions (fresh_result step) s skip) (
        execute_steps-skipped steps (record s { results = s.results ++ result ∷ [] }) skip
        ∙ ap (λ rs. record s { results = rs }) (append_assoc s.results (result ∷ []) _))

  execute_actions-add :
      (acts : Actions C) (act : Action C) (result : StepResult) (s : Interpreter W)
      → execute_actions h (add acts act) result s
        ≡ (let r = execute_actions h acts result s in execute_actions h (more act empty) r.0 r.1)
  unfolding execute_actions
  execute_actions-add empty act result s = refl
  execute_actions-add (more b acts) act result s =
      let r = execute_action h b s in execute_actions-add acts act (noted h result b r.0) r.1

  -- A step in which the rest of the goal gets skipped before its last action is reported as
  -- skipped, whatever its earlier actions did, a failure or an error included.
  pub status-execute_step :
      (step : Step C) (act : Action C) (s : Interpreter W)
      → (execute_step h step s).1.goal_skipped ≡ true
      → (execute_step h (record step { actions = add step.actions act }) s).0.status ≡ skipped
  unfolding execute_step
  status-execute_step step act s skip =
      rw (execute_actions-add step.actions act (fresh_result step) s) (
        ap (λ r. r.0.status)
          (actions-skipped (more act empty) (execute_actions h step.actions (fresh_result step) s).0
            (execute_actions h step.actions (fresh_result step) s).1 skip))
