-- ===== src/Oql/Interpreter.antt =====
-- The control flow of packages/oqlos-core/src/oqlos/core: `_execute_action` and its callers in
-- interpreter.py, and the blocks and loops of _interpreter_actions.py. What one standard action
-- does, and how a condition is evaluated, are parameters; `W` is the state that they keep.
pub mod Scripts
pub mod Flow
pub mod Keeps
use oqlos.Base.{
  ℕ, zero, suc, String, Bool, true, false, not, ◌&&◌, ◌||◌, Option, none, some, List, ◌++◌, ◌==◌,
  if◌then◌else◌,
}
use oqlos.Oql.Blocks.{Header, Action, Actions, action, empty, more}

pub data StepStatus : Type 0 where
  pending running passed failed skipped error warning : StepStatus

pub record StepResult : Type 0 where
  pub name : String
  pub status : StepStatus
  pub message : String

pub record Step (C : Type 0) : Type 0 where
  pub number : String
  pub name : String
  pub actions : Actions C

pub record Goal (C : Type 0) : Type 0 where
  pub name : String
  pub steps : List (Step C)

-- What a handler does: its status, the state after it, the errors it records, and whether it
-- skips the rest of the goal.
pub record Effect (W : Type 0) : Type 0 where
  pub status : StepStatus
  pub world : W
  pub errors : List String
  pub skips : Bool

pub record Handlers (C W : Type 0) : Type 0 where
  -- the entries of `ACTION_HANDLERS` for standard actions, by kind
  pub handler : String → Option (Header C → W → Effect W)
  pub evaluate_condition : Header C → W → Effect W
  -- `bool(interp.vars.get(f"failure:{target}"))`
  pub has_failed : String → W → Bool
  -- a child `VariableStore`, its variable ITER, and the return to its parent
  pub open_scope : W → W
  pub set_iter : ℕ → W → W
  pub close_scope : W → W
  -- `int(text)` where `text.isdigit()`
  pub digits : String → Option ℕ
  -- the thresholds of a goal: reset, and evaluated at its end with the results so far
  pub reset_thresholds : W → W
  pub evaluate_pending_thresholds : List StepResult → W → List StepResult × Effect W

pub record Interpreter (W : Type 0) : Type 0 where
  pub world : W
  pub goal_skipped : Bool
  pub loop_break : Bool
  pub results : List StepResult
  pub errors : List String

abbrev pub goes_on : StepStatus → Bool
goes_on passed = true
goes_on skipped = true
goes_on _ = false

abbrev pub is_passed : StepStatus → Bool
is_passed passed = true
is_passed _ = false

abbrev or_one : Option ℕ → ℕ
or_one none = 1
or_one (some n) = n

abbrev loop_method : String → String
loop_method method = if method == "" then "times" else method

abbrev pub max_iters : ℕ
max_iters = 1000

module _ {W : Type 0} where
  abbrev pub applied : Interpreter W → Effect W → Interpreter W
  applied s e = record s {
    world = e.world;
    goal_skipped = s.goal_skipped || e.skips;
    errors = s.errors ++ e.errors;
  }

  abbrev pub in_world : Interpreter W → (W → W) → Interpreter W
  in_world s f = record s { world = f s.world }

  -- `method == "times"`: the body says whether the loop goes on, or with what it ends.
  unfoldable pub times :
      (ℕ → W → W)
      → (Interpreter W → Option StepStatus × Interpreter W)
      → ℕ
      → ℕ
      → Interpreter W
      → StepStatus × Interpreter W
  times set_iter body zero i s = (passed, s)
  times set_iter body (suc n) i s =
      let r = body (in_world s (set_iter i)) in
      elim r.0 [ none ↦ times set_iter body n (suc i) r.1 | some status ↦ (status, r.1) ]

  -- `method == "while"`, with so many iterations left before the safety limit
  unfoldable pub while_passed :
      (W → Effect W)
      → (Interpreter W → Option StepStatus × Interpreter W)
      → ℕ
      → Interpreter W
      → StepStatus × Interpreter W
  while_passed condition body zero s =
      let e = condition s.world in (if is_passed e.status then error else passed, applied s e)
  while_passed condition body (suc n) s =
      let e = condition s.world in
      let r = body (applied s e) in
      elim (is_passed e.status) [
        | false ↦ (passed, applied s e)
        | true ↦ elim r.0 [ none ↦ while_passed condition body n r.1 | some status ↦ (status, r.1) ]
      ]

abbrev pub is_empty : {C : Type 0} → Actions C → Bool
is_empty empty = true
is_empty (more _ _) = false

module _ {C W : Type 0} (h : Handlers C W) where
  -- An action of a kind that has no handler is an error, with a warning only.
  abbrev pub standard : Header C → Interpreter W → StepStatus × Interpreter W
  standard hd s = elim (h.handler hd.kind) [
    | none ↦ (error, s)
    | some run_handler ↦ let e = run_handler hd s.world in (e.status, applied s e)
  ]

  -- the loop of `exec_action_loop_block` in the scope that it opens
  unfoldable pub looped :
      Header C
      → (Interpreter W → Option StepStatus × Interpreter W)
      → Interpreter W
      → StepStatus × Interpreter W
  unfolding times while_passed
  looped hd body s =
      if loop_method hd.method == "times"
      then times h.set_iter body (or_one (h.digits hd.args)) 0 s
      else if loop_method hd.method == "while"
      then while_passed (h.evaluate_condition hd) body max_iters s
      else (passed, s)

  -- With no actions of its own an IF that does not pass skips the rest of the goal.
  abbrev exec_action_if_block :
      Header C
      → Bool
      → (Interpreter W → StepStatus × Interpreter W)
      → (Interpreter W → StepStatus × Interpreter W)
      → Interpreter W
      → StepStatus × Interpreter W
  exec_action_if_block hd has_actions run_then run_else s =
      let e = h.evaluate_condition hd s.world in
      let s' = applied s e in
      let ok = is_passed e.status in
      if has_actions
      then (if ok then run_then s' else run_else s')
      else (passed, record s' { goal_skipped = s'.goal_skipped || not ok })

  abbrev exec_action_if_fail_block :
      Header C
      → (Interpreter W → StepStatus × Interpreter W)
      → Interpreter W
      → StepStatus × Interpreter W
  exec_action_if_fail_block hd run_then s =
      if h.has_failed hd.target s.world then run_then s else (passed, s)

  abbrev exec_action_loop_block :
      Header C
      → (Interpreter W → Option StepStatus × Interpreter W)
      → Interpreter W
      → StepStatus × Interpreter W
  exec_action_loop_block hd body s =
      let r = looped hd body (record s { world = h.open_scope s.world; loop_break = false }) in
      (r.0, in_world r.1 h.close_scope)

  unfoldable mutual
    -- `_execute_action`
    pub execute_action : Action C → Interpreter W → StepStatus × Interpreter W
    execute_action (action hd then_actions else_actions loop_actions) s =
        let has_actions = not (is_empty then_actions && is_empty else_actions) in
        let if_block =
          exec_action_if_block hd has_actions (execute_all then_actions) (execute_all else_actions)
            s in
        let if_fail_block = exec_action_if_fail_block hd (execute_all then_actions) s in
        let loop_block = exec_action_loop_block hd (execute_body loop_actions) s in
        if s.goal_skipped
        then (skipped, s)
        else if hd.kind == "if_block"
        then if_block
        else if hd.kind == "if_fail_block"
        then if_fail_block
        else if hd.kind == "loop_block"
        then loop_block
        else if hd.kind == "endloop"
        then (passed, record s { loop_break = true })
        else standard hd s

    -- the actions of a branch, up to the first that does not pass
    pub execute_all : Actions C → Interpreter W → StepStatus × Interpreter W
    execute_all empty s = (passed, s)
    execute_all (more act acts) s =
        let r = execute_action act s in
        let rest = execute_all acts r.1 in if goes_on r.0 then rest else r

    -- one turn of a loop
    pub execute_body : Actions C → Interpreter W → Option StepStatus × Interpreter W
    execute_body empty s = (none, s)
    execute_body (more act acts) s =
        let r = execute_action act s in
        let rest = execute_body acts r.1 in
        if r.1.loop_break
        then (some passed, record r.1 { loop_break = false })
        else if goes_on r.0
        then rest
        else (some r.0, r.1)
