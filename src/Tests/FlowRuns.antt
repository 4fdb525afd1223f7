-- ===== src/Tests/FlowRuns.antt =====
-- Runs of the interpreter's control flow, with a counter for the state of the handlers.
use oqlos.Base.{
  ℕ, suc, String, ◌≡◌, refl, true, false, none, some, [], ◌∷◌, map, ◌==◌, if◌then◌else◌,
}
use oqlos.Oql.Blocks.{Header, Action, Actions, action, empty, more, add}
use oqlos.Oql.Interpreter.{
  passed, skipped, error, Step, Effect, Handlers, Interpreter, execute_action, execute_body,
}
use oqlos.Oql.Interpreter.Scripts.{
  execute_step, execute_steps, fresh_result, script_ok, noted, execute_actions,
}
use oqlos.Oql.Interpreter.Flow.{
  loop_break-execute_action, IsEndless, execute_action-while, execute_steps-skipped,
  status-execute_step, as_skipped,
}

abbrev passes : Header Unit → ℕ → Effect ℕ
passes hd n = record { status = passed; world = suc n; errors = []; skips = false }

abbrev goes_to : Header Unit → ℕ → Effect ℕ
goes_to hd n = record { status = passed; world = n; errors = []; skips = true }

abbrev handlers : Handlers Unit ℕ
handlers = record {
  handler =
      λ kind. if kind == "log" then some passes else if kind == "goto" then some goes_to else none;
  evaluate_condition = passes;
  has_failed = λ target n. false;
  open_scope = λ n. n;
  set_iter = λ i n. n;
  close_scope = λ n. n;
  digits = λ text. if text == "3" then some 3 else none;
  reset_thresholds = λ n. n;
  evaluate_pending_thresholds =
      λ results n. (results, record { status = passed; world = n; errors = []; skips = false });
}

abbrev header : String → String → Header Unit
header kind args = record {
  kind = kind;
  target = "";
  method = if kind == "loop_block" then "while" else "";
  args = args;
  condition = none;
  raw = kind;
}

abbrev leaf : String → Action Unit
leaf kind = action (header kind "") empty empty empty

abbrev start : Interpreter ℕ
start = record { world = 0; goal_skipped = false; loop_break = false; results = []; errors = [] }

abbrev skipping : Interpreter ℕ
skipping = record start { goal_skipped = true }

-- an action of an unknown kind, and a GOTO
abbrev masked : Step Unit
masked = record {
  number = "1";
  name = "Check";
  actions = more (leaf "mystery") (more (leaf "goto") empty);
}

abbrev logged : Step Unit
logged = record { number = "2"; name = "Log"; actions = more (leaf "log") empty }

status-execute_step_example :
    (execute_step handlers
      (record masked { actions = add masked.actions (leaf "log") })
      start).0.status
    ≡ skipped
unfolding execute_step execute_actions execute_action noted
status-execute_step_example = status-execute_step handlers masked (leaf "log") start refl

-- The step without that last action is an error.
masked_alone : (execute_step handlers masked start).0.status ≡ error
unfolding execute_step execute_actions execute_action noted
masked_alone = refl

-- The script of both is reported as a success.
masked_script :
    script_ok (
      execute_steps handlers
        (record masked { actions = add masked.actions (leaf "log") } ∷ [])
        start)
    ≡ true
unfolding script_ok execute_steps execute_step execute_actions execute_action noted
masked_script = refl

execute_steps-skipped_example : execute_steps handlers (logged ∷ []) skipping ≡ record skipping {
  results = map (λ (step : Step Unit). as_skipped step.actions (fresh_result step)) (logged ∷ []);
}
execute_steps-skipped_example = execute_steps-skipped handlers (logged ∷ []) skipping refl

loop_break-execute_action_example :
    (execute_action handlers
      (action (header "loop_block" "") empty empty (more (leaf "endloop") empty))
      start).1.loop_break
    ≡ false
loop_break-execute_action_example =
    loop_break-execute_action handlers (header "loop_block" "") empty empty
      (more (leaf "endloop") empty) start refl refl

-- a body of one action that counts
abbrev counting : Actions Unit
counting = more (leaf "log") empty

abbrev IsOn : Interpreter ℕ → Type 0
IsOn t = (t.goal_skipped ≡ false) × (t.loop_break ≡ false)

counting-IsEndless :
    IsEndless IsOn
      (handlers.evaluate_condition (header "loop_block" ""))
      (execute_body handlers counting)
unfolding execute_body execute_action
counting-IsEndless = record {
  passes = λ t on. refl;
  goes = λ t on. rw (on.0, on.1) refl;
  stays = λ t on. rw (on.0, on.1) (refl, refl);
}

execute_action-while_example :
    (execute_action handlers (action (header "loop_block" "") empty empty counting) start).0 ≡ error
execute_action-while_example =
    execute_action-while handlers IsOn (header "loop_block" "") empty empty counting start refl refl
      refl counting-IsEndless (refl, refl)
