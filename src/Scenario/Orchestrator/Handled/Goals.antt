-- ===== src/Scenario/Orchestrator/Handled/Goals.antt =====
-- What the goals of a scenario keep: the execution is shown as running, paused or stopped.
use oqlos.Base.{
  ℕ, zero, suc, ◌+◌, String, ◌≡◌, refl, sym, inl, inr, Bool, true, Option, none, some, List, [],
  ◌∷◌, ◌==◌, eq_iff, Bool-cases, one_of,
}
use mathlib.Core.Path.{subst}
use oqlos.State
use oqlos.Cqrs.Command.{set_execution_status}
use mathlib.Core.Option.{none-ne-some}
use oqlos.Base.Int.{ℤ}
use oqlos.Models.{ExecutionStatus, Step, Goal}
use oqlos.Cqrs.Projection.Sync.{shown}
use oqlos.State.{StateManager}
use oqlos.State.Broadcast.{broadcast_event}
use oqlos.State.ReadModels.{IsManaged, send-IsManaged}
use oqlos.State.Executions.{HasStatus, send-HasStatus, set_status-HasStatus, set_other-HasStatus}
use oqlos.Scenario.Orchestrator.{
  Control, pause, resume, stop, status_of, execution_update, Setup, Orchestrator, Error, key_error,
  or_raise,
}
use oqlos.Scenario.Orchestrator.Keeps.{
  Ends, Keeps, Keeps-pure, Keeps-gets, Keeps-if, Keeps-bind, Keeps-then,
}
use oqlos.Scenario.Orchestrator.Runs.{
  run_goal, perform, wait_out, take_index, execution, tell_update, run_step, execute_goal_steps,
  tell_validation, execute_goals,
}
use oqlos.Scenario.Orchestrator.Handled.{
  Allows, IsKept, On, Keeps-send, Keeps-output, Keeps-broadcast, Keeps-log_event, Keeps-is_running,
}
use oqlos.Scenario.Orchestrator.Handled.Steps.{IsDivisor}
use oqlos.Scenario.Orchestrator.Handled.Checks.{Keeps-execute_step, Keeps-validate_rules}

-- A manager that shows the execution with this status.
abbrev pub Shows : {F : Type 0} → F → String → String → StateManager F → Type 0
Shows zero_float id status m =
    IsManaged zero_float m × HasStatus id status (shown m.projections.executions id)

-- The statuses of an execution that goes on: it runs, or others have paused or stopped it.
abbrev pub live_statuses : List String
live_statuses = "running" ∷ "paused" ∷ "stopped" ∷ []

abbrev pub IsLive : {F : Type 0} → F → String → StateManager F → Type 0
IsLive zero_float id m =
    (status : String) × (one_of status live_statuses ≡ true) × Shows zero_float id status m

live_status : (control : Control) → one_of (status_of control) live_statuses ≡ true
live_status pause = refl
live_status resume = refl
live_status stop = refl

requests-IsLive :
    {F : Type 0} (zero_float : F) (id : String) (m : StateManager F) (now : F) (other : String)
    (control : Control)
    → IsLive zero_float id m
    → IsLive zero_float id (
        State.send m
          (now, set_execution_status (record { execution_id = other; status = status_of control })))
requests-IsLive zero_float id m now other control (status, l, (c, h)) =
    let command =
      set_execution_status (record { execution_id = other; status = status_of control }) in
    let c' = send-IsManaged zero_float m now command c in
    elim (Bool-cases (other == id)) [
      | inl same ↦ (
        status_of control,
        live_status control,
        (
          c',
          subst
              (λ j. HasStatus id (status_of control) (
                shown
                  (State.send m (
                    now,
                    set_execution_status (record { execution_id = j; status = status_of control }),
                  )).projections.executions
                  id))
              (sym ((eq_iff other id).0 same))
              (set_status-HasStatus zero_float m now id status (status_of control) c h),
        ),
      )
      | inr ne ↦ (
        status,
        l,
        (c', set_other-HasStatus zero_float m now other id status (status_of control) c ne h),
      )
    ]

pub IsLive-IsKept :
    {F : Type 0} (zero_float : F) (id : String) → IsKept zero_float (IsLive zero_float id)
unfolding broadcast_event
IsLive-IsKept zero_float id = record {
  managed = λ h. h.2.0;
  sends = λ m now command q h. (
    h.0,
    h.1,
    (
      send-IsManaged zero_float m now command h.2.0,
      send-HasStatus zero_float m now command id h.0 h.2.0 q h.2.1,
    ),
  );
  broadcasts =
      λ m sends h. (h.0, h.1, (record { bus = h.2.0.bus; current = h.2.0.current }, h.2.1));
  requests = requests-IsLive zero_float id;
}

module _ {F V : Type 0} (rt : Setup F V) (zero_float : F) (E : Error → Type 0)
    (allowed : Allows rt E) (id mode : String) (speed : F) (divides : IsDivisor rt E speed)
    (total : ℕ) where
  abbrev P : StateManager F → Type 0
  P = IsLive zero_float id

  k : IsKept zero_float P
  k = IsLive-IsKept zero_float id

  execution-Ends :
      (o : Orchestrator F) (status : String) (x : Option (ExecutionStatus F))
      → HasStatus id status x
      → On P o
      → Ends E (On P) (or_raise {F = F} x key_error o)
  execution-Ends o status none h running = absurd (none-ne-some _ h.1)
  execution-Ends o status (some x) h running = running

  Keeps-execution : Keeps E (On P) (execution rt id mode speed total)
  unfolding execution
  Keeps-execution = record {
    at = λ o h. execution-Ends o h.0 (shown o.manager.projections.executions id) h.2.1 h;
  }

  Keeps-wait_out : (polls : ℕ) → Keeps E (On P) (wait_out rt id mode speed total polls)
  unfolding wait_out
  Keeps-wait_out zero = Keeps-pure tt
  Keeps-wait_out (suc polls) =
      Keeps-then _ _ (Keeps-output rt zero_float E k _) (Keeps-wait_out polls)

  Keeps-take_index : Keeps E (On P) (take_index rt id mode speed total)
  unfolding take_index
  Keeps-take_index = record { at = λ o h. h }

  Keeps-tell_update : Keeps E (On P) (tell_update rt id mode speed total)
  unfolding tell_update
  Keeps-tell_update = Keeps-bind _ _ Keeps-execution λ x.
      Keeps-bind {A = ℤ} _ _ (Keeps-gets λ o. o.current_index) λ index.
        Keeps-broadcast rt zero_float E k allowed
          (execution_update (record { execution_id = id; current_index = index; execution = x }))

  Keeps-perform :
      (step : Step F) (completed : ℕ)
      → Keeps E (On P) (perform rt id mode speed total step completed)
  unfolding perform
  Keeps-perform step completed = Keeps-then _ _ (Keeps-send rt zero_float E k _ refl) (
      Keeps-then _ _ Keeps-take_index (
        Keeps-then _ _ (Keeps-log_event rt zero_float E k allowed _ _) (
          Keeps-then _ _ (Keeps-execute_step rt zero_float E allowed P k speed divides step mode)
            (Keeps-then _ _ (Keeps-send rt zero_float E k _ refl) Keeps-tell_update))))

  Keeps-run_step :
      (step : Step F) (completed : ℕ)
      → Keeps E (On P) (run_step rt id mode speed total step completed)
  unfolding run_step
  Keeps-run_step step completed =
      Keeps-bind {A = ℕ} _ _ (Keeps-gets λ o. rt.polls o.step_counter)
        λ polls. Keeps-then _ _ (Keeps-wait_out polls) (Keeps-perform step completed)

  Keeps-execute_goal_steps :
      (steps : List (Step F)) (completed : ℕ)
      → Keeps E (On P) (execute_goal_steps rt id mode speed total steps completed)
  unfolding execute_goal_steps
  Keeps-execute_goal_steps [] completed = Keeps-pure completed
  Keeps-execute_goal_steps (step ∷ steps) completed =
      Keeps-bind _ _ (Keeps-is_running rt zero_float E k) λ running.
        Keeps-if running _ _
          (Keeps-then _ _ (Keeps-run_step step completed)
            (Keeps-execute_goal_steps steps (completed + 1)))
          (Keeps-pure completed)

  Keeps-tell_validation :
      (passed : Bool) → Keeps E (On P) (tell_validation rt id mode speed total passed)
  unfolding tell_validation
  Keeps-tell_validation passed =
      Keeps-if passed _ _ (Keeps-log_event rt zero_float E k allowed _ _)
        (Keeps-log_event rt zero_float E k allowed _ _)

  Keeps-run_goal :
      (goal : Goal F) (completed : ℕ)
      → Keeps E (On P) (run_goal rt id mode speed total goal completed)
  unfolding run_goal
  Keeps-run_goal goal completed = Keeps-then _ _ (Keeps-send rt zero_float E k _ refl) (
      Keeps-then _ _ (Keeps-log_event rt zero_float E k allowed _ _) (
        Keeps-bind _ _ (Keeps-execute_goal_steps goal.steps completed) λ completed'.
          Keeps-bind _ _ (Keeps-validate_rules rt zero_float E allowed P k goal.validation_criteria)
            λ passed. Keeps-then _ _ (Keeps-tell_validation passed) (Keeps-pure completed')))

  pub Keeps-execute_goals :
      (goals : List (Goal F)) (completed : ℕ)
      → Keeps E (On P) (execute_goals rt id mode speed total goals completed)
  unfolding execute_goals
  Keeps-execute_goals [] completed = Keeps-pure tt
  Keeps-execute_goals (goal ∷ goals) completed =
      Keeps-bind _ _ (Keeps-is_running rt zero_float E k) λ running.
        Keeps-if running _ _
          (Keeps-bind _ _ (Keeps-run_goal goal completed) (Keeps-execute_goals goals))
          (Keeps-pure tt)
