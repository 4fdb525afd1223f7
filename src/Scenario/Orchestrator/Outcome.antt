-- ===== src/Scenario/Orchestrator/Outcome.antt =====
-- How a run of a scenario ends.
use oqlos.Base.{String, ◌≡◌, refl, false, some, List, length}
use oqlos.Base.Dict
use oqlos.Models.{Scenario}
use oqlos.Cqrs.Command.{start_execution, set_execution_status}
use oqlos.State.ReadModels.{IsManaged, send-IsManaged}
use oqlos.State.Executions.{start-HasStatus, set_status-HasStatus}
use oqlos.Scenario.Orchestrator.{
  hardware_error, arithmetic_error, connection_gone, after, Setup, Orchestrator, Run, Error, Result,
  ok, err, pure, ◌>>◌, send,
}
use oqlos.Scenario.Orchestrator.Keeps.{Ends}
use oqlos.Scenario.Orchestrator.Runs.{
  begin, build_step_plan, finish, run_scenario, execute_scenario, chosen, steps_of,
}
use oqlos.Scenario.Orchestrator.Handled.{Allows, On, send_lem}
use oqlos.Scenario.Orchestrator.Handled.Steps.{IsDivisor}
use oqlos.Scenario.Orchestrator.Handled.Goals.{Shows, IsLive, Keeps-execute_goals}

-- What a run of a scenario gives: it returns the id, with the execution shown as completed and the
-- orchestrator at rest; or it raises one of the errors `E`, and the execution stays shown as
-- running, paused or stopped.
abbrev pub IsOutcome :
    {F : Type 0} → F → (Error → Type 0) → String → Result String × Orchestrator F → Type 0
IsOutcome zero_float E id (ok returned, o) =
    (returned ≡ id) × (o.running ≡ false) × Shows zero_float id "completed" o.manager
IsOutcome zero_float E id (err e, o) = E e × IsLive zero_float id o.manager

module _ {F V : Type 0} (rt : Setup F V) (zero_float : F) (E : Error → Type 0)
    (allowed : Allows rt E) (id mode : String) (speed : F) (divides : IsDivisor rt E speed) where
  abbrev closing : Run F String
  closing =
      send rt (set_execution_status (record { execution_id = id; status = "completed" }))
      >> (finish rt >> pure id)

  closing-IsOutcome :
      (o : Orchestrator F) → IsLive zero_float id o.manager → IsOutcome zero_float E id (closing o)
  unfolding finish
  closing-IsOutcome o (status, _, (c, h)) =
      let command = set_execution_status (record { execution_id = id; status = "completed" }) in
      rw (send_lem rt zero_float o command c) (
        refl,
        refl,
        (
          send-IsManaged zero_float o.manager (rt.clock o.ticks) command c,
          set_status-HasStatus zero_float o.manager (rt.clock o.ticks) id status "completed" c h,
        ),
      )

  after-IsOutcome :
      (r : Result (Unit {0}) × Orchestrator F)
      → Ends E (On (IsLive zero_float id)) r
      → IsOutcome zero_float E id (after r (λ _. closing))
  after-IsOutcome (ok _, o) h = closing-IsOutcome o h
  after-IsOutcome (err e, o) h = h

  run-IsOutcome :
      (scenario_id : String) (scenario : Scenario F) (goals : List String) (o : Orchestrator F)
      → IsManaged zero_float o.manager
      → IsOutcome zero_float E id (run_scenario rt id scenario_id scenario goals mode speed o)
  unfolding run_scenario begin build_step_plan
  run-IsOutcome scenario_id scenario goals o c =
      let command = start_execution (record { execution_id = id; scenario_id = scenario_id }) in
      let to_run = chosen rt goals scenario.goals in
      rw (send_lem rt zero_float o command c) (
        after-IsOutcome _ (
          (Keeps-execute_goals rt zero_float E allowed id mode speed divides
              (length (steps_of rt to_run)) to_run 0).at
            _
            (
              "running",
              refl,
              (
                send-IsManaged zero_float o.manager (rt.clock o.ticks) command c,
                start-HasStatus zero_float o.manager (rt.clock o.ticks) id scenario_id c,
              ),
            )))

-- The errors that the orchestrator does not make itself
abbrev pub IsForeign : Error → Type 0
IsForeign (hardware_error _) = Unit {0}
IsForeign arithmetic_error = Unit {0}
IsForeign connection_gone = Unit {0}
IsForeign _ = ⊥

module _ {F V : Type 0} (rt : Setup F V) (zero_float : F) (id mode scenario_id : String) (speed : F)
    (goals : List String) (o : Orchestrator F) (scenario : Scenario F)
    (found : Dict.get o.manager.scenarios scenario_id ≡ some scenario) where
  found-IsOutcome :
      (E : Error → Type 0)
      → Allows rt E
      → IsDivisor rt E speed
      → IsManaged zero_float o.manager
      → IsOutcome zero_float E id (execute_scenario rt id scenario_id goals mode speed o)
  unfolding execute_scenario
  found-IsOutcome E allowed divides c =
      rw found
        (run-IsOutcome rt zero_float E allowed id mode speed divides scenario_id scenario goals o c)

  -- A run of a scenario that there is ends in one of two ways, whatever the scenario, the hardware,
  -- the clients and those who pause, resume or stop it do: it returns its id, with `running` cleared
  -- and the execution shown as completed; or it raises an error of the hardware, of Python's
  -- arithmetic or of a connection that was taken out during a broadcast, never one of its own lookups
  -- or of the bus, and the execution stays shown as running, paused or stopped. The manager's bus has
  -- every handler and its projections follow its store, before and after.
  pub execute_scenario-IsOutcome :
      IsManaged zero_float o.manager
      → IsOutcome zero_float IsForeign id (execute_scenario rt id scenario_id goals mode speed o)
  execute_scenario-IsOutcome c =
      found-IsOutcome IsForeign
        (record {
          connection = tt;
          hardware = λ outs call message e. tt;
          binary = λ x y. (λ e. tt, λ e. tt, λ e. tt, λ e. tt);
          unary = λ x. (λ e. tt, λ e. tt, λ e. tt, λ e. tt, λ e. tt);
        })
        (λ e. tt) c
