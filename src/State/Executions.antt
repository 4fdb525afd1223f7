-- ===== src/State/Executions.antt =====
-- What a command does to the execution that the state manager shows for an id.
use oqlos.Base.{
  String, ◌≡◌, refl, ap, ◌∙◌, inl, inr, Bool, true, false, Option, some, [], ◌∷◌, ◌==◌,
  if◌then◌else◌, Bool-cases,
}
use text.Mathlib.TextPositions.{eq_refl}
use mathlib.Core.Bool.{false≢true}
use oqlos.Models.{ExecutionStatus}
use oqlos.Cqrs.Event.{Event, Payload, execution_status_changed}
use oqlos.Cqrs.Store.{EventStore, append, append_many}
use oqlos.Cqrs.Projection.Sync.{shown, shown-project}
use oqlos.Cqrs.Execution
use oqlos.Cqrs.Peripheral
use oqlos.Cqrs.Command.{Command, set_execution_status, start_execution}
use oqlos.Cqrs.Bus.{events_of, dispatch-build_command_bus}
use oqlos.State.{StateManager, Projections, send, on_executions, on_peripherals}
use oqlos.State.ReadModels.{IsCurrent, IsManaged, notified}

module _ {F : Type 0} (zero_float : F) where
  shown-append :
      (store : EventStore F (Projections F)) (p : Projections F) (event : Event F) (id : String)
      → IsCurrent zero_float store p
      → shown (append store p event).2.executions id ≡ (
          if event.stream_id == id
          then Execution.apply zero_float id (shown p.executions id) event
          else shown p.executions id)
  shown-append store p event id c =
      let event' = (append store p event).0 in
      ap (λ q. shown q.executions id) (notified zero_float store p event c.subscribed)
      ∙ unfold on_executions on_peripherals Execution.project append Execution.apply in
        shown-project (Execution.kind zero_float) p.executions event' id c.executions.synced

  -- A command of one event shows what that event makes of the execution.
  pub shown-send :
      (m : StateManager F) (now : F) (command : Command F) (event : Event F) (id : String)
      → IsManaged zero_float m
      → events_of now command ≡ event ∷ []
      → shown (send m (now, command)).projections.executions id ≡ (
          if event.stream_id == id
          then Execution.apply zero_float id (shown m.projections.executions id) event
          else shown m.projections.executions id)
  unfolding send append_many
  shown-send m now command event id c e =
      rw (c.bus, dispatch-build_command_bus m.event_store m.projections now command, e)
        (shown-append m.event_store m.projections event id c.current)

-- The manager shows an execution with this id and this status.
abbrev pub HasStatus : {F : Type 0} → String → String → Option (ExecutionStatus F) → Type 0
HasStatus id status o =
    (x : ExecutionStatus _) × (o ≡ some x) × (x.execution_id ≡ id) × (x.status ≡ status)

-- The commands that change no status, and their payloads
abbrev pub keeps_status : {F : Type 0} → Command F → Bool
keeps_status (start_execution _) = false
keeps_status (set_execution_status _) = false
keeps_status _ = true

abbrev quiet : {F : Type 0} → Payload F → Bool
quiet (Payload.execution_started _) = false
quiet (execution_status_changed _) = false
quiet _ = true

module _ {F : Type 0} (zero_float : F) where
  quiet_event :
      (now : F) (command : Command F)
      → keeps_status command ≡ true
      → (event : Event F) × (events_of now command ≡ event ∷ []) × (quiet event.payload ≡ true)
  unfolding events_of Peripheral.handle_register_peripheral Peripheral.handle_set_peripheral_value
      Peripheral.handle_set_peripheral_mode Peripheral.handle_set_peripheral_status
      Execution.handle_start_goal Execution.handle_start_step Execution.handle_update_progress
  quiet_event now (start_execution _) h = absurd (false≢true h)
  quiet_event now (set_execution_status _) h = absurd (false≢true h)
  quiet_event now _ h = (_, refl, refl)

  apply-HasStatus :
      (id status : String) (x : ExecutionStatus F) (e : Payload F) (event : Event F)
      → event.payload ≡ e
      → quiet e ≡ true
      → x.execution_id ≡ id
      → x.status ≡ status
      → HasStatus id status (Execution.apply zero_float id (some x) event)
  unfolding Execution.apply
  apply-HasStatus id status x (Payload.execution_started _) event p q i h = absurd (false≢true q)
  apply-HasStatus id status x (execution_status_changed _) event p q i h = absurd (false≢true q)
  apply-HasStatus id status x _ event p q i h = rw p (_, refl, i, h)

  event-HasStatus :
      (id status : String) (shows : Option (ExecutionStatus F)) (event : Event F)
      → quiet event.payload ≡ true
      → HasStatus id status shows
      → HasStatus id status
          (if event.stream_id == id then Execution.apply zero_float id shows event else shows)
  event-HasStatus id status shows event q (x, e, i, h) = elim (Bool-cases (event.stream_id == id)) [
    | inl here ↦ rw (here, e) (apply-HasStatus id status x event.payload event refl q i h)
    | inr other ↦ rw other (x, e, i, h)
  ]

  -- A command that changes no status keeps the one shown.
  pub send-HasStatus :
      (m : StateManager F) (now : F) (command : Command F) (id status : String)
      → IsManaged zero_float m
      → keeps_status command ≡ true
      → HasStatus id status (shown m.projections.executions id)
      → HasStatus id status (shown (send m (now, command)).projections.executions id)
  send-HasStatus m now command id status c k h =
      let (event, e, q) = quiet_event now command k in
      rw (shown-send zero_float m now command event id c e)
        (event-HasStatus id status (shown m.projections.executions id) event q h)

  -- A started execution is shown as running.
  pub start-HasStatus :
      (m : StateManager F) (now : F) (id scenario_id : String)
      → IsManaged zero_float m
      → let command = start_execution (record { execution_id = id; scenario_id = scenario_id }) in
        HasStatus id "running" (shown (send m (now, command)).projections.executions id)
  unfolding Execution.apply events_of Execution.handle_start_execution
  start-HasStatus m now id scenario_id c =
      rw (shown-send zero_float m now _ _ id c refl, eq_refl id) (_, refl, refl, refl)

  -- A command that sets the status sets the one shown.
  pub set_status-HasStatus :
      (m : StateManager F) (now : F) (id before status : String)
      → IsManaged zero_float m
      → HasStatus id before (shown m.projections.executions id)
      → let command = set_execution_status (record { execution_id = id; status = status }) in
        HasStatus id status (shown (send m (now, command)).projections.executions id)
  unfolding Execution.apply events_of Execution.handle_set_execution_status
  set_status-HasStatus m now id before status c (x, e, i, h) =
      rw (shown-send zero_float m now _ _ id c refl, eq_refl id, e) (_, refl, i, refl)

  -- It leaves the executions of other ids as they are.
  pub set_other-HasStatus :
      (m : StateManager F) (now : F) (other id before status : String)
      → IsManaged zero_float m
      → (other == id) ≡ false
      → HasStatus id before (shown m.projections.executions id)
      → let command = set_execution_status (record { execution_id = other; status = status }) in
        HasStatus id before (shown (send m (now, command)).projections.executions id)
  unfolding events_of Execution.handle_set_execution_status
  set_other-HasStatus m now other id before status c ne h =
      rw (shown-send zero_float m now _ _ id c refl, ne) h
