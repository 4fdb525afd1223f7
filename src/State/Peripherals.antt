-- ===== src/State/Peripherals.antt =====
-- A peripheral that the state manager shows stays shown.
use oqlos.Base.{
  String, ◌≡◌, refl, ap, ◌∙◌, Bool, true, false, Option, none, some, List, [], ◌∷◌, ◌==◌,
  if◌then◌else◌, is_some,
}
use mathlib.Core.Bool.{false≢true}
use oqlos.Models.{Peripheral}
use oqlos.Cqrs.Event.{Event}
use oqlos.Cqrs.Store.{EventStore, append, append_many}
use oqlos.Cqrs.Projection.Sync.{shown, shown-project}
use oqlos.Cqrs.Peripheral
use oqlos.Cqrs.Command.{Command}
use oqlos.Cqrs.Bus.{events_of, dispatch-build_command_bus}
use oqlos.State.{StateManager, Projections, send, on_executions, on_peripherals}
use oqlos.State.ReadModels.{IsCurrent, IsManaged, notified, append-IsCurrent}

abbrev pub IsShown : {X : Type 0} → Option X → Type 0
IsShown o = is_some o ≡ true

module _ {F : Type 0} (zero_float : F) where
  apply-IsShown :
      (id : String) (x : Option (Peripheral F)) (event : Event F) (here : Bool)
      → IsShown x
      → IsShown (if here then Peripheral.apply id x event else x)
  apply-IsShown id none event here h = absurd (false≢true h)
  apply-IsShown id (some p) event true h = Peripheral.apply_stays id p event
  apply-IsShown id (some p) event false h = refl

  append-IsShown :
      (store : EventStore F (Projections F)) (p : Projections F) (event : Event F) (id : String)
      → IsCurrent zero_float store p
      → IsShown (shown p.peripherals id)
      → IsShown (shown (append store p event).2.peripherals id)
  append-IsShown store p event id c h =
      let event' = (append store p event).0 in
      let e : shown (append store p event).2.peripherals id ≡ (
          if event'.stream_id == id
          then Peripheral.apply id (shown p.peripherals id) event'
          else shown p.peripherals id) =
        ap (λ q. shown q.peripherals id) (notified zero_float store p event c.subscribed)
        ∙ unfold on_executions on_peripherals Peripheral.project in
          shown-project Peripheral.kind p.peripherals event' id c.peripherals.synced in
      rw e (apply-IsShown id (shown p.peripherals id) event' (event'.stream_id == id) h)

  append_many-IsShown :
      (store : EventStore F (Projections F)) (p : Projections F) (events : List (Event F))
      (id : String)
      → IsCurrent zero_float store p
      → IsShown (shown p.peripherals id)
      → IsShown (shown (append_many store p events).2.peripherals id)
  unfolding append_many
  append_many-IsShown store p [] id c h = h
  append_many-IsShown store p (event ∷ events) id c h =
      append_many-IsShown (append store p event).1 (append store p event).2 events id
        (append-IsCurrent zero_float store p event c) (append-IsShown store p event id c h)

  pub send-IsShown :
      (m : StateManager F) (now : F) (command : Command F) (id : String)
      → IsManaged zero_float m
      → IsShown (shown m.projections.peripherals id)
      → IsShown (shown (send m (now, command)).projections.peripherals id)
  unfolding send
  send-IsShown m now command id c h =
      rw (c.bus, dispatch-build_command_bus m.event_store m.projections now command)
        (append_many-IsShown m.event_store m.projections (events_of now command) id c.current h)
