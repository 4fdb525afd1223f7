-- ===== src/State/ReadModels.antt =====
-- The read models of the state manager show what a replay of the event store gives.
use oqlos.Base.{String, ◌≡◌, refl, List, [], ◌∷◌, run}
use oqlos.Base.Dict
use oqlos.Cqrs.Event.{Event}
use oqlos.Cqrs.Store
use oqlos.Cqrs.Store.{EventStore, append, append_many, replay}
use oqlos.Cqrs.Store.Order.{IsFiledStore, append-IsFiledStore}
use oqlos.Cqrs.Aggregate.{rehydrate}
use oqlos.Cqrs.Projection.{empty, rebuild}
use oqlos.Cqrs.Projection.Sync.{empty-IsSynced, shown}
use oqlos.Cqrs.Projection.Follow.{Follows, append-Follows, shown-rehydrate, shown-rebuild}
use oqlos.Cqrs.Peripheral
use oqlos.Cqrs.Execution
use oqlos.Cqrs.Command.{Command}
use oqlos.Cqrs.Bus.{build_command_bus, events_of, dispatch-build_command_bus}
use oqlos.State.{StateManager, Projections, on_peripherals, on_executions, send, bare}

-- A store with its two subscribers, and projections that follow it.
pub record IsCurrent {F : Type 0} (zero_float : F) (store : EventStore F (Projections F))
    (p : Projections F) : Type 0 where
  pub subscribed : store.subscribers ≡ on_peripherals ∷ on_executions zero_float ∷ []
  pub filed : IsFiledStore store
  pub peripherals : Follows Peripheral.kind p.peripherals store
  pub executions : Follows (Execution.kind zero_float) p.executions store

module _ {F : Type 0} (zero_float : F) where
  pub notified :
      (store : EventStore F (Projections F)) (p : Projections F) (event : Event F)
      → store.subscribers ≡ on_peripherals ∷ on_executions zero_float ∷ []
      → (append store p event).2
        ≡ on_executions zero_float
            (on_peripherals p (append store p event).0)
            (append store p event).0
  unfolding append
  notified store p event e = rw e refl

  pub append-IsCurrent :
      (store : EventStore F (Projections F)) (p : Projections F) (event : Event F)
      → IsCurrent zero_float store p
      → IsCurrent zero_float (append store p event).1 (append store p event).2
  append-IsCurrent store p event c = rw (notified store p event c.subscribed) (record {
    subscribed = unfold append in c.subscribed;
    filed = append-IsFiledStore store p event c.filed;
    peripherals =
        unfold on_executions on_peripherals Peripheral.project in
        append-Follows Peripheral.kind p.peripherals store p event c.peripherals;
    executions =
        unfold on_executions on_peripherals Execution.project in
        append-Follows (Execution.kind zero_float) p.executions store p event c.executions;
  })

  append_many-IsCurrent :
      (store : EventStore F (Projections F)) (p : Projections F) (events : List (Event F))
      → IsCurrent zero_float store p
      → IsCurrent zero_float (append_many store p events).1 (append_many store p events).2
  unfolding append_many
  append_many-IsCurrent store p [] c = c
  append_many-IsCurrent store p (event ∷ events) c =
      append_many-IsCurrent (append store p event).1 (append store p event).2 events
        (append-IsCurrent store p event c)

-- A manager whose bus has every handler, and whose projections follow its store.
pub record IsManaged {F : Type 0} (zero_float : F) (m : StateManager F) : Type 0 where
  pub bus : m.command_bus ≡ build_command_bus
  pub current : IsCurrent zero_float m.event_store m.projections

module _ {F : Type 0} (zero_float : F) where
  pub send-IsManaged :
      (m : StateManager F) (now : F) (command : Command F)
      → IsManaged zero_float m
      → IsManaged zero_float (send m (now, command))
  unfolding send
  send-IsManaged m now command c =
      rw (c.bus, dispatch-build_command_bus m.event_store m.projections now command)
        (record {
          bus = refl;
          current =
              append_many-IsCurrent zero_float m.event_store m.projections (events_of now command)
                c.current;
        })

  pub sends-IsManaged :
      (m : StateManager F) (commands : List (F × Command F))
      → IsManaged zero_float m
      → IsManaged zero_float (run send m commands)
  sends-IsManaged m [] c = c
  sends-IsManaged m ((now, command) ∷ commands) c =
      sends-IsManaged (send m (now, command)) commands (send-IsManaged m now command c)

  pub bare-IsManaged : IsManaged zero_float (bare zero_float)
  unfolding bare Store.all_events Store.replay Dict.values Dict.get
  bare-IsManaged = record {
    bus = refl;
    current = record {
      subscribed = refl;
      filed = tt;
      peripherals = record { synced = empty-IsSynced; shows = λ id. refl };
      executions = record { synced = empty-IsSynced; shows = λ id. refl };
    };
  }

  -- Whatever commands are sent to a manager that has just been made, what it shows as the
  -- peripheral, and as the execution, of an id is the state of the aggregate that a replay of
  -- that id's stream gives.
  pub shown-rehydrate-run :
      (commands : List (F × Command F)) (id : String)
      → let m = run send (bare zero_float) commands in
        (shown m.projections.peripherals id ≡ (rehydrate Peripheral.kind id m.event_store).state)
        × (shown m.projections.executions id
            ≡ (rehydrate (Execution.kind zero_float) id m.event_store).state)
  shown-rehydrate-run commands id =
      let m = run send (bare zero_float) commands in
      let c = (sends-IsManaged (bare zero_float) commands bare-IsManaged).current in
      (
        shown-rehydrate Peripheral.kind m.projections.peripherals m.event_store id c.peripherals,
        shown-rehydrate (Execution.kind zero_float) m.projections.executions m.event_store id
            c.executions,
      )

  -- Projections rebuilt from scratch out of all stored events, which come grouped by stream, show
  -- the same items as those that followed the events one by one.
  pub shown-rebuild-run :
      (commands : List (F × Command F)) (id : String)
      → let m = run send (bare zero_float) commands in
        (shown (rebuild Peripheral.project empty m.event_store) id
          ≡ shown m.projections.peripherals id)
        × (shown (rebuild (Execution.project zero_float) empty m.event_store) id
            ≡ shown m.projections.executions id)
  unfolding Peripheral.project Execution.project
  shown-rebuild-run commands id =
      let m = run send (bare zero_float) commands in
      let c = (sends-IsManaged (bare zero_float) commands bare-IsManaged).current in
      (
        shown-rebuild Peripheral.kind m.projections.peripherals m.event_store id c.peripherals
            c.filed,
        shown-rebuild (Execution.kind zero_float) m.projections.executions m.event_store id
            c.executions c.filed,
      )
