-- ===== src/Cqrs/Aggregate.antt =====
-- `Aggregate` of oqlos/core/cqrs/aggregate.py. A subclass gives `apply`: here the step that it
-- makes on its one field (`state`), which it computes from the id, the field and the event.
pub mod Replay
use oqlos.Base.{String, ◌≡◌, Bool, true, false, Option, none, some, is_some, run}
use oqlos.Base.Int.{ℤ, negsuc}
use oqlos.Cqrs.Event.{Event}
use oqlos.Cqrs.Store.{EventStore, replay}

pub record Aggregate (X : Type 0) : Type 0 where
  pub aggregate_id : String
  pub version : ℤ
  pub state : Option X

-- A subclass with the events that its projection handles. The laws are what the projection
-- relies on: other events change nothing, and a registered state is never dropped.
pub record Kind (F X : Type 0) : Type 0 where
  pub handles : Event F → Bool
  pub apply_state : String → Option X → Event F → Option X
  pub ignores :
      (id : String) (x : Option X) (event : Event F)
      → handles event ≡ false
      → apply_state id x event ≡ x
  pub stays :
      (id : String) (x : X) (event : Event F) → is_some (apply_state id (some x) event) ≡ true

unfoldable pub new : {X : Type 0} → String → Aggregate X
new aggregate_id = record { aggregate_id = aggregate_id; version = negsuc 0; state = none }

module _ {F X : Type 0} (k : Kind F X) where
  unfoldable pub apply : Aggregate X → Event F → Aggregate X
  apply a event = record a { state = k.apply_state a.aggregate_id a.state event }

  -- one round of the loop of `load`
  load_event : Aggregate X → Event F → Aggregate X
  unfolding apply
  load_event a event = record (apply a event) { version = event.version }

  pub load : {S : Type 0} → EventStore F S → Aggregate X → Aggregate X
  load store a = run load_event a (replay store a.aggregate_id)

  pub rehydrate : {S : Type 0} → String → EventStore F S → Aggregate X
  rehydrate aggregate_id store = load store (new aggregate_id)
