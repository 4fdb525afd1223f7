-- ===== src/Cqrs/Projection.antt =====
-- `Projection` of oqlos/core/cqrs/projection.py, and the read model that the projections of
-- peripheral.py and execution.py both keep: the items shown, and one aggregate for each stream.
pub mod Sync
pub mod Follow
use oqlos.Base.{String, Option, none, some, [], if◌then◌else◌, run}
use oqlos.Base.Dict
use oqlos.Base.Dict.{Dict}
use oqlos.Cqrs.Event.{Event}
use oqlos.Cqrs.Store.{EventStore, all_events, subscribe}
use oqlos.Cqrs.Aggregate.{Aggregate, Kind, new, apply}

-- `T` is the state of the projection, and `handler` its `apply`.
unfoldable pub rebuild : {F S T : Type 0} → (T → Event F → T) → T → EventStore F S → T
rebuild handler t store = run handler t (all_events store)

-- `S` is the state of every attached projection.
unfoldable pub attach : {F S : Type 0} → (S → Event F → S) → EventStore F S × S → EventStore F S × S
unfolding rebuild
attach handler (store, s) = (subscribe store handler, rebuild handler s store)

pub record ReadModel (X : Type 0) : Type 0 where
  pub items : Dict X
  pub aggregates : Dict (Aggregate X)

unfoldable pub empty : {X : Type 0} → ReadModel X
empty = record { items = []; aggregates = [] }

-- `self._aggregates.setdefault(event.stream_id, …)`
abbrev or_new : {X : Type 0} → String → Option (Aggregate X) → Aggregate X
or_new id none = new id
or_new id (some a) = a

-- `if aggregate.state is not None: self.items[event.stream_id] = aggregate.state`
abbrev show_item : {X : Type 0} → String → Option X → Dict X → Dict X
show_item id none items = items
show_item id (some x) items = Dict.set items id x

module _ {F X : Type 0} (k : Kind F X) where
  unfoldable pub project : ReadModel X → Event F → ReadModel X
  unfolding apply new
  project m event =
      let a = apply k (or_new event.stream_id (Dict.get m.aggregates event.stream_id)) event in
      let changed : ReadModel X = record {
        items = show_item event.stream_id a.state m.items;
        aggregates = Dict.set m.aggregates event.stream_id a;
      } in
      if k.handles event then changed else m
