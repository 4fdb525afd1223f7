-- ===== src/Cqrs/Store.antt =====
-- `EventStore` of oqlos/core/cqrs/events.py. A subscriber is a function on the state `S` that the
-- subscribed projections keep, so a method that notifies takes that state and returns it.
pub mod Log
pub mod Order
use oqlos.Base.{String, Option, none, some, List, [], ◌∷◌, ◌++◌, length}
use oqlos.Base.Int.{pos}
use oqlos.Base.Dict
use oqlos.Base.Dict.{Dict}
use oqlos.Cqrs.Event.{Event}

pub record EventStore (F S : Type 0) : Type 0 where
  pub streams : Dict (List (Event F))
  pub subscribers : List (S → Event F → S)

-- `self._streams.get(stream_id, ())`, and the stream that `setdefault` returns
abbrev or_empty : {A : Type 0} → Option (List A) → List A
or_empty none = []
or_empty (some xs) = xs

abbrev chain : {A : Type 0} → List (List A) → List A
chain [] = []
chain (xs ∷ xss) = xs ++ chain xss

module _ {F S : Type 0} where
  unfoldable pub init : EventStore F S
  init = record { streams = []; subscribers = [] }

  unfoldable pub replay : EventStore F S → String → List (Event F)
  replay store stream_id = or_empty (Dict.get store.streams stream_id)

  notify : List (S → Event F → S) → Event F → S → S
  notify [] event s = s
  notify (subscriber ∷ rest) event s = notify rest event (subscriber s event)

  unfoldable pub append : EventStore F S → S → Event F → Event F × EventStore F S × S
  unfolding notify
  append store s event =
      let stream = or_empty (Dict.get store.streams event.stream_id) in
      let versioned = record event { version = pos (length stream) } in
      let streams = Dict.set store.streams event.stream_id (stream ++ versioned ∷ []) in
      (versioned, record store { streams = streams }, notify store.subscribers versioned s)

  unfoldable pub append_many :
      EventStore F S → S → List (Event F) → List (Event F) × EventStore F S × S
  append_many store s [] = ([], store, s)
  append_many store s (event ∷ events) =
      let (versioned, store', s') = append store s event in
      let (rest, store'', s'') = append_many store' s' events in (versioned ∷ rest, store'', s'')

  unfoldable pub all_events : EventStore F S → List (Event F)
  all_events store = chain (Dict.values store.streams)

  unfoldable pub stream_ids : EventStore F S → List String
  stream_ids store = Dict.keys store.streams

  unfoldable pub subscribe : EventStore F S → (S → Event F → S) → EventStore F S
  subscribe store subscriber = record store { subscribers = store.subscribers ++ subscriber ∷ [] }
