-- ===== src/Cqrs/Store/Order.antt =====
-- `all_events` chains the streams, so it forgets how appends to different streams interleaved;
-- within a stream it keeps their order.
use oqlos.Base.{
  String, ◌≡◌, refl, sym, inl, inr, false, none, List, [], ◌∷◌, ◌++◌, arith, ◌==◌, eq_iff,
  if◌then◌else◌, Bool-cases, length, keep, keep-append,
}
use mathlib.Core.List.{append-nil}
use oqlos.Base.Int.{pos}
use oqlos.Base.Dict
use oqlos.Base.Dict.{Dict, get-set}
use oqlos.Cqrs.Event.{Event}
use oqlos.Cqrs.Store.{EventStore, replay, append, append_many, all_events, or_empty, chain}
use oqlos.Cqrs.Store.Log.{in_stream}

abbrev AllIn : {F : Type 0} → String → List (Event F) → Type 0
AllIn id [] = Unit {0}
AllIn id (event ∷ events) = (event.stream_id ≡ id) × AllIn id events

-- Each stream holds events of its own id, and no id has two streams.
abbrev IsFiled : {F : Type 0} → Dict (List (Event F)) → Type 0
IsFiled [] = Unit {0}
IsFiled ((j, events) ∷ d) = AllIn j events × (Dict.get d j ≡ none) × IsFiled d

fresh-set :
    {V : Type 0} (d : Dict V) (k j : String) (v : V)
    → Dict.get d j ≡ none
    → (j == k) ≡ false
    → Dict.get (Dict.set d k v) j ≡ none
fresh-set d k j v h e = ground (arith, get-set d k j v, eq_iff k j, eq_iff j k)

module _ {F : Type 0} where
  AllIn-snoc :
      (id : String) (events : List (Event F)) (event : Event F)
      → AllIn id events
      → event.stream_id ≡ id
      → AllIn id (events ++ event ∷ [])
  AllIn-snoc id [] event h e = (e, tt)
  AllIn-snoc id (x ∷ events) event h e = (h.0, AllIn-snoc id events event h.1 e)

  IsFiled-set :
      (d : Dict (List (Event F))) (event : Event F)
      → IsFiled d
      → IsFiled (Dict.set d event.stream_id (or_empty (Dict.get d event.stream_id) ++ event ∷ []))
  unfolding Dict.set Dict.get
  IsFiled-set [] event h = ((refl, tt), refl, tt)
  IsFiled-set ((j, events) ∷ d) event h = elim (Bool-cases (j == event.stream_id)) [
    | inl here ↦
        rw here (AllIn-snoc j events event h.0 (sym ((eq_iff j event.stream_id).0 here)), h.1, h.2)
    | inr other ↦ rw other (h.0, fresh-set d event.stream_id j _ h.1 other, IsFiled-set d event h.2)
  ]

  keep-AllIn :
      (id j : String) (events : List (Event F))
      → AllIn j events
      → keep (in_stream id) events ≡ (if j == id then events else [])
  keep-AllIn id j [] h = ground arith
  keep-AllIn id j (event ∷ events) h = ground (arith, h.0, keep-AllIn id j events h.1)

  keep-chain :
      (d : Dict (List (Event F))) (id : String)
      → IsFiled d
      → keep (in_stream id) (chain (Dict.values d)) ≡ or_empty (Dict.get d id)
  unfolding Dict.values Dict.get
  keep-chain [] id h = refl
  keep-chain ((j, events) ∷ d) id h =
      rw
        (
          keep-append (in_stream id) events (chain (Dict.values d)),
          keep-AllIn id j events h.0,
          keep-chain d id h.2,
        )
        (ground (arith, append-nil events, eq_iff j id, h.1))

module _ {F S : Type 0} where
  abbrev pub IsFiledStore : EventStore F S → Type 0
  IsFiledStore store = IsFiled store.streams

  pub append-IsFiledStore :
      (store : EventStore F S) (s : S) (event : Event F)
      → IsFiledStore store
      → IsFiledStore (append store s event).1
  unfolding append
  append-IsFiledStore store s event h =
      IsFiled-set store.streams
        (record event {
          version = pos (length (or_empty (Dict.get store.streams event.stream_id)));
        })
        h

  pub append_many-IsFiledStore :
      (store : EventStore F S) (s : S) (events : List (Event F))
      → IsFiledStore store
      → IsFiledStore (append_many store s events).1
  unfolding append_many
  append_many-IsFiledStore store s [] h = h
  append_many-IsFiledStore store s (event ∷ events) h =
      append_many-IsFiledStore (append store s event).1 (append store s event).2 events
        (append-IsFiledStore store s event h)

  -- In a store whose streams hold only their own events, the events of one id among all events are
  -- what `replay` returns for it, in the same order.
  pub keep-all_events :
      (store : EventStore F S) (id : String)
      → IsFiledStore store
      → keep (in_stream id) (all_events store) ≡ replay store id
  unfolding all_events replay
  keep-all_events store id h = keep-chain store.streams id h
