-- ===== src/Cqrs/Aggregate/Replay.antt =====
-- A rehydrated aggregate is the fold of its stream, at the version of the stream's last event.
use oqlos.Base.{
  ℕ, suc, ◌+◌, String, ◌≡◌, refl, ap, ◌∙◌, none, List, [], ◌∷◌, arith, length, keep, run,
}
use oqlos.Base.Int.{ℤ, pos, last_index}
use oqlos.Base.Dict
use oqlos.Cqrs.Event.{Event}
use oqlos.Cqrs.Store.{EventStore, init, replay, append_many}
use oqlos.Cqrs.Store.Log.{in_stream, number_from, replay-append_many}
use oqlos.Cqrs.Aggregate.{Aggregate, Kind, new, load_event, load, rehydrate}

module _ {F X : Type 0} (k : Kind F X) where
  loaded_state :
      (a : Aggregate X) (events : List (Event F))
      → (run (load_event k) a events).state ≡ run (k.apply_state a.aggregate_id) a.state events
  unfolding load_event
  loaded_state a [] = refl
  loaded_state a (event ∷ events) = loaded_state (load_event k a event) events

  pub rehydrate-state :
      {S : Type 0} (id : String) (store : EventStore F S)
      → (rehydrate k id store).state ≡ run (k.apply_state id) none (replay store id)
  unfolding rehydrate load new
  rehydrate-state id store = loaded_state (new id) (replay store id)

-- the version that a load leaves after the events numbered from n on
abbrev version_after : {F : Type 0} → ℤ → ℕ → List (Event F) → ℤ
version_after v n [] = v
version_after v n (event ∷ events) = version_after (pos n) (suc n) events

version_after-eq :
    {F : Type 0} (n : ℕ) (events : List (Event F))
    → version_after (last_index n) n events ≡ last_index (n + length events)
version_after-eq n [] = ap last_index (omega arith)
version_after-eq n (event ∷ events) = version_after-eq (suc n) events ∙ ap last_index (omega arith)

module _ {F X : Type 0} (k : Kind F X) where
  loaded_version :
      (a : Aggregate X) (n : ℕ) (events : List (Event F))
      → (run (load_event k) a (number_from n events)).version ≡ version_after a.version n events
  unfolding load_event number_from
  loaded_version a n [] = refl
  loaded_version a n (event ∷ events) =
      loaded_version (load_event k a (record event { version = pos n })) (suc n) events

  -- An aggregate rehydrated after any appends to an empty store has the version of its last
  -- event: one less than the number of its events, and -1 when it has none.
  pub rehydrate-append_many :
      {S : Type 0} (s : S) (events : List (Event F)) (id : String)
      → (rehydrate k id (append_many {S = S} init s events).1).version
        ≡ last_index (length (keep (in_stream id) events))
  unfolding rehydrate load new
  rehydrate-append_many s events id = rw (replay-append_many init s events id) (
      unfold init replay Dict.get in
      (loaded_version (new id) 0 (keep (in_stream id) events)
        ∙ version_after-eq 0 (keep (in_stream id) events)
        ∙ ap last_index (omega arith)))
