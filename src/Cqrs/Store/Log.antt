-- ===== src/Cqrs/Store/Log.antt =====
-- The store against its specification: one chronological log of events.
use oqlos.Base.{
  ℕ, suc, String, ◌≡◌, refl, sym, ◌∙◌, inl, inr, Bool, List, [], ◌∷◌, ◌++◌, arith, ◌==◌, eq_iff,
  if◌then◌else◌, Bool-cases, length, keep, length-append,
}
use mathlib.Core.List.{append-nil, append_assoc}
use oqlos.Base.Int.{pos}
use oqlos.Base.Dict
use oqlos.Base.Dict.{get-set}
use oqlos.Cqrs.Event.{Event}
use oqlos.Cqrs.Store.{append_many, or_empty, EventStore, replay, append}

abbrev pub in_stream : {F : Type 0} → String → Event F → Bool
in_stream stream_id event = event.stream_id == stream_id

-- the events of one stream as the log numbers them, from version n on
unfoldable pub number_from : {F : Type 0} → ℕ → List (Event F) → List (Event F)
number_from n [] = []
number_from n (event ∷ events) = record event { version = pos n } ∷ number_from (suc n) events

module _ {F : Type 0} where
  snoc_number :
      (events : List (Event F)) (event : Event F) (rest : List (Event F))
      → (events ++ number_from (length events) (event ∷ []))
          ++ number_from (length (events ++ number_from (length events) (event ∷ []))) rest
        ≡ events ++ number_from (length events) (event ∷ rest)
  unfolding number_from
  snoc_number events event rest =
      let e : length (events ++ number_from (length events) (event ∷ [])) ≡ suc (length events) =
        omega (arith, length-append events (number_from (length events) (event ∷ []))) in
      rw e (
        append_assoc events (number_from (length events) (event ∷ []))
          (number_from (suc (length events)) rest))

module _ {F S : Type 0} where
  -- One append adds the event, with the next version, to its own stream and to no other.
  pub replay-append :
      (store : EventStore F S) (s : S) (event : Event F) (id : String)
      → replay (append store s event).1 id ≡ (
          if event.stream_id == id
          then replay store id ++ number_from (length (replay store id)) (event ∷ [])
          else replay store id)
  unfolding replay append number_from
  replay-append store s event id = ground (
    arith,
    eq_iff event.stream_id id,
    get-set store.streams event.stream_id id (
        or_empty (Dict.get store.streams event.stream_id)
        ++ record event {
          version = pos (length (or_empty (Dict.get store.streams event.stream_id)));
        }
          ∷ []),
  )

  -- Refinement: what a store replays of a stream is that part of the chronological log, in the
  -- order of the appends, with versions that go on from the number of events already stored.
  pub replay-append_many :
      (store : EventStore F S) (s : S) (events : List (Event F)) (id : String)
      → replay (append_many store s events).1 id
        ≡ replay store id ++ number_from (length (replay store id)) (keep (in_stream id) events)
  unfolding append_many
  replay-append_many store s [] id = unfold number_from in sym (append-nil (replay store id))
  replay-append_many store s (event ∷ events) id =
      let ih = replay-append_many (append store s event).1 (append store s event).2 events id in
      elim (Bool-cases (event.stream_id == id)) [
        | inl here ↦
            ih
            ∙ rw (replay-append store s event id, here)
                (snoc_number (replay store id) event (keep (in_stream id) events))
        | inr other ↦ ih ∙ rw (replay-append store s event id, other) refl
      ]
