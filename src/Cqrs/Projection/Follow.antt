-- ===== src/Cqrs/Projection/Follow.antt =====
-- A projection that is told of every append shows the fold of the stored events.
use oqlos.Base.{
  String, ◌≡◌, refl, sym, ◌∙◌, inl, inr, none, [], ◌∷◌, ◌==◌, eq_iff, Bool-cases, length, run,
  run-append,
}
use oqlos.Base.Dict
use oqlos.Cqrs.Event.{Event}
use oqlos.Cqrs.Store.{EventStore, init, append, replay, all_events}
use oqlos.Cqrs.Store.Log.{number_from, replay-append}
use oqlos.Cqrs.Store.Order.{IsFiledStore, keep-all_events}
use oqlos.Cqrs.Aggregate.{Kind, rehydrate}
use oqlos.Cqrs.Aggregate.Replay.{rehydrate-state}
use oqlos.Cqrs.Projection.{ReadModel, empty, project, rebuild}
use oqlos.Cqrs.Projection.Sync.{
  IsSynced, shown, empty-IsSynced, shown-project, project-IsSynced, shown-run,
}

pub record Follows {F S X : Type 0} (k : Kind F X) (m : ReadModel X) (store : EventStore F S)
    : Type 0 where
  pub synced : IsSynced m
  pub shows : (id : String) → shown m id ≡ run (k.apply_state id) none (replay store id)

module _ {F S : Type 0} where
  number_from-append :
      (store : EventStore F S) (s : S) (event : Event F) (id : String)
      → event.stream_id ≡ id
      → number_from (length (replay store id)) (event ∷ []) ≡ (append store s event).0 ∷ []
  unfolding number_from append replay
  number_from-append store s event id e = rw (← e) refl

  stream_id-append :
      (store : EventStore F S) (s : S) (event : Event F)
      → (append store s event).0.stream_id ≡ event.stream_id
  unfolding append
  stream_id-append store s event = refl

module _ {F S X : Type 0} (k : Kind F X) where
  shows-append :
      (m : ReadModel X) (store : EventStore F S) (s : S) (event : Event F) (id : String)
      → Follows k m store
      → shown (project k m (append store s event).0) id
        ≡ run (k.apply_state id) none (replay (append store s event).1 id)
  shows-append m store s event id f =
      let v = (append store s event).0 in
      let step = shown-project k m v id f.synced in
      let old = replay store id in
      elim (Bool-cases (event.stream_id == id)) [
        | inl here ↦
            rw
              (
                replay-append store s event id,
                here,
                number_from-append store s event id ((eq_iff event.stream_id id).0 here),
              )
              (step
                ∙ rw (stream_id-append store s event, here, f.shows id)
                    (sym (run-append (k.apply_state id) none old (v ∷ []))))
        | inr other ↦
            rw (replay-append store s event id, other)
              (step ∙ rw (stream_id-append store s event, other) (f.shows id))
      ]

  pub append-Follows :
      (m : ReadModel X) (store : EventStore F S) (s : S) (event : Event F)
      → Follows k m store
      → Follows k (project k m (append store s event).0) (append store s event).1
  append-Follows m store s event f = record {
    synced = project-IsSynced k m (append store s event).0 f.synced;
    shows = λ id. shows-append m store s event id f;
  }

  pub init-Follows : Follows k empty (init {F = F} {S = S})
  unfolding empty init replay Dict.get
  init-Follows = record { synced = empty-IsSynced; shows = λ id. refl }

  -- What the projection shows for an id is the state of the aggregate rehydrated from the store.
  pub shown-rehydrate :
      (m : ReadModel X) (store : EventStore F S) (id : String)
      → Follows k m store
      → shown m id ≡ (rehydrate k id store).state
  shown-rehydrate m store id f = f.shows id ∙ sym (rehydrate-state k id store)

  -- A projection built afresh from all stored events shows the same items.
  pub shown-rebuild :
      (m : ReadModel X) (store : EventStore F S) (id : String)
      → Follows k m store
      → IsFiledStore store
      → shown (rebuild (project k) empty store) id ≡ shown m id
  shown-rebuild m store id f filed =
      unfold rebuild in
      shown-run k empty (all_events store) id empty-IsSynced
      ∙ rw (keep-all_events store id filed) (unfold empty Dict.get in sym (f.shows id))
