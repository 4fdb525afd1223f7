-- ===== src/Cqrs/Projection/Sync.antt =====
-- A projection shows, for each id, the fold of the events of that stream.
use oqlos.Base.{
  String, ◌≡◌, refl, ◌∙◌, inl, inr, Option, none, some, List, [], ◌∷◌, arith, ◌==◌, eq_iff,
  if◌then◌else◌, is_some, Bool-cases, keep, run,
}
use oqlos.Base.Dict
use oqlos.Base.Dict.{Dict, get-set}
use oqlos.Cqrs.Event.{Event}
use oqlos.Cqrs.Store.Log.{in_stream}
use oqlos.Cqrs.Aggregate.{Aggregate, Kind, new, apply}
use oqlos.Cqrs.Projection.{ReadModel, empty, project, or_new, show_item}

abbrev pub shown : {X : Type 0} → ReadModel X → String → Option X
shown m id = Dict.get m.items id

-- The aggregate kept for an id carries that id, and its state is the item shown.
pub record IsSynced {X : Type 0} (m : ReadModel X) : Type 0 where
  pub named : (id : String) → (or_new id (Dict.get m.aggregates id)).aggregate_id ≡ id
  pub same : (id : String) → (or_new id (Dict.get m.aggregates id)).state ≡ shown m id

pub empty-IsSynced : {X : Type 0} → IsSynced {X = X} empty
unfolding empty new Dict.get
empty-IsSynced = record { named = λ id. refl; same = λ id. refl }

get-show_item :
    {X : Type 0} (id j : String) (x : Option X) (items : Dict X)
    → Dict.get (show_item id x items) j
      ≡ (if id == j then (if is_some x then x else Dict.get items j) else Dict.get items j)
get-show_item id j none items = ground arith
get-show_item id j (some x) items = get-set items id j x

or_new-set :
    {X : Type 0} (d : Dict (Aggregate X)) (id j : String) (a : Aggregate X)
    → or_new j (Dict.get (Dict.set d id a) j) ≡ (if id == j then a else or_new j (Dict.get d j))
or_new-set d id j a = ground (arith, get-set d id j a)

module _ {F X : Type 0} (k : Kind F X) where
  -- the state that an event leaves is some item, or there was none before
  kept :
      (id : String) (x : Option X) (event : Event F)
      → (if is_some (k.apply_state id x event) then k.apply_state id x event else x)
        ≡ k.apply_state id x event
  kept id none event = ground arith
  kept id (some x) event = rw (k.stays id x event) refl

  pub shown-project :
      (m : ReadModel X) (event : Event F) (id : String)
      → IsSynced m
      → shown (project k m event) id
        ≡ (if event.stream_id == id then k.apply_state id (shown m id) event else shown m id)
  unfolding project
  shown-project m event id s =
      let sid = event.stream_id in
      let a = or_new sid (Dict.get m.aggregates sid) in
      ground (
        arith,
        eq_iff sid id,
        k.ignores id (shown m id) event,
        kept id (shown m id) event,
        s.named sid,
        s.same sid,
        get-show_item sid id (k.apply_state a.aggregate_id a.state event) m.items,
      )

  pub project-IsSynced :
      (m : ReadModel X) (event : Event F) → IsSynced m → IsSynced (project k m event)
  unfolding project
  project-IsSynced m event s =
      let sid = event.stream_id in
      let a = or_new sid (Dict.get m.aggregates sid) in
      record {
        named = λ id. ground (
          arith,
          eq_iff sid id,
          s.named id,
          s.named sid,
          or_new-set m.aggregates sid id (apply k a event),
        );
        same = λ id. ground (
          arith,
          eq_iff sid id,
          s.named sid,
          s.same sid,
          s.same id,
          or_new-set m.aggregates sid id (apply k a event),
          kept id (shown m id) event,
          get-show_item sid id (k.apply_state a.aggregate_id a.state event) m.items,
        );
      }

  pub run-IsSynced :
      (m : ReadModel X) (events : List (Event F)) → IsSynced m → IsSynced (run (project k) m events)
  run-IsSynced m [] s = s
  run-IsSynced m (event ∷ events) s =
      run-IsSynced (project k m event) events (project-IsSynced m event s)

  -- After any events, the item shown for an id is the fold of that id's events alone.
  pub shown-run :
      (m : ReadModel X) (events : List (Event F)) (id : String)
      → IsSynced m
      → shown (run (project k) m events) id
        ≡ run (k.apply_state id) (shown m id) (keep (in_stream id) events)
  shown-run m [] id s = refl
  shown-run m (event ∷ events) id s =
      let ih = shown-run (project k m event) events id (project-IsSynced m event s) in
      elim (Bool-cases (event.stream_id == id)) [
        | inl here ↦ ih ∙ rw (shown-project m event id s, here) refl
        | inr other ↦ ih ∙ rw (shown-project m event id s, other) refl
      ]
