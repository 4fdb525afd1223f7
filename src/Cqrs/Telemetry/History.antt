-- ===== src/Cqrs/Telemetry/History.antt =====
-- What the queries of the audit trail answer.
use oqlos.Base.{
  String, ◌≡◌, refl, sym, ap, ◌∙◌, inl, inr, Bool, true, false, Option, none, some, List, [], ◌∷◌,
  ◌++◌, arith, ◌==◌, if◌then◌else◌, Bool-cases, or_else, keep, run,
}
use mathlib.Core.List.{append-nil, append_assoc}
use oqlos.Base.Dict
use oqlos.Base.Dict.{Dict, get-set}
use oqlos.Base.Parsed.{Parsed, number, invalid, overflow}
use oqlos.Models.{Value}
use oqlos.Cqrs.Event.{Event, Payload, sensor_observed, new_event}
use oqlos.Cqrs.Store.{EventStore, replay, all_events}
use oqlos.Cqrs.Store.Log.{in_stream, number_from, replay-append}
use oqlos.Cqrs.Store.Order.{IsFiledStore, keep-all_events}
use oqlos.Cqrs.Telemetry.{
  observe, observe_all, observe_next, latest_payload, apply, is_sensor_observed,
  latest_sensor_values, sensor_history, record_sensor_readings,
}

abbrev observed : {F : Type 0} → Payload F → Option F
observed (sensor_observed value _) = some value
observed _ = none

-- the value of the last observation, or `x` when there is none
abbrev pub last_observed : {F : Type 0} → Option F → List (Event F) → Option F
last_observed x [] = x
last_observed x (event ∷ events) = last_observed (or_else (observed event.payload) x) events

abbrev cons_some : {F : Type 0} → Option F → List F → List F
cons_some none xs = xs
cons_some (some x) xs = x ∷ xs

abbrev pub observations : {F : Type 0} → List (Event F) → List F
observations [] = []
observations (event ∷ events) = cons_some (observed event.payload) (observations events)

-- the readings of one sensor that are numbers, up to the first reading that is too large
abbrev pub numeric : {F : Type 0} → (Value F → Parsed F) → String → Dict (Value F) → List F
numeric to_float id [] = []
numeric to_float id ((j, value) ∷ readings) =
    let rest = numeric to_float id readings in
    elim (to_float value) [
      | number x ↦ if j == id then x ∷ rest else rest
      | invalid ↦ rest
      | overflow ↦ []
    ]

-- no reading is too large
abbrev pub fits : {F : Type 0} → (Value F → Parsed F) → Dict (Value F) → Bool
fits to_float [] = true
fits to_float ((j, value) ∷ readings) =
    let rest = fits to_float readings in
    elim (to_float value) [ number x ↦ rest | invalid ↦ rest | overflow ↦ false ]

module _ {F : Type 0} where
  get-apply :
      (latest : Dict F) (j : String) (e : Payload F) (id : String)
      → Dict.get (latest_payload latest j e) id
        ≡ (if j == id then or_else (observed e) (Dict.get latest id) else Dict.get latest id)
  unfolding latest_payload
  get-apply latest j (sensor_observed value source) id = get-set latest j id value
  get-apply latest j _ id = ground arith

  get-run-apply :
      (latest : Dict F) (events : List (Event F)) (id : String)
      → Dict.get (run apply latest events) id
        ≡ last_observed (Dict.get latest id) (keep (in_stream id) events)
  unfolding apply
  get-run-apply latest [] id = refl
  get-run-apply latest (event ∷ events) id =
      let step = get-apply latest event.stream_id event.payload id in
      let ih = get-run-apply (apply latest event) events id in
      elim (Bool-cases (event.stream_id == id)) [
        | inl here ↦ ih ∙ rw (step, here) refl
        | inr other ↦ ih ∙ rw (step, other) refl
      ]

  observations-append :
      (xs ys : List (Event F)) → observations (xs ++ ys) ≡ observations xs ++ observations ys
  observations-append [] ys = refl
  observations-append (x ∷ xs) ys = ground (arith, observations-append xs ys)

  observations-keep :
      (xs : List (Event F))
      → observations (keep (λ event. is_sensor_observed event.payload) xs) ≡ observations xs
  unfolding is_sensor_observed
  observations-keep [] = refl
  observations-keep (x ∷ xs) = ground (arith, observations-keep xs)

  split_numeric :
      (j id : String) (x : F) (rest : List F)
      → (if j == id then x ∷ [] else []) ++ rest ≡ (if j == id then x ∷ rest else rest)
  split_numeric j id x rest = ground arith

module _ {F S : Type 0} where
  -- In a store whose streams hold only their own events, the value shown for a sensor is the last
  -- observation that a replay of its stream gives, and there is none where that has none.
  pub get-latest_sensor_values :
      (store : EventStore F S) (id : String)
      → IsFiledStore store
      → Dict.get (latest_sensor_values store) id ≡ last_observed none (replay store id)
  unfolding latest_sensor_values
  get-latest_sensor_values store id h =
      get-run-apply [] (all_events store) id
      ∙ unfold Dict.get in rw (keep-all_events store id h) refl

  pub observations-sensor_history :
      (store : EventStore F S) (id : String)
      → observations (sensor_history store id) ≡ observations (replay store id)
  unfolding sensor_history
  observations-sensor_history store id = observations-keep (replay store id)

module _ {F S : Type 0} (to_float : Value F → Parsed F) (now : F) (source : String) where
  observations-observe :
      (store : EventStore F S) (s : S) (j id : String) (x : F)
      → observations (replay (observe to_float now source (store, s) j x).0 id)
        ≡ observations (replay store id) ++ (if j == id then x ∷ [] else [])
  unfolding observe new_event number_from
  observations-observe store s j id x =
      let added = replay-append store s (new_event now j (sensor_observed x source)) id in
      elim (Bool-cases (j == id)) [
        | inl here ↦ rw (added, here) (observations-append (replay store id) _)
        | inr other ↦ rw (added, other) (sym (append-nil (observations (replay store id))))
      ]

  observations-observe_next :
      (at : EventStore F S × S) (j : String) (p : Parsed F) (id : String)
      (rest : EventStore F S × S → Bool × (EventStore F S × S)) (later : List F)
      → ((at' : EventStore F S × S)
          → observations (replay (rest at').1.0 id) ≡ observations (replay at'.0 id) ++ later)
      → observations (replay (observe_next to_float now source at j p rest).1.0 id)
        ≡ observations (replay at.0 id) ++ elim p as (λ _. List F) [
          | number x ↦ if j == id then x ∷ later else later
          | invalid ↦ later
          | overflow ↦ []
        ]
  observations-observe_next (store, s) j (number x) id rest later h =
      h (observe to_float now source (store, s) j x)
      ∙ rw (observations-observe store s j id x) (
          append_assoc (observations (replay store id)) _ later
          ∙ ap (λ l. observations (replay store id) ++ l) (split_numeric j id x later))
  observations-observe_next at j invalid id rest later h = h at
  observations-observe_next at j overflow id rest later h =
      sym (append-nil (observations (replay at.0 id)))

  observations-observe_all :
      (at : EventStore F S × S) (readings : Dict (Value F)) (id : String)
      → observations (replay (observe_all to_float now source at readings).1.0 id)
        ≡ observations (replay at.0 id) ++ numeric to_float id readings
  unfolding observe_all
  observations-observe_all at [] id = sym (append-nil (observations (replay at.0 id)))
  observations-observe_all at ((j, value) ∷ readings) id =
      observations-observe_next at j (to_float value) id _ (numeric to_float id readings)
        (λ at'. observations-observe_all at' readings id)

  fits-observe_next :
      (at : EventStore F S × S) (j : String) (p : Parsed F)
      (rest : EventStore F S × S → Bool × (EventStore F S × S)) (b : Bool)
      → ((at' : EventStore F S × S) → (rest at').0 ≡ b)
      → (observe_next to_float now source at j p rest).0
        ≡ elim p as (λ _. Bool) [ number x ↦ b | invalid ↦ b | overflow ↦ false ]
  fits-observe_next at j (number x) rest b h = h _
  fits-observe_next at j invalid rest b h = h at
  fits-observe_next at j overflow rest b h = refl

  fits-observe_all :
      (at : EventStore F S × S) (readings : Dict (Value F))
      → (observe_all to_float now source at readings).0 ≡ fits to_float readings
  unfolding observe_all
  fits-observe_all at [] = refl
  fits-observe_all at ((j, value) ∷ readings) =
      fits-observe_next at j (to_float value) _ (fits to_float readings)
        (λ at'. fits-observe_all at' readings)

  -- Recording a batch in a store raises where a reading is too large for a float, and returns
  -- otherwise. It adds to each sensor's history its readings that are numbers, in the order of the
  -- batch, up to the first reading that is too large; those that are no numbers are skipped.
  pub sensor_history-record_sensor_readings :
      (store : EventStore F S) (s : S) (readings : Dict (Value F))
      → let r = record_sensor_readings to_float now source (some store, s) readings in
        (recorded : EventStore F S) × (r.0 ≡ fits to_float readings)
        × (r.1.0 ≡ some recorded)
        × ((id : String)
            → observations (sensor_history recorded id)
              ≡ observations (sensor_history store id) ++ numeric to_float id readings)
  unfolding record_sensor_readings
  sensor_history-record_sensor_readings store s readings =
      let recorded = (observe_all to_float now source (store, s) readings).1.0 in
      (
        recorded,
        fits-observe_all (store, s) readings,
        refl,
        λ id.
            rw (observations-sensor_history recorded id, observations-sensor_history store id)
              (observations-observe_all (store, s) readings id),
      )
