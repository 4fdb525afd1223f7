-- ===== src/Power/Telemetry/Changes.antt =====
-- The published events are a chain of changes that ends with the latest state.
use oqlos.Base.{
  ℕ, String, ◌≡◌, refl, sym, ap, ◌∙◌, inl, inr, Bool, true, false, ◌&&◌, ◌||◌, Option, none, some,
  List, [], ◌∷◌, ◌++◌, arith, eq_iff, is_some, Bool-cases, run,
}
use oqlos.Power.Telemetry.{
  Power, EventState, Signature, Event, Tracked, event_state, signature, same_signature, same_bool,
  same_mask, same_texts, changes, observe_power_telemetry,
}

abbrev signature_of : Option EventState → Option Signature
signature_of none = none
signature_of (some state) = some (signature state)

-- Each event tells the state of the event before it, the first one none, and differs from it in
-- signature; the last state is `last`.
abbrev pub IsChain : Option EventState → List Event → Option EventState → Type 0
IsChain before [] last = before ≡ last
IsChain before (event ∷ events) last =
    (event.previous ≡ before)
    × (changes (signature_of before) (signature event.current) ≡ true)
    × IsChain (some event.current) events last

pub record IsTracked (t : Tracked) : Type 0 where
  pub signed : t.last_signature ≡ signature_of t.last_event_state
  pub chained : IsChain none t.published t.last_event_state

IsChain-snoc :
    (before : Option EventState) (events : List Event) (last : Option EventState)
    (state : EventState)
    → IsChain before events last
    → changes (signature_of last) (signature state) ≡ true
    → IsChain before (events ++ record { current = state; previous = last } ∷ []) (some state)
IsChain-snoc before [] last state h e =
    (sym h, ap (λ b. changes (signature_of b) (signature state)) h ∙ e, refl)
IsChain-snoc before (event ∷ events) last state h e =
    (h.0, h.1, IsChain-snoc (some event.current) events last state h.2 e)

observe-IsTracked :
    (t : Tracked) (power : Power) → IsTracked t → IsTracked (observe_power_telemetry t power)
unfolding observe_power_telemetry
observe-IsTracked t power h =
    let state = event_state power in
    elim (Bool-cases (
      (state.available || is_some t.last_event_state)
      && changes t.last_signature (signature state))) [
        | inr same ↦ rw same h
        | inl changed ↦ rw changed (record {
          signed = refl;
          chained =
              IsChain-snoc none t.published t.last_event_state state h.chained
                (ground (arith, changed, h.signed));
        })
      ]

-- From a tracked state, the events that any snapshots publish are a chain of changes: each tells
-- the state published before it, the first one none, and differs from it in signature.
pub observe_power_telemetry-IsTracked :
    (t : Tracked) (snapshots : List Power)
    → IsTracked t
    → IsTracked (run observe_power_telemetry t snapshots)
observe_power_telemetry-IsTracked t [] h = h
observe_power_telemetry-IsTracked t (power ∷ snapshots) h =
    observe_power_telemetry-IsTracked (observe_power_telemetry t power) snapshots
      (observe-IsTracked t power h)

same_texts_self : (xs : List String) → same_texts xs xs ≡ true
same_texts_self [] = refl
same_texts_self (x ∷ xs) = ground (arith, eq_iff x x, same_texts_self xs)

same_bool_self : (b : Bool) → same_bool b b ≡ true
same_bool_self true = refl
same_bool_self false = refl

same_mask_self : (mask : Option ℕ) → same_mask mask mask ≡ true
same_mask_self none = refl
same_mask_self (some n) = ground arith

same_signature_self : (s : Signature) → same_signature s s ≡ true
unfolding same_signature
same_signature_self s =
    rw
      (
        same_bool_self s.available,
        same_mask_self s.mask,
        same_texts_self s.active,
        same_texts_self s.historical,
      )
      refl

-- A snapshot that is observed twice in a row publishes nothing the second time.
pub observe_power_telemetry_idem :
    (t : Tracked) (power : Power)
    → observe_power_telemetry (observe_power_telemetry t power) power
      ≡ observe_power_telemetry t power
unfolding observe_power_telemetry
observe_power_telemetry_idem t power =
    let state = event_state power in
    elim (Bool-cases (
      (state.available || is_some t.last_event_state)
      && changes t.last_signature (signature state))) [
        | inr same ↦ rw (same, same) refl
        | inl changed ↦ rw changed (ground (arith, same_signature_self (signature state)))
      ]
