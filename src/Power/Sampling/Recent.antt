-- ===== src/Power/Sampling/Recent.antt =====
-- An actuation of real hardware is judged on a reading of the last second.
use oqlos.Base.{
  ℕ, ◌+◌, ◌≤◌, ◌<◌, String, ◌≡◌, refl, ap, ◌∙◌, inl, inr, true, false, not, ◌||◌, Option, none,
  some, List, [], ◌∷◌, arith, if◌then◌else◌, Bool-cases, run,
}
use mathlib.Core.Path.{subst}
use oqlos.Power.{Snapshot, has_active_undervoltage, power_actuation_failure}
use oqlos.Power.Telemetry.{or_list, event_state}
use oqlos.Power.Sampling.{
  Reading, Moment, Taken, Sampling, Sampled, Actuation, OqlosError, Gated, snapshot_of,
  apply_power_age, take_sample, reuse_sample, sample_power_telemetry, domain_error,
  ensure_power_safe, gate, is_recent, power_sample_ttl, updated,
}

-- `power` reads like the last of the readings, which was stamped `at`.
abbrev pub IsLast : Reading → ℕ → List Taken → Type 0
IsLast power at taken =
    (reading : Reading) × (older : List Taken) × (taken
      ≡ record { reading = reading; stamped = at } ∷ older)
    × (snapshot_of power ≡ snapshot_of reading)

abbrev IsCached : Option Reading → ℕ → List Taken → Type 0
IsCached none at taken = taken ≡ []
IsCached (some power) at taken = IsLast power at taken

-- What the cache holds is the last reading.
abbrev pub IsSampled : Sampling → Type 0
IsSampled s = IsCached s.power_sample s.power_sample_at s.taken

or_list_again : (xs ys : List String) → or_list (or_list xs ys) ys ≡ or_list xs ys
or_list_again [] [] = refl
or_list_again [] (y ∷ ys) = refl
or_list_again (x ∷ xs) ys = refl

snapshot_of-updated :
    (age : String → ℕ) (r : Reading)
    → snapshot_of (updated (event_state (apply_power_age age r).power) (apply_power_age age r))
      ≡ snapshot_of r
unfolding snapshot_of event_state apply_power_age
snapshot_of-updated age r = rw (or_list_again r.power.active r.power.active_flags) refl

-- A sample answers like the last reading, which is recent, and the cache holds it.
record IsFresh (m : Moment) (sampled : Sampled) : Type 0 where
  cached : IsSampled sampled.sampling
  at : ℕ
  recent : m.asked ≤ m.stamped → m.asked < at + power_sample_ttl
  last : IsLast sampled.power at sampled.sampling.taken

take_sample-IsFresh : (s : Sampling) (m : Moment) → IsFresh m (take_sample s m)
unfolding take_sample event_state apply_power_age
take_sample-IsFresh s m =
    let last : IsLast (take_sample s m).power m.stamped (take_sample s m).sampling.taken =
      (m.reading, s.taken, refl, snapshot_of-updated m.age m.reading) in
    record { cached = last; at = m.stamped; recent = λ h. omega (arith, h); last = last }

reuse_sample-IsFresh :
    (s : Sampling) (m : Moment) (cache : Option Reading)
    → s.power_sample ≡ cache
    → IsSampled s
    → IsFresh m (reuse_sample s m cache)
unfolding apply_power_age snapshot_of
reuse_sample-IsFresh s m none e h = take_sample-IsFresh s m
reuse_sample-IsFresh s m (some power) e h =
    elim (Bool-cases (is_recent m.asked s.power_sample_at)) [
      | inl recent ↦ rw recent (record {
        cached = h;
        at = s.power_sample_at;
        recent = λ _. ground (arith, recent);
        last = subst (λ cache. IsCached cache s.power_sample_at s.taken) e h;
      })
      | inr old ↦ rw old (take_sample-IsFresh s m)
    ]

sample-IsFresh : (s : Sampling) (m : Moment) → IsSampled s → IsFresh m (sample_power_telemetry s m)
unfolding sample_power_telemetry
sample-IsFresh s m h = reuse_sample-IsFresh s m s.power_sample refl h

ensure_power_safe-IsSampled :
    (s : Sampling) (q : Actuation) → IsSampled s → IsSampled (ensure_power_safe s q).sampling
unfolding ensure_power_safe
ensure_power_safe-IsSampled s q h = elim (Bool-cases (q.safe_state || not q.is_real)) [
  | inl skipped ↦ rw skipped h
  | inr asked ↦ rw asked (sample-IsFresh s q.moment h).cached
]

gate-IsSampled :
    (s : Sampling) (requests : List Actuation) → IsSampled s → IsSampled (run gate s requests)
gate-IsSampled s [] h = h
gate-IsSampled s (q ∷ requests) h =
    gate-IsSampled (gate s q) requests (ensure_power_safe-IsSampled s q h)

-- The verdict on an operation, by what a snapshot tells
abbrev pub refusal : String → Snapshot → Option OqlosError
refusal operation power =
    if has_active_undervoltage power
    then domain_error (some (record { operation = operation; power = power }))
    else none

-- A request was judged on the last reading, and that was recent when the request came.
abbrev pub IsJudged : Actuation → Gated → Type 0
IsJudged q gated =
    (last : Taken) × (older : List Taken) × (gated.sampling.taken ≡ last ∷ older)
    × (q.moment.asked < last.stamped + power_sample_ttl)
    × (gated.raised ≡ refusal q.operation (snapshot_of last.reading))

raised-refusal :
    (operation : String) (power : Snapshot)
    → domain_error (power_actuation_failure true power operation false) ≡ refusal operation power
unfolding power_actuation_failure
raised-refusal operation power = ground arith

-- From a cache that holds the last reading, or none where none was taken, whatever requests the
-- gate has served: an actuation of real hardware is judged on the last reading, stamped less than
-- a second before the request or later. It is refused, with the domain error that names the
-- operation and that reading, exactly where the reading tells an active undervoltage. The clock
-- does not run backwards while a reading is taken.
pub ensure_power_safe-IsJudged :
    (s : Sampling) (earlier : List Actuation) (q : Actuation)
    → IsSampled s
    → q.is_real ≡ true
    → q.safe_state ≡ false
    → q.moment.asked ≤ q.moment.stamped
    → IsJudged q (ensure_power_safe (run gate s earlier) q)
unfolding ensure_power_safe
ensure_power_safe-IsJudged s earlier q h real unsafe timed =
    let before = run gate s earlier in
    let fresh = sample-IsFresh before q.moment (gate-IsSampled s earlier h) in
    rw (real, unsafe)
      (
        record { reading = fresh.last.0; stamped = fresh.at },
        fresh.last.1,
        fresh.last.2,
        fresh.recent timed,
        raised-refusal q.operation (snapshot_of (sample_power_telemetry before q.moment).power)
            ∙ ap (refusal q.operation) fresh.last.3,
      )
