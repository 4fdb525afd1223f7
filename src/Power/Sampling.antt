-- ===== src/Power/Sampling.antt =====
-- The cache of power samples of oqlos/hardware/power_safety.py, and the gate that reads it. Times
-- of the monotonic clock are counted in nanoseconds.
pub mod Recent
use oqlos.Base.{
  ℕ, ◌-◌, String, Bool, not, ◌||◌, Option, none, some, List, ◌∷◌, ltb, if◌then◌else◌, get_or,
}
use oqlos.Power.{Snapshot, PowerActuationFailure, power_actuation_failure}
use oqlos.Power.Telemetry.{
  Power, EventState, Tracked, or_list, event_state, observe_power_telemetry,
}

-- A snapshot, with the issue codes of its `errors`
pub record Reading : Type 0 where
  pub power : Power
  pub issue_codes : List String

-- What `has_active_undervoltage` reads of it
unfoldable pub snapshot_of : Reading → Snapshot
snapshot_of reading = record {
  active = or_list reading.power.active reading.power.active_flags;
  issue_codes = reading.issue_codes;
}

-- `power.update(state)`
abbrev updated : EventState → Reading → Reading
updated state reading = record {
  power = record {
    available = state.available;
    status = state.status;
    mask = state.mask;
    mask_hex = state.mask_hex;
    active = state.active;
    active_flags = reading.power.active_flags;
    historical = state.historical;
    historical_flags = reading.power.historical_flags;
    observed_at = state.observed_at;
    age_ms = state.age_ms;
    source = state.source;
  };
  issue_codes = reading.issue_codes;
}

-- `age` tells how many milliseconds ago the time that a text names was, 0 for a time to come and
-- for a text that names none.
unfoldable pub apply_power_age : (String → ℕ) → Reading → Reading
apply_power_age age reading = record {
  power = record {
    available = reading.power.available;
    status = reading.power.status;
    mask = reading.power.mask;
    mask_hex = reading.power.mask_hex;
    active = reading.power.active;
    active_flags = reading.power.active_flags;
    historical = reading.power.historical;
    historical_flags = reading.power.historical_flags;
    observed_at = reading.power.observed_at;
    age_ms = age (get_or reading.power.observed_at "");
    source = reading.power.source;
  };
  issue_codes = reading.issue_codes;
}

-- One time the gate asks for a sample: the clock when it asks and after a reading, what a reading
-- returns, and the ages by the wall clock.
pub record Moment : Type 0 where
  pub asked : ℕ
  pub stamped : ℕ
  pub reading : Reading
  pub age : String → ℕ

-- A reading that was taken, and when it was put in the cache
pub record Taken : Type 0 where
  pub reading : Reading
  pub stamped : ℕ

-- The cache, the variables of the change detection, and the readings taken so far
pub record Sampling : Type 0 where
  pub power_sample : Option Reading
  pub power_sample_at : ℕ
  pub tracked : Tracked
  pub taken : List Taken

abbrev pub power_sample_ttl : ℕ
power_sample_ttl = 1000000000

abbrev pub is_recent : ℕ → ℕ → Bool
is_recent now sampled_at = ltb (now - sampled_at) power_sample_ttl

pub record Sampled : Type 0 where
  pub sampling : Sampling
  pub power : Reading

unfoldable pub take_sample : Sampling → Moment → Sampled
unfolding event_state observe_power_telemetry apply_power_age
take_sample s m =
    let power = apply_power_age m.age m.reading in
    let observed_power = updated (event_state power.power) power in
    record {
      sampling = record {
        power_sample = some observed_power;
        power_sample_at = m.stamped;
        tracked = observe_power_telemetry s.tracked power.power;
        taken = record { reading = m.reading; stamped = m.stamped } ∷ s.taken;
      };
      power = observed_power;
    }

abbrev reuse_sample : Sampling → Moment → Option Reading → Sampled
reuse_sample s m none = take_sample s m
reuse_sample s m (some power) =
    if is_recent m.asked s.power_sample_at
    then record { sampling = s; power = apply_power_age m.age power }
    else take_sample s m

unfoldable pub sample_power_telemetry : Sampling → Moment → Sampled
unfolding take_sample apply_power_age
sample_power_telemetry s m = reuse_sample s m s.power_sample

pub record Actuation : Type 0 where
  pub moment : Moment
  pub is_real : Bool
  pub operation : String
  pub safe_state : Bool

-- The error that the gate raises: of its detail, the entries that do not have one fixed value
pub record OqlosError : Type 0 where
  pub code : String
  pub status_code : ℕ
  pub message : String
  pub operation : String
  pub power : Snapshot

abbrev domain_error : Option PowerActuationFailure → Option OqlosError
domain_error none = none
domain_error (some failure) = some (record {
  code = "boardnet_undervoltage_active";
  status_code = 503;
  message = "BoardNet supply undervoltage blocks hardware actuation";
  operation = failure.operation;
  power = failure.power;
})

pub record Gated : Type 0 where
  pub sampling : Sampling
  pub raised : Option OqlosError

-- A snapshot is read only where the operation is an actuation of real hardware.
unfoldable pub ensure_power_safe : Sampling → Actuation → Gated
unfolding sample_power_telemetry power_actuation_failure snapshot_of
ensure_power_safe s q =
    if q.safe_state || not q.is_real
    then record { sampling = s; raised = none }
    else let sampled = sample_power_telemetry s q.moment in
      record {
        sampling = sampled.sampling;
        raised = domain_error (
            power_actuation_failure q.is_real (snapshot_of sampled.power) q.operation q.safe_state);
      }

-- `ensure_power_safe` for one request after another
abbrev pub gate : Sampling → Actuation → Sampling
gate s q = (ensure_power_safe s q).sampling
