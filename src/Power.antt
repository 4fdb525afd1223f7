-- ===== src/Power.antt =====
-- The power gate of oqlos/hardware/power_safety.py.
pub mod Telemetry
pub mod Sampling
pub mod Throttled
pub mod Policy
use oqlos.Base.{
  String, Bool, true, false, not, ◌||◌, Option, none, some, List, [], ◌∷◌, ◌==◌, if◌then◌else◌, any,
}

-- What the gate reads of a telemetry snapshot: `active` (or `active_flags`), and the issue codes
-- of the entries of `errors` that are dicts.
pub record Snapshot : Type 0 where
  pub active : List String
  pub issue_codes : List String

abbrev mem : String → List String → Bool
mem x [] = false
mem x (y ∷ ys) = x == y || mem x ys

unfoldable pub has_active_undervoltage : Snapshot → Bool
has_active_undervoltage power =
    if mem "undervoltage" power.active
    then true
    else any (λ code. code == "boardnet_undervoltage_active") power.issue_codes

-- `PowerActuationFailure`: the fields that do not have one fixed value
pub record PowerActuationFailure : Type 0 where
  pub operation : String
  pub power : Snapshot

-- `sampled` is what `sample_power_telemetry` returns
unfoldable pub power_actuation_failure :
    Bool → Snapshot → String → Bool → Option PowerActuationFailure
unfolding has_active_undervoltage
power_actuation_failure is_real sampled operation safe_state =
    if safe_state || not is_real
    then none
    else if not (has_active_undervoltage sampled)
    then none
    else some (record { operation = operation; power = sampled })
