-- ===== src/Tests/PowerRuns.antt =====
-- Runs of the change detection of power snapshots.
use oqlos.Base.{
  ℕ, String, ◌≡◌, refl, Bool, true, false, Option, none, some, List, [], ◌∷◌, arith, ◌==◌, nat_eq,
  if◌then◌else◌, is_some, run,
}
use oqlos.Power.Throttled.Alarm.{IsAlarmed, decode_throttled-IsAlarmed}
use oqlos.Power.Throttled.{has_bit, Decoded, decode_throttled}
use oqlos.Power.Sampling.Recent.{IsJudged, ensure_power_safe-IsJudged}
use oqlos.Power.Sampling.{Sampling, Actuation, ensure_power_safe, gate}
use oqlos.Power.{has_active_undervoltage}
use oqlos.Power.Telemetry.{Power, Tracked, observe_power_telemetry}
use oqlos.Power.Telemetry.Changes.{IsTracked, observe_power_telemetry-IsTracked}

abbrev snapshot : Bool → List String → Power
snapshot available active = record {
  available = available;
  status = "";
  mask = some 1;
  mask_hex = some "0x1";
  active = active;
  active_flags = [];
  historical = [];
  historical_flags = [];
  observed_at = none;
  age_ms = 0;
  source = "";
}

abbrev untracked : Tracked
untracked = record { last_signature = none; last_event_state = none; published = [] }

abbrev snapshots : List Power
snapshots =
    snapshot false []
    ∷ snapshot true []
    ∷ snapshot true []
    ∷ snapshot true ("undervoltage" ∷ [])
    ∷ []

observe_power_telemetry-IsTracked_example :
    IsTracked (run observe_power_telemetry untracked snapshots)
observe_power_telemetry-IsTracked_example =
    observe_power_telemetry-IsTracked untracked snapshots (record { signed = refl; chained = refl })

-- A request to energize a valve, its clock and its snapshot
abbrev energize : ℕ → List String → Actuation
energize now active = record {
  moment = record {
    asked = now;
    stamped = now;
    reading = record { power = snapshot true active; issue_codes = [] };
    age = λ _. 0;
  };
  is_real = true;
  operation = "set_valve";
  safe_state = false;
}

abbrev unsampled : Sampling
unsampled = record { power_sample = none; power_sample_at = 0; tracked = untracked; taken = [] }

-- The second request, half a second later, is judged on the reading of the first.
abbrev first : Actuation
first = energize 0 ("undervoltage" ∷ [])

abbrev second : Actuation
second = energize 500000000 []

abbrev third : Actuation
third = energize 1000000000 []

second-refused : is_some (ensure_power_safe (run gate unsampled (first ∷ [])) second).raised ≡ true
unfolding ensure_power_safe has_active_undervoltage
second-refused = refl

third-passes : (ensure_power_safe (run gate unsampled (first ∷ second ∷ [])) third).raised ≡ none
unfolding ensure_power_safe has_active_undervoltage
third-passes = refl

ensure_power_safe-IsJudged_example :
    IsJudged second (ensure_power_safe (run gate unsampled (first ∷ [])) second)
ensure_power_safe-IsJudged_example =
    ensure_power_safe-IsJudged unsampled (first ∷ []) second refl refl refl (omega arith)

-- An undervoltage now and in the past, and one of the past only
abbrev read_number : String → Option ℕ
read_number text = if text == "throttled=0x10001" then some 65537 else some 65536

abbrev print_hex : ℕ → String
print_hex n = if nat_eq n 65537 then "0x10001" else "0x10000"

abbrev answer : Option String → Decoded
answer raw = decode_throttled read_number print_hex "2025-11-25T16:00:00+00:00" raw

past-warning : (answer (some "throttled=0x10000")).reading.power.status ≡ "warning"
unfolding decode_throttled has_bit
past-warning = refl

decode_throttled-IsAlarmed_example : IsAlarmed true (answer (some "throttled=0x10001"))
decode_throttled-IsAlarmed_example =
    decode_throttled-IsAlarmed read_number print_hex "2025-11-25T16:00:00+00:00"
      (some "throttled=0x10001")
