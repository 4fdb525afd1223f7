-- ===== src/Power/Throttled.antt =====
-- The power snapshot that oqlos/hardware/usb_diagnostics.py decodes from what `vcgencmd` answers.
pub mod Alarm
use oqlos.Base.{
  ℕ, ◌+◌, ◌/◌, ◌%◌, String, Bool, true, false, Option, none, some, List, [], ◌∷◌, ◌++◌, map, ◌==◌,
  nat_eq, if◌then◌else◌, one_of, get_or, keep,
}
use Prim.Native.Nat.{◌^◌}
use oqlos.Power.Sampling.{Reading}

abbrev throttle_flags : List (ℕ × String)
throttle_flags =
    (0, "undervoltage")
    ∷ (1, "frequency_capped")
    ∷ (2, "throttled")
    ∷ (3, "soft_temperature_limit")
    ∷ []

-- `mask & (1 << bit)`
unfoldable pub has_bit : ℕ → ℕ → Bool
has_bit mask bit = nat_eq (mask / 2 ^ bit % 2) 1

-- `[name for bit, name in _THROTTLE_FLAGS.items() if mask & (1 << (bit + shift))]`
unfoldable pub flags : ℕ → ℕ → List String
flags mask shift =
    map (λ flag. flag.1) (keep (λ flag. has_bit mask (flag.0 + shift)) throttle_flags)

-- A warning, and the condition that it is about
pub record Warning : Type 0 where
  pub issue_code : String
  pub condition : Option String

pub record Decoded : Type 0 where
  pub reading : Reading
  pub raw : Option String
  pub warnings : List Warning

-- The issue codes of the errors
abbrev pub error_codes : List String → List String
error_codes active =
    if one_of "undervoltage" active then "boardnet_undervoltage_active" ∷ [] else []

abbrev warned : String → List String → List Warning
warned code = map (λ flag. record { issue_code = code; condition = some flag })

abbrev pub warnings_of : List String → List String → List Warning
warnings_of active historical =
    warned "boardnet_power_condition_active"
      (keep (λ flag. if flag == "undervoltage" then false else true) active)
    ++ warned "boardnet_power_condition_historical" historical

abbrev pub status_of : List String → List Warning → String
status_of (_ ∷ _) _ = "critical"
status_of [] (_ ∷ _) = "warning"
status_of [] [] = "ok"

-- `hex` prints a number in hexadecimal.
unfoldable pub decoded : (ℕ → String) → Option String → String → Option ℕ → Decoded
unfolding flags
decoded hex raw observed_at none = record {
  reading = record {
    power = record {
      available = false;
      status = "unknown";
      mask = none;
      mask_hex = none;
      active = [];
      active_flags = [];
      historical = [];
      historical_flags = [];
      observed_at = some observed_at;
      age_ms = 0;
      source = "vcgencmd.get_throttled";
    };
    issue_codes = [];
  };
  raw = raw;
  warnings = record { issue_code = "boardnet_power_telemetry_unavailable"; condition = none } ∷ [];
}
decoded hex raw observed_at (some mask) =
    let active = flags mask 0 in
    let historical = flags mask 16 in
    let warnings = warnings_of active historical in
    record {
      reading = record {
        power = record {
          available = true;
          status = status_of (error_codes active) warnings;
          mask = some mask;
          mask_hex = some (hex mask);
          active = active;
          active_flags = active;
          historical = historical;
          historical_flags = historical;
          observed_at = some observed_at;
          age_ms = 0;
          source = "vcgencmd.get_throttled";
        };
        issue_codes = error_codes active;
      };
      raw = raw;
      warnings = warnings;
    }

-- `number` finds the number that a text answers, in decimal or in hexadecimal.
unfoldable pub decode_throttled :
    (String → Option ℕ) → (ℕ → String) → String → Option String → Decoded
unfolding decoded
decode_throttled number hex observed_at raw = decoded hex raw observed_at (number (get_or raw ""))
