-- ===== src/Power/Telemetry.antt =====
-- The change detection of oqlos/hardware/power_safety.py: `observe_power_telemetry` publishes an
-- event for the first snapshot that is available and for each change after it.
pub mod Changes
use oqlos.Base.{
  ℕ, String, Bool, true, false, not, ◌&&◌, ◌||◌, Option, none, some, List, [], ◌∷◌, ◌++◌, ◌==◌,
  nat_eq, if◌then◌else◌, is_some,
}

-- The entries of a snapshot that are read; `none` where the dict has no such key. Of a snapshot
-- with the older names, `active_flags` and `historical_flags`, these are the entries read.
pub record Power : Type 0 where
  pub available : Bool
  pub status : String
  pub mask : Option ℕ
  pub mask_hex : Option String
  pub active : List String
  pub active_flags : List String
  pub historical : List String
  pub historical_flags : List String
  pub observed_at : Option String
  -- a negative age counts as 0
  pub age_ms : ℕ
  pub source : String

pub record EventState : Type 0 where
  pub available : Bool
  pub status : String
  pub mask : Option ℕ
  pub mask_hex : Option String
  pub active : List String
  pub historical : List String
  pub observed_at : Option String
  pub age_ms : ℕ
  pub source : String

pub record Signature : Type 0 where
  pub available : Bool
  pub mask : Option ℕ
  pub active : List String
  pub historical : List String

-- `x or y` on lists and strings
abbrev pub or_list : List String → List String → List String
or_list [] ys = ys
or_list (x ∷ xs) ys = x ∷ xs

abbrev pub or_string : String → String → String
or_string x y = if x == "" then y else x

unfoldable pub event_state : Power → EventState
event_state power = record {
  available = power.available;
  status = or_string power.status "unknown";
  mask = power.mask;
  mask_hex = power.mask_hex;
  active = or_list power.active power.active_flags;
  historical = or_list power.historical power.historical_flags;
  observed_at = power.observed_at;
  age_ms = power.age_ms;
  source = or_string power.source "vcgencmd.get_throttled";
}

unfoldable pub signature : EventState → Signature
signature state = record {
  available = state.available;
  mask = state.mask;
  active = state.active;
  historical = state.historical;
}

abbrev same_bool : Bool → Bool → Bool
same_bool true b = b
same_bool false b = not b

abbrev same_mask : Option ℕ → Option ℕ → Bool
same_mask none none = true
same_mask (some m) (some n) = nat_eq m n
same_mask _ _ = false

abbrev same_texts : List String → List String → Bool
same_texts [] [] = true
same_texts (x ∷ xs) (y ∷ ys) = x == y && same_texts xs ys
same_texts _ _ = false

unfoldable pub same_signature : Signature → Signature → Bool
same_signature s t =
    same_bool s.available t.available
    && same_mask s.mask t.mask
    && same_texts s.active t.active
    && same_texts s.historical t.historical

-- `signature != _last_signature`
abbrev pub changes : Option Signature → Signature → Bool
changes none s = true
changes (some last) s = not (same_signature s last)

pub record Event : Type 0 where
  pub current : EventState
  pub previous : Option EventState

-- the two module variables, and the events published so far
pub record Tracked : Type 0 where
  pub last_signature : Option Signature
  pub last_event_state : Option EventState
  pub published : List Event

unfoldable pub observe_power_telemetry : Tracked → Power → Tracked
unfolding event_state signature
observe_power_telemetry t power =
    let state = event_state power in
    let track_state = state.available || is_some t.last_event_state in
    if track_state && changes t.last_signature (signature state)
    then record {
      last_signature = some (signature state);
      last_event_state = some state;
      published = t.published ++ record { current = state; previous = t.last_event_state } ∷ [];
    }
    else t
