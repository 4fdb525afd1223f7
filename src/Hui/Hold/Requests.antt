-- ===== src/Hui/Hold/Requests.antt =====
-- Stopping a hold, `_stop_hui_hold_unlocked` of oqlos/hardware/hui_hold.py, and the requests that
-- the operation lock makes one step each.
use oqlos.Base.{
  ℕ, ◌-◌, ◌*◌, String, Bool, false, ◌&&◌, Option, none, some, ◌==◌, ltb, if◌then◌else◌, is_some,
}
use oqlos.Hui.Gateway.{Gateway, State}
use oqlos.Hui.Operation.{Floats}
use oqlos.Hui.Shutdown.{Shutdown, shutdown}
use oqlos.Hui.Profiles.{Config}
use oqlos.Hui.Hold.{key_is, start_hold}

-- What a stop answers; its other fields repeat those of the shutdown.
pub record HoldStop (F : Type 0) : Type 0 where
  pub ok : Bool
  pub status : String
  pub key : Option String
  pub stopped_key : Option String
  pub shutdown : Shutdown F

abbrev or_key : String → Option String → Option String
or_key requested stopped = if requested == "" then stopped else some requested

abbrev text_of : Option String → String
text_of none = ""
text_of (some s) = s

-- `str(key or _active_hold_key or "")`
abbrev key_or_active : Option String → Option String → String
key_or_active key active = if text_of key == "" then text_of active else text_of key

abbrev asks_for : (String → String) → Option String → Option String → Bool
asks_for normalize none active = is_some active
asks_for normalize (some key) active = key_is active (normalize key)

module _ {F : Type 0} (fl : Floats F) (g : Gateway F) (cfg : Config F) where
  -- `_stop_hui_hold_unlocked`
  unfoldable pub stop_hold : Option String → State F → HoldStop F × State F
  stop_hold key s =
      let requested = cfg.normalize (key_or_active key s.active_hold_key) in
      let idle = record s { active_hold_key = none; active_hold_started_at = none } in
      let (safe, s') = shutdown fl g false idle in
      (
        record {
          ok = safe.ok;
          status = safe.status;
          key = or_key requested s.active_hold_key;
          stopped_key = s.active_hold_key;
          shutdown = safe;
        },
        s',
      )

-- How long `stop_hui_hold` waits for the interrupt event before it stops the hold, in nanoseconds
-- of `perf_counter_ns`; 0 is no wait. The wait itself changes no state and calls no hardware.
module _ {F : Type 0} (cfg : Config F) where
  unfoldable pub stop_wait_ns : ℕ → Option String → State F → ℕ
  stop_wait_ns now key s = elim s.active_hold_started_at [
    | none ↦ 0
    | some started ↦
        if ltb 0 cfg.min_hold_ms && asks_for cfg.normalize key s.active_hold_key
        then cfg.min_hold_ms * 1000000 - (now - started)
        else 0
  ]

-- A request of the API; under the lock each is one step.
pub data Request : Type 0 where
  start : ℕ → String → Request
  stop : Option String → Request
  shut_down : Request

module _ {F : Type 0} (fl : Floats F) (g : Gateway F) (cfg : Config F) where
  -- the state that a request leaves, also when it raises
  unfoldable pub serve : State F → Request → State F
  unfolding start_hold stop_hold
  serve s (start now key) = (start_hold fl g cfg now key s).1
  serve s (stop key) = (stop_hold fl g cfg key s).1
  serve s shut_down = (shutdown fl g false s).1
