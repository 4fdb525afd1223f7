-- ===== src/Hui/Gateway.antt =====
-- What the hold recipes use of a hardware gateway, and the state that they keep.
-- The gateway is a parameter: `reply` answers each call, and may depend on all calls before it.
use oqlos.Base.{ℕ, String, Bool, Option, List, [], ◌∷◌, ◌++◌}
use oqlos.Models.{Value}
use oqlos.Power.{Snapshot}

pub data Call (F : Type 0) : Type 0 where
  set_valve : String → Bool → Call F
  set_pump : F → Call F
  all_valves_off : Call F
  replace_valves_exact : List String → Call F

-- A call returns a value or raises an exception with a message.
pub data Reply (F : Type 0) : Type 0 where
  returned : Value F → Reply F
  raised : String → Reply F

-- One readiness probe: a dict with `ok`, `status` and `message` ("" when absent), another value,
-- a TypeError, or another exception.
pub data Probe : Type 0 where
  checked : Bool → String → String → Probe
  invalid type_error failed : Probe

pub record Gateway (F : Type 0) : Type 0 where
  pub is_real : Bool
  -- what `gateway_valve_controllers` answers
  pub valve_controllers : List String
  pub power : Snapshot
  -- the optional methods: `none` is one that is not callable
  pub plugin_cached_readiness : Option (String → Probe)
  -- called with `reconnect=False` or, after a TypeError, without that argument
  pub plugin_readiness : Option (String → Bool → Probe)
  pub has_all_valves_off : Bool
  pub has_replace_valves_exact : Bool
  pub supports_exact_valve_replace : Option Bool
  pub reply : List (Call F) → Call F → Reply F

-- The module's globals, with the calls that the gateway has received, in order.
pub record State (F : Type 0) : Type 0 where
  pub active_hold_key : Option String
  pub active_hold_started_at : Option ℕ
  pub calls : List (Call F)

-- `await gateway.method(…)`
unfoldable pub call : {F : Type 0} → Gateway F → Call F → State F → Reply F × State F
call g c s = (g.reply s.calls c, record s { calls = s.calls ++ c ∷ [] })
