-- ===== src/Tests/ReadinessRuns.antt =====
-- The readiness report of a stand whose legacy valve module is offline, and of one with no valve
-- module at all.
use oqlos.Base.{
  ℕ, String, ◌≡◌, refl, Bool, true, false, not, Option, none, some, List, [], ◌∷◌, arith, ◌==◌,
  eq_iff, nat_eq, if◌then◌else◌, is_some, any,
}
use oqlos.Base.Dict
use oqlos.Base.Dict.{Dict}
use oqlos.Power.{power_actuation_failure}
use oqlos.Models.{bool}
use oqlos.Hui.Gateway.{Gateway, State, Probe, checked, returned}
use oqlos.Hui.Operation.{Floats, ok, err}
use oqlos.Hui.Profiles.{Config, Profile, get_hui_hold_profiles}
use oqlos.Hui.Valves.{Settings, listed, is_enabled, env_preference, resolve_valve_controllers}
use oqlos.Hui.Valves.Candidates.{mem-resolve_valve_controllers}
use oqlos.Hui.Readiness.{mem}
use oqlos.Hui.Readiness.Report.{InputHealth, motor_plugins, build_hui_readiness}
use oqlos.Hui.Readiness.Preflight.{IsRequired}
use oqlos.Hui.Readiness.Agree.{is_some-build_hui_readiness}
use oqlos.Hui.Hold.{start_hold, run_hold}
use oqlos.Hui.Hold.Reported.{start_hold-build_hui_readiness}

abbrev naturals : Floats ℕ
naturals = record { of_int = λ n. n; is_zero = λ n. nat_eq n 0; is_zero-of_int = refl }

abbrev online : String → Bool → Probe
online id reconnect = checked (not (id == "modbus-io")) "" ""

abbrev stand : List String → Gateway ℕ
stand controllers = record {
  is_real = true;
  valve_controllers = controllers;
  power = record { active = []; issue_codes = [] };
  plugin_cached_readiness = none;
  plugin_readiness = some online;
  has_all_valves_off = false;
  has_replace_valves_exact = true;
  supports_exact_valve_replace = none;
  reply = λ calls c. returned (bool true);
}

abbrev fallback : Gateway ℕ
fallback = stand ("io-m5-4in8out" ∷ "modbus-io" ∷ [])

abbrev offline : Gateway ℕ
offline = stand ("modbus-io" ∷ [])

abbrev config : Config ℕ
config = record {
  configured = [];
  oql = ok [];
  skip_idle_pump_off = true;
  default_valve_stagger_ms = 100;
  min_hold_ms = 0;
  normalize = λ s. s;
}

abbrev fresh : State ℕ
fresh = record { active_hold_key = none; active_hold_started_at = none; calls = [] }

-- the second analog input has no component data
abbrev inputs : InputHealth
inputs = record {
  ok = true;
  components = λ id.
      if id == "usb-adc-mcp2221"
      then some (record { ok = true; status = ""; message = ""; transport = "usb"; endpoint = "" })
      else none;
}

abbrev default_profiles : Dict (Profile ℕ)
unfolding get_hui_hold_profiles
default_profiles = elim (get_hui_hold_profiles naturals config) [ ok d ↦ d | err e ↦ [] ]

none_of :
    (q : String → Bool) (x : String) (xs : List String)
    → any q xs ≡ false
    → mem x xs ≡ true
    → q x ≡ false
none_of q x [] h m = ground (arith, m)
none_of q x (y ∷ ys) h m = ground (arith, h, m, eq_iff x y, none_of q x ys)

fallback-IsRequired : IsRequired fallback.valve_controllers motor_plugins
fallback-IsRequired = record {
  some_controller = refl;
  named = λ x. none_of (λ y. y == "") x fallback.valve_controllers refl;
  motors_named = λ x. none_of (λ y. y == "") x motor_plugins refl;
  apart = λ x. none_of (λ y. mem y fallback.valve_controllers) x motor_plugins refl;
}

abbrev plus5 : Profile ℕ
plus5 = record { valves_on = "valve-5" ∷ []; pump_pct = 50; valve_stagger_ms = none }

is_some-build_hui_readiness_example :
    is_some (build_hui_readiness naturals (stand []) config (some inputs)) ≡ false
unfolding get_hui_hold_profiles
is_some-build_hui_readiness_example =
    is_some-build_hui_readiness naturals (stand []) config (some inputs)

start_hold-build_hui_readiness_example :
    start_hold naturals fallback config 5 "lp-pwm-plus5" fresh
    ≡ run_hold naturals fallback config 5 "lp-pwm-plus5" plus5 fresh
unfolding build_hui_readiness Dict.get power_actuation_failure get_hui_hold_profiles
start_hold-build_hui_readiness_example =
    start_hold-build_hui_readiness naturals fallback config 5 "lp-pwm-plus5" fresh default_profiles
      plus5 (some inputs) _ _ refl refl fallback-IsRequired refl refl refl refl

-- the pinned module does not exist, and the legacy one is not enabled
abbrev pinned : Settings
pinned = record {
  selected = "auto";
  getenv = λ name. if name == "C2004_VALVE_CONTROLLER" then some " io-m5, " else none;
  configured = listed ("modbus-io" ∷ []);
  plugins = none;
}

abbrev plugins : Dict (Option Bool)
plugins = ("io-m5-4in8out", some true) ∷ ("modbus-io", some false) ∷ []

env_preference_run : env_preference pinned ≡ "io-m5" ∷ []
unfolding env_preference
env_preference_run = refl

mem-resolve_valve_controllers_example :
    mem "io-m5-4in8out" (resolve_valve_controllers pinned (some plugins)) ≡ true
unfolding env_preference is_enabled
mem-resolve_valve_controllers_example =
    mem-resolve_valve_controllers pinned (some plugins) "io-m5-4in8out"
