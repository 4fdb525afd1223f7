-- ===== src/Hui/Readiness/Report.antt =====
-- `build_hui_readiness` of oqlos/hardware/hui_readiness.py, with the states of its actions.
use oqlos.Base.{
  String, Bool, true, false, not, ◌&&◌, Option, none, some, List, [], ◌∷◌, ◌++◌, map, ◌==◌,
  if◌then◌else◌, is_some, ◌>>=◌, get_or, all, any, keep,
}
use oqlos.Base.Dict
use oqlos.Base.Dict.{Dict}
use oqlos.Hui.Gateway.{Gateway}
use oqlos.Hui.Operation.{Floats, Result, ok, err}
use oqlos.Hui.Profiles.{Profile, Config, get_hui_hold_profiles}
use oqlos.Hui.Readiness.{Check, read_plugin, take_text, is_empty, or_text}

-- What a stand's analog inputs report: a component is `none` where it is no dict.
pub record Component : Type 0 where
  pub ok : Bool
  pub status : String
  pub message : String
  pub transport : String
  pub endpoint : String

pub record InputHealth : Type 0 where
  pub ok : Bool
  pub components : String → Option Component

pub record Telemetry : Type 0 where
  pub ready : Option Bool
  pub status : String
  pub components : List (String × Component)
  pub impact : String

abbrev shown_component : Option Component → Component
shown_component none = record {
  ok = false;
  status = "unavailable";
  message = "No component health data";
  transport = "";
  endpoint = "";
}
shown_component (some c) = record {
  ok = c.ok;
  status = or_text c.status (if c.ok then "ok" else "unavailable");
  message = take_text 256 (or_text c.message "No component health data");
  transport = c.transport;
  endpoint = c.endpoint;
}

abbrev input_devices : List String
input_devices = "usb-adc-mcp2221" ∷ "usb-adc-dfr1184" ∷ []

-- `_telemetry_readiness`; a transport or an endpoint that is "" is not shown.
unfoldable pub telemetry_readiness : Option InputHealth → Telemetry
telemetry_readiness none = record {
  ready = none;
  status = "not_configured";
  components = [];
  impact = "HUI control is unaffected; SC/WC telemetry availability is unknown";
}
telemetry_readiness (some health) =
    let components =
      map (λ (id : String). (id, shown_component (health.components id))) input_devices in
    let ready = health.ok && all (λ (c : String × Component). c.1.ok) components in
    record {
      ready = some ready;
      status = if ready then "ready" else "degraded";
      components = components;
      impact =
          if ready
          then "SC/WC telemetry available"
          else "HUI control remains available where control plugins are ready; SC/WC values may be empty";
    }

-- The checks, by the ids of their plugins
abbrev pub Controls : Type 0
Controls = Dict Check

unfoldable pub controls_of : List Check → Controls → Controls
controls_of [] d = d
controls_of (check ∷ checks) d = controls_of checks (Dict.set d check.plugin_id check)

-- `controls.get(plugin_id, {}).get("ok")`
unfoldable pub is_ok : Controls → String → Bool
is_ok controls id = elim (Dict.get controls id) [ none ↦ false | some check ↦ check.ok ]

pub record ActionState : Type 0 where
  pub ready : Bool
  pub required_hardware : List String
  pub valve_controller_alternatives : List String
  pub active_valve_controller : Option String
  pub unavailable_hardware : List String

-- `next((x for x in xs if p(x)), None)`
abbrev pub first : (String → Bool) → List String → Option String
first p [] = none
first p (x ∷ xs) = if p x then some x else first p xs

-- `active and [active] or list(controllers)`: the empty id counts as none.
abbrev active_or : Option String → List String → List String
active_or none controllers = controllers
active_or (some active) controllers = if active == "" then controllers else active ∷ []

abbrev unless_active : Option String → List String → List String
unless_active none controllers = controllers
unless_active (some active) controllers = if active == "" then controllers else []

-- `_valve_action_state`
unfoldable pub valve_action_state : List String → Controls → List String → ActionState
unfolding is_ok
valve_action_state controllers controls required =
    let active = first (is_ok controls) controllers in
    let unavailable = keep (λ id. not (is_ok controls id)) required in
    record {
      ready = is_some active && is_empty unavailable;
      required_hardware = active_or active controllers ++ required;
      valve_controller_alternatives = controllers;
      active_valve_controller = active;
      unavailable_hardware = unless_active active controllers ++ unavailable;
    }

-- `controls[plugin_id]["ok"]`, where `none` is a KeyError
unfoldable pub ok_of : Controls → String → Option Bool
ok_of controls id = elim (Dict.get controls id) [ none ↦ none | some check ↦ some check.ok ]

abbrev pub motor_plugins : List String
motor_plugins = "motor-dri0050" ∷ "motor-tic249" ∷ []

-- What `shutdown` and `artificial_lung_stop` tell
pub record Report (F : Type 0) : Type 0 where
  pub ok : Bool
  pub status : String
  pub controls_ready : Bool
  pub telemetry : Telemetry
  pub controls : Controls
  pub holds : List (String × ActionState)
  pub valves : ActionState
  pub artificial_lung_start : ActionState
  pub artificial_lung_stop_ready : Bool
  pub full_confirmation : Bool
  pub preference : List String
  pub active : Option String
  pub fallback : List String

-- `if not valve_controllers: …`
abbrev pub or_modbus : List String → List String
or_modbus [] = "modbus-io" ∷ []
or_modbus (x ∷ xs) = x ∷ xs

abbrev pub head : List String → String
head [] = ""
head (x ∷ _) = x

-- the motors of a hold
unfoldable pub motors_of : {F : Type 0} → Floats F → Profile F → List String
motors_of fl profile = if fl.is_zero profile.pump_pct then [] else "motor-dri0050" ∷ []

module _ {F : Type 0} (fl : Floats F) (g : Gateway F) where
  -- `_hui_control_plugins`
  unfoldable pub hui_control_plugins : List String
  hui_control_plugins = g.valve_controllers ++ motor_plugins

  unfoldable pub read_controls : Controls
  unfolding hui_control_plugins controls_of read_plugin
  read_controls = controls_of (map (read_plugin g) hui_control_plugins) []

  -- The report, once the profiles are there
  unfoldable pub report_of : Option InputHealth → Dict (Profile F) → Option (Report F)
  unfolding read_controls valve_action_state ok_of motors_of telemetry_readiness is_ok ◌>>=◌
  report_of health profiles =
      let valve_controllers = or_modbus g.valve_controllers in
      let controls = read_controls in
      let valve_plugin =
        get_or (first (is_ok controls) valve_controllers) (head valve_controllers) in
      let telemetry = telemetry_readiness health in
      let controls_ready =
        any (is_ok controls) valve_controllers && all (is_ok controls) motor_plugins in
      let ready = controls_ready && get_or telemetry.ready true in
      ok_of controls "motor-tic249" >>= λ lung. ok_of controls valve_plugin >>= λ valve.
      (if valve then ok_of controls "motor-dri0050" else some false) >>= λ confirmed. some (record {
        ok = ready;
        status = if ready then "ready" else "degraded";
        controls_ready = controls_ready;
        telemetry = telemetry;
        controls = controls;
        holds =
            map
              (λ (p : String × Profile F).
                (p.0, valve_action_state valve_controllers controls (motors_of fl p.1)))
              profiles;
        valves = valve_action_state valve_controllers controls [];
        artificial_lung_start = valve_action_state valve_controllers controls ("motor-tic249" ∷ []);
        artificial_lung_stop_ready = lung;
        full_confirmation = confirmed;
        preference = valve_controllers;
        active = if is_ok controls valve_plugin then some valve_plugin else none;
        fallback = keep (λ id. not (id == valve_plugin)) valve_controllers;
      })

  -- An invalid OQL recipe raises a ValueError.
  unfoldable pub reported : Option InputHealth → Result (Dict (Profile F)) → Option (Report F)
  unfolding report_of
  reported health (ok profiles) = report_of health profiles
  reported health (err e) = none

  -- `build_hui_readiness`, where a ValueError or a KeyError gives `none`
  unfoldable pub build_hui_readiness : Config F → Option InputHealth → Option (Report F)
  unfolding reported get_hui_hold_profiles
  build_hui_readiness cfg health = reported health (get_hui_hold_profiles fl cfg)
