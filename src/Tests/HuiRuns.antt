-- ===== src/Tests/HuiRuns.antt =====
-- Runs of the hold recipes on a small gateway.
use oqlos.Base.{
  ℕ, String, ◌≡◌, refl, inl, true, false, not, ◌&&◌, ◌||◌, none, some, List, [], ◌∷◌, ◌++◌, ◌==◌,
  nat_eq, if◌then◌else◌, is_some, run,
}
use oqlos.Base.Dict
use oqlos.Hui.Readiness.{required_plugins_failure}
use oqlos.Hui.Profiles.{get_hui_hold_profiles}
use oqlos.Hui.Operation.{set_pump_op}
use oqlos.Models.{bool}
use oqlos.Hui.Gateway.{
  Gateway, State, Call, Reply, returned, raised, set_valve, set_pump, all_valves_off,
  replace_valves_exact,
}
use oqlos.Hui.Operation.{Floats, ok, succeeded, all_valve_ids}
use oqlos.Hui.Shutdown.{shutdown}
use oqlos.Hui.Shutdown.Trace.{off_calls, bulk_done, shutdown_failure, calls-shutdown}
use oqlos.Hui.Shutdown.Confirm.{each_done, after_bulk, ok-shutdown}
use oqlos.Hui.Profiles.{Config}
use oqlos.Hui.Hold.Requests.{Request, start, serve}
use oqlos.Hui.Hold.Invariant.{IsSafe, IsSettled, serves-IsSafe, serves-IsSettled}

abbrev naturals : Floats ℕ
naturals = record { of_int = λ n. n; is_zero = λ n. nat_eq n 0; is_zero-of_int = refl }

-- a mock gateway: every call succeeds, but closing valve-7 fails
abbrev answer : List (Call ℕ) → Call ℕ → Reply ℕ
answer calls (set_valve id value) = returned (bool (not (id == "valve-7")))
answer calls _ = returned (bool true)

abbrev rig : Gateway ℕ
rig = record {
  is_real = false;
  valve_controllers = "modbus-io" ∷ [];
  power = record { active = []; issue_codes = [] };
  plugin_cached_readiness = none;
  plugin_readiness = none;
  has_all_valves_off = false;
  has_replace_valves_exact = true;
  supports_exact_valve_replace = none;
  reply = answer;
}

abbrev config : Config ℕ
config = record {
  configured = [];
  oql = ok [];
  skip_idle_pump_off = true;
  default_valve_stagger_ms = 100;
  min_hold_ms = 0;
  normalize = λ s. s;
}

abbrev fresh : State ℕ
fresh = record { active_hold_key = none; active_hold_started_at = none; calls = [] }

abbrev requests : List Request
requests = start 5 "head-inflate" ∷ start 9 "lp-bleed" ∷ start 12 "no-such" ∷ []

answer_returns : (calls : List (Call ℕ)) (c : Call ℕ) (e : String) → answer calls c ≡ raised e → ⊥
answer_returns calls (set_valve id value) e h = cc h
answer_returns calls (set_pump pct) e h = cc h
answer_returns calls all_valves_off e h = cc h
answer_returns calls (replace_valves_exact ids) e h = cc h

fresh-IsSafe : IsSafe naturals fresh
fresh-IsSafe h = inl refl

fresh-IsSettled : IsSettled naturals rig config fresh
fresh-IsSettled = record { safe = fresh-IsSafe; held = λ key e. cc e }

serves-IsSafe_example : IsSafe naturals (run (serve naturals rig config) fresh requests)
serves-IsSafe_example =
    serves-IsSafe naturals rig config fresh requests
      (λ calls pct e. answer_returns calls (set_pump pct) e) fresh-IsSafe

serves-IsSettled_example :
    IsSettled naturals rig config (run (serve naturals rig config) fresh requests)
serves-IsSettled_example =
    serves-IsSettled naturals rig config fresh requests answer_returns fresh-IsSettled

-- the second hold is active, and its pump power is 0
settled_run :
    let s = run (serve naturals rig config) fresh requests in
    (s.active_hold_key ≡ some "lp-bleed")
    × (s.calls
        ≡ replace_valves_exact ("valve-5" ∷ "valve-2" ∷ [])
          ∷ set_pump 70
          ∷ set_pump 0
          ∷ replace_valves_exact ("valve-4" ∷ [])
          ∷ [])
unfolding serve get_hui_hold_profiles Dict.get required_plugins_failure set_pump_op
settled_run = (refl, refl)

calls-shutdown_example :
    let pump_off = fresh.calls ++ set_pump 0 ∷ [] in
    (shutdown naturals rig false fresh).1.calls ≡ (
      if is_some (shutdown_failure naturals rig false)
      then pump_off
      else pump_off ++ off_calls naturals rig pump_off)
calls-shutdown_example = calls-shutdown naturals rig false fresh

ok-shutdown_example :
    let calls = fresh.calls ++ set_pump 0 ∷ [] in
    (shutdown naturals rig false fresh).0.ok ≡ (
      not (is_some (shutdown_failure naturals rig false))
      && (succeeded naturals (rig.reply fresh.calls (set_pump 0))
          && (bulk_done naturals rig calls
              || each_done naturals rig (after_bulk naturals rig calls) all_valve_ids)))
ok-shutdown_example = ok-shutdown naturals rig false fresh

-- valve-7 is not confirmed, so the answer is not `ok`
shutdown_partial : (shutdown naturals rig false fresh).0.ok ≡ false
unfolding shutdown
shutdown_partial = refl
