-- ===== src/Hui/Operation.antt =====
-- The hardware operations of oqlos/hardware/hui_hold.py and the records that they leave. The
-- wall-clock fields of a record (`started_at`, `completed_at`, `duration_ms`) are left out.
use oqlos.Base.{
  ℕ, String, ◌≡◌, Bool, true, false, Option, none, some, List, [], ◌∷◌, ◌==◌, if◌then◌else◌,
}
use oqlos.Models.{Value, Fields, dict, field, end}
use oqlos.Models.Truth.{truthy}
use oqlos.Hui.Gateway.{
  Gateway, State, Reply, returned, raised, call, set_valve, set_pump, all_valves_off,
}

-- What the recipes use of Python's floats.
pub record Floats (F : Type 0) : Type 0 where
  pub of_int : ℕ → F
  pub is_zero : F → Bool
  pub is_zero-of_int : is_zero (of_int 0) ≡ true

-- A result, or an exception that nobody has caught yet.
pub data Result (A : Type 0) : Type 0 where
  ok : A → Result A
  err : String → Result A

abbrev pub all_valve_ids : List String
all_valve_ids =
    "valve-1" ∷ "valve-2" ∷ "valve-3" ∷ "valve-4" ∷ "valve-5" ∷ "valve-6" ∷ "valve-7" ∷ "valve-8"
    ∷ "valve-nc" ∷ "valve-sc" ∷ "valve-wc" ∷ []

-- The fields besides `operation` and `ok`: what the operation was about.
pub data Detail (F : Type 0) : Type 0 where
  valve : String → Bool → Detail F
  power_pct : F → Detail F
  valve_ids : List String → Detail F
  seconds : ℕ → Detail F
  plain : Detail F

pub record Operation (F : Type 0) : Type 0 where
  pub operation : String
  pub ok : Bool
  pub detail : Detail F
  pub reply : Option (Reply F)

-- `"key" in value` and `value.get("key")`
abbrev look_up : {F : Type 0} → String → Fields F → Option (Value F)
look_up key end = none
look_up key (field k v rest) = if k == key then some v else look_up key rest

module _ {F : Type 0} (fl : Floats F) where
  -- of a dict: its `success`, else its `ok`, else whether it has any entry
  dict_success : Fields F → Bool
  unfolding truthy
  dict_success fields = elim (look_up "success" fields) [
    | some v ↦ truthy fl.is_zero v
    | none ↦ elim (look_up "ok" fields) [
      | some v ↦ truthy fl.is_zero v
      | none ↦ truthy fl.is_zero (dict fields)
    ]
  ]

  -- `_success`
  unfoldable pub success : Value F → Bool
  unfolding dict_success
  success (dict fields) = dict_success fields
  success value = truthy fl.is_zero value

  -- whether a call returned, with success
  unfoldable pub succeeded : Reply F → Bool
  unfolding success
  succeeded (returned value) = success value
  succeeded (raised e) = false

  -- an operation whose exception is caught: `ok` is false then
  unfoldable pub caught : String → Detail F → Reply F → Operation F
  unfolding succeeded
  caught name detail r = record {
    operation = name;
    ok = succeeded r;
    detail = detail;
    reply = some r;
  }

  -- an operation whose exception goes on
  unfoldable pub uncaught : String → Detail F → Reply F → Result (Operation F)
  unfolding caught
  uncaught name detail (returned value) = ok (caught name detail (returned value))
  uncaught name detail (raised e) = err e

module _ {F : Type 0} (fl : Floats F) (g : Gateway F) where
  -- `_set_valve`
  unfoldable pub set_valve_op : String → Bool → State F → Result (Operation F) × State F
  unfolding call uncaught
  set_valve_op valve_id value s =
      let (r, s') = call g (set_valve valve_id value) s in
      (uncaught fl "set_valve" (valve valve_id value) r, s')

  -- `_set_pump`
  unfoldable pub set_pump_op : F → State F → Result (Operation F) × State F
  unfolding call uncaught
  set_pump_op pct s =
      let (r, s') = call g (set_pump pct) s in (uncaught fl "set_pump" (power_pct pct) r, s')

  -- `_set_pump_best_effort`
  unfoldable pub set_pump_best_effort : F → State F → Operation F × State F
  unfolding call caught
  set_pump_best_effort pct s =
      let (r, s') = call g (set_pump pct) s in (caught fl "set_pump" (power_pct pct) r, s')

  -- `_all_valves_off`
  unfoldable pub all_valves_off_op : State F → Option (Operation F) × State F
  unfolding call caught
  all_valves_off_op s =
      let (r, s') = call g all_valves_off s in
      if g.has_all_valves_off
      then (some (caught fl "all_valves_off" (valve_ids all_valve_ids) r), s')
      else (none, s)

  -- the loop over the valves in `_shutdown_all_hui_hardware_unlocked`
  unfoldable pub each_valve_off : List String → State F → List (Operation F) × State F
  unfolding call caught
  each_valve_off [] s = ([], s)
  each_valve_off (valve_id ∷ ids) s =
      let (r, s') = call g (set_valve valve_id false) s in
      let (rest, s'') = each_valve_off ids s' in
      (caught fl "set_valve" (valve valve_id false) r ∷ rest, s'')
