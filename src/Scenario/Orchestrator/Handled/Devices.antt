-- ===== src/Scenario/Orchestrator/Handled/Devices.antt =====
-- What the handlers of valves, the pump and the sensors keep.
use oqlos.Base.{
  String, ◌≡◌, refl, ap, inl, inr, true, Option, none, some, List, ◌==◌, is_some, Bool-cases,
  Option-cases, get_or,
}
use mathlib.Core.Bool.{false≢true}
use oqlos.Base.Int.{pos}
use oqlos.Models.{int, float, Value, Peripheral, Step}
use oqlos.Cqrs.Projection.Sync.{shown}
use oqlos.State.{StateManager}
use oqlos.State.Broadcast.{broadcast_event}
use oqlos.State.Peripherals.{IsShown, send-IsShown}
use oqlos.Scenario.Orchestrator.{
  peripheral_update, python, Setup, Orchestrator, Run, Error, arithmetic_error, key_error, Result,
  ok, err, or_raise, nothing,
}
use oqlos.Scenario.Orchestrator.Keeps.{
  Ends, Keeps, Keeps-pure, Keeps-raise, Keeps-gets, Keeps-if, Keeps-bind, Keeps-then, Keeps-each,
  keeps_rules,
}
use oqlos.Scenario.Orchestrator.Devices.{
  medium_pressure, high_pressure, tell_peripherals, follow, sensor_behind, negative_pressure,
  is_zero, peripheral, set_value, quotient, sleep, on_peripheral, for_found, find, drive_valve,
  update_dependent_sensors,
}
use oqlos.Scenario.Orchestrator.Handled.{
  Allows, IsKept, On, Keeps-send, Keeps-output, Keeps-broadcast, Keeps-log_event, Keeps-call,
  Keeps-python,
}

-- `P`, and a peripheral of this id is shown
abbrev pub Has : {F : Type 0} → (StateManager F → Type 0) → String → StateManager F → Type 0
Has P id m = P m × IsShown (shown m.projections.peripherals id)

pub Has-IsKept :
    {F : Type 0} (zero_float : F) (P : StateManager F → Type 0) (id : String)
    → IsKept zero_float P
    → IsKept zero_float (Has P id)
unfolding broadcast_event
Has-IsKept zero_float P id k = record {
  managed = λ h. k.managed h.0;
  sends = λ m now command q h.
      (k.sends m now command q h.0, send-IsShown zero_float m now command id (k.managed h.0) h.1);
  broadcasts = λ m sends h. (k.broadcasts m sends h.0, h.1);
  requests = λ m now other control h.
      (k.requests m now other control h.0, send-IsShown zero_float m now _ id (k.managed h.0) h.1);
}

module _ {F V : Type 0} (rt : Setup F V) (E : Error → Type 0) (P : StateManager F → Type 0) where
  Ends-Has :
      {A : Type 0} (id : String) (r : Result A × Orchestrator F)
      → Ends E (On (Has P id)) r
      → Ends E (On P) r
  Ends-Has id (ok a, o) h = h.0
  Ends-Has id (err e, o) h = (h.0, h.1.0)

  found-Ends :
      (id : String) (f : Peripheral F → Run F (Unit {0}))
      → ((p : Peripheral F) → Keeps E (On (Has P id)) (f p))
      → (o : Orchestrator F) (found : Option (Peripheral F))
      → shown o.manager.projections.peripherals id ≡ found
      → On P o
      → Ends E (On P) (for_found rt found f o)
  found-Ends id f kf o none e h = h
  found-Ends id f kf o (some p) e h = Ends-Has id (f p o) ((kf p).at o (h, ap is_some e))

  pub Keeps-on_peripheral :
      (step : Step F) (f : String → Peripheral F → Run F (Unit {0}))
      → ((id : String) (p : Peripheral F) → Keeps E (On (Has P id)) (f id p))
      → Keeps E (On P) (on_peripheral rt step f)
  unfolding on_peripheral
  Keeps-on_peripheral step f kf =
      let id = get_or step.peripheral "" in
      Keeps-if (id == "") nothing _ (Keeps-pure tt) (record {
        at = λ o h.
            unfold find in
            found-Ends id (f id) (kf id) o (shown o.manager.projections.peripherals id) refl h;
      })

  pub Keeps-for_found :
      (found : Option (Peripheral F)) (f : Peripheral F → Run F (Unit {0}))
      → ((p : Peripheral F) → Keeps E (On P) (f p))
      → Keeps E (On P) (for_found rt found f)
  Keeps-for_found none f kf = Keeps-pure tt
  Keeps-for_found (some p) f kf = kf p

  item-Ends :
      (id : String) (o : Orchestrator F) (found : Option (Peripheral F))
      → IsShown found
      → On P o
      → Ends E (On P) (or_raise {F = F} found key_error o)
  item-Ends id o none shows h = absurd (false≢true shows)
  item-Ends id o (some p) shows h = h

  -- A peripheral that is shown is there.
  pub Keeps-peripheral :
      (id : String)
      → ((m : StateManager F) → P m → IsShown (shown m.projections.peripherals id))
      → Keeps E (On P) (peripheral rt id)
  unfolding peripheral
  Keeps-peripheral id there = record {
    at = λ o h. item-Ends id o (shown o.manager.projections.peripherals id) (there o.manager h) h;
  }

  pub Keeps-find : (id : String) → Keeps E (On P) (find rt id)
  unfolding find
  Keeps-find id = Keeps-gets _

module _ {F V : Type 0} (rt : Setup F V) (zero_float : F) (E : Error → Type 0)
    {P : StateManager F → Type 0} (k : IsKept zero_float P) where
  pub Keeps-set_value : (id : String) (x y : Value F) → Keeps E (On P) (set_value rt id x y)
  unfolding set_value
  Keeps-set_value id x y = Keeps-send rt zero_float E k _ refl

  pub Keeps-sleep : (seconds : F) → Keeps E (On P) (sleep rt seconds)
  unfolding sleep
  Keeps-sleep seconds = Keeps-output rt zero_float E k _

  pub Keeps-quotient :
      (x y : F) → (is_zero rt y ≡ true → E arithmetic_error) → Keeps E (On P) (quotient rt x y)
  unfolding quotient
  Keeps-quotient x y allowed = elim (Bool-cases (is_zero rt y)) [
    | inl z ↦ rw z (Keeps-raise arithmetic_error (allowed z))
    | inr n ↦ rw n (Keeps-pure _)
  ]

module _ {F V : Type 0} (rt : Setup F V) (zero_float : F) (E : Error → Type 0)
    (allowed : Allows rt E) (P : StateManager F → Type 0) (k : IsKept zero_float P) where
  pub Keeps-drive_valve :
      (step : Step F) (mode id : String) (p : Peripheral F)
      → Keeps E (On P) (drive_valve rt step mode id p)
  unfolding drive_valve
  Keeps-drive_valve step mode id p = search (
    keeps_rules,
    Keeps-set_value rt zero_float E k,
    Keeps-log_event rt zero_float E k allowed,
    Keeps-call rt zero_float E k allowed,
  )

  Keeps-one_decimal : (x : Value F) → Keeps E (On P) (python rt (rt.python.one_decimal x))
  Keeps-one_decimal x = Keeps-python rt zero_float E k (rt.python.one_decimal x) (allowed.unary x).4

  Keeps-follow :
      (sensor_id : String) (pressure : Value F → Option (Value F)) (power : Value F)
      (s : Peripheral F)
      → (pressure power ≡ none → E arithmetic_error)
      → Keeps E (On P) (follow rt sensor_id pressure power s)
  unfolding follow
  Keeps-follow sensor_id pressure power s h =
      Keeps-bind _ _ (Keeps-python rt zero_float E k (pressure power) h) λ x.
        Keeps-then _ _ (Keeps-set_value rt zero_float E k sensor_id x s.target_value) (
          Keeps-bind _ _ (Keeps-one_decimal x)
            λ text. Keeps-log_event rt zero_float E k allowed _ _)

  Keeps-sensor_behind :
      (valve_id sensor_id : String) (pressure : Value F → Option (Value F)) (power : Value F)
      → (pressure power ≡ none → E arithmetic_error)
      → Keeps E (On P) (sensor_behind rt valve_id sensor_id pressure power)
  unfolding sensor_behind
  Keeps-sensor_behind valve_id sensor_id pressure power h = search (
    keeps_rules,
    Keeps-for_found rt E P,
    λ (s : Peripheral F). Keeps-follow sensor_id pressure power s h,
  )

  times_float-none :
      (power : Value F) (x : F) → rt.python.mul power (float x) ≡ none → E arithmetic_error
  times_float-none power x = (allowed.binary power (float x)).2

  negative-none : (power : Value F) → negative_pressure rt power ≡ none → E arithmetic_error
  unfolding negative_pressure
  negative-none power e = elim (Option-cases (rt.python.neg power)) [
    | inl failed ↦ (allowed.unary power).0 failed
    | inr (x, done) ↦ times_float-none x _ (rw (done, negative_pressure) at e)
  ]

  Keeps-tell_peripherals : Keeps E (On P) (tell_peripherals rt)
  unfolding tell_peripherals
  Keeps-tell_peripherals = Keeps-bind {A = List (Peripheral F)} _ _ (Keeps-gets _) λ shown_now.
      Keeps-each _ shown_now λ p. Keeps-broadcast rt zero_float E k allowed (peripheral_update p)

  pub Keeps-update_dependent_sensors :
      (pump_id : String)
      → ((m : StateManager F) → P m → IsShown (shown m.projections.peripherals pump_id))
      → Keeps E (On P) (update_dependent_sensors rt pump_id)
  unfolding update_dependent_sensors
  Keeps-update_dependent_sensors pump_id there =
      Keeps-bind _ _ (Keeps-peripheral rt E P pump_id there) λ pump.
        let power = pump.current_value in
        Keeps-then _ _
          (Keeps-sensor_behind "valve-nc" "nc-sensor" (negative_pressure rt) power
            (negative-none power))
          (Keeps-then _ _
            (Keeps-sensor_behind "valve-sc" "sc-sensor" (medium_pressure rt) power
              (times_float-none power (rt.floats.decimal (pos 25) 2)))
            (Keeps-then _ _
              (Keeps-sensor_behind "valve-wc" "wc-sensor" (high_pressure rt) power
                (allowed.binary power (int (pos 4))).2)
              Keeps-tell_peripherals))
