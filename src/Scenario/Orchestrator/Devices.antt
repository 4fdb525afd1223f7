-- ===== src/Scenario/Orchestrator/Devices.antt =====
-- What the handlers of a step of oqlos/core/executor.py do with the peripherals: valves, and the
-- sensors that follow the pump.
use oqlos.Base.{String, Bool, true, Option, none, some, ◌==◌, if◌then◌else◌, get_or, all}
use oqlos.Base.Int.{pos}
use oqlos.Base.Dict
use oqlos.Models.{Value, int, float, Peripheral, PeripheralMode, Step}
use oqlos.Models.Truth.{truthy}
use oqlos.Cqrs.Command.{set_peripheral_value}
use oqlos.Cqrs.Projection.Sync.{shown}
use oqlos.Scenario.Orchestrator.{
  Setup, Run, info, valve_is, sensor_follows, set_valve, peripheral_update, slept, key_error,
  arithmetic_error, pure, raise, gets, or_raise, nothing, ◌>>=◌, ◌>>◌, each, send, output,
  broadcast, log_event, call, python,
}

module _ {F V : Type 0} (rt : Setup F V) where
  open rt use {floats}

  unfoldable pub is_zero : F → Bool
  is_zero x = floats.eq x (floats.of_int (pos 0))

  -- `bool(x)`
  abbrev pub is_true : Value F → Bool
  is_true = truthy is_zero

  -- `peripherals.get(id)`
  unfoldable pub find : String → Run F (Option (Peripheral F))
  find id = gets λ o. shown o.manager.projections.peripherals id

  -- `peripherals[id]`
  unfoldable pub peripheral : String → Run F (Peripheral F)
  unfolding find
  peripheral id = do p ← find id; or_raise p key_error

  unfoldable pub set_value : String → Value F → Value F → Run F (Unit {0})
  unfolding send
  set_value id current target = send rt (
      set_peripheral_value
        (record { peripheral_id = id; current_value = current; target_value = target }))

  -- x / y
  unfoldable pub quotient : F → F → Run F F
  unfolding is_zero
  quotient x y = if is_zero y then raise arithmetic_error else pure (floats.div x y)

  unfoldable pub sleep : F → Run F (Unit {0})
  unfolding output
  sleep seconds = output rt (slept seconds)

  abbrev pub for_found :
      Option (Peripheral F) → (Peripheral F → Run F (Unit {0})) → Run F (Unit {0})
  for_found none f = nothing
  for_found (some p) f = f p

  -- `if step.peripheral and step.peripheral in self.state_manager.peripherals: …`
  unfoldable pub on_peripheral :
      Step F → (String → Peripheral F → Run F (Unit {0})) → Run F (Unit {0})
  unfolding find
  on_peripheral step f =
      let id = get_or step.peripheral "" in
      if id == "" then nothing else do p ← find id; for_found p (f id)

  -- `mode == 'auto' or peripheral.mode == 'auto'`
  abbrev pub drives : String → PeripheralMode → Bool
  drives mode PeripheralMode.auto = true
  drives mode PeripheralMode.manual = mode == "auto"

  -- the body of the step, where its peripheral is there
  unfoldable pub drive_valve : Step F → String → String → Peripheral F → Run F (Unit {0})
  unfolding set_value log_event call
  drive_valve step mode id p =
      let drive : Run F (Unit {0}) = do
        set_value id step.value step.value
        log_event rt info (valve_is p.name (is_true step.value))
        call rt (set_valve id (is_true step.value))
        nothing
      in if drives mode p.mode then drive else nothing

  unfoldable pub execute_valve_step : Step F → String → Run F (Unit {0})
  unfolding on_peripheral drive_valve
  execute_valve_step step mode = on_peripheral step (drive_valve step mode)

  -- A sensor behind an open valve follows the power of the pump.
  unfoldable pub follow :
      String → (Value F → Option (Value F)) → Value F → Peripheral F → Run F (Unit {0})
  unfolding set_value log_event
  follow sensor_id pressure power s = do
    value ← python rt (pressure power)
    set_value sensor_id value s.target_value
    text ← python rt (rt.python.one_decimal value)
    log_event rt info (sensor_follows sensor_id text)

  unfoldable pub sensor_behind :
      String → String → (Value F → Option (Value F)) → Value F → Run F (Unit {0})
  unfolding find follow
  sensor_behind valve_id sensor_id pressure power = do
    valve ← find valve_id
    for_found valve λ v.
        let behind : Run F (Unit {0}) = do
          sensor ← find sensor_id
          for_found sensor (follow sensor_id pressure power)
        in if is_true v.current_value then behind else nothing

  unfoldable pub negative_pressure : Value F → Option (Value F)
  negative_pressure power = elim (rt.python.neg power) [
    | none ↦ none
    | some x ↦ rt.python.mul x (float (floats.decimal (pos 6) 1))
  ]

  abbrev pub medium_pressure : Value F → Option (Value F)
  medium_pressure power = rt.python.mul power (float (floats.decimal (pos 25) 2))

  abbrev pub high_pressure : Value F → Option (Value F)
  high_pressure power = rt.python.mul power (int (pos 4))

  unfoldable pub tell_peripherals : Run F (Unit {0})
  unfolding broadcast
  tell_peripherals = do
    all ← gets λ o. Dict.values o.manager.projections.peripherals.items
    each (λ p. broadcast rt (peripheral_update p)) all

  unfoldable pub update_dependent_sensors : String → Run F (Unit {0})
  unfolding peripheral sensor_behind negative_pressure tell_peripherals
  update_dependent_sensors pump_id = do
    pump ← peripheral pump_id
    sensor_behind "valve-nc" "nc-sensor" negative_pressure pump.current_value
    sensor_behind "valve-sc" "sc-sensor" medium_pressure pump.current_value
    sensor_behind "valve-wc" "wc-sensor" high_pressure pump.current_value
    tell_peripherals
