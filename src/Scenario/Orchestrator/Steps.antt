-- ===== src/Scenario/Orchestrator/Steps.antt =====
-- The handlers of one step, and `execute_step` of oqlos/core/executor.py.
use oqlos.Base.{
  ℕ, zero, String, Bool, true, false, not, Option, none, some, List, [], ◌∷◌, ◌==◌, if◌then◌else◌,
}
use oqlos.Base.Int.{ℤ, pos}
use oqlos.Models.{Value, null, bool, int, float, Peripheral, Step}
use oqlos.Scenario.Orchestrator.{
  Setup, Run, info, lung_cycles, pump_power, sensor_reading, set_pump, set_lung, stop_lung,
  read_sensor, pure, nothing, ◌>>=◌, ◌>>◌, each, log_event, call, python,
}
use oqlos.Scenario.Orchestrator.Devices.{
  is_zero, is_true, peripheral, set_value, quotient, sleep, on_peripheral, drives,
  update_dependent_sensors,
}

module _ {F V : Type 0} (rt : Setup F V) where
  open rt use {floats}

  -- start + (target - start) * n / 10
  unfoldable pub between : Value F → Value F → ℕ → Run F (Value F)
  between start target n = do
    way ← python rt (rt.python.sub target start)
    part ← python rt (rt.python.mul way (int (pos n)))
    tenth ← python rt (rt.python.div part (int (pos 10)))
    python rt (rt.python.add start tenth)

  abbrev pub rounds : List ℕ
  rounds = 1 ∷ 2 ∷ 3 ∷ 4 ∷ 5 ∷ 6 ∷ 7 ∷ 8 ∷ 9 ∷ 10 ∷ []

  unfoldable pub ramp_once : String → Peripheral F → Value F → F → ℕ → Run F (Unit {0})
  unfolding between set_value update_dependent_sensors quotient sleep
  ramp_once id p target speed n = do
    value ← between p.current_value target n
    set_value rt id value p.target_value
    update_dependent_sensors rt id
    pause ← quotient rt (floats.decimal (pos 1) 1) speed
    sleep rt pause

  unfoldable pub ramp : String → Peripheral F → Value F → F → Run F (Unit {0})
  unfolding ramp_once
  ramp id p target speed = each (ramp_once id p target speed) rounds

  unfoldable pub drive_pump : Step F → String → F → String → Peripheral F → Run F (Unit {0})
  unfolding ramp log_event call
  drive_pump step mode speed id p =
      let drive : Run F (Unit {0}) = do
        ramp id p step.value speed
        set_value rt id step.value step.value
        log_event rt info (pump_power step.value)
        power ← python rt (rt.python.to_float step.value)
        call rt (set_pump power)
        nothing
      in if drives rt mode p.mode then drive else nothing

  unfoldable pub execute_pump_step : Step F → String → F → Run F (Unit {0})
  unfolding on_peripheral drive_pump
  execute_pump_step step mode speed = on_peripheral rt step (drive_pump step mode speed)

  -- `x == 0`
  unfoldable pub equals_zero : Value F → Bool
  unfolding is_zero
  equals_zero (bool b) = not b
  equals_zero (int (pos zero)) = true
  equals_zero (float x) = is_zero rt x
  equals_zero _ = false

  -- int(step.value) if step.value and step.value > 0 else 5
  unfoldable pub cycles : Value F → Run F ℤ
  cycles value =
      let asked : Run F ℤ = do
        positive ← python rt (rt.python.is_positive value)
        if positive then python rt (rt.python.to_int value) else pure (pos 5)
      in if is_true rt value then asked else pure (pos 5)

  unfoldable pub execute_lung_step : Step F → String → Run F (Unit {0})
  unfolding cycles log_event call equals_zero
  execute_lung_step step mode = do
    n ← cycles step.value
    let drive : Run F (Unit {0}) = do
      log_event rt info (lung_cycles n)
      call rt (if equals_zero step.value then stop_lung else set_lung n)
      nothing
    if mode == "auto" then drive else nothing

  abbrev pub asks_wait : Option ℤ → Option ℤ
  asks_wait none = none
  asks_wait (some (pos zero)) = none
  asks_wait (some d) = some d

  abbrev pub wait_for : Option ℤ → F → Run F (Unit {0})
  wait_for none speed = nothing
  wait_for (some d) speed = do
    pause ← quotient rt (floats.div (floats.of_int d) (floats.of_int (pos 1000))) speed
    sleep rt pause

  unfoldable pub execute_wait_step : Step F → F → Run F (Unit {0})
  unfolding quotient sleep
  execute_wait_step step speed = wait_for (asks_wait step.duration) speed

  -- `if hw_value is not None: …`, and the peripheral as it is after that
  unfoldable pub noted : String → Peripheral F → Value F → Run F (Peripheral F)
  unfolding set_value peripheral
  noted id p null = pure p
  noted id p value = do set_value rt id value p.target_value; peripheral rt id

  unfoldable pub read_once : String → Peripheral F → Run F (Unit {0})
  unfolding call noted log_event
  read_once id p = do
    value ← call rt (read_sensor id)
    q ← noted id p value
    log_event rt info (sensor_reading q.name q.current_value q.unit)

  unfoldable pub execute_sensor_read_step : Step F → Run F (Unit {0})
  unfolding on_peripheral read_once
  execute_sensor_read_step step = on_peripheral rt step read_once
