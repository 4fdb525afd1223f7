-- ===== src/Scenario/Orchestrator/Handled/Steps.antt =====
-- What the handlers of a step keep.
use oqlos.Base.{ℕ, String, ◌≡◌, true, Option, none, some, ◌==◌}
use oqlos.Base.Int.{ℤ, pos}
use oqlos.Models.{Value, null, int, Peripheral, Step}
use oqlos.Cqrs.Projection.Sync.{shown}
use oqlos.State.{StateManager}
use oqlos.State.Peripherals.{IsShown}
use oqlos.Scenario.Orchestrator.{Setup, Error, arithmetic_error, python}
use oqlos.Scenario.Orchestrator.Keeps.{
  Keeps, Keeps-pure, Keeps-if, Keeps-bind, Keeps-then, Keeps-each,
}
use oqlos.Scenario.Orchestrator.Devices.{is_zero, is_true}
use oqlos.Scenario.Orchestrator.Steps.{
  between, ramp_once, ramp, drive_pump, cycles, execute_lung_step, asks_wait, wait_for,
  execute_wait_step, noted, read_once, rounds,
}
use oqlos.Scenario.Orchestrator.Handled.{
  Allows, IsKept, On, Keeps-log_event, Keeps-call, Keeps-python,
}
use oqlos.Scenario.Orchestrator.Handled.Devices.{
  Keeps-set_value, Keeps-sleep, Keeps-quotient, Keeps-update_dependent_sensors, Keeps-peripheral,
}

-- Dividing by the speed may fail only as an error that is allowed.
abbrev pub IsDivisor : {F V : Type 0} → Setup F V → (Error → Type 0) → F → Type 0
IsDivisor rt E speed = is_zero rt speed ≡ true → E arithmetic_error

module _ {F V : Type 0} (rt : Setup F V) (zero_float : F) (E : Error → Type 0)
    (allowed : Allows rt E) (P : StateManager F → Type 0) (k : IsKept zero_float P) where
  computes :
      {A : Type 0} (m : Option A) → (m ≡ none → E arithmetic_error) → Keeps E (On P) (python rt m)
  computes m h = Keeps-python rt zero_float E k m h

  Keeps-between : (start target : Value F) (n : ℕ) → Keeps E (On P) (between rt start target n)
  unfolding between
  Keeps-between start target n =
      Keeps-bind _ _ (computes (rt.python.sub target start) (allowed.binary target start).1) λ way.
        Keeps-bind _ _ (computes (rt.python.mul way (int (pos n))) (allowed.binary way _).2) λ part.
          Keeps-bind _ _ (computes (rt.python.div part (int (pos 10))) (allowed.binary part _).3)
            λ tenth. computes (rt.python.add start tenth) (allowed.binary start tenth).0

  Keeps-cycles : (value : Value F) → Keeps E (On P) (cycles rt value)
  unfolding cycles
  Keeps-cycles value =
      Keeps-if (is_true rt value) _ _
        (Keeps-bind _ _ (computes (rt.python.is_positive value) (allowed.unary value).1) λ positive.
          Keeps-if positive _ _ (computes (rt.python.to_int value) (allowed.unary value).2)
            (Keeps-pure (pos 5)))
        (Keeps-pure (pos 5))

  pub Keeps-execute_lung_step :
      (step : Step F) (mode : String) → Keeps E (On P) (execute_lung_step rt step mode)
  unfolding execute_lung_step
  Keeps-execute_lung_step step mode = Keeps-bind _ _ (Keeps-cycles step.value) λ n.
      Keeps-if (mode == "auto") _ _
        (Keeps-then _ _ (Keeps-log_event rt zero_float E k allowed _ _)
          (Keeps-then _ _ (Keeps-call rt zero_float E k allowed _) (Keeps-pure tt)))
        (Keeps-pure tt)

  module _ (speed : F) (divides : IsDivisor rt E speed) where
    Keeps-wait_for : (d : Option ℤ) → Keeps E (On P) (wait_for rt d speed)
    Keeps-wait_for none = Keeps-pure tt
    Keeps-wait_for (some d) =
        Keeps-bind _ _ (Keeps-quotient rt zero_float E k _ speed divides)
          λ pause. Keeps-sleep rt zero_float E k pause

    pub Keeps-execute_wait_step : (step : Step F) → Keeps E (On P) (execute_wait_step rt step speed)
    unfolding execute_wait_step
    Keeps-execute_wait_step step = Keeps-wait_for (asks_wait rt step.duration)

    -- The peripheral of these is shown.
    module _ (id : String)
        (there : (m : StateManager F) → P m → IsShown (shown m.projections.peripherals id)) where
      Keeps-ramp_once :
          (p : Peripheral F) (target : Value F) (n : ℕ)
          → Keeps E (On P) (ramp_once rt id p target speed n)
      unfolding ramp_once
      Keeps-ramp_once p target n = Keeps-bind _ _ (Keeps-between p.current_value target n) λ value.
          Keeps-then _ _ (Keeps-set_value rt zero_float E k id value p.target_value) (
            Keeps-then _ _ (Keeps-update_dependent_sensors rt zero_float E allowed P k id there) (
              Keeps-bind _ _ (Keeps-quotient rt zero_float E k _ speed divides)
                λ pause. Keeps-sleep rt zero_float E k pause))

      pub Keeps-drive_pump :
          (step : Step F) (mode : String) (p : Peripheral F)
          → Keeps E (On P) (drive_pump rt step mode speed id p)
      unfolding drive_pump ramp
      Keeps-drive_pump step mode p =
          Keeps-if _ _ _
            (Keeps-then _ _ (Keeps-each _ (rounds rt) (Keeps-ramp_once p step.value)) (
              Keeps-then _ _ (Keeps-set_value rt zero_float E k id step.value step.value) (
                Keeps-then _ _ (Keeps-log_event rt zero_float E k allowed _ _) (
                  Keeps-bind _ _
                    (computes (rt.python.to_float step.value) (allowed.unary step.value).3)
                    λ power.
                      Keeps-then _ _ (Keeps-call rt zero_float E k allowed _) (Keeps-pure tt)))))
            (Keeps-pure tt)

  module _ (id : String)
      (there : (m : StateManager F) → P m → IsShown (shown m.projections.peripherals id)) where
    Keeps-noted : (p : Peripheral F) (value : Value F) → Keeps E (On P) (noted rt id p value)
    unfolding noted
    Keeps-noted p null = Keeps-pure p
    Keeps-noted p value =
        Keeps-then _ _ (Keeps-set_value rt zero_float E k id value p.target_value)
          (Keeps-peripheral rt E P id there)

    pub Keeps-read_once : (p : Peripheral F) → Keeps E (On P) (read_once rt id p)
    unfolding read_once
    Keeps-read_once p = Keeps-bind _ _ (Keeps-call rt zero_float E k allowed _) λ value.
        Keeps-bind _ _ (Keeps-noted p value) λ q. Keeps-log_event rt zero_float E k allowed _ _
