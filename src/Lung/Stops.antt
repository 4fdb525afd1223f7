-- ===== src/Lung/Stops.antt =====
-- What the commands that stop the lung do, whatever the supply.
use oqlos.Base.{
  String, ◌≡◌, refl, ap, inl, inr, true, false, some, [], ◌∷◌, ◌++◌, arith, ◌==◌, eq_iff,
  Bool-cases, one_of,
}
use oqlos.Base.Dict.{Dict}
use oqlos.Base.Float.{Float}
use oqlos.Base.Texts.{strip, replace}
use oqlos.Models.{Value, Fields}
use oqlos.Power.Policy.{Python, safe_state, command_power_policy}
use oqlos.Power.Sampling.{Moment, ensure_power_safe}
use oqlos.Lung.{stop_lung, Motor, Lung, Outcome, answer, called, on_motor}
use oqlos.Lung.Commands.{
  permitted, gated_by, dispatched, lung_cmd_lung_stop, lung_cmd_emergency_stop,
  lung_command_handlers, execute_command,
}
use oqlos.Lung.Calls.{same-after_call}

-- The motor was told to stop, and the lung is noted as not running.
pub record IsStopped {F : Type 0} (l l' : Lung F) : Type 0 where
  pub reached : l'.calls ≡ l.calls ++ stop_lung ∷ []
  pub stopped : l'.state.running ≡ false

module _ {F : Type 0} (fl : Float F) (py : Python F) (m : Motor F) (params : Dict (Value F)) where
  stop_call :
      (command : String) (result : Fields F) (l : Lung F)
      → m.is_real ≡ true
      → (on_motor (some m) stop_lung (answer command result) l).1 ≡ called stop_lung l
  stop_call command result l real =
      rw real (same-after_call (m.reply l.calls stop_lung) command result (called stop_lung l))

  IsStopped-lung_stop :
      (l : Lung F) → m.is_real ≡ true → IsStopped l (lung_cmd_lung_stop fl py (some m) params l).1
  unfolding lung_cmd_lung_stop
  IsStopped-lung_stop l real = record {
    reached = ap (λ (x : Lung F). x.calls) (stop_call "lung_stop" _ _ real);
    stopped = ap (λ (x : Lung F). x.state.running) (stop_call "lung_stop" _ _ real);
  }

  IsStopped-emergency_stop :
      (l : Lung F)
      → m.is_real ≡ true
      → IsStopped l (lung_cmd_emergency_stop fl py (some m) params l).1
  unfolding lung_cmd_emergency_stop
  IsStopped-emergency_stop l real = record {
    reached = ap (λ (x : Lung F). x.calls) (stop_call "emergency_stop" _ _ real);
    stopped = ap (λ (x : Lung F). x.state.running) (stop_call "emergency_stop" _ _ real);
  }

  -- The gate lets a safe command through.
  IsStopped-dispatched :
      (moment : Moment) (cmd : String) (handler : Lung F → Outcome F × Lung F) (l : Lung F)
      → command_power_policy fl py cmd params ≡ some safe_state
      → IsStopped l (handler l).1
      → IsStopped l (dispatched fl py (some m) params moment cmd (some handler) l).1
  unfolding dispatched gated_by permitted ensure_power_safe
  IsStopped-dispatched moment cmd handler l policy h = rw policy h

  policy-lung_stop :
      py.lower "lung_stop" ≡ "lung_stop"
      → command_power_policy fl py "lung_stop" params ≡ some safe_state
  unfolding command_power_policy strip replace
  policy-lung_stop e = rw e refl

  policy-emergency_stop :
      py.lower "emergency_stop" ≡ "emergency_stop"
      → command_power_policy fl py "emergency_stop" params ≡ some safe_state
  unfolding command_power_policy strip replace
  policy-emergency_stop e = rw e refl

  -- On a real lung, a command to stop, in any case and with blanks around it, tells the motor to
  -- stop and notes the lung as not running, whatever the supply, the parameters and the motor's
  -- answer. `lower` keeps the two names of commands that are lower case already.
  pub execute_command-IsStopped :
      (moment : Moment) (command : String) (l : Lung F)
      → m.is_real ≡ true
      → one_of (py.lower (strip command)) ("lung_stop" ∷ "emergency_stop" ∷ []) ≡ true
      → py.lower "lung_stop" ≡ "lung_stop"
      → py.lower "emergency_stop" ≡ "emergency_stop"
      → IsStopped l (execute_command fl py (some m) params moment command l).1
  unfolding execute_command lung_command_handlers
  execute_command-IsStopped moment command l real named stop_lower emergency_lower =
      let cmd = py.lower (strip command) in
      elim (Bool-cases (cmd == "lung_stop")) [
        | inl e ↦ rw ((eq_iff cmd "lung_stop").0 e) (
            IsStopped-dispatched moment "lung_stop" _ l (policy-lung_stop stop_lower)
              (IsStopped-lung_stop l real))
        | inr e ↦
            let other : cmd ≡ "emergency_stop" =
              (eq_iff cmd "emergency_stop").0 (ground (arith, e, named)) in
            rw other (
              IsStopped-dispatched moment "emergency_stop" _ l
                (policy-emergency_stop emergency_lower) (IsStopped-emergency_stop l real))
      ]
