-- ===== src/Lung/Held.antt =====
-- What the power gate holds back of the commands of the lung.
use oqlos.Base.{
  ℕ, String, ◌≡◌, refl, ap, ◌∙◌, inl, inr, Bool, true, false, not, ◌&&◌, Option, none, some, arith,
  ◌==◌, eq_iff, if◌then◌else◌, Bool-cases,
}
use oqlos.Lung.Calls.{moves, moves-health, moves-on_motor, state-on_motor}
use oqlos.Base.Dict.{Dict}
use oqlos.Base.Float.{Float}
use oqlos.Base.Texts.{strip, replace}
use oqlos.Models.{Value}
use oqlos.Power.{has_active_undervoltage, power_actuation_failure}
use oqlos.Power.Policy.{Python, Policy, actuation, command_power_policy}
use oqlos.Power.Sampling.{
  Sampling, Moment, OqlosError, snapshot_of, sample_power_telemetry, ensure_power_safe,
}
use oqlos.Lung.{Motor, Lung, Outcome}
use oqlos.Lung.Commands.{
  permitted, gated_by, dispatched, lpm_set, lung_cmd_set_lpm, lung_cmd_lung_stop,
  get_peripheral_status, lung_cmd_lung_status, lung_cmd_emergency_stop, lung_command_handlers,
  execute_command,
}

-- Between two states, the motor was not told to move, and the lung was not noted as started.
pub record IsHeld {F : Type 0} (l l' : Lung F) : Type 0 where
  pub moved : moves l'.calls ≡ moves l.calls
  pub started : (l'.state.running && not l.state.running) ≡ false

running_false : (b : Bool) → (b && not b) ≡ false
running_false b = ground arith

module _ {F : Type 0} where
  IsHeld-refl : (l : Lung F) → IsHeld l l
  IsHeld-refl l = record { moved = refl; started = running_false l.state.running }

IsHeld-get_peripheral_status :
    {F : Type 0} (fl : Float F) (py : Python F) (motor : Option (Motor F)) (params : Dict (Value F))
    (l : Lung F)
    → IsHeld l (get_peripheral_status fl py motor params l).1
unfolding get_peripheral_status
IsHeld-get_peripheral_status fl py none params l = IsHeld-refl l
IsHeld-get_peripheral_status fl py (some m) params l = elim (Bool-cases m.is_real) [
  | inl e ↦ rw e (record { moved = moves-health l.calls; started = running_false l.state.running })
  | inr e ↦ rw e (IsHeld-refl l)
]

module _ {F : Type 0} (fl : Float F) (py : Python F) (motor : Option (Motor F))
    (params : Dict (Value F)) where
  IsHeld-lpm_set : (lpm : Option ℕ) (l : Lung F) → IsHeld l (lpm_set fl py motor params lpm l).1
  unfolding lpm_set
  IsHeld-lpm_set none l = IsHeld-refl l
  IsHeld-lpm_set (some lpm) l = record { moved = refl; started = running_false l.state.running }

  IsHeld-set_lpm : (l : Lung F) → IsHeld l (lung_cmd_set_lpm fl py motor params l).1
  unfolding lung_cmd_set_lpm
  IsHeld-set_lpm l = IsHeld-lpm_set _ l

  IsHeld-lung_stop : (l : Lung F) → IsHeld l (lung_cmd_lung_stop fl py motor params l).1
  unfolding lung_cmd_lung_stop
  IsHeld-lung_stop l = record {
    moved = moves-on_motor motor "lung_stop" _ _;
    started = rw (state-on_motor motor "lung_stop" _ _) refl;
  }

  IsHeld-emergency_stop : (l : Lung F) → IsHeld l (lung_cmd_emergency_stop fl py motor params l).1
  unfolding lung_cmd_emergency_stop
  IsHeld-emergency_stop l = record {
    moved = moves-on_motor motor "emergency_stop" _ _;
    started = rw (state-on_motor motor "emergency_stop" _ _) refl;
  }

  IsHeld-lung_status : (l : Lung F) → IsHeld l (lung_cmd_lung_status fl py motor params l).1
  unfolding lung_cmd_lung_status
  IsHeld-lung_status l = IsHeld-get_peripheral_status fl py motor params l

  -- the gate

  IsHeld-permitted :
      (refusal : Option OqlosError) (handler : Lung F → Outcome F × Lung F) (l : Lung F)
      → ((l' : Lung F) → IsHeld l' (handler l').1)
      → IsHeld l (permitted fl py motor params refusal handler l).1
  unfolding permitted
  IsHeld-permitted none handler l h = h l
  IsHeld-permitted (some e) handler l h = IsHeld-refl l

  IsHeld-sampled :
      (sampling : Sampling) (l l' : Lung F)
      → IsHeld (record l { sampling = sampling }) l'
      → IsHeld l l'
  IsHeld-sampled sampling l l' h = record { moved = h.moved; started = h.started }

  IsHeld-gated_by :
      (moment : Moment) (m : Motor F) (cmd : String) (policy : Option Policy)
      (handler : Lung F → Outcome F × Lung F) (l : Lung F)
      → ((l' : Lung F) → IsHeld l' (handler l').1)
      → IsHeld l (gated_by fl py motor params moment m cmd policy handler l).1
  unfolding gated_by
  IsHeld-gated_by moment m cmd none handler l h = IsHeld-refl l
  IsHeld-gated_by moment m cmd (some policy) handler l h =
      IsHeld-sampled _ l _ (IsHeld-permitted _ handler _ h)

  -- An actuation of a real motor is refused where the sample tells an undervoltage.
  IsHeld-refused :
      (moment : Moment) (m : Motor F) (cmd : String) (handler : Lung F → Outcome F × Lung F)
      (l : Lung F)
      → m.is_real ≡ true
      → has_active_undervoltage (snapshot_of (sample_power_telemetry l.sampling moment).power)
        ≡ true
      → IsHeld l (gated_by fl py motor params moment m cmd (some actuation) handler l).1
  unfolding gated_by permitted ensure_power_safe power_actuation_failure
  IsHeld-refused moment m cmd handler l real low =
      rw (real, low) (record { moved = refl; started = running_false l.state.running })

  policy-lung_start :
      py.lower "lung_start" ≡ "lung_start"
      → command_power_policy fl py "lung_start" params ≡ some actuation
  unfolding command_power_policy strip replace
  policy-lung_start e = rw e refl

  policy-lung_cycle :
      py.lower "lung_cycle" ≡ "lung_cycle"
      → command_power_policy fl py "lung_cycle" params ≡ some actuation
  unfolding command_power_policy strip replace
  policy-lung_cycle e = rw e refl

-- A property of either branch of a test is one of the test.
holds_if :
    {A : Type 0} (P : A → Type 0) (b : Bool) (x y : A)
    → (b ≡ true → P x)
    → P y
    → P (if b then x else y)
holds_if P true x y h k = h refl
holds_if P false x y h k = k

module _ {F : Type 0} (fl : Float F) (py : Python F) (m : Motor F) (params : Dict (Value F))
    (moment : Moment) where
  abbrev IsHeldAt : String → Lung F → Option (Lung F → Outcome F × Lung F) → Type 0
  IsHeldAt cmd l handler = IsHeld l (dispatched fl py (some m) params moment cmd handler l).1

  IsHeld-dispatched :
      (cmd : String) (l : Lung F) (handler : Lung F → Outcome F × Lung F)
      → ((l' : Lung F) → IsHeld l' (handler l').1)
      → IsHeldAt cmd l (some handler)
  unfolding dispatched
  IsHeld-dispatched cmd l handler h =
      IsHeld-gated_by fl py (some m) params moment m cmd _ handler l h

  -- the commands that move the motor
  IsHeld-actuation :
      (cmd name : String) (l : Lung F) (handler : Lung F → Outcome F × Lung F)
      → m.is_real ≡ true
      → has_active_undervoltage (snapshot_of (sample_power_telemetry l.sampling moment).power)
        ≡ true
      → command_power_policy fl py name params ≡ some actuation
      → (cmd == name) ≡ true
      → IsHeldAt cmd l (some handler)
  unfolding dispatched
  IsHeld-actuation cmd name l handler real low policy e =
      let same : cmd ≡ name = (eq_iff cmd name).0 e in
      rw (ap (λ n. command_power_policy fl py n params) same ∙ policy)
        (IsHeld-refused fl py (some m) params moment m cmd handler l real low)

  -- While the gate samples an active undervoltage, no command of a real lung moves the motor or
  -- notes the lung as started, whatever its parameters. `lower` keeps the two names of commands
  -- that are lower case already.
  pub execute_command-IsHeld :
      (command : String) (l : Lung F)
      → m.is_real ≡ true
      → has_active_undervoltage (snapshot_of (sample_power_telemetry l.sampling moment).power)
        ≡ true
      → py.lower "lung_start" ≡ "lung_start"
      → py.lower "lung_cycle" ≡ "lung_cycle"
      → IsHeld l (execute_command fl py (some m) params moment command l).1
  unfolding execute_command lung_command_handlers
  execute_command-IsHeld command l real low start_lower cycle_lower =
      let cmd = py.lower (strip command) in
      let p = IsHeldAt cmd l in
      holds_if p (cmd == "set_lpm") _ _
        (λ _. IsHeld-dispatched cmd l _ (IsHeld-set_lpm fl py (some m) params))
        (holds_if p (cmd == "lung_start") _ _
          (IsHeld-actuation cmd "lung_start" l _ real low
            (policy-lung_start fl py (some m) params start_lower))
          (holds_if p (cmd == "lung_stop") _ _
            (λ _. IsHeld-dispatched cmd l _ (IsHeld-lung_stop fl py (some m) params))
            (holds_if p (cmd == "lung_status") _ _
              (λ _. IsHeld-dispatched cmd l _ (IsHeld-lung_status fl py (some m) params))
              (holds_if p (cmd == "lung_cycle") _ _
                (IsHeld-actuation cmd "lung_cycle" l _ real low
                  (policy-lung_cycle fl py (some m) params cycle_lower))
                (holds_if p (cmd == "emergency_stop") _ _
                  (λ _. IsHeld-dispatched cmd l _ (IsHeld-emergency_stop fl py (some m) params))
                  (IsHeld-refl l))))))
