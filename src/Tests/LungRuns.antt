-- ===== src/Tests/LungRuns.antt =====
-- Runs of the commands of the artificial lung, with a supply that is low and one that is not.
use oqlos.Base.{ℕ, String, ◌≡◌, refl, true, false, none, some, List, [], ◌∷◌, ◌==◌, if◌then◌else◌}
use oqlos.Base.Texts.{strip}
use oqlos.Base.Dict
use oqlos.Base.Int.{pos}
use oqlos.Models.{int, float, str}
use oqlos.Oql.Motor2.Config.{number, invalid}
use oqlos.Power.{has_active_undervoltage}
use oqlos.Power.Sampling.{Moment, snapshot_of, sample_power_telemetry}
use oqlos.Power.Policy.{Python}
use oqlos.Lung.{Motor, Lung, set_lung, raised, raises, motor_raised}
use oqlos.Lung.Commands.{execute_command}
use oqlos.Lung.Held.{IsHeld, execute_command-IsHeld}
use oqlos.Lung.Stops.{IsStopped, execute_command-IsStopped}
use oqlos.Tests.Floats.{whole}

abbrev python : Python ℕ
python = record {
  lower = λ s. if s == "LUNG_START" then "lung_start" else s;
  to_int = λ v. elim v [ int n ↦ number n | _ ↦ invalid ];
  to_float = λ v. elim v [ float x ↦ number x | _ ↦ invalid ];
  text = λ v. elim v [ str s ↦ s | _ ↦ "" ];
}

abbrev supply : List String → Moment
supply active = record {
  asked = 0;
  stamped = 0;
  reading = record {
    power = record {
      available = true;
      status = "";
      mask = some 1;
      mask_hex = some "0x1";
      active = active;
      active_flags = [];
      historical = [];
      historical_flags = [];
      observed_at = none;
      age_ms = 0;
      source = "";
    };
    issue_codes = [];
  };
  age = λ _. 0;
}

abbrev motor : Motor ℕ
motor = record { is_real = true; reply = λ calls c. raised "unreachable" }

abbrev idle : Lung ℕ
idle = record {
  state = record { running = false; lpm = 0; status = "stopped" };
  sampling = record {
    power_sample = none;
    power_sample_at = 0;
    tracked = record { last_signature = none; last_event_state = none; published = [] };
    taken = [];
  };
  calls = [];
}

-- The call of the motor raised, and the lung is noted as running.
started_run :
    let ran = execute_command whole python (some motor) [] (supply []) " LUNG_START " idle in
    (ran.0 ≡ raises (motor_raised "unreachable"))
    × (ran.1.state.running ≡ true)
    × (ran.1.calls ≡ set_lung (pos 500) (pos 10000000) (pos 3) 5 ∷ [])
unfolding execute_command has_active_undervoltage Dict.get
started_run = (refl, refl, refl)

execute_command-IsHeld_example :
    IsHeld idle
      (execute_command whole python
        (some motor)
        []
        (supply ("undervoltage" ∷ []))
        " LUNG_START "
        idle).1
unfolding has_active_undervoltage sample_power_telemetry snapshot_of
execute_command-IsHeld_example =
    execute_command-IsHeld whole python motor [] (supply ("undervoltage" ∷ [])) " LUNG_START " idle
      refl refl refl refl

execute_command-IsStopped_example :
    IsStopped idle
      (execute_command whole python
        (some motor)
        []
        (supply ("undervoltage" ∷ []))
        "emergency_stop "
        idle).1
unfolding strip
execute_command-IsStopped_example =
    execute_command-IsStopped whole python motor [] (supply ("undervoltage" ∷ [])) "emergency_stop "
      idle refl refl refl refl
