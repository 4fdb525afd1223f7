-- ===== src/State/Devices.antt =====
-- The devices that `StateManager.initialize_peripherals` of oqlos/core/state.py registers.
use oqlos.Base.{String, false, Option, none, some, List, [], ◌∷◌, ◌++◌}
use Prim.Native.String.{◌++◌ as append_text}
use oqlos.Base.Int.{ℤ, pos, negsuc}
use oqlos.Base.Dict.{Dict}
use oqlos.Models.{
  Value, pressure_sensor, valve, pump, artificial_lung, ok, auto, bool, int, dict, field, end,
}
use oqlos.Cqrs.Command.{Command, register_peripheral}

module _ {F : Type 0} (of_int : ℤ → F) where
  abbrev span : ℤ → ℤ → Option (Dict F)
  span low high = some (("min", of_int low) ∷ ("max", of_int high) ∷ [])

  abbrev sensor : String → String → String → ℤ → ℤ → List String → Command F
  sensor id name unit low high dependencies = register_peripheral (record {
    peripheral_id = id;
    type = pressure_sensor;
    name = name;
    current_value = int (pos 0);
    target_value = int (pos 0);
    unit = some unit;
    range = span low high;
    status = ok;
    mode = auto;
    dependencies = dependencies;
  })

  abbrev main_pump : Command F
  main_pump = register_peripheral (record {
    peripheral_id = "pump-main";
    type = pump;
    name = "Main Pump";
    current_value = int (pos 0);
    target_value = int (pos 0);
    unit = some "%";
    range = span (pos 0) (pos 100);
    status = ok;
    mode = auto;
    dependencies = [];
  })

module _ {F : Type 0} where
  abbrev valve_named : String → String → Command F
  valve_named id name = register_peripheral (record {
    peripheral_id = id;
    type = valve;
    name = name;
    current_value = bool false;
    target_value = bool false;
    unit = none;
    range = none;
    status = ok;
    mode = auto;
    dependencies = [];
  })

  abbrev numbered_valves : List String → List (Command F)
  numbered_valves [] = []
  numbered_valves (i ∷ rest) =
      valve_named (append_text "valve-" i) (append_text "Valve #" i) ∷ numbered_valves rest

  -- each circuit with its name in capitals
  abbrev circuit_valves : List (String × String) → List (Command F)
  circuit_valves [] = []
  circuit_valves ((circuit, upper) ∷ rest) =
      valve_named (append_text "valve-" circuit) (append_text upper " Circuit Valve")
      ∷ circuit_valves rest

  abbrev no_volume : Value F
  no_volume = dict (field "volume" (int (pos 0)) (field "pressure" (int (pos 0)) end))

  abbrev lung : Command F
  lung = register_peripheral (record {
    peripheral_id = "lung-main";
    type = artificial_lung;
    name = "Artificial Lung";
    current_value = no_volume;
    target_value = no_volume;
    unit = none;
    range = none;
    status = ok;
    mode = auto;
    dependencies = "nc-sensor" ∷ "valve-1" ∷ [];
  })

-- `range(1, 15)`, as the f-strings print it
abbrev one_to_fourteen : List String
one_to_fourteen =
    "1" ∷ "2" ∷ "3" ∷ "4" ∷ "5" ∷ "6" ∷ "7" ∷ "8" ∷ "9" ∷ "10" ∷ "11" ∷ "12" ∷ "13" ∷ "14" ∷ []

abbrev circuits : List (String × String)
circuits = ("nc", "NC") ∷ ("sc", "SC") ∷ ("wc", "WC") ∷ []

module _ {F : Type 0} where
  unfoldable pub initial_commands : (ℤ → F) → List (Command F)
  initial_commands of_int =
      sensor of_int "nc-sensor" "NC Sensor (Low Pressure)" "mbar" (negsuc 59) (pos 60)
        ("valve-nc" ∷ "pump-main" ∷ [])
      ∷ sensor of_int "sc-sensor" "SC Sensor (Medium Pressure)" "bar" (pos 0) (pos 25)
          ("valve-sc" ∷ "pump-main" ∷ [])
      ∷ sensor of_int "wc-sensor" "WC Sensor (High Pressure)" "bar" (pos 0) (pos 400)
          ("valve-wc" ∷ "pump-main" ∷ [])
      ∷ (numbered_valves one_to_fourteen
          ++ (circuit_valves circuits ++ main_pump of_int ∷ lung ∷ []))
