-- ===== src/Hui/Profiles.antt =====
-- The hold profiles of oqlos/hardware/hui_hold.py. What a configuration document and the OQL
-- recipes add comes from files, and is a parameter here.
use oqlos.Base.{ℕ, String, Bool, Option, none, List, [], ◌∷◌}
use oqlos.Base.Dict
use oqlos.Base.Dict.{Dict}
use oqlos.Hui.Operation.{Floats, Result, ok, err}

pub record Profile (F : Type 0) : Type 0 where
  pub valves_on : List String
  pub pump_pct : F
  pub valve_stagger_ms : Option ℕ

pub record Config (F : Type 0) : Type 0 where
  pub configured : Dict (Profile F)
  -- an invalid recipe raises ValueError
  pub oql : Result (Dict (Profile F))
  pub skip_idle_pump_off : Bool
  pub default_valve_stagger_ms : ℕ
  pub min_hold_ms : ℕ
  -- `str(key or "").strip().lower()`
  pub normalize : String → String

module _ {F : Type 0} (fl : Floats F) where
  abbrev profile : List String → ℕ → Profile F
  profile valves pct = record {
    valves_on = valves;
    pump_pct = fl.of_int pct;
    valve_stagger_ms = none;
  }

  unfoldable pub hui_hold_profiles : Dict (Profile F)
  hui_hold_profiles =
      ("head-inflate", profile ("valve-5" ∷ "valve-2" ∷ []) 70)
      ∷ ("head-deflate", profile ("valve-3" ∷ "valve-6" ∷ []) 70)
      ∷ ("lp-pwm-plus5", profile ("valve-5" ∷ []) 50)
      ∷ ("lp-pwm-plus10", profile ("valve-5" ∷ []) 100)
      ∷ ("lp-pwm-minus5", profile ("valve-6" ∷ []) 50)
      ∷ ("lp-pwm-minus10", profile ("valve-6" ∷ []) 100)
      ∷ ("lp-bleed", profile ("valve-4" ∷ []) 0)
      ∷ []

  merged : Config F → Result (Dict (Profile F)) → Result (Dict (Profile F))
  unfolding Dict.update hui_hold_profiles
  merged cfg (ok oql) = ok (Dict.update (Dict.update hui_hold_profiles cfg.configured) oql)
  merged cfg (err e) = err e

  unfoldable pub get_hui_hold_profiles : Config F → Result (Dict (Profile F))
  unfolding merged
  get_hui_hold_profiles cfg = merged cfg cfg.oql
