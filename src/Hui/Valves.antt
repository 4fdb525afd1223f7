-- ===== src/Hui/Valves.antt =====
-- oqlos/hardware/valve_controller.py: which plugins drive the valves. What the environment, the
-- hardware configuration and control_sources.py answer are inputs.
pub mod Candidates
use oqlos.Base.{
  String, Bool, false, not, Option, none, some, List, [], ◌∷◌, ◌++◌, map, ◌==◌, if◌then◌else◌, keep,
}
use oqlos.Base.Dict
use oqlos.Base.Dict.{Dict}
use oqlos.Base.Texts.{strip, split_commas}
use oqlos.Hui.Readiness.{mem, is_empty}

-- A configured value: None, a text, the texts of what an iterable yields, or another value
pub data Setting : Type 0 where
  unset : Setting
  text : String → Setting
  listed : List String → Setting
  not_iterable : Setting

-- `selected` is `selected_source("valves")`; `configured` is the entry `valve_controller` of
-- `profiles.hardware`, unset where there is none or the configuration cannot be read; `plugins`
-- are the plugins of that configuration, where they are a mapping.
pub record Settings : Type 0 where
  pub selected : String
  pub getenv : String → Option String
  pub configured : Setting
  pub plugins : Option (Dict (Option Bool))

-- `[part.strip() for part in parts if part.strip()]`
abbrev stripped : List String → List String
stripped parts = keep (λ s. not (s == "")) (map strip parts)

-- `_normalize`
unfoldable pub normalize : Setting → List String
unfolding strip split_commas
normalize unset = []
normalize (text s) = stripped (split_commas s)
normalize (listed values) = stripped values
normalize not_iterable = []

-- `DEFAULT_VALVE_CONTROLLER_PREFERENCE`
abbrev pub default_preference : List String
default_preference = "io-m5-4in8out" ∷ "modbus-io" ∷ []

-- the first of the variables that is set to a text
env_of : (String → Option String) → List String → List String
unfolding normalize
env_of getenv [] = []
env_of getenv (name ∷ names) =
    let rest = env_of getenv names in
    elim (getenv name) [
      | none ↦ rest
      | some value ↦ if value == "" then rest else normalize (text value)
    ]

-- `_env_preference`
unfoldable pub env_preference : Settings → List String
unfolding env_of
env_preference s = env_of s.getenv ("OQLOS_VALVE_CONTROLLER" ∷ "C2004_VALVE_CONTROLLER" ∷ [])

abbrev pub selected_controller : String → String
selected_controller selected = if selected == "stacknet" then "io-m5-4in8out" else "modbus-io"

-- the loop over the sources
unfoldable pub first_source : List (List String) → List String
first_source [] = default_preference
first_source (source ∷ sources) =
    let rest = first_source sources in
    if is_empty source then rest else source ++ keep (λ id. not (mem id source)) default_preference

unfoldable pub valve_controller_preference : Settings → List String
unfolding env_preference normalize first_source
valve_controller_preference s =
    if not (s.selected == "auto")
    then selected_controller s.selected ∷ []
    else first_source (env_preference s ∷ normalize s.configured ∷ [])

-- A plugin's configuration is `some` of its `enabled`; an entry None counts as missing.
unfoldable pub is_enabled : Dict (Option Bool) → String → Bool
unfolding Dict.get
is_enabled configs id = elim (Dict.get configs id) [
  | none ↦ false
  | some config ↦ elim config [ none ↦ false | some enabled ↦ enabled ]
]

abbrev only_enabled : Option (Dict (Option Bool)) → List String → List String
unfolding is_enabled
only_enabled none candidates = candidates
only_enabled (some []) candidates = candidates
only_enabled (some (e ∷ configs)) candidates = keep (is_enabled (e ∷ configs)) candidates

unfoldable pub resolve_valve_controllers : Settings → Option (Dict (Option Bool)) → List String
unfolding valve_controller_preference only_enabled
resolve_valve_controllers s configs = only_enabled configs (valve_controller_preference s)

abbrev pub first_or_modbus : List String → String
first_or_modbus [] = "modbus-io"
first_or_modbus (x ∷ _) = x

unfoldable pub resolve_valve_controller : Settings → Option (Dict (Option Bool)) → String
unfolding resolve_valve_controllers
resolve_valve_controller s configs = first_or_modbus (resolve_valve_controllers s configs)

-- `gateway_valve_controllers`, of what the gateway's `valve_controllers()` answers where it is
-- callable; with `resolve_valve_controller_from_config`
unfoldable pub gateway_valve_controllers : Settings → Option (List String) → List String
unfolding resolve_valve_controller
gateway_valve_controllers s none = resolve_valve_controller s s.plugins ∷ []
gateway_valve_controllers s (some controllers) = controllers
