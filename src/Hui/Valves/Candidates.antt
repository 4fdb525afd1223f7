-- ===== src/Hui/Valves/Candidates.antt =====
-- Which plugins are candidates for the valves.
use oqlos.Base.{
  String, ◌≡◌, refl, ◌∙◌, inl, inr, Bool, true, false, not, ◌&&◌, ◌||◌, Option, none, some, List,
  [], ◌∷◌, arith, ◌==◌, eq_iff, if◌then◌else◌, Bool-cases, keep,
}
use oqlos.Base.Dict.{Dict}
use oqlos.Hui.Readiness.{mem, is_empty}
use oqlos.Hui.Readiness.Preflight.{mem-append}
use oqlos.Hui.Valves.{
  Settings, normalize, default_preference, env_preference, selected_controller, first_source,
  valve_controller_preference, is_enabled, only_enabled, resolve_valve_controllers,
}

mem-keep :
    (p : String → Bool) (x : String) (xs : List String) → mem x (keep p xs) ≡ (mem x xs && p x)
mem-keep p x [] = refl
mem-keep p x (y ∷ ys) = ground (arith, eq_iff x y, mem-keep p x ys)

mem-first_source_none : (x : String) → mem x (first_source []) ≡ mem x default_preference
unfolding first_source
mem-first_source_none x = refl

mem-first_source :
    (x : String) (source : List String) (sources : List (List String))
    → mem x (first_source (source ∷ sources)) ≡ (
        if is_empty source
        then mem x (first_source sources)
        else (mem x source || mem x default_preference))
unfolding first_source
mem-first_source x source sources = elim (Bool-cases (is_empty source)) [
  | inl e ↦ rw e refl
  | inr e ↦ rw e (
      mem-append x source (keep (λ id. not (mem id source)) default_preference)
      ∙ ground (arith, mem-keep (λ id. not (mem id source)) x default_preference))
]

mem-is_empty : (x : String) (xs : List String) → is_empty xs ≡ true → mem x xs ≡ false
mem-is_empty x [] h = refl
mem-is_empty x (y ∷ ys) h = ground (arith, h)

mem-valve_controller_preference :
    (s : Settings) (x : String)
    → mem x (valve_controller_preference s) ≡ (
        if s.selected == "auto"
        then mem x (env_preference s)
          || ((is_empty (env_preference s) && mem x (normalize s.configured))
              || mem x default_preference)
        else x == selected_controller s.selected)
unfolding valve_controller_preference
mem-valve_controller_preference s x = elim (Bool-cases (s.selected == "auto")) [
  | inl e ↦ rw e (
      ground (
        arith,
        mem-first_source x (env_preference s) (normalize s.configured ∷ []),
        mem-first_source x (normalize s.configured) [],
        mem-first_source_none x,
        mem-is_empty x (env_preference s),
        mem-is_empty x (normalize s.configured),
      ))
  | inr e ↦ rw e (ground arith)
]

-- The plugin is enabled, or there is no configuration of plugins to tell.
abbrev pub admits : Option (Dict (Option Bool)) → String → Bool
admits none x = true
admits (some []) x = true
admits (some (e ∷ configs)) x = is_enabled (e ∷ configs) x

-- Under "auto", the candidates are the plugins of the first source that names any, and the
-- default controllers; otherwise only the selected one is. Where plugins are configured, just the
-- enabled candidates are resolved; where there is no such configuration, or an empty one, all are.
pub mem-resolve_valve_controllers :
    (s : Settings) (configs : Option (Dict (Option Bool))) (x : String)
    → mem x (resolve_valve_controllers s configs) ≡ (
        admits configs x
        && (if s.selected == "auto"
            then mem x (env_preference s)
              || ((is_empty (env_preference s) && mem x (normalize s.configured))
                  || mem x default_preference)
            else x == selected_controller s.selected))
unfolding resolve_valve_controllers only_enabled
mem-resolve_valve_controllers s none x = mem-valve_controller_preference s x
mem-resolve_valve_controllers s (some []) x = mem-valve_controller_preference s x
mem-resolve_valve_controllers s (some (e ∷ configs)) x =
    mem-keep (is_enabled (e ∷ configs)) x (valve_controller_preference s)
    ∙ ground (arith, mem-valve_controller_preference s x)
