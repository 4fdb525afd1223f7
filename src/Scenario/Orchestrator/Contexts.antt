-- ===== src/Scenario/Orchestrator/Contexts.antt =====
-- The names that a VALIDATE step of oqlos/core/executor.py sees: the peripherals, by identifiers
-- made of their ids.
use oqlos.Base.{
  String, ◌||◌, Option, none, some, List, [], ◌∷◌, ◌==◌, nat_eq, if◌then◌else◌, or_else,
}
use Prim.Native.Char.{Char, code}
use oqlos.Base.Texts.{replace}
use oqlos.Base.Dict
use oqlos.Base.Dict.{Dict}
use oqlos.Models.{Peripheral}

abbrev underscored : Char → Char
underscored c =
    if nat_eq (code c) b'-' || nat_eq (code c) b'.' || nat_eq (code c) b' ' then "_" else c

unfoldable pub sanitize_identifier : String → String
sanitize_identifier String.[] = String.[]
sanitize_identifier (String.◌∷◌ c s) = String.◌∷◌ (underscored c) (sanitize_identifier s)

-- `_sanitize_expression`, given the ids of the peripherals
unfoldable pub sanitize_expression : List String → String → String
unfolding replace sanitize_identifier
sanitize_expression [] expr = expr
sanitize_expression (pid ∷ pids) expr =
    sanitize_expression pids (replace expr pid (sanitize_identifier pid))

module _ {F : Type 0} where
  -- The last peripheral with an identifier is what it names.
  named : String → Dict (Peripheral F) → Option (Peripheral F)
  unfolding sanitize_identifier
  named id [] = none
  named id ((pid, per) ∷ rest) =
      or_else (named id rest) (if sanitize_identifier pid == id then some per else none)

  alias : String → String → String → Dict (Peripheral F) → Option (Peripheral F)
  alias id name pid peripherals = if id == name then Dict.get peripherals pid else none

  -- `_build_eval_context`
  unfoldable pub build_eval_context : Dict (Peripheral F) → String → Option (Peripheral F)
  unfolding named alias
  build_eval_context peripherals id = or_else (alias id "nc_sensor" "nc-sensor" peripherals) (
      or_else (alias id "sc_sensor" "sc-sensor" peripherals)
        (or_else (alias id "wc_sensor" "wc-sensor" peripherals) (named id peripherals)))
