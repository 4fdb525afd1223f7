-- ===== src/Oql/Variables.antt =====
-- `VariableStore` of packages/oqlos-core/src/oqlos/core/base.py: variables in a chain of scopes.
-- A value is of any type `V`, `None` included.
pub mod Scopes
use oqlos.Base.{
  String, Bool, true, false, not, ◌&&◌, ◌||◌, Option, none, some, if◌then◌else◌, is_some,
}
use oqlos.Base.Dict
use oqlos.Base.Dict.{Dict, HasDistinctKeys}

pub data VariableStore (V : Type 0) : Type 0 where
  root : Dict V → VariableStore V
  child : Dict V → VariableStore V → VariableStore V

abbrev pub or_default : {V : Type 0} → Option V → V → V
or_default none default = default
or_default (some v) default = v

module _ {V : Type 0} where
  unfoldable pub has : VariableStore V → String → Bool
  has (root vars) key = is_some (Dict.get vars key)
  has (child vars parent) key = is_some (Dict.get vars key) || has parent key

  unfoldable pub get : VariableStore V → String → V → V
  get (root vars) key default = or_default (Dict.get vars key) default
  get (child vars parent) key default = or_default (Dict.get vars key) (get parent key default)

  unfoldable pub set : VariableStore V → String → V → Bool → VariableStore V
  unfolding has
  set (root vars) key value local = root (Dict.set vars key value)
  set (child vars parent) key value local =
      let outer = child vars (set parent key value false) in
      if not local && has parent key then outer else child (Dict.set vars key value) parent

  unfoldable pub all_variables : VariableStore V → Bool → Dict V
  unfolding Dict.update
  all_variables (root vars) include_parents = vars
  all_variables (child vars parent) include_parents =
      let merged = Dict.update (all_variables parent true) vars in
      if include_parents then merged else vars

  -- A key that an assignment to the outer scopes writes below another scope that has it.
  abbrev pub shadowed : VariableStore V → String → Bool
  shadowed (root vars) key = false
  shadowed (child vars parent) key =
      has parent key && (is_some (Dict.get vars key) || shadowed parent key)

  abbrev pub HasDicts : VariableStore V → Type 0
  HasDicts (root vars) = HasDistinctKeys vars
  HasDicts (child vars parent) = HasDistinctKeys vars × HasDicts parent
