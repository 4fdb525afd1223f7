-- ===== src/Oql/Variables/Scopes.antt =====
-- What a variable is after an assignment, and what all the variables of a store are.
use oqlos.Base.{
  String, ◌≡◌, refl, Bool, true, false, not, ◌&&◌, arith, ◌==◌, eq_iff, if◌then◌else◌, is_some,
}
use oqlos.Base.Dict
use oqlos.Base.Dict.{Dict, get-set, get-update}
use oqlos.Oql.Variables.{
  VariableStore, root, child, has, get, set, all_variables, shadowed, HasDicts, or_default,
}

module _ {V : Type 0} where
  -- After `set`, locally or in the scope that has the variable, `get` of that variable gives the
  -- new value, unless the assignment went to an outer scope while an inner one has it too; every
  -- other variable is as before.
  pub get-set_scoped :
      (store : VariableStore V) (key : String) (value : V) (local : Bool) (name : String)
      (default : V)
      → get (set store key value local) name default ≡ (
          if (key == name) && not (not local && shadowed store key)
          then value
          else get store name default)
  unfolding get set has
  get-set_scoped (root vars) key value local name default =
      ground (arith, get-set vars key name value)
  get-set_scoped (child vars parent) key value local name default = ground (
    arith,
    get-set vars key name value,
    get-set_scoped parent key value false name default,
    eq_iff key name,
  )

  -- What `all` lists of a store of dicts is what `has` and `get` find, the innermost scope first.
  pub get-all_variables :
      (store : VariableStore V) (key : String) (default : V)
      → HasDicts store
      → (is_some (Dict.get (all_variables store true) key) ≡ has store key)
        × (or_default (Dict.get (all_variables store true) key) default ≡ get store key default)
  unfolding all_variables get has
  get-all_variables (root vars) key default h = (refl, refl)
  get-all_variables (child vars parent) key default h =
      let found = get-update (all_variables parent true) vars key h.0 in
      let (present, value) = get-all_variables parent key default h.1 in
      (ground (arith, found, present), ground (arith, found, value))
