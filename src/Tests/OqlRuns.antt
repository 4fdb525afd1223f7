-- ===== src/Tests/OqlRuns.antt =====
-- Runs of the variable store and of the parser of blocks.
use oqlos.Base.{ℕ, String, ◌≡◌, refl, true, false, none, [], ◌∷◌, is_some}
use oqlos.Oql.Variables.{VariableStore, root, child, set, get, has, all_variables, or_default}
use oqlos.Oql.Variables.Scopes.{get-set_scoped, get-all_variables}
use oqlos.Oql.Blocks.{Header, parse_actions}
use oqlos.Oql.Blocks.Script.{
  Items, plain, if_then, if_fail, loop, done, next, print_all, actions_of,
}
use oqlos.Oql.Blocks.RoundTrip.{parse_actions-print_all}
use oqlos.Base.Dict

-- a loop's scope, in which ITER is 2, over the variables of a script
abbrev scopes : VariableStore ℕ
scopes = child (("ITER", 2) ∷ []) (root (("ITER", 7) ∷ ("limit", 5) ∷ []))

get-set_scoped_example : get (set scopes "limit" 6 false) "limit" 0 ≡ 6
unfolding has Dict.get
get-set_scoped_example = get-set_scoped scopes "limit" 6 false "limit" 0

get-all_variables_example :
    (is_some (Dict.get (all_variables scopes true) "ITER") ≡ has scopes "ITER")
    × (or_default (Dict.get (all_variables scopes true) "ITER") 0 ≡ get scopes "ITER" 0)
unfolding Dict.get
get-all_variables_example = get-all_variables scopes "ITER" 0 ((refl, tt), (refl, (refl, tt)))

abbrev header : String → Header Unit
header kind = record {
  kind = kind;
  target = "pump-main";
  method = "";
  args = "";
  condition = none;
  raw = kind;
}

abbrev script : Items Unit
script =
    next
      (if_then (header "IF") (plain (header "set"))
        (next (loop (header "LOOP") (next (plain (header "wait")) done)) done)
        (next (if_fail (header "IF_FAIL") (next (plain (header "log")) done)) done))
      (next (plain (header "save")) done)

parse_actions-print_all_example : parse_actions (print_all 2 script []) ≡ (actions_of script, [])
parse_actions-print_all_example =
    parse_actions-print_all 2 script
      (((refl, refl), (((refl, refl), tt), tt), (((refl, refl), tt), tt)), ((refl, refl), tt))
