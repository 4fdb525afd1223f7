-- ===== src/Tests/ScenarioRuns.antt =====
-- Conditions of scenarios, with numbers for Python's objects.
use oqlos.Base.{
  ℕ, ◌≡◌, refl, Bool, true, not, none, some, [], ◌∷◌, arith, ◌==◌, ltb, leb, nat_eq, if◌then◌else◌,
  ◌>>=◌,
}
use oqlos.Base.Dict
use oqlos.Scenario.Expression.{
  Node, constant, name, compare, bool_op, done, link, less, less_equal, CompareOp, empty, more,
  and_, Objects, Context, safe_resolve, resolve_compare, validate_goal, is_valid,
  safe_eval_condition,
}
use oqlos.Scenario.Expression.Chains.{safe_resolve-compare}

abbrev holds : CompareOp → ℕ → ℕ → Bool
holds less x y = ltb x y
holds less_equal x y = leb x y
holds _ x y = nat_eq x y

abbrev pub numbers : Objects ℕ
numbers = record {
  negated = λ x. none;
  is_true = λ x. not (nat_eq x 0);
  of_bool = λ b. if b then 1 else 0;
  getattr = λ x attr. none;
  compared = λ op x y. some (if holds op x y then 1 else 0);
}

abbrev value_only : Context ℕ
value_only id = if id == "value" then some 5 else none

-- 2 < value <= 7
abbrev in_range : Node ℕ
in_range = compare (constant 2) (link less (name "value") (link less_equal (constant 7) done))

safe_resolve-compare_example :
    safe_resolve numbers value_only in_range
    ≡ safe_resolve numbers value_only (
        bool_op and_ (
          more
            (compare (constant 2) (link less (name "value") done))
            (more (compare (name "value") (link less_equal (constant 7) done)) empty)))
safe_resolve-compare_example =
    safe_resolve-compare numbers value_only (constant 2) (name "value") less
      (link less_equal (constant 7) done) (λ (b : Bool). ground arith)

-- a goal whose one rule holds of the value 5
rule_holds :
    validate_goal numbers
      (λ text. some in_range)
      0
      (("AI01", 5) ∷ [])
      (record { peripheral = "AI01"; condition = "2 < value <= 7"; error_message = "" } ∷ [])
    ≡ true
unfolding validate_goal is_valid safe_eval_condition safe_resolve resolve_compare ◌>>=◌ Dict.get
rule_holds = refl
