-- ===== src/Scenario/Expression.antt =====
-- `safe_eval_condition` and `validate_goal` of oqlos/core/executor.py, with the chains of
-- comparisons of oqlos/core/_compare.py. Nodes are those of Python's `ast` that the code names; it
-- raises on all others. `V` is the type of Python's objects, and an exception gives `none`.
pub mod Chains
use oqlos.Base.{
  String, Bool, true, false, not, Option, none, some, List, ◌==◌, if◌then◌else◌, ◌>>=◌, get_or, all,
}
use oqlos.Base.Dict
use oqlos.Base.Dict.{Dict}
use oqlos.Models.{ValidationRule}

pub data UnaryOp : Type 0 where
  usub uadd invert not_ : UnaryOp

pub data CompareOp : Type 0 where
  less less_equal greater greater_equal equal not_equal unsupported : CompareOp

pub data BoolOp : Type 0 where
  and_ or_ : BoolOp

mutual
  pub data Node (V : Type 0) : Type 0 where
    -- an int, a float or a bool
    constant : V → Node V
    name : String → Node V
    attribute : Node V → String → Node V
    unary_op : UnaryOp → Node V → Node V
    compare : Node V → Comparisons V → Node V
    bool_op : BoolOp → Nodes V → Node V
    other_node : Node V

  pub data Comparisons (V : Type 0) : Type 0 where
    done : Comparisons V
    link : CompareOp → Node V → Comparisons V → Comparisons V

  pub data Nodes (V : Type 0) : Type 0 where
    empty : Nodes V
    more : Node V → Nodes V → Nodes V

-- What Python does with objects: `-x`, `bool(x)`, `getattr(x, name)` and `x op y`.
pub record Objects (V : Type 0) : Type 0 where
  pub negated : V → Option V
  pub is_true : V → Bool
  pub of_bool : Bool → V
  pub getattr : V → String → Option V
  pub compared : CompareOp → V → V → Option V

abbrev pub Context : Type 0 → Type 0
Context V = String → Option V

module _ {V : Type 0} (py : Objects V) (context : Context V) where
  unary : UnaryOp → V → Option V
  unary usub x = py.negated x
  unary uadd x = some x
  unary not_ x = some (py.of_bool (not (py.is_true x)))
  unary invert x = none

  -- `resolve_compare`, as a truth value
  unfoldable pub resolve_compare : CompareOp → V → V → Option Bool
  resolve_compare unsupported x y = none
  resolve_compare op x y = py.compared op x y >>= λ z. some (py.is_true z)

  unfoldable mutual
    unfolding unary resolve_compare

    -- `_safe_resolve`
    pub safe_resolve : Node V → Option V
    safe_resolve (constant x) = some x
    safe_resolve (name id) = context id
    safe_resolve (attribute node attr) = safe_resolve node >>= λ x. py.getattr x attr
    safe_resolve (unary_op op node) = safe_resolve node >>= unary op
    safe_resolve (compare left links) =
        safe_resolve left >>= λ x. resolve_chain x links >>= λ b. some (py.of_bool b)
    safe_resolve (bool_op and_ nodes) = all_true nodes >>= λ b. some (py.of_bool b)
    safe_resolve (bool_op or_ nodes) = any_true nodes >>= λ b. some (py.of_bool b)
    safe_resolve other_node = none

    -- `resolve_compare_chain`: the first comparison that does not hold ends it
    pub resolve_chain : V → Comparisons V → Option Bool
    resolve_chain x done = some true
    resolve_chain x (link op node links) = safe_resolve node >>= λ y.
        resolve_compare op x y >>= λ b. if b then resolve_chain y links else some false

    -- `all` and `any` of a generator
    pub all_true : Nodes V → Option Bool
    all_true empty = some true
    all_true (more node nodes) =
        safe_resolve node >>= λ x. if py.is_true x then all_true nodes else some false

    pub any_true : Nodes V → Option Bool
    any_true empty = some false
    any_true (more node nodes) =
        safe_resolve node >>= λ x. if py.is_true x then some true else any_true nodes

module _ {V : Type 0} (py : Objects V) (parse : String → Option (Node V)) (zero_value : V) where
  -- `parse` is `ast.parse` of the stripped text, `none` for a SyntaxError.
  unfoldable pub safe_eval_condition : String → Context V → Option Bool
  unfolding safe_resolve
  safe_eval_condition expr context =
      parse expr >>= λ node. safe_resolve py context node >>= λ x. some (py.is_true x)

  abbrev pub rule_context : V → Context V
  rule_context value id =
      if id == "value" then some value else if id == "leakRate" then some zero_value else none

  -- A rule on a peripheral that there is; an error counts as a failure.
  unfoldable pub is_valid : Dict V → ValidationRule → Bool
  unfolding safe_eval_condition
  is_valid current_values rule = elim (Dict.get current_values rule.peripheral) [
    | none ↦ true
    | some value ↦ get_or (safe_eval_condition rule.condition (rule_context value)) false
  ]

  -- `validate_goal`, given the peripherals' current values
  unfoldable pub validate_goal : Dict V → List ValidationRule → Bool
  unfolding is_valid
  validate_goal current_values rules = all (is_valid current_values) rules
