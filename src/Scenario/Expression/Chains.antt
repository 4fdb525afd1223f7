-- ===== src/Scenario/Expression/Chains.antt =====
-- A chain of comparisons means the conjunction of its links.
use oqlos.Base.{
  ◌≡◌, refl, inl, inr, Bool, true, false, Option, none, some, if◌then◌else◌, Option-cases, ◌>>=◌,
}
use oqlos.Scenario.Expression.{
  Node, compare, bool_op, Comparisons, done, link, CompareOp, empty, more, and_, Objects, Context,
  safe_resolve, resolve_chain, resolve_compare,
}

module _ {V : Type 0} (py : Objects V) (context : Context V) where
  -- a truth value as an object, and back
  again :
      (m : Option Bool)
      → ((b : Bool) → py.is_true (py.of_bool b) ≡ b)
      → (m >>= λ b. some (py.of_bool b)) ≡ (
          ((m >>= λ b. some (py.of_bool b)) >>= λ z.
          (if py.is_true z then some true else some false))
          >>= λ b. some (py.of_bool b))
  unfolding ◌>>=◌
  again none law = refl
  again (some true) law = rw (law true) refl
  again (some false) law = rw (law false) refl

  -- Where the truth of a Boolean object is that Boolean, `a op b ...` with more links after `b` is
  -- `a op b and b ...`: it raises where that raises, and has the same value where that has one.
  pub safe_resolve-compare :
      (left middle : Node V) (op : CompareOp) (links : Comparisons V)
      → ((b : Bool) → py.is_true (py.of_bool b) ≡ b)
      → safe_resolve py context (compare left (link op middle links))
        ≡ safe_resolve py context (
            bool_op and_
              (more (compare left (link op middle done)) (more (compare middle links) empty)))
  unfolding safe_resolve ◌>>=◌
  safe_resolve-compare left middle op links law =
      elim (Option-cases (safe_resolve py context left)) [
        | inl raised ↦ rw raised refl
        | inr (x, found) ↦ rw found (elim (Option-cases (safe_resolve py context middle)) [
          | inl raised ↦ rw raised refl
          | inr (y, found') ↦ rw found' (elim (Option-cases (resolve_compare py context op x y)) [
            | inl raised ↦ rw raised refl
            | inr (true, holds) ↦
                rw (holds, law true) (again (resolve_chain py context y links) law)
            | inr (false, fails) ↦ rw (fails, law false) refl
          ])
        ])
      ]
