-- ===== src/Oql/World/Gates/Pending.antt =====
-- The thresholds of a goal are a gate: what no error recorded means.
use oqlos.Base.{
  String, ◌≡◌, refl, sym, ◌∙◌, ◌⊎◌, inl, inr, Bool, true, false, not, ◌&&◌, ◌||◌, some, List, [],
  ◌∷◌, arith, ◌==◌, eq_iff, Bool-cases, keep,
}
use mathlib.Core.Path.{subst}
use mathlib.Core.Bool.{false≢true}
use mathlib.Core.List.{append-eq-nil_iff}
use oqlos.Base.Dict
use oqlos.Base.Dict.{Dict}
use oqlos.Oql.Interpreter.{StepResult}
use oqlos.Oql.World.{World, Threshold, Runtime, mem}
use oqlos.Oql.World.Thresholds.{
  exec_action_val, evaluate_each, evaluate_pending_thresholds, pending_thresholds, sorted, insert,
  val_action,
}
use oqlos.Oql.World.Gates.{IsGood, exec_action_val-IsGood}
use oqlos.Oql.World.Gates.Keeps.{exec_action_val-Keeps}

mem-head : (s : String) (ss : List String) → mem s (s ∷ ss) ≡ true
unfolding mem
mem-head s ss = ground (arith, eq_iff s s)

mem-insert : (x y : String) (ys : List String) → mem x (insert y ys) ≡ (y == x || mem x ys)
unfolding mem insert
mem-insert x y [] = refl
mem-insert x y (z ∷ zs) = ground (arith, mem-insert x y zs)

mem-sorted : (x : String) (xs : List String) → mem x (sorted xs) ≡ mem x xs
unfolding mem sorted
mem-sorted x [] = refl
mem-sorted x (y ∷ ys) = ground (arith, mem-insert x y (sorted ys), mem-sorted x ys)

mem-keep : (p : String → Bool) (x : String) (xs : List String) → mem x (keep p xs) ≡ mem x xs && p x
unfolding mem
mem-keep p x [] = refl
mem-keep p x (y ∷ ys) = ground (arith, mem-keep p x ys, eq_iff y x)

mem-keys :
    {V : Type 0} (d : Dict V) (k : String) (v : V)
    → Dict.get d k ≡ some v
    → mem k (Dict.keys d) ≡ true
unfolding mem Dict.get Dict.keys
mem-keys [] k v e = ground (arith, e)
mem-keys ((j, w) ∷ d) k v e = ground (arith, e, mem-keys d k v)

module _ {F : Type 0} (rt : Runtime F) where
  -- Every one of these sensors that has a threshold ends within it.
  evaluate_each-IsGood :
      (sensors : List String) (results : List StepResult) (w : World F)
      → ((s : String) → mem s sensors ≡ true → rt.strip s ≡ s)
      → (evaluate_each rt sensors results w).1.errors ≡ []
      → (sensor : String) (b : Threshold F) → Dict.get w.thresholds sensor ≡ some b
      → (mem sensor sensors ≡ true) ⊎ IsGood rt sensor b w
      → IsGood rt sensor b (evaluate_each rt sensors results w).1.world
  unfolding evaluate_each mem
  evaluate_each-IsGood [] results w stripped h sensor b e (inr good) = good
  evaluate_each-IsGood [] results w stripped h sensor b e (inl member) = absurd (false≢true member)
  evaluate_each-IsGood (s ∷ sensors) results w stripped h sensor b e good =
      let act = val_action s in
      let now = exec_action_val rt act w in
      let (none_now, none_later) = append-eq-nil_iff.0 h in
      let name = stripped s (mem-head s sensors) in
      let kept = exec_action_val-Keeps rt act w in
      let later : Dict.get now.world.thresholds sensor ≡ some b =
        subst (λ thresholds. Dict.get thresholds sensor ≡ some b) kept.0 e in
      let good' : (mem sensor sensors ≡ true) ⊎ IsGood rt sensor b now.world =
        elim (Bool-cases (s == sensor)) [
          | inl same ↦
              (let path = name ∙ (eq_iff s sensor).0 same in
                inr (
                  subst (λ n. IsGood rt n b now.world) path
                    (exec_action_val-IsGood rt act w b
                      (subst (λ n. Dict.get w.thresholds n ≡ some b) (sym path) e) none_now)))
          | inr other ↦ elim good [
            | inl member ↦ inl (ground (arith, other, member))
            | inr (x, value, within) ↦ inr (
              x,
              sym (kept.1 sensor (subst (λ n. (n == sensor) ≡ false) (sym name) other)) ∙ value,
              within,
            )
          ]
        ] in
      evaluate_each-IsGood sensors _ now.world (λ s' member. stripped s' (ground (arith, member)))
        none_later sensor b later good'

  -- The names of thresholds are stripped of white space, as MIN and MAX register them.
  abbrev pub IsStripped : World F → Type 0
  IsStripped w = (s : String) → mem s (Dict.keys w.thresholds) ≡ true → rt.strip s ≡ s

  -- Where the thresholds that a goal leaves pending are evaluated with no error recorded, every one
  -- of them ends with its variable a number within its bounds, in every mode.
  pub evaluate_pending_thresholds-IsGood :
      (results : List StepResult) (w : World F) (sensor : String) (b : Threshold F)
      → IsStripped w
      → Dict.get w.thresholds sensor ≡ some b
      → mem sensor w.evaluated ≡ false
      → (evaluate_pending_thresholds rt results w).1.errors ≡ []
      → IsGood rt sensor b (evaluate_pending_thresholds rt results w).1.world
  unfolding evaluate_pending_thresholds pending_thresholds
  evaluate_pending_thresholds-IsGood results w sensor b stripped found pending h =
      let names = Dict.keys w.thresholds in
      let is_pending : String → Bool = λ s. not (mem s w.evaluated) in
      let among : (s : String) → mem s (pending_thresholds rt w) ≡ (mem s names && is_pending s) =
        λ s. mem-sorted s (keep is_pending names) ∙ mem-keep is_pending s names in
      evaluate_each-IsGood (pending_thresholds rt w) results w
        (λ s member. stripped s (ground (arith, among s, member))) h sensor b found
        (inl (ground (arith, among sensor, mem-keys w.thresholds sensor b found, pending)))
