-- ===== src/Scenario/Orchestrator/Keeps.antt =====
-- Invariants of the methods of the orchestrator, one rule for each way to build a method.
use oqlos.Base.{◌≡◌, refl, Bool, true, false, Option, none, some, List, [], ◌∷◌, if◌then◌else◌}
use oqlos.Scenario.Orchestrator.{
  Error, Orchestrator, Result, ok, err, Run, after, pure, raise, gets, or_raise, caught, otherwise,
  ◌>>=◌, ◌>>◌, each,
}

-- A method that ends here has kept `P`, and what it has raised is within `E`.
abbrev pub Ends :
    {F A : Type 0}
    → (Error → Type 0)
    → (Orchestrator F → Type 0)
    → Result A × Orchestrator F
    → Type 0
Ends E P (ok a, o) = P o
Ends E P (err e, o) = E e × P o

pub record Keeps {F A : Type 0} (E : Error → Type 0) (P : Orchestrator F → Type 0) (m : Run F A)
    : Type 0 where
  pub at : (o : Orchestrator F) → P o → Ends E P (m o)

module _ {F : Type 0} {E : Error → Type 0} {P : Orchestrator F → Type 0} where
  pub Keeps-pure : {A : Type 0} (a : A) → Keeps E P (pure {F = F} a)
  Keeps-pure a = record { at = λ o h. h }

  pub Keeps-raise : {A : Type 0} (e : Error) → E e → Keeps E P (raise {F = F} {A = A} e)
  Keeps-raise e allowed = record { at = λ o h. (allowed, h) }

  pub Keeps-gets : {A : Type 0} (f : Orchestrator F → A) → Keeps E P (gets f)
  Keeps-gets f = record { at = λ o h. h }

  pub Keeps-or_raise :
      {A : Type 0} (m : Option A) (e : Error) → (m ≡ none → E e) → Keeps E P (or_raise {F = F} m e)
  Keeps-or_raise none e allowed = Keeps-raise e (allowed refl)
  Keeps-or_raise (some a) e allowed = Keeps-pure a

  pub Keeps-if :
      {A : Type 0} (b : Bool) (m n : Run F A)
      → Keeps E P m
      → Keeps E P n
      → Keeps E P (if b then m else n)
  Keeps-if true m n km kn = km
  Keeps-if false m n km kn = kn

  Ends-after :
      {A B : Type 0} (r : Result A × Orchestrator F) (f : A → Run F B)
      → Ends E P r
      → ((a : A) → Keeps E P (f a))
      → Ends E P (after r f)
  Ends-after (ok a, o) f h kf = (kf a).at o h
  Ends-after (err e, o) f h kf = h

  pub Keeps-bind :
      {A B : Type 0} (m : Run F A) (f : A → Run F B)
      → Keeps E P m
      → ((a : A) → Keeps E P (f a))
      → Keeps E P (m >>= f)
  Keeps-bind m f km kf = record { at = λ o h. Ends-after (m o) f (km.at o h) kf }

  Ends-caught :
      {A : Type 0} (r : Result A × Orchestrator F) (n : Run F A)
      → Ends E P r
      → Keeps E P n
      → Ends E P (caught r n)
  Ends-caught (ok a, o) n h kn = h
  Ends-caught (err e, o) n h kn = kn.at o h.1

  pub Keeps-otherwise :
      {A : Type 0} (m n : Run F A) → Keeps E P m → Keeps E P n → Keeps E P (otherwise m n)
  Keeps-otherwise m n km kn = record { at = λ o h. Ends-caught (m o) n (km.at o h) kn }

  pub Keeps-then :
      {A B : Type 0} (m : Run F A) (n : Run F B) → Keeps E P m → Keeps E P n → Keeps E P (m >> n)
  Keeps-then m n km kn = Keeps-bind m (λ _. n) km (λ _. kn)

  pub Keeps-each :
      {A : Type 0} (f : A → Run F (Unit {0})) (xs : List A)
      → ((x : A) → Keeps E P (f x))
      → Keeps E P (each f xs)
  unfolding each
  Keeps-each f [] kf = Keeps-pure tt
  Keeps-each f (x ∷ xs) kf = Keeps-then (f x) (each f xs) (kf x) (Keeps-each f xs kf)

pub ruleset keeps_rules = (Keeps-pure, Keeps-gets, Keeps-if, Keeps-bind, Keeps-then, Keeps-each)
