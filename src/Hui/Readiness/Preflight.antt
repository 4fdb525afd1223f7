-- ===== src/Hui/Readiness/Preflight.antt =====
-- What the preflight without the power gate answers, by what the plugins report.
use oqlos.Base.{
  String, ◌≡◌, refl, sym, ap, ◌∙◌, inl, inr, Bool, true, false, not, ◌&&◌, ◌||◌, List, [], ◌∷◌,
  ◌++◌, map, arith, ◌==◌, eq_iff, is_some, Bool-cases, any, keep,
}
use oqlos.Hui.Gateway.{Gateway}
use oqlos.Hui.Readiness.{
  Check, mem, distinct, read_plugin, required_plugins_failure, is_empty, unavailable_plugins,
}
use oqlos.Hui.Readiness.Report.{first}

-- Tests on a list of names

pub any-append :
    (p : String → Bool) (xs ys : List String) → any p (xs ++ ys) ≡ (any p xs || any p ys)
any-append p [] ys = refl
any-append p (x ∷ xs) ys = ground (arith, any-append p xs ys)

any-keep : (p q : String → Bool) (xs : List String) → any q (keep p xs) ≡ any (λ x. p x && q x) xs
any-keep p q [] = refl
any-keep p q (x ∷ xs) = ground (arith, any-keep p q xs)

pub any_cong :
    (p q : String → Bool) (xs : List String)
    → ((x : String) → mem x xs ≡ true → p x ≡ q x)
    → any p xs ≡ any q xs
any_cong p q [] h = refl
any_cong p q (x ∷ xs) h =
    ground (arith, eq_iff x x, h x, any_cong p q xs (λ y m. h y (ground (arith, m))))

any-false : (xs : List String) → any (λ x. false) xs ≡ false
any-false [] = refl
any-false (x ∷ xs) = any-false xs

mem-any :
    (p : String → Bool) (x : String) (xs : List String)
    → mem x xs ≡ true
    → p x ≡ true
    → any p xs ≡ true
mem-any p x (y ∷ ys) m h = ground (arith, eq_iff x y, mem-any p x ys)
mem-any p x [] m h = ground (arith, m)

-- Leaving out repetitions loses no name.
any-distinct :
    (p : String → Bool) (seen xs : List String)
    → (any p (distinct seen xs) || any p seen) ≡ (any p xs || any p seen)
unfolding distinct
any-distinct p seen [] = refl
any-distinct p seen (x ∷ xs) = elim (Bool-cases (mem x seen)) [
  | inl old ↦ rw old (ground (arith, any-distinct p seen xs, mem-any p x seen old))
  | inr new ↦ rw new (ground (arith, any-distinct p (x ∷ seen) xs))
]

mem-eq-any : (x : String) (xs : List String) → mem x xs ≡ any (λ y. x == y) xs
mem-eq-any x [] = refl
mem-eq-any x (y ∷ ys) = ground (arith, mem-eq-any x ys)

pub mem-append : (x : String) (xs ys : List String) → mem x (xs ++ ys) ≡ (mem x xs || mem x ys)
mem-append x [] ys = refl
mem-append x (y ∷ xs) ys = ground (arith, mem-append x xs ys)

is_empty-eq : (xs : List String) → is_empty xs ≡ not (any (λ x. true) xs)
is_empty-eq [] = refl
is_empty-eq (x ∷ xs) = refl

pub is_some-first : (p : String → Bool) (xs : List String) → is_some (first p xs) ≡ any p xs
is_some-first p [] = refl
is_some-first p (x ∷ xs) = ground (arith, is_some-first p xs)

-- Lists of checks

any-map :
    {A : Type 0} (p : A → Bool) (f : String → A) (xs : List String)
    → any p (map f xs) ≡ any (λ x. p (f x)) xs
any-map p f [] = refl
any-map p f (x ∷ xs) = ground (arith, any-map p f xs)

pub is_empty-keep :
    {A : Type 0} (p : A → Bool) (xs : List A) → is_empty (keep p xs) ≡ not (any p xs)
is_empty-keep p [] = refl
is_empty-keep p (x ∷ xs) = ground (arith, is_empty-keep p xs)

is_empty-append : {A : Type 0} (xs ys : List A) → is_empty (xs ++ ys) ≡ (is_empty xs && is_empty ys)
is_empty-append [] ys = refl
is_empty-append (x ∷ xs) ys = refl

is_empty-map : {A : Type 0} (f : String → A) (xs : List String) → is_empty (map f xs) ≡ is_empty xs
is_empty-map f [] = refl
is_empty-map f (x ∷ xs) = refl

-- The ids of a command: those of the valve controllers `cs`, and motors `ms` that are none of them
pub record IsRequired (cs ms : List String) : Type 0 where
  pub some_controller : is_empty cs ≡ false
  pub named : (x : String) → mem x cs ≡ true → (x == "") ≡ false
  pub motors_named : (x : String) → mem x ms ≡ true → (x == "") ≡ false
  pub apart : (x : String) → mem x ms ≡ true → mem x cs ≡ false

module _ {F : Type 0} (g : Gateway F) (ms : List String)
    (r : IsRequired g.valve_controllers ms) where
  abbrev pub cs : List String
  cs = g.valve_controllers

  abbrev required : List String
  required = distinct [] (keep (λ x. not (x == "")) (cs ++ ms))

  any-required : (p : String → Bool) → any p required ≡ (any p cs || any p ms)
  any-required p =
      let ne : String → Bool = λ x. not (x == "") in
      let all_names = any-distinct p [] (keep ne (cs ++ ms)) in
      let e : any (λ x. ne x && p x) cs ≡ any p cs =
        any_cong _ p cs (λ x m. rw (r.named x m) refl) in
      let e' : any (λ x. ne x && p x) ms ≡ any p ms =
        any_cong _ p ms (λ x m. rw (r.motors_named x m) refl) in
      ground
        (arith, all_names, any-keep ne p (cs ++ ms), any-append (λ x. ne x && p x) cs ms, e, e')

  abbrev valve_ids : List String
  valve_ids = keep (λ x. mem x cs) required

  any-valve_ids : (q : String → Bool) → any q valve_ids ≡ any q cs
  any-valve_ids q =
      let e : any (λ x. mem x cs && q x) cs ≡ any q cs = any_cong _ q cs (λ x m. rw m refl) in
      let e' : any (λ x. mem x cs && q x) ms ≡ any (λ x. false) ms =
        any_cong _ (λ x. false) ms (λ x m. rw (r.apart x m) refl) in
      ground (
        arith,
        any-keep (λ x. mem x cs) q required,
        any-required (λ x. mem x cs && q x),
        e,
        e',
        any-false ms,
      )

  mem-valve_ids : (x : String) → mem x valve_ids ≡ mem x cs
  mem-valve_ids x = mem-eq-any x valve_ids ∙ any-valve_ids (λ y. x == y) ∙ sym (mem-eq-any x cs)

  abbrev strict_ids : List String
  strict_ids = keep (λ x. not (mem x valve_ids)) required

  any-strict_ids : (q : String → Bool) → any q strict_ids ≡ any q ms
  any-strict_ids q =
      let e : any (λ x. not (mem x valve_ids) && q x) cs ≡ any (λ x. false) cs =
        any_cong _ (λ x. false) cs (λ x m. rw (mem-valve_ids x, m) refl) in
      let e' : any (λ x. not (mem x valve_ids) && q x) ms ≡ any q ms =
        any_cong _ q ms (λ x m. rw (mem-valve_ids x, r.apart x m) refl) in
      ground (
        arith,
        any-keep (λ x. not (mem x valve_ids)) q required,
        any-required (λ x. not (mem x valve_ids) && q x),
        e,
        e',
        any-false cs,
      )

  is_empty-required : is_empty required ≡ false
  is_empty-required =
      ground
        (arith, is_empty-eq required, any-required (λ x. true), is_empty-eq cs, r.some_controller)

  abbrev pub bad : String → Bool
  bad x = not (read_plugin g x).ok

  is_empty-valve_ids : is_empty valve_ids ≡ false
  is_empty-valve_ids =
      ground
        (arith, is_empty-eq valve_ids, any-valve_ids (λ x. true), is_empty-eq cs, r.some_controller)

  abbrev strict_missing : List Check
  strict_missing = keep (λ (c : Check). not c.ok) (map (read_plugin g) strict_ids)

  is_empty-strict_missing : is_empty strict_missing ≡ not (any bad ms)
  is_empty-strict_missing =
      is_empty-keep (λ (c : Check). not c.ok) (map (read_plugin g) strict_ids)
      ∙ ap not (any-map (λ (c : Check). not c.ok) (read_plugin g) strict_ids ∙ any-strict_ids bad)

  abbrev pub controllers_ok : Bool
  controllers_ok = any (λ x. (read_plugin g x).ok) cs

  valves_ok : any (λ (c : Check). c.ok) (map (read_plugin g) valve_ids) ≡ controllers_ok
  valves_ok =
      any-map (λ (c : Check). c.ok) (read_plugin g) valve_ids
      ∙ any-valve_ids (λ x. (read_plugin g x).ok)

  is_some-unavailable_plugins :
      is_some (unavailable_plugins g required) ≡ not (controllers_ok && not (any bad ms))
  unfolding unavailable_plugins
  is_some-unavailable_plugins = ground (
    arith,
    is_empty-valve_ids,
    is_empty-strict_missing,
    valves_ok,
    is_empty-map (read_plugin g) valve_ids,
    is_empty-append (map (read_plugin g) valve_ids) strict_missing,
  )

  -- Without the power gate, the preflight refuses where no controller is ready, or a motor is not.
  pub is_some-required_plugins_failure :
      (command : String)
      → g.is_real ≡ true
      → is_some (required_plugins_failure g (cs ++ ms) command false)
        ≡ not (controllers_ok && not (any bad ms))
  unfolding required_plugins_failure
  is_some-required_plugins_failure command real =
      rw (is_empty-required, real) is_some-unavailable_plugins
