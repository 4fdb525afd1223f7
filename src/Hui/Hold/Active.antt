-- ===== src/Hui/Hold/Active.antt =====
-- The active hold against what the pump was last told.
use oqlos.Base.{
  ℕ, String, ◌≡◌, refl, ◌∙◌, ◌⊎◌, inl, inr, Bool, true, false, not, ◌&&◌, ◌||◌, Option, none, some,
  List, [], ◌∷◌, arith, eq_iff, is_some, Bool-cases,
}
use oqlos.Base.Dict
use oqlos.Base.Dict.{Dict}
use oqlos.Hui.Gateway.{Gateway, State, raised, call, set_pump, replace_valves_exact}
use oqlos.Hui.Readiness.{required_plugins_failure}
use oqlos.Hui.Operation.{Floats, Result, ok, err, Operation, plain}
use oqlos.Hui.Shutdown.{shutdown}
use oqlos.Hui.Profiles.{Profile, Config, get_hui_hold_profiles}
use oqlos.Hui.Hold.{
  HoldStart, Prepared, ready, refused, bind, key_is, not_ok, answer_refused, untouched,
  engage_valves, engage_pump, replace_op, pump_off_first, prepare_exact, prepare_each, prepare,
  run_hold, required_plugins, start_profile, exact_replace,
}
use oqlos.Hui.Hold.Pump.{
  AnyRaised, PumpRaised, uncaught-raised, pump_of, pump_of-call, active-call, SameHold, IsOff,
  shutdown-IsOff, After, After-map, bind_rule, if_rule, engage_valves-After, Engaged,
  engage_pump-After,
}

module _ {F : Type 0} (fl : Floats F) where
  -- The pump was told to stop last, or has been told the same as in `s`, whose hold is none or key.
  abbrev pub Readied : State F → String → State F → Type 0
  Readied s key t =
      (pump_of t ≡ some (fl.of_int 0))
      ⊎ ((pump_of t ≡ pump_of s) × ((s.active_hold_key ≡ none) ⊎ (s.active_hold_key ≡ some key)))

  -- what an exception before the pump call leaves
  abbrev pub Touched : State F → State F → Type 0
  Touched s t =
      ((t.active_hold_key ≡ s.active_hold_key) ⊎ (t.active_hold_key ≡ none))
      × ((pump_of t ≡ some (fl.of_int 0))
          ⊎ ((t.active_hold_key ≡ s.active_hold_key) × (pump_of t ≡ pump_of s)))

idle_or_same :
    (active : Option String) (key : String) (skip : Bool)
    → (not (key_is active key) && not (skip && not (is_some active))) ≡ false
    → (active ≡ none) ⊎ (active ≡ some key)
idle_or_same none key skip h = inl refl
idle_or_same (some k) key skip h = ground (arith, eq_iff k key)

module _ {F : Type 0} (fl : Floats F) (g : Gateway F) (cfg : Config F) where
  pump_off_first-Readied :
      (key : String) (s : State F)
      → let t = (pump_off_first fl g cfg (key_is s.active_hold_key key) s).1 in
        (t.active_hold_key ≡ s.active_hold_key) × Readied fl s key t
  unfolding pump_off_first
  pump_off_first-Readied key s =
      let c = set_pump (fl.of_int 0) in
      let already = key_is s.active_hold_key key in
      elim (Bool-cases
        (not already && not (cfg.skip_idle_pump_off && not (is_some s.active_hold_key)))) [
          | inl e ↦ rw e (active-call g c s, inl (pump_of-call g c s))
          | inr e ↦
              rw e (refl, inr (refl, idle_or_same s.active_hold_key key cfg.skip_idle_pump_off e))
        ]

  replace_op-SameHold : (ids : List String) (s : State F) → SameHold s (replace_op fl g ids s).1
  unfolding replace_op
  replace_op-SameHold ids s = record {
    active = active-call g (replace_valves_exact ids) s;
    pump = pump_of-call g (replace_valves_exact ids) s;
  }

  replace_op-raised :
      (ids : List String) (s : State F) {e : String}
      → (replace_op fl g ids s).0 ≡ err e
      → g.reply s.calls (replace_valves_exact ids) ≡ raised e
  unfolding replace_op call
  replace_op-raised ids s h = uncaught-raised fl _ _ (g.reply s.calls (replace_valves_exact ids)) h

  Readied-SameHold :
      (s t u : State F) (key : String) → SameHold t u → Readied fl s key t → Readied fl s key u
  Readied-SameHold s t u key h (inl e) = inl (h.pump ∙ e)
  Readied-SameHold s t u key h (inr (e, k)) = inr (h.pump ∙ e, k)

  Touched-SameHold :
      (s t u : State F) (key : String)
      → SameHold t u
      → t.active_hold_key ≡ s.active_hold_key
      → Readied fl s key t
      → Touched fl s u
  Touched-SameHold s t u key h a (inl e) = (inl (h.active ∙ a), inl (h.pump ∙ e))
  Touched-SameHold s t u key h a (inr (e, k)) = (inl (h.active ∙ a), inr (h.active ∙ a, h.pump ∙ e))

  prepare_exact-After :
      (key : String) (p : Profile F) (s : State F)
      → After fl
          (Readied fl s key)
          (λ t. Touched fl s t × AnyRaised g)
          (prepare_exact fl g cfg key p s)
  unfolding prepare_exact
  prepare_exact-After key p s =
      let P = After fl (Readied fl s key) (λ t. Touched fl s t × AnyRaised g) in
      let t = (pump_off_first fl g cfg (key_is s.active_hold_key key) s).1 in
      let first = pump_off_first-Readied key s in
      let m = replace_op fl g p.valves_on t in
      let same = replace_op-SameHold p.valves_on t in
      bind_rule P m _
        (λ o _.
          if_rule P
            (not_ok (pump_off_first fl g cfg (key_is s.active_hold_key key) s).0 || not o.ok) _
            (ok (ready _), m.1) (λ _. (shutdown-IsOff fl g false m.1, refl))
            (λ _. Readied-SameHold s t m.1 key same first.1))
        (λ e raised_e. (
          Touched-SameHold s t m.1 key same first.0 first.1,
          (t.calls, replace_valves_exact p.valves_on, e, replace_op-raised p.valves_on t raised_e),
        ))

  prepare_each-After :
      (key : String) (p : Profile F) (s : State F)
      → After fl (Readied fl s key) (λ t. Touched fl s t × AnyRaised g) (prepare_each fl g key p s)
  unfolding prepare_each
  prepare_each-After key p s =
      let safe = shutdown fl g true s in
      let off = shutdown-IsOff fl g true s in
      let o : Operation F = record {
        operation = "shutdown";
        ok = safe.0.ok;
        detail = plain;
        reply = none;
      } in
      let out = engage_valves fl g key p.valves_on (o ∷ []) safe.1 in
      After-map fl out (λ t h. inl (h.pump ∙ off.pump))
        (λ t h. ((inr (h.0.active ∙ off.active), inl (h.0.pump ∙ off.pump)), h.1))
        (engage_valves-After fl g key p.valves_on (o ∷ []) safe.1)

  prepare-After :
      (now : ℕ) (key : String) (p : Profile F) (s : State F)
      → After fl
          (Readied fl s key)
          (λ t. Touched fl s t × AnyRaised g)
          (prepare fl g cfg now key p s)
  unfolding prepare
  prepare-After now key p s =
      if_rule (After fl (Readied fl s key) (λ t. Touched fl s t × AnyRaised g)) (exact_replace fl g)
        _ _ (λ _. prepare_exact-After key p s) (λ _. prepare_each-After key p s)

After-bind :
    {F : Type 0} (fl : Floats F) {R E : State F → Type 0}
    (P : Result (HoldStart F) × State F → Type 0) (out : Result (Prepared F) × State F)
    (k : List (Operation F) → State F → Result (HoldStart F) × State F)
    → After fl R E out
    → ((operations : List (Operation F)) (t : State F) → R t → P (k operations t))
    → ((a : HoldStart F) (t : State F) → IsOff fl t → a.ok ≡ false → P (ok a, t))
    → ((e : String) (t : State F) → E t → P (err e, t))
    → P (bind out (answer_refused k))
After-bind fl P (ok (ready operations), t) k h go off throw = go operations t h
After-bind fl P (ok (refused a), t) k h go off throw = off a t h.0 h.1
After-bind fl P (err e, t) k h go off throw = throw e t h

module _ {F : Type 0} (fl : Floats F) (g : Gateway F) (cfg : Config F) where
  -- the hold is active and the pump was told the power of its profile
  abbrev pub Running : State F → String → Profile F → State F → Type 0
  Running s key p t =
      (t.active_hold_key ≡ some key)
      × (((fl.is_zero p.pump_pct ≡ false) × (pump_of t ≡ some p.pump_pct))
          ⊎ ((fl.is_zero p.pump_pct ≡ true) × Readied fl s key t))

  -- what a start with this profile leaves
  abbrev Answered : State F → String → Profile F → Result (HoldStart F) × State F → Type 0
  Answered s key p (ok a, t) = ((a.ok ≡ true) × Running s key p t) ⊎ ((a.ok ≡ false) × IsOff fl t)
  Answered s key p (err e, t) = (Touched fl s t × AnyRaised g) ⊎ PumpRaised g

  Readied-eq :
      (key : String) (s t u : State F)
      → pump_of u ≡ pump_of t
      → Readied fl s key t
      → Readied fl s key u
  Readied-eq key s t u e (inl h) = inl (e ∙ h)
  Readied-eq key s t u e (inr (h, k)) = inr (e ∙ h, k)

  running :
      (key : String) (p : Profile F) (s t u : State F)
      → Readied fl s key t
      → Engaged fl g t p.pump_pct u
      → ((fl.is_zero p.pump_pct ≡ false) × (pump_of u ≡ some p.pump_pct))
        ⊎ ((fl.is_zero p.pump_pct ≡ true) × Readied fl s key u)
  running key p s t u r e = elim (Bool-cases (fl.is_zero p.pump_pct)) [
    | inl z ↦ inr (z, Readied-eq key s t u (e.1 ∙ rw z refl) r)
    | inr z ↦ inl (z, e.1 ∙ rw z refl)
  ]

  run_hold-Answered :
      (now : ℕ) (key : String) (p : Profile F) (s : State F)
      → Answered s key p (run_hold fl g cfg now key p s)
  unfolding run_hold
  run_hold-Answered now key p s =
      After-bind fl (Answered s key p) (prepare fl g cfg now key p s) _
        (prepare-After fl g cfg now key p s)
        (λ operations t r.
          After-bind fl (Answered s key p) (engage_pump fl g key p.pump_pct operations t) _
            (engage_pump-After fl g key p.pump_pct operations t)
            (λ ops u e. inl (refl, (refl, running key p s t u r e))) (λ a u off h. inr (h, off))
            (λ e u h. inr h))
        (λ a t off h. inr (h, off)) (λ e t h. inl h)

  -- What a start leaves, whatever key it is given: the hold of a known profile, the pump off, the
  -- state that it found, or what a call that raised leaves.
  abbrev pub Started : State F → String → Result (HoldStart F) × State F → Type 0
  Started s key (ok a, t) =
      ((a.ok ≡ true)
        × (profiles : Dict (Profile F)) × (p : Profile F) × (get_hui_hold_profiles fl cfg
            ≡ ok profiles)
        × (Dict.get profiles key ≡ some p)
        × Running s key p t)
      ⊎ ((a.ok ≡ false) × (IsOff fl t ⊎ (t ≡ s)))
  Started s key (err e, t) = (Touched fl s t × AnyRaised g) ⊎ PumpRaised g

  Answered-Started :
      (s : State F) (key : String) (profiles : Dict (Profile F)) (p : Profile F)
      (out : Result (HoldStart F) × State F)
      → get_hui_hold_profiles fl cfg ≡ ok profiles
      → Dict.get profiles key ≡ some p
      → Answered s key p out
      → Started s key out
  Answered-Started s key profiles p (ok a, t) h k (inl (o, r)) = inl (o, profiles, p, h, k, r)
  Answered-Started s key profiles p (ok a, t) h k (inr (o, f)) = inr (o, inl f)
  Answered-Started s key profiles p (err e, t) h k x = x

  pub start_profile-Started :
      (now : ℕ) (key : String) (profiles : Dict (Profile F)) (p : Profile F) (s : State F)
      → get_hui_hold_profiles fl cfg ≡ ok profiles
      → Dict.get profiles key ≡ some p
      → Started s key (start_profile fl g cfg now key p s)
  unfolding start_profile
  start_profile-Started now key profiles p s h k =
      elim (required_plugins_failure g (required_plugins fl g cfg now p) "hold_start" true)
        as (λ f. Started s key (elim f [
          | some failure ↦ (ok (untouched key none (some failure)), s)
          | none ↦ run_hold fl g cfg now key p s
        ])) [
          | some failure ↦ inr (refl, inr refl)
          | none ↦
              Answered-Started s key profiles p (run_hold fl g cfg now key p s) h k
                (run_hold-Answered now key p s)
        ]
