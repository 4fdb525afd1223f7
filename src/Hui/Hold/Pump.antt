-- ===== src/Hui/Hold/Pump.antt =====
-- What the pump was last told, across starts, stops and shutdowns.
use oqlos.Base.{
  String, ◌≡◌, refl, ◌∙◌, inl, inr, Bool, true, false, Option, none, some, List, [], ◌∷◌, ◌++◌,
  arith, if◌then◌else◌, Bool-cases, run, run-append,
}
use oqlos.Hui.Gateway.{
  Gateway, State, Call, Reply, returned, raised, call, set_valve, set_pump, all_valves_off,
}
use oqlos.Hui.Readiness.{Failure}
use oqlos.Hui.Operation.{
  Detail, Floats, Result, ok, err, Operation, uncaught, set_valve_op, set_pump_op,
  set_pump_best_effort, all_valves_off_op, each_valve_off, all_valve_ids,
}
use oqlos.Hui.Shutdown.{valves_off, finish, shutdown}
use oqlos.Hui.Hold.{bind, Prepared, ready, refused, refuse, engage_valves, engage_pump}

-- the power of the last pump call, if there is one
abbrev pub pump_after : {F : Type 0} → Option F → Call F → Option F
pump_after x (set_pump pct) = some pct
pump_after x _ = x

abbrev pub pump_of : {F : Type 0} → State F → Option F
pump_of s = run pump_after none s.calls

-- One state has the same active hold and the same last pump power as another.
pub record SameHold {F : Type 0} (s t : State F) : Type 0 where
  pub active : t.active_hold_key ≡ s.active_hold_key
  pub pump : pump_of t ≡ pump_of s

-- No hold is active, and the pump was last told to stop.
pub record IsOff {F : Type 0} (fl : Floats F) (s : State F) : Type 0 where
  pub active : s.active_hold_key ≡ none
  pub pump : pump_of s ≡ some (fl.of_int 0)

module _ {F : Type 0} where
  pub pump_of-call :
      (g : Gateway F) (c : Call F) (s : State F) → pump_of (call g c s).1 ≡ pump_after (pump_of s) c
  unfolding call
  pump_of-call g c s = run-append pump_after none s.calls (c ∷ [])

  pub active-call :
      (g : Gateway F) (c : Call F) (s : State F)
      → (call g c s).1.active_hold_key ≡ s.active_hold_key
  unfolding call
  active-call g c s = refl

  pub SameHold-refl : (s : State F) → SameHold s s
  SameHold-refl s = record { active = refl; pump = refl }

  pub SameHold-trans : {s t u : State F} → SameHold s t → SameHold t u → SameHold s u
  SameHold-trans h k = record { active = k.active ∙ h.active; pump = k.pump ∙ h.pump }

  IsOff-SameHold : {fl : Floats F} {s t : State F} → IsOff fl s → SameHold s t → IsOff fl t
  IsOff-SameHold h k = record { active = k.active ∙ h.active; pump = k.pump ∙ h.pump }

module _ {F : Type 0} (fl : Floats F) (g : Gateway F) where
  each_valve_off-SameHold :
      (ids : List String) (s : State F) → SameHold s (each_valve_off fl g ids s).1
  unfolding each_valve_off
  each_valve_off-SameHold [] s = SameHold-refl s
  each_valve_off-SameHold (id ∷ ids) s =
      let c = set_valve id false in
      SameHold-trans (record { active = active-call g c s; pump = pump_of-call g c s })
        (each_valve_off-SameHold ids (call g c s).1)

  all_valves_off_op-SameHold : (s : State F) → SameHold s (all_valves_off_op fl g s).1
  unfolding all_valves_off_op
  all_valves_off_op-SameHold s = elim (Bool-cases g.has_all_valves_off) [
    | inl e ↦
        rw e (record {
          active = active-call g all_valves_off s;
          pump = pump_of-call g all_valves_off s;
        })
    | inr e ↦ rw e (SameHold-refl s)
  ]

  valves_off-SameHold : (s : State F) → SameHold s (valves_off fl g s).1
  unfolding valves_off
  valves_off-SameHold s =
      let b = all_valves_off_op-SameHold s in
      let e =
        SameHold-trans b (each_valve_off-SameHold all_valve_ids (all_valves_off_op fl g s).1) in
      ground (arith, b, e)

  finish-SameHold :
      (o : Operation F) (f : Option Failure) (s : State F) → SameHold s (finish fl g o f s).1
  unfolding finish
  finish-SameHold o none s = valves_off-SameHold s
  finish-SameHold o (some f) s = SameHold-refl s

  pub shutdown-IsOff : (checked : Bool) (s : State F) → IsOff fl (shutdown fl g checked s).1
  unfolding shutdown set_pump_best_effort
  shutdown-IsOff checked s =
      let idle = record s { active_hold_key = none; active_hold_started_at = none } in
      let c = set_pump (fl.of_int 0) in
      IsOff-SameHold (record { active = active-call g c idle; pump = pump_of-call g c idle })
        (finish-SameHold (set_pump_best_effort fl g (fl.of_int 0) idle).0 _ (call g c idle).1)

-- What a preparation leaves: `R` when the hardware is ready, `E` when a call raised, and the
-- pump off with no active hold when it was refused.
abbrev pub After :
    {F : Type 0}
    → Floats F
    → (State F → Type 0)
    → (State F → Type 0)
    → Result (Prepared F) × State F
    → Type 0
After fl R E (ok (ready operations), t) = R t
After fl R E (ok (refused answer), t) = IsOff fl t × (answer.ok ≡ false)
After fl R E (err e, t) = E t

pub After-map :
    {F : Type 0} (fl : Floats F) {R E R' E' : State F → Type 0}
    (out : Result (Prepared F) × State F)
    → ((t : State F) → R t → R' t)
    → ((t : State F) → E t → E' t)
    → After fl R E out
    → After fl R' E' out
After-map fl (ok (ready operations), t) f h a = f t a
After-map fl (ok (refused answer), t) f h a = a
After-map fl (err e, t) f h a = h t a

-- Some call raised; the call of the pump raised.
abbrev pub AnyRaised : {F : Type 0} → Gateway F → Type 0
AnyRaised {F} g =
    (calls : List (Call F)) × (c : Call F) × (e : String) × (g.reply calls c ≡ raised e)

abbrev pub PumpRaised : {F : Type 0} → Gateway F → Type 0
PumpRaised {F} g =
    (calls : List (Call F)) × (pct : F) × (e : String) × (g.reply calls (set_pump pct) ≡ raised e)

pub uncaught-raised :
    {F : Type 0} (fl : Floats F) (name : String) (detail : Detail F) (r : Reply F) {e : String}
    → uncaught fl name detail r ≡ err e
    → r ≡ raised e
unfolding uncaught
uncaught-raised fl name detail (returned v) h = cc
uncaught-raised fl name detail (raised e) h = cc

-- A property of a `bind` holds if the rest has it, and it holds of an exception.
pub bind_rule :
    {F A B : Type 0} (P : Result B × State F → Type 0) (m : Result A × State F)
    (k : A → State F → Result B × State F)
    → ((a : A) → m.0 ≡ ok a → P (k a m.1))
    → ((e : String) → m.0 ≡ err e → P (err e, m.1))
    → P (bind m k)
bind_rule P (ok a, s) k go throw = go a refl
bind_rule P (err e, s) k go throw = throw e refl

pub if_rule :
    {X : Type 0} (P : X → Type 0) (b : Bool) (x y : X)
    → (b ≡ true → P x)
    → (b ≡ false → P y)
    → P (if b then x else y)
if_rule P true x y f g = f refl
if_rule P false x y f g = g refl

module _ {F : Type 0} (fl : Floats F) (g : Gateway F) where
  refuse-After :
      (R E : State F → Type 0) (key error : String) (operations : List (Operation F)) (s : State F)
      → After fl R E (refuse fl g key error operations s)
  unfolding refuse
  refuse-After R E key error operations s = (shutdown-IsOff fl g false s, refl)

  set_valve_op-SameHold :
      (id : String) (value : Bool) (s : State F) → SameHold s (set_valve_op fl g id value s).1
  unfolding set_valve_op
  set_valve_op-SameHold id value s = record {
    active = active-call g (set_valve id value) s;
    pump = pump_of-call g (set_valve id value) s;
  }

  set_valve_op-raised :
      (id : String) (value : Bool) (s : State F) {e : String}
      → (set_valve_op fl g id value s).0 ≡ err e
      → g.reply s.calls (set_valve id value) ≡ raised e
  unfolding set_valve_op call
  set_valve_op-raised id value s h = uncaught-raised fl _ _ (g.reply s.calls (set_valve id value)) h

  pub engage_valves-After :
      (key : String) (ids : List String) (operations : List (Operation F)) (s : State F)
      → After fl
          (SameHold s)
          (λ t. SameHold s t × AnyRaised g)
          (engage_valves fl g key ids operations s)
  unfolding engage_valves
  engage_valves-After key [] operations s = SameHold-refl s
  engage_valves-After key (id ∷ ids) operations s =
      let P = After fl (SameHold s) (λ t. SameHold s t × AnyRaised g) in
      let m = set_valve_op fl g id true s in
      let same = set_valve_op-SameHold id true s in
      bind_rule P m _
        (λ o _.
          let ops = operations ++ o ∷ [] in
          let rest = engage_valves fl g key ids ops m.1 in
          if_rule P o.ok rest _
            (λ _.
              After-map fl rest (λ t. SameHold-trans same) (λ t h. (SameHold-trans same h.0, h.1))
                (engage_valves-After key ids ops m.1))
            (λ _. (shutdown-IsOff fl g false m.1, refl)))
        (λ e raised_e.
          (same, (s.calls, set_valve id true, e, set_valve_op-raised id true s raised_e)))

  -- what the pump was told when it is engaged at `pct`
  abbrev pub Engaged : State F → F → State F → Type 0
  Engaged s pct t =
      (t.active_hold_key ≡ s.active_hold_key)
      × (pump_of t ≡ (if fl.is_zero pct then pump_of s else some pct))

  pub set_pump_op-Engaged :
      (pct : F) (s : State F) → fl.is_zero pct ≡ false → Engaged s pct (set_pump_op fl g pct s).1
  unfolding set_pump_op
  set_pump_op-Engaged pct s z =
      (active-call g (set_pump pct) s, rw z (pump_of-call g (set_pump pct) s))

  set_pump_op-raised :
      (pct : F) (s : State F) {e : String}
      → (set_pump_op fl g pct s).0 ≡ err e
      → g.reply s.calls (set_pump pct) ≡ raised e
  unfolding set_pump_op call
  set_pump_op-raised pct s h = uncaught-raised fl _ _ (g.reply s.calls (set_pump pct)) h

  pub engage_pump-After :
      (key : String) (pct : F) (operations : List (Operation F)) (s : State F)
      → After fl (Engaged s pct) (λ _. PumpRaised g) (engage_pump fl g key pct operations s)
  unfolding engage_pump
  engage_pump-After key pct operations s =
      let P = After fl (Engaged s pct) (λ _. PumpRaised g) in
      let m = set_pump_op fl g pct s in
      if_rule P (fl.is_zero pct) (ok (ready operations), s) _ (λ z. (refl, rw z refl))
        (λ z.
          bind_rule P m _
            (λ o _.
              let ops = operations ++ o ∷ [] in
              if_rule P o.ok (ok (ready ops), m.1) _ (λ _. set_pump_op-Engaged pct s z)
                (λ _. (shutdown-IsOff fl g false m.1, refl)))
            (λ e raised_e. (s.calls, pct, e, set_pump_op-raised pct s raised_e)))
