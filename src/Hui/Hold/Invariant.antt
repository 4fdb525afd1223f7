-- ===== src/Hui/Hold/Invariant.antt =====
-- What holds between two requests: the active hold says what the pump was last told.
use oqlos.Base.{
  ℕ, String, ◌≡◌, refl, sym, ap, ◌∙◌, ◌⊎◌, inl, inr, true, false, Option, none, some, List, [], ◌∷◌,
  run,
}
use mathlib.Core.Path.{subst}
use oqlos.Base.Dict
use oqlos.Base.Dict.{Dict}
use oqlos.Hui.Gateway.{Gateway, State, Call, raised, set_pump}
use oqlos.Hui.Operation.{Floats, Result, ok, err}
use oqlos.Hui.Shutdown.{shutdown}
use oqlos.Hui.Profiles.{Profile, Config, get_hui_hold_profiles}
use oqlos.Hui.Hold.{HoldStart, untouched, start_profile, start_known, start_hold}
use oqlos.Hui.Hold.Requests.{Request, start, stop, shut_down, serve}
use oqlos.Hui.Hold.Pump.{pump_of, IsOff, shutdown-IsOff, AnyRaised, PumpRaised}
use oqlos.Hui.Hold.Active.{Readied, Touched, Running, Started, start_profile-Started}

Result-cases : {A : Type 0} (r : Result A) → ((a : A) × (r ≡ ok a)) ⊎ ((e : String) × (r ≡ err e))
Result-cases (ok a) = inl (a, refl)
Result-cases (err e) = inr (e, refl)

module _ {F : Type 0} (fl : Floats F) where
  -- the pump was never told anything, or was last told to stop
  abbrev pub Idle : Option F → Type 0
  Idle x = (x ≡ none) ⊎ (x ≡ some (fl.of_int 0))

  -- With no active hold the pump is idle.
  abbrev pub IsSafe : State F → Type 0
  IsSafe s = s.active_hold_key ≡ none → Idle (pump_of s)

module _ {F : Type 0} (fl : Floats F) (g : Gateway F) (cfg : Config F) where
  -- An active hold is one of the profiles, and the pump was last told that profile's power; where
  -- that is zero the pump is idle.
  abbrev pub IsOfProfile : State F → String → Type 0
  IsOfProfile s key =
      (profiles : Dict (Profile F)) × (p : Profile F) × (get_hui_hold_profiles fl cfg ≡ ok profiles)
      × (Dict.get profiles key ≡ some p)
      × (((fl.is_zero p.pump_pct ≡ false) × (pump_of s ≡ some p.pump_pct))
          ⊎ ((fl.is_zero p.pump_pct ≡ true) × Idle fl (pump_of s)))

  pub record IsSettled (s : State F) : Type 0 where
    pub safe : IsSafe fl s
    pub held : (key : String) → s.active_hold_key ≡ some key → IsOfProfile s key

  known_by :
      (now : ℕ) (key : String) (profiles : Dict (Profile F)) (s : State F)
      → get_hui_hold_profiles fl cfg ≡ ok profiles
      → (found : Option (Profile F)) → Dict.get profiles key ≡ found
      → Started fl g cfg s key (elim found [
        | none ↦ (ok (untouched key (some "Unknown HUI hold key") none), s)
        | some p ↦ start_profile fl g cfg now key p s
      ])
  known_by now key profiles s h none e = inr (refl, inr refl)
  known_by now key profiles s h (some p) e = start_profile-Started fl g cfg now key profiles p s h e

  known-Started :
      (now : ℕ) (key : String) (profiles : Dict (Profile F)) (s : State F)
      → get_hui_hold_profiles fl cfg ≡ ok profiles
      → Started fl g cfg s key (start_known fl g cfg now key (ok profiles) s)
  unfolding start_known
  known-Started now key profiles s h = known_by now key profiles s h (Dict.get profiles key) refl

  pub start_hold-Started :
      (now : ℕ) (key : String) (s : State F)
      → Started fl g cfg s (cfg.normalize key) (start_hold fl g cfg now key s)
  unfolding start_hold
  start_hold-Started now key s = elim (Result-cases (get_hui_hold_profiles fl cfg)) [
    | inl (profiles, e) ↦ rw e (known-Started now (cfg.normalize key) profiles s e)
    | inr (m, e) ↦ rw e (unfold start_known in inr (refl, inr refl))
  ]

  off-IsSafe : (s : State F) → IsOff fl s → IsSafe fl s
  off-IsSafe s off e = inr off.pump

  off-IsSettled : (s : State F) → IsOff fl s → IsSettled s
  off-IsSettled s off = record { safe = off-IsSafe s off; held = λ key e. cc (e, off.active) }

  Touched-IsSafe : (s t : State F) → IsSafe fl s → Touched fl s t → IsSafe fl t
  Touched-IsSafe s t h (a, inl p) e = inr p
  Touched-IsSafe s t h (a, inr (same, p)) e = rw p (h (sym same ∙ e))

  Started-IsSafe :
      (s : State F) (key : String) (out : Result (HoldStart F) × State F)
      → (PumpRaised g → ⊥)
      → IsSafe fl s
      → Started fl g cfg s key out
      → IsSafe fl out.1
  Started-IsSafe s key (ok a, t) quiet h (inl (o, profiles, p, e, f, r)) = λ n. cc (n, r.0)
  Started-IsSafe s key (ok a, t) quiet h (inr (o, inl off)) = off-IsSafe t off
  Started-IsSafe s key (ok a, t) quiet h (inr (o, inr e)) = rw e h
  Started-IsSafe s key (err e, t) quiet h (inl touched) = Touched-IsSafe s t h touched.0
  Started-IsSafe s key (err e, t) quiet h (inr r) = absurd (quiet r)

  serve-IsSafe :
      (s : State F) (request : Request)
      → (PumpRaised g → ⊥)
      → IsSafe fl s
      → IsSafe fl (serve fl g cfg s request)
  unfolding serve
  serve-IsSafe s (start now key) quiet h =
      Started-IsSafe s (cfg.normalize key) (start_hold fl g cfg now key s) quiet h
        (start_hold-Started now key s)
  serve-IsSafe s (stop key) quiet h = off-IsSafe _ (
      shutdown-IsOff fl g false
        (record s { active_hold_key = none; active_hold_started_at = none }))
  serve-IsSafe s shut_down quiet h =
      off-IsSafe (shutdown fl g false s).1 (shutdown-IsOff fl g false s)

  -- If the calls that set the pump never raise, then after any requests from a safe state either
  -- a hold is active, or the pump was never told anything or was last told to stop. The other
  -- calls may return anything, fail or raise.
  pub serves-IsSafe :
      (s : State F) (requests : List Request)
      → ((calls : List (Call F)) (pct : F) (e : String)
          → g.reply calls (set_pump pct) ≡ raised e
          → ⊥)
      → IsSafe fl s
      → IsSafe fl (run (serve fl g cfg) s requests)
  serves-IsSafe s [] quiet h = h
  serves-IsSafe s (r ∷ requests) quiet h =
      serves-IsSafe (serve fl g cfg s r) requests quiet
        (serve-IsSafe s r (λ x. quiet x.0 x.1 x.2 x.3) h)

  same_profile :
      (profiles profiles' : Dict (Profile F)) (key : String) (p p' : Profile F)
      → get_hui_hold_profiles fl cfg ≡ ok profiles
      → get_hui_hold_profiles fl cfg ≡ ok profiles'
      → Dict.get profiles key ≡ some p
      → Dict.get profiles' key ≡ some p'
      → p ≡ p'
  same_profile profiles profiles' key p p' a b c d =
      let e : profiles ≡ profiles' = cc (a, b) in
      let f : Dict.get profiles key ≡ Dict.get profiles' key =
        ap (λ (x : Dict (Profile F)). Dict.get x key) e in
      cc (c, d, f)

  -- a hold of zero power leaves the pump idle
  Readied-Idle :
      (s t : State F) (key : String) (profiles : Dict (Profile F)) (p : Profile F)
      → get_hui_hold_profiles fl cfg ≡ ok profiles
      → Dict.get profiles key ≡ some p
      → fl.is_zero p.pump_pct ≡ true
      → IsSettled s
      → Readied fl s key t
      → Idle fl (pump_of t)
  Readied-Idle s t key profiles p a b z h (inl e) = inr e
  Readied-Idle s t key profiles p a b z h (inr (e, inl none_active)) = rw e (h.safe none_active)
  Readied-Idle s t key profiles p a b z h (inr (e, inr active)) =
      let (profiles', p', c, d, q) = h.held key active in
      let same = same_profile profiles profiles' key p p' a c b d in
      let zero_same = ap (λ (x : Profile F). fl.is_zero x.pump_pct) same in
      rw e (elim q [ inl (nonzero, _) ↦ cc (zero_same, z, nonzero) | inr (_, idle) ↦ idle ])

  Running-IsSettled :
      (s t : State F) (key : String) (profiles : Dict (Profile F)) (p : Profile F)
      → get_hui_hold_profiles fl cfg ≡ ok profiles
      → Dict.get profiles key ≡ some p
      → IsSettled s
      → Running fl g cfg s key p t
      → IsSettled t
  Running-IsSettled s t key profiles p a b h (active, power) = record {
    safe = λ e. cc (e, active);
    held = λ k e.
        let same : key ≡ k = cc (e, active) in
        subst (IsOfProfile t) same (profiles, p, a, b, of_power power);
  }
    where
      of_power :
          ((fl.is_zero p.pump_pct ≡ false) × (pump_of t ≡ some p.pump_pct))
            ⊎ ((fl.is_zero p.pump_pct ≡ true) × Readied fl s key t)
          → ((fl.is_zero p.pump_pct ≡ false) × (pump_of t ≡ some p.pump_pct))
            ⊎ ((fl.is_zero p.pump_pct ≡ true) × Idle fl (pump_of t))
      of_power (inl x) = inl x
      of_power (inr (z, r)) = inr (z, Readied-Idle s t key profiles p a b z h r)

  Started-IsSettled :
      (s : State F) (key : String) (out : Result (HoldStart F) × State F)
      → (AnyRaised g → ⊥)
      → IsSettled s
      → Started fl g cfg s key out
      → IsSettled out.1
  Started-IsSettled s key (ok a, t) quiet h (inl (o, profiles, p, e, f, r)) =
      Running-IsSettled s t key profiles p e f h r
  Started-IsSettled s key (ok a, t) quiet h (inr (o, inl off)) = off-IsSettled t off
  Started-IsSettled s key (ok a, t) quiet h (inr (o, inr e)) = rw e h
  Started-IsSettled s key (err e, t) quiet h (inl touched) = absurd (quiet touched.1)
  Started-IsSettled s key (err e, t) quiet h (inr (calls, pct, m, r)) =
      absurd (quiet (calls, set_pump pct, m, r))

  serve-IsSettled :
      (s : State F) (request : Request)
      → (AnyRaised g → ⊥)
      → IsSettled s
      → IsSettled (serve fl g cfg s request)
  unfolding serve
  serve-IsSettled s (start now key) quiet h =
      Started-IsSettled s (cfg.normalize key) (start_hold fl g cfg now key s) quiet h
        (start_hold-Started now key s)
  serve-IsSettled s (stop key) quiet h = off-IsSettled _ (
      shutdown-IsOff fl g false
        (record s { active_hold_key = none; active_hold_started_at = none }))
  serve-IsSettled s shut_down quiet h =
      off-IsSettled (shutdown fl g false s).1 (shutdown-IsOff fl g false s)

  -- If no call raises, then after any requests from a settled state the state is settled: an
  -- active hold is one of the profiles, and the pump was last told the power of that profile, or
  -- is idle where that is zero; with no active hold the pump is idle.
  pub serves-IsSettled :
      (s : State F) (requests : List Request)
      → ((calls : List (Call F)) (c : Call F) (e : String) → g.reply calls c ≡ raised e → ⊥)
      → IsSettled s
      → IsSettled (run (serve fl g cfg) s requests)
  serves-IsSettled s [] quiet h = h
  serves-IsSettled s (r ∷ requests) quiet h =
      serves-IsSettled (serve fl g cfg s r) requests quiet
        (serve-IsSettled s r (λ x. quiet x.0 x.1 x.2 x.3) h)
