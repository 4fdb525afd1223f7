-- ===== src/Hui/Shutdown/Confirm.antt =====
-- When a shutdown answers that the hardware is safe.
use oqlos.Base.{
  String, ◌≡◌, refl, ap, ◌∙◌, inl, inr, Bool, true, false, not, ◌&&◌, ◌||◌, Option, none, some,
  List, [], ◌∷◌, ◌++◌, arith, eq_iff, if◌then◌else◌, is_some, Bool-cases, Option-cases, all, keep,
}
use oqlos.Hui.Gateway.{Gateway, State, Call, Reply, call, set_valve, set_pump, all_valves_off}
use oqlos.Hui.Readiness.{mem}
use oqlos.Hui.Operation.{
  power_pct, valve_ids, Floats, Operation, valve, succeeded, caught, each_valve_off, all_valve_ids,
}
use oqlos.Hui.Shutdown.{named, valve_names, confirmed, covers, report, valves_off, finish, shutdown}
use oqlos.Hui.Shutdown.Trace.{bulk_done, shutdown_failure}

abbrev IsFresh : List String → Type 0
IsFresh [] = Unit {0}
IsFresh (id ∷ ids) = (mem id ids ≡ false) × IsFresh ids

-- the ids of the successful ones among the valves that were tried
abbrev kept_ids : List (String × Bool) → List String
kept_ids [] = []
kept_ids ((id, b) ∷ tried) = let rest = kept_ids tried in if b then id ∷ rest else rest

abbrev tried_ids : List (String × Bool) → List String
tried_ids [] = []
tried_ids ((id, b) ∷ tried) = id ∷ tried_ids tried

abbrev all_true : List (String × Bool) → Bool
all_true [] = true
all_true ((id, b) ∷ tried) = b && all_true tried

mem-kept_ids :
    (x : String) (tried : List (String × Bool))
    → mem x (tried_ids tried) ≡ false
    → mem x (kept_ids tried) ≡ false
mem-kept_ids x [] h = refl
mem-kept_ids x ((id, b) ∷ tried) h = ground (arith, mem-kept_ids x tried)

all-mem_cons :
    (y : String) (l ids : List String)
    → mem y ids ≡ false
    → all (λ id. mem id (y ∷ l)) ids ≡ all (λ id. mem id l) ids
all-mem_cons y l [] h = refl
all-mem_cons y l (x ∷ ids) h = ground (arith, eq_iff x y, eq_iff y x, all-mem_cons y l ids)

-- With no id twice, the confirmed ids cover the tried ones only if every try succeeded.
all-kept_ids :
    (tried : List (String × Bool))
    → IsFresh (tried_ids tried)
    → all (λ id. mem id (kept_ids tried)) (tried_ids tried) ≡ all_true tried
all-kept_ids [] h = refl
all-kept_ids ((id, true) ∷ tried) h = ground (
  arith,
  eq_iff id id,
  all-mem_cons id (kept_ids tried) (tried_ids tried) h.0,
  all-kept_ids tried h.1,
)
all-kept_ids ((id, false) ∷ tried) h = ground (arith, mem-kept_ids id tried h.0)

module _ {F : Type 0} (fl : Floats F) (g : Gateway F) where
  abbrev tries : List (Call F) → List String → List (String × Bool)
  tries calls [] = []
  tries calls (id ∷ ids) =
      (id, succeeded fl (g.reply calls (set_valve id false)))
      ∷ tries (calls ++ set_valve id false ∷ []) ids

  -- whether each valve, closed one after the other, answers with success
  abbrev pub each_done : List (Call F) → List String → Bool
  each_done calls ids = all_true (tries calls ids)

  tried_ids-tries : (calls : List (Call F)) (ids : List String) → tried_ids (tries calls ids) ≡ ids
  tried_ids-tries calls [] = refl
  tried_ids-tries calls (id ∷ ids) =
      ap (λ l. id ∷ l) (tried_ids-tries (calls ++ set_valve id false ∷ []) ids)

  named-each_valve_off :
      (ids : List String) (s : State F)
      → named "set_valve" (each_valve_off fl g ids s).0 ≡ (each_valve_off fl g ids s).0
  unfolding each_valve_off
  named-each_valve_off [] s = refl
  named-each_valve_off (id ∷ ids) s =
      ap (λ l. caught fl "set_valve" (valve id false) (g.reply s.calls (set_valve id false)) ∷ l)
        (named-each_valve_off ids _)

  no_pump-each_valve_off :
      (ids : List String) (s : State F) → named "set_pump" (each_valve_off fl g ids s).0 ≡ []
  unfolding each_valve_off
  no_pump-each_valve_off [] s = refl
  no_pump-each_valve_off (id ∷ ids) s = no_pump-each_valve_off ids _

  no_bulk-each_valve_off :
      (ids : List String) (s : State F) → named "all_valves_off" (each_valve_off fl g ids s).0 ≡ []
  unfolding each_valve_off
  no_bulk-each_valve_off [] s = refl
  no_bulk-each_valve_off (id ∷ ids) s = no_bulk-each_valve_off ids _

  valve_names-each_valve_off :
      (ids : List String) (s : State F)
      → valve_names (keep (λ (o : Operation F). o.ok) (each_valve_off fl g ids s).0)
        ≡ kept_ids (tries s.calls ids)
  unfolding each_valve_off
  valve_names-each_valve_off [] s = refl
  valve_names-each_valve_off (id ∷ ids) s =
      ground (arith, valve_names-each_valve_off ids (call g (set_valve id false) s).1)

  covers-tries :
      (calls : List (Call F))
      → covers (kept_ids (tries calls all_valve_ids)) ≡ each_done calls all_valve_ids
  unfolding covers
  covers-tries calls =
      let fresh : IsFresh all_valve_ids = (
        refl,
        (refl, (refl, (refl, (refl, (refl, (refl, (refl, (refl, (refl, (refl, tt)))))))))),
      ) in
      all-kept_ids (tries calls all_valve_ids) fresh

  covers-all : covers all_valve_ids ≡ true
  unfolding covers
  covers-all = refl

  -- what the progress of a shutdown confirms
  abbrev all_confirmed : List (Operation F) → Bool
  all_confirmed operations =
      (confirmed operations).pump_off && covers (confirmed operations).valves_off

  abbrev pump_operation : Reply F → Operation F
  pump_operation r = caught fl "set_pump" (power_pct (fl.of_int 0)) r

  abbrev bulk_operation : Bool → Option (Reply F) → Operation F
  bulk_operation done reply = record {
    operation = "all_valves_off";
    ok = done;
    detail = valve_ids all_valve_ids;
    reply = reply;
  }

  confirmed_bulk :
      (r : Reply F) (reply : Option (Reply F))
      → all_confirmed (pump_operation r ∷ bulk_operation true reply ∷ []) ≡ (succeeded fl r && true)
  unfolding confirmed caught
  confirmed_bulk r reply = rw covers-all refl

  confirmed_each :
      (r : Reply F) (s : State F)
      → all_confirmed (pump_operation r ∷ (each_valve_off fl g all_valve_ids s).0)
        ≡ (succeeded fl r && each_done s.calls all_valve_ids)
  unfolding confirmed caught
  confirmed_each r s =
      rw
        (
          no_pump-each_valve_off all_valve_ids s,
          no_bulk-each_valve_off all_valve_ids s,
          named-each_valve_off all_valve_ids s,
          valve_names-each_valve_off all_valve_ids s,
          covers-tries s.calls,
        )
        refl

  confirmed_bulk_each :
      (r : Reply F) (reply : Option (Reply F)) (s : State F)
      → all_confirmed
          (pump_operation r ∷ bulk_operation false reply ∷ (each_valve_off fl g all_valve_ids s).0)
        ≡ (succeeded fl r && each_done s.calls all_valve_ids)
  unfolding confirmed caught
  confirmed_bulk_each r reply s =
      rw
        (
          no_pump-each_valve_off all_valve_ids s,
          no_bulk-each_valve_off all_valve_ids s,
          named-each_valve_off all_valve_ids s,
          valve_names-each_valve_off all_valve_ids s,
          covers-tries s.calls,
        )
        refl

  -- the calls after which the valves are closed one by one
  abbrev pub after_bulk : List (Call F) → List (Call F)
  after_bulk calls = if g.has_all_valves_off then calls ++ all_valves_off ∷ [] else calls

  valves_off-bulk :
      (s : State F)
      → g.has_all_valves_off ≡ true
      → succeeded fl (g.reply s.calls all_valves_off) ≡ true
      → (valves_off fl g s).0 ≡ bulk_operation true (some (g.reply s.calls all_valves_off)) ∷ []
  unfolding valves_off call
  valves_off-bulk s has done = rw (has, done) refl

  valves_off-bulk_each :
      (s : State F)
      → g.has_all_valves_off ≡ true
      → succeeded fl (g.reply s.calls all_valves_off) ≡ false
      → (valves_off fl g s).0
        ≡ bulk_operation false (some (g.reply s.calls all_valves_off))
          ∷ (each_valve_off fl g all_valve_ids (call g all_valves_off s).1).0
  unfolding valves_off
  valves_off-bulk_each s has lost = unfold call in rw (has, lost) refl

  valves_off-each :
      (s : State F)
      → g.has_all_valves_off ≡ false
      → (valves_off fl g s).0 ≡ (each_valve_off fl g all_valve_ids s).0
  unfolding valves_off
  valves_off-each s lacks = rw lacks refl

  confirmed-valves_off :
      (r : Reply F) (s : State F)
      → all_confirmed (pump_operation r ∷ (valves_off fl g s).0) ≡ (
          succeeded fl r
          && (bulk_done fl g s.calls || each_done (after_bulk s.calls) all_valve_ids))
  confirmed-valves_off r s = elim (Bool-cases g.has_all_valves_off) [
    | inl has ↦ elim (Bool-cases (succeeded fl (g.reply s.calls all_valves_off))) [
      | inl done ↦
          ap (λ l. all_confirmed (pump_operation r ∷ l)) (valves_off-bulk s has done)
          ∙ confirmed_bulk r (some (g.reply s.calls all_valves_off))
          ∙ simp (has, done) refl
      | inr lost ↦
          ap (λ l. all_confirmed (pump_operation r ∷ l)) (valves_off-bulk_each s has lost)
          ∙ confirmed_bulk_each r (some (g.reply s.calls all_valves_off))
              (call g all_valves_off s).1
          ∙ unfold call in simp (has, lost) refl
    ]
    | inr lacks ↦
        ap (λ l. all_confirmed (pump_operation r ∷ l)) (valves_off-each s lacks)
        ∙ confirmed_each r s
        ∙ simp lacks refl
  ]

  -- A shutdown answers `ok` exactly when its preflight finds no failure or is skipped, the pump-off
  -- succeeds, and either the one transaction over all valves succeeds or each of the eleven
  -- valves, closed one after the other, answers with success.
  pub ok-shutdown :
      (checked : Bool) (s : State F)
      → let calls = s.calls ++ set_pump (fl.of_int 0) ∷ [] in
        (shutdown fl g checked s).0.ok ≡ (
          not (is_some (shutdown_failure fl g checked))
          && (succeeded fl (g.reply s.calls (set_pump (fl.of_int 0)))
              && (bulk_done fl g calls || each_done (after_bulk calls) all_valve_ids)))
  unfolding shutdown call finish report
  ok-shutdown checked s = elim (Option-cases (shutdown_failure fl g checked)) [
    | inl e ↦ rw e (
        confirmed-valves_off (g.reply s.calls (set_pump (fl.of_int 0))) (record {
          active_hold_key = none;
          active_hold_started_at = none;
          calls = s.calls ++ set_pump (fl.of_int 0) ∷ [];
        }))
    | inr (f, e) ↦ rw e refl
  ]
