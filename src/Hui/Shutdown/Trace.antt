-- ===== src/Hui/Shutdown/Trace.antt =====
-- The calls that a shutdown makes, in order.
use oqlos.Base.{
  String, ◌≡◌, refl, sym, ◌∙◌, inl, inr, Bool, false, ◌&&◌, Option, none, List, [], ◌∷◌, ◌++◌,
  if◌then◌else◌, is_some, Bool-cases, Option-cases,
}
use mathlib.Core.List.{append-nil, append_assoc}
use oqlos.Hui.Gateway.{Gateway, State, Call, call, set_valve, set_pump, all_valves_off}
use oqlos.Hui.Readiness.{Failure, required_plugins_failure}
use oqlos.Hui.Operation.{Floats, succeeded, each_valve_off, all_valve_ids}
use oqlos.Hui.Shutdown.{valves_off, shutdown}

module _ {F : Type 0} where
  abbrev pub close_all : List String → List (Call F)
  close_all [] = []
  close_all (id ∷ ids) = set_valve id false ∷ close_all ids

module _ {F : Type 0} (fl : Floats F) (g : Gateway F) where
  -- whether one transaction has cleared all valves, after these calls
  abbrev pub bulk_done : List (Call F) → Bool
  bulk_done calls = g.has_all_valves_off && succeeded fl (g.reply calls all_valves_off)

  -- The valve calls of a shutdown: one transaction where the gateway has it, and each valve by
  -- itself unless that transaction succeeded.
  abbrev pub off_calls : List (Call F) → List (Call F)
  off_calls calls =
      (if g.has_all_valves_off then all_valves_off ∷ [] else [])
      ++ (if bulk_done calls then [] else close_all all_valve_ids)

  -- the preflight of a shutdown
  abbrev pub shutdown_failure : Bool → Option Failure
  shutdown_failure checked =
      if checked then none else required_plugins_failure g g.valve_controllers "shutdown" false

  calls-each_valve_off :
      (ids : List String) (s : State F)
      → (each_valve_off fl g ids s).1.calls ≡ s.calls ++ close_all ids
  unfolding each_valve_off
  calls-each_valve_off [] s = sym (append-nil s.calls)
  calls-each_valve_off (id ∷ ids) s =
      let next = call g (set_valve id false) s in
      calls-each_valve_off ids next.1
      ∙ unfold call in append_assoc s.calls (set_valve id false ∷ []) (close_all ids)

  calls-valves_off : (s : State F) → (valves_off fl g s).1.calls ≡ s.calls ++ off_calls s.calls
  unfolding valves_off call
  calls-valves_off s = elim (Bool-cases g.has_all_valves_off) [
    | inl has ↦ elim (Bool-cases (succeeded fl (g.reply s.calls all_valves_off))) [
      | inl done ↦ rw (has, done) refl
      | inr lost ↦
          rw (has, lost)
            (calls-each_valve_off all_valve_ids (call g all_valves_off s).1
              ∙ append_assoc s.calls _ _)
    ]
    | inr lacks ↦ rw lacks (calls-each_valve_off all_valve_ids s)
  ]

  -- Every shutdown calls the pump off first. When the valve controllers fail the preflight that is
  -- all; otherwise the valves follow, in one transaction, and one by one unless that succeeded.
  pub calls-shutdown :
      (checked : Bool) (s : State F)
      → let pump_off = s.calls ++ set_pump (fl.of_int 0) ∷ [] in
        (shutdown fl g checked s).1.calls
        ≡ (if is_some (shutdown_failure checked) then pump_off else pump_off ++ off_calls pump_off)
  unfolding shutdown call
  calls-shutdown checked s = elim (Option-cases (shutdown_failure checked)) [
    | inl e ↦ rw e (
        calls-valves_off (record {
          active_hold_key = none;
          active_hold_started_at = none;
          calls = s.calls ++ set_pump (fl.of_int 0) ∷ [];
        }))
    | inr (f, e) ↦ rw e refl
  ]
