-- ===== src/Oql/World/Power.antt =====
-- The powers that the pump is told.
use oqlos.Base.{
  String, ◌≡◌, refl, sym, ◌⊎◌, inl, inr, true, List, [], ◌∷◌, arith, ◌==◌, if◌then◌else◌,
  Option-cases, one_of, if_holds, length,
}
use oqlos.Base.Int.{pos}
use mathlib.Core.Path.{subst}
use oqlos.Models.{str, bool}
use oqlos.Base.Float.{Float}
use oqlos.Oql.Blocks.{Header}
use oqlos.Oql.Interpreter.{Effect}
use oqlos.Oql.World.{
  World, OqlCondition, Runtime, is_execute, without_spaces, Call, set_pump, set_valve, set_lung,
  coerce_text, interpolated,
}
use oqlos.Oql.World.Firmware.{
  normalize_pump_power, power_of, clamped_power, call_gateway, is_litres, pump_flow_full_scale,
  answered, at_root, set_at_root, execute_plugin_action, exec_action_action,
}

module _ {F : Type 0} (rt : Runtime F) where
  abbrev fl : Float F
  fl = rt.floats

  -- 0, 100 or strictly between them
  abbrev pub IsPower : F → Type 0
  IsPower x =
      (x ≡ fl.of_int (pos 0))
      ⊎ (x ≡ fl.of_int (pos 100))
      ⊎ ((fl.lt (fl.of_int (pos 0)) x ≡ true) × (fl.lt x (fl.of_int (pos 100)) ≡ true))

  abbrev pub IsPowered : List (Call F) → Type 0
  IsPowered [] = Unit
  IsPowered (set_pump x ∷ calls) = IsPower x × IsPowered calls
  IsPowered (_ ∷ calls) = IsPowered calls

  clamped_power-IsPower : (x : F) → IsPower (clamped_power rt x)
  unfolding clamped_power
  clamped_power-IsPower x = ground arith

  power_of-IsPower : (lowered : String) (x : F) (w : World F) → IsPower (power_of rt lowered x w)
  unfolding power_of
  power_of-IsPower lowered x w =
      if_holds IsPower (is_litres (without_spaces lowered))
        (if_holds IsPower (fl.le (pump_flow_full_scale rt w) (fl.of_int (pos 0))) (inl refl)
          (clamped_power-IsPower _))
        (clamped_power-IsPower x)

  normalize-IsPower : (raw : String) (w : World F) → IsPower (normalize_pump_power rt raw w)
  unfolding normalize_pump_power
  normalize-IsPower raw w =
      let text = interpolated rt w (rt.strip raw) in
      let lowered = rt.strip (rt.lower text) in
      if_holds IsPower (one_of lowered ("on" ∷ "true" ∷ [])) (inr (inl refl)) (
        if_holds IsPower (one_of lowered ("off" ∷ "false" ∷ [])) (inl refl)
          (elim (Option-cases (coerce_text rt text)) [
            | inl none_found ↦ rw none_found (inl refl)
            | inr (x, found) ↦ rw found (power_of-IsPower lowered x w)
          ]))

  call_gateway-calls :
      (call : Call F) (on_success : World F → World F) (w : World F)
      → ((w' : World F) → (on_success w').calls ≡ w'.calls)
      → (call_gateway rt call on_success w).world.calls ≡ call ∷ w.calls
  unfolding call_gateway
  call_gateway-calls call on_success w same =
      if_holds (λ (e : Effect (World F)). e.world.calls ≡ call ∷ w.calls)
        (answered rt (rt.answers (length w.calls))) (same (record w { calls = call ∷ w.calls }))
        refl

  gateway-IsPowered :
      (call : Call F) (on_success : World F → World F) (w : World F)
      → ((w' : World F) → (on_success w').calls ≡ w'.calls)
      → IsPowered (call ∷ w.calls)
      → IsPowered (call_gateway rt call on_success w).world.calls
  gateway-IsPowered call on_success w same powered =
      subst IsPowered (sym (call_gateway-calls call on_success w same)) powered

  -- Whatever an action asks for and however the gateway answers, every power that the pump is told
  -- is 0, 100 or strictly between them.
  pub exec_action_action-IsPowered :
      (act : Header (OqlCondition F)) (w : World F)
      → IsPowered w.calls
      → IsPowered (exec_action_action rt act w).world.calls
  unfolding exec_action_action execute_plugin_action
  exec_action_action-IsPowered act w powered =
      let to_send = interpolated rt w act.args in
      let Q : Effect (World F) → Type 0 = λ e. IsPowered e.world.calls in
      if_holds Q (is_execute rt.mode)
        (if_holds Q (one_of act.method ("set" ∷ "off" ∷ []))
          (gateway-IsPowered
            (set_pump (
              if act.method == "set"
              then normalize_pump_power rt to_send (at_root rt w)
              else fl.of_int (pos 0)))
            (set_at_root rt act.target (str to_send)) w (λ w'. refl)
            (
              if_holds IsPower (act.method == "set") (normalize-IsPower to_send (at_root rt w))
                  (inl refl),
              powered,
            ))
          (if_holds Q (one_of act.method ("open" ∷ "close" ∷ []))
            (gateway-IsPowered (set_valve act.target (act.method == "open"))
              (set_at_root rt act.target (bool (act.method == "open"))) w (λ w'. refl) powered)
            (if_holds Q (act.method == "reciprocate")
              (gateway-IsPowered set_lung (λ w'. w') w (λ w'. refl) powered) powered)))
        powered
