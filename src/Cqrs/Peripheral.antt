-- ===== src/Cqrs/Peripheral.antt =====
-- oqlos/core/cqrs/peripheral.py: the aggregate, the handlers and the projection of peripherals.
use oqlos.Base.{
  String, ◌≡◌, refl, Bool, true, false, Option, none, some, List, [], ◌∷◌, arith, is_some,
}
use oqlos.Base.Dict.{Dict}
use oqlos.Models.{Peripheral}
use oqlos.Cqrs.Event.{
  Event, Payload, new_event, peripheral_registered, peripheral_value_set, peripheral_mode_changed,
  peripheral_status_changed,
}
use oqlos.Cqrs.Command.{
  Handler, RegisterPeripheralCommand, SetPeripheralValueCommand, SetPeripheralModeCommand,
  SetPeripheralStatusCommand, register_peripheral, set_peripheral_value, set_peripheral_mode,
  set_peripheral_status,
}
use oqlos.Cqrs.Aggregate.{Kind}
use oqlos.Cqrs.Projection
use oqlos.Cqrs.Projection.{ReadModel}

module _ {F : Type 0} where
  -- `PeripheralAggregate.apply`, as the value that it leaves in `self.peripheral`
  on_payload : String → Option (Peripheral F) → Payload F → Option (Peripheral F)
  on_payload id x (peripheral_registered e) = some (record {
    id = id;
    type = e.type;
    name = e.name;
    current_value = e.current_value;
    target_value = e.target_value;
    unit = e.unit;
    range = e.range;
    status = e.status;
    mode = e.mode;
    dependencies = e.dependencies;
  })
  on_payload id none _ = none
  on_payload id (some p) (peripheral_value_set current target) =
      some (record p { current_value = current; target_value = target })
  on_payload id (some p) (peripheral_mode_changed m) = some (record p { mode = m })
  on_payload id (some p) (peripheral_status_changed st) = some (record p { status = st })
  on_payload id (some p) _ = some p

  unfoldable pub apply : String → Option (Peripheral F) → Event F → Option (Peripheral F)
  unfolding on_payload
  apply id x event = on_payload id x event.payload

  -- the classes that `PeripheralsProjection.apply` does not return on
  handled : Payload F → Bool
  handled (peripheral_registered _) = true
  handled (peripheral_value_set _ _) = true
  handled (peripheral_mode_changed _) = true
  handled (peripheral_status_changed _) = true
  handled _ = false

  unfoldable pub handles : Event F → Bool
  unfolding handled
  handles event = handled event.payload

  ignored_payload :
      (id : String) (x : Option (Peripheral F)) (e : Payload F)
      → handled e ≡ false
      → on_payload id x e ≡ x
  unfolding on_payload handled
  ignored_payload id none e h = ground arith
  ignored_payload id (some p) e h = ground arith

  pub apply_ignores :
      (id : String) (x : Option (Peripheral F)) (event : Event F)
      → handles event ≡ false
      → apply id x event ≡ x
  unfolding apply handles
  apply_ignores id x event h = ignored_payload id x event.payload h

  stays_payload :
      (id : String) (p : Peripheral F) (e : Payload F) → is_some (on_payload id (some p) e) ≡ true
  unfolding on_payload
  stays_payload id p (peripheral_registered _) = refl
  stays_payload id p _ = refl

  pub apply_stays :
      (id : String) (p : Peripheral F) (event : Event F) → is_some (apply id (some p) event) ≡ true
  unfolding apply
  apply_stays id p event = stays_payload id p event.payload

  abbrev pub kind : Kind F (Peripheral F)
  kind = record {
    handles = handles;
    apply_state = apply;
    ignores = apply_ignores;
    stays = apply_stays;
  }

  -- `PeripheralsProjection.apply`
  unfoldable pub project : ReadModel (Peripheral F) → Event F → ReadModel (Peripheral F)
  project = Projection.project kind

  unfoldable pub handle_register_peripheral : F → RegisterPeripheralCommand F → List (Event F)
  unfolding new_event
  handle_register_peripheral now cmd =
      new_event now cmd.peripheral_id (
        peripheral_registered (record {
          type = cmd.type;
          name = cmd.name;
          current_value = cmd.current_value;
          target_value = cmd.target_value;
          unit = cmd.unit;
          range = cmd.range;
          status = cmd.status;
          mode = cmd.mode;
          dependencies = cmd.dependencies;
        }))
      ∷ []

  unfoldable pub handle_set_peripheral_value : F → SetPeripheralValueCommand F → List (Event F)
  unfolding new_event
  handle_set_peripheral_value now cmd =
      new_event now cmd.peripheral_id (peripheral_value_set cmd.current_value cmd.target_value) ∷ []

  unfoldable pub handle_set_peripheral_mode : F → SetPeripheralModeCommand → List (Event F)
  unfolding new_event
  handle_set_peripheral_mode now cmd =
      new_event now cmd.peripheral_id (peripheral_mode_changed cmd.mode) ∷ []

  unfoldable pub handle_set_peripheral_status : F → SetPeripheralStatusCommand → List (Event F)
  unfolding new_event
  handle_set_peripheral_status now cmd =
      new_event now cmd.peripheral_id (peripheral_status_changed cmd.status) ∷ []

  register_handler : Handler F
  register_handler now (register_peripheral cmd) = some (handle_register_peripheral now cmd)
  register_handler now _ = none

  value_handler : Handler F
  value_handler now (set_peripheral_value cmd) = some (handle_set_peripheral_value now cmd)
  value_handler now _ = none

  mode_handler : Handler F
  mode_handler now (set_peripheral_mode cmd) = some (handle_set_peripheral_mode now cmd)
  mode_handler now _ = none

  status_handler : Handler F
  status_handler now (set_peripheral_status cmd) = some (handle_set_peripheral_status now cmd)
  status_handler now _ = none

  unfoldable pub peripheral_handlers : Dict (Handler F)
  unfolding register_handler value_handler mode_handler status_handler handle_register_peripheral
      handle_set_peripheral_value handle_set_peripheral_mode handle_set_peripheral_status
  peripheral_handlers =
      ("RegisterPeripheralCommand", register_handler)
      ∷ ("SetPeripheralValueCommand", value_handler)
      ∷ ("SetPeripheralModeCommand", mode_handler)
      ∷ ("SetPeripheralStatusCommand", status_handler)
      ∷ []
