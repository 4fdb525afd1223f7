-- ===== src/Cqrs/Bus.antt =====
-- `EventSourcedCommandBus` of oqlos/core/cqrs/commands.py and `build_command_bus` of
-- oqlos/core/cqrs/__init__.py.
use oqlos.Base.{String, ◌≡◌, refl, Option, none, some, List, [], ◌∷◌}
use oqlos.Base.Dict
use oqlos.Base.Dict.{Dict}
use oqlos.Cqrs.Event.{Event}
use oqlos.Cqrs.Store.{EventStore, append_many}
use oqlos.Cqrs.Command.{
  Command, Handler, type_of, register_peripheral, set_peripheral_value, set_peripheral_mode,
  set_peripheral_status, start_execution, start_goal, start_step, update_progress,
  set_execution_status,
}
use oqlos.Cqrs.Peripheral
use oqlos.Cqrs.Execution
use oqlos.Cqrs.Peripheral.{peripheral_handlers}
use oqlos.Cqrs.Execution.{execution_handlers}

abbrev pub CommandBus : Type 0 → Type 0
CommandBus F = Dict (Handler F)

-- What `dispatch` raises: no handler is registered for the class, or the handler reads a field
-- that the command lacks.
pub data DispatchError : Type 0 where
  lookup_error attribute_error : DispatchError

pub data Dispatched (F S : Type 0) : Type 0 where
  done : List (Event F) → EventStore F S → S → Dispatched F S
  raised : DispatchError → Dispatched F S

module _ {F : Type 0} where
  unfoldable pub register : CommandBus F → String → Handler F → CommandBus F
  register bus command_type handler = Dict.set bus command_type handler

  register_all : CommandBus F → Dict (Handler F) → CommandBus F
  unfolding register
  register_all bus [] = bus
  register_all bus ((command_type, handler) ∷ rest) =
      register_all (register bus command_type handler) rest

  unfoldable pub build_command_bus : CommandBus F
  unfolding register_all peripheral_handlers execution_handlers Dict.set
  build_command_bus = register_all (register_all [] peripheral_handlers) execution_handlers

module _ {F S : Type 0} where
  stored : EventStore F S × S → Option (List (Event F)) → Dispatched F S
  stored (store, s) none = raised attribute_error
  stored (store, s) (some events) =
      let (versioned, store', s') = append_many store s events in done versioned store' s'

  call : EventStore F S × S → F → Command F → Option (Handler F) → Dispatched F S
  unfolding stored
  call at now command none = raised lookup_error
  call at now command (some handler) = stored at (handler now command)

  unfoldable pub dispatch : CommandBus F → EventStore F S × S → F → Command F → Dispatched F S
  unfolding call
  dispatch bus at now command = call at now command (Dict.get bus (type_of command))

-- The events that a command stands for.
unfoldable pub events_of : {F : Type 0} → F → Command F → List (Event F)
events_of now (register_peripheral cmd) = Peripheral.handle_register_peripheral now cmd
events_of now (set_peripheral_value cmd) = Peripheral.handle_set_peripheral_value now cmd
events_of now (set_peripheral_mode cmd) = Peripheral.handle_set_peripheral_mode now cmd
events_of now (set_peripheral_status cmd) = Peripheral.handle_set_peripheral_status now cmd
events_of now (start_execution cmd) = Execution.handle_start_execution now cmd
events_of now (start_goal cmd) = Execution.handle_start_goal now cmd
events_of now (start_step cmd) = Execution.handle_start_step now cmd
events_of now (update_progress cmd) = Execution.handle_update_progress now cmd
events_of now (set_execution_status cmd) = Execution.handle_set_execution_status now cmd

module _ {F S : Type 0} where
  -- A bus with every handler registered raises on no command: it appends that command's events.
  pub dispatch-build_command_bus :
      (store : EventStore F S) (s : S) (now : F) (command : Command F)
      → dispatch build_command_bus (store, s) now command
        ≡ (let r = append_many store s (events_of now command) in done r.0 r.1 r.2)
  unfolding dispatch build_command_bus events_of type_of Dict.get
  dispatch-build_command_bus store s now (register_peripheral cmd) = refl
  dispatch-build_command_bus store s now _ = refl
