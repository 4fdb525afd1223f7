-- ===== src/Scenario/Orchestrator/Handled.antt =====
-- What the handlers of a step keep, and what they may raise.
pub mod Devices
pub mod Steps
pub mod Checks
pub mod Goals
use oqlos.Base.{
  ◌+◌, String, ◌≡◌, refl, sym, ap, inl, inr, Bool, true, false, Option, none, some, List, [], ◌∷◌,
  ◌==◌, Bool-cases, or_else, run,
}
use mathlib.Core.Path.{subst}
use oqlos.Models.{Value}
use oqlos.Hui.Gateway.{Reply}
use oqlos.Cqrs.Command.{Command, set_execution_status}
use oqlos.Cqrs.Bus.{dispatch-build_command_bus}
use oqlos.State
use oqlos.State.{StateManager}
use oqlos.State.Broadcast.{Sent, broadcast_event}
use oqlos.State.ReadModels.{IsManaged}
use oqlos.State.Executions.{keeps_status}
use oqlos.Scenario.Orchestrator.{
  replied, called, Setup, Orchestrator, Output, HardwareCall, Level, Note, Error, hardware_error,
  arithmetic_error, connection_gone, known_id, current_id, Control, pause, resume, stop, Request,
  status_of, tell, set_running, serve, awaited, broadcasted, ok, send, output, broadcast, log_event,
  call, python, is_running,
}
use oqlos.Scenario.Orchestrator.Keeps.{Ends, Keeps, Keeps-or_raise}

-- The errors that a setup accounts for: those of the hardware, of Python's arithmetic, and of the
-- connections.
pub record Allows {F V : Type 0} (rt : Setup F V) (E : Error → Type 0) : Type 0 where
  pub connection : E connection_gone
  pub hardware :
      (outs : List (Output F)) (c : HardwareCall F) (message : String)
      → rt.hardware outs c ≡ Reply.raised message
      → E (hardware_error message)
  pub binary :
      (x y : Value F)
      → (rt.python.add x y ≡ none → E arithmetic_error)
        × (rt.python.sub x y ≡ none → E arithmetic_error)
        × (rt.python.mul x y ≡ none → E arithmetic_error)
        × (rt.python.div x y ≡ none → E arithmetic_error)
  pub unary :
      (x : Value F)
      → (rt.python.neg x ≡ none → E arithmetic_error)
        × (rt.python.is_positive x ≡ none → E arithmetic_error)
        × (rt.python.to_int x ≡ none → E arithmetic_error)
        × (rt.python.to_float x ≡ none → E arithmetic_error)
        × (rt.python.one_decimal x ≡ none → E arithmetic_error)

-- What a manager has that commands which change no status, and broadcasts, leave to it
pub record IsKept {F : Type 0} (zero_float : F) (P : StateManager F → Type 0) : Type 0 where
  pub managed : {m : StateManager F} → P m → IsManaged zero_float m
  pub sends :
      (m : StateManager F) (now : F) (command : Command F)
      → keeps_status command ≡ true
      → P m
      → P (State.send m (now, command))
  pub broadcasts : (m : StateManager F) (sends : List Sent) → P m → P (broadcast_event sends m).1
  pub requests :
      (m : StateManager F) (now : F) (id : String) (control : Control)
      → P m
      → P (
          State.send m
            (now, set_execution_status (record { execution_id = id; status = status_of control })))

abbrev pub On : {F : Type 0} → (StateManager F → Type 0) → Orchestrator F → Type 0
On P o = P o.manager

module _ {F V : Type 0} (rt : Setup F V) (zero_float : F) where
  -- On a managed bus every command is dispatched.
  pub send_lem :
      (o : Orchestrator F) (command : Command F)
      → IsManaged zero_float o.manager
      → send rt command o ≡ (
        ok tt,
        record o {
          manager = State.send o.manager (rt.clock o.ticks, command);
          ticks = o.ticks + 1;
        },
      )
  unfolding send State.send
  send_lem o command c =
      let sent : (send rt command o).0 ≡ ok tt =
        rw
          (
            c.bus,
            dispatch-build_command_bus o.manager.event_store o.manager.projections
                (rt.clock o.ticks) command,
          )
          refl in
      ap (λ r. (r, (send rt command o).1)) sent

module _ {F V : Type 0} (rt : Setup F V) (zero_float : F) (E : Error → Type 0)
    {P : StateManager F → Type 0} (k : IsKept zero_float P) where
  pub Keeps-send :
      (command : Command F) → keeps_status command ≡ true → Keeps E (On P) (send rt command)
  Keeps-send command q = record {
    at = λ o h.
        subst (Ends E (On P)) (sym (send_lem rt zero_float o command (k.managed h)))
          (k.sends o.manager (rt.clock o.ticks) command q h);
  }

  -- A request keeps what the commands that set a status keep.
  tell-keeps :
      (control : Control) (id : Option String) (o : Orchestrator F)
      → P o.manager
      → P (tell rt control id o).manager
  unfolding tell
  tell-keeps control none o h = h
  tell-keeps control (some id) o h =
      let command =
        set_execution_status (record { execution_id = id; status = status_of control }) in
      elim (Bool-cases (id == "")) [
        | inl blank ↦ rw blank h
        | inr named ↦ rw named (
            subst (λ r. P r.1.manager) (sym (send_lem rt zero_float o command (k.managed h)))
              (k.requests o.manager (rt.clock o.ticks) id control h))
      ]

  running-keeps :
      (control : Control) (o : Orchestrator F) → P o.manager → P (set_running rt control o).manager
  running-keeps pause o h = h
  running-keeps resume o h = h
  running-keeps stop o h = h

  serves-keeps :
      (requests : List Request) (o : Orchestrator F)
      → P o.manager
      → P (run (serve rt) o requests).manager
  unfolding serve
  serves-keeps [] o h = h
  serves-keeps (request ∷ requests) o h =
      let o' = set_running rt request.control o in
      serves-keeps requests (serve rt o request) (
        tell-keeps request.control
          (or_else (known_id rt request.execution_id o') (current_id rt o'.current_execution_id o'))
          o' (running-keeps request.control o h))

  awaited-keeps : (out : Output F) (o : Orchestrator F) → P o.manager → P (awaited rt out o).manager
  unfolding awaited
  awaited-keeps out o h = serves-keeps (rt.requests o.outputs) _ h

  pub Keeps-output : (out : Output F) → Keeps E (On P) (output rt out)
  unfolding output
  Keeps-output out = record { at = awaited-keeps out }

  Ends-broadcasted :
      (returns : Bool) (o : Orchestrator F)
      → E connection_gone
      → On P o
      → Ends E (On P) (broadcasted rt returns, o)
  Ends-broadcasted true o allowed h = h
  Ends-broadcasted false o allowed h = (allowed, h)

  pub Keeps-broadcast : Allows rt E → (out : Output F) → Keeps E (On P) (broadcast rt out)
  unfolding broadcast
  Keeps-broadcast allowed out = record {
    at = λ o h.
        Ends-broadcasted _ _ allowed.connection
          (awaited-keeps out _ (k.broadcasts o.manager (rt.sends o.outputs) h));
  }

  pub Keeps-log_event :
      Allows rt E → (level : Level) (note : Note F) → Keeps E (On P) (log_event rt level note)
  unfolding log_event
  Keeps-log_event allowed level note = Keeps-broadcast allowed _

  pub Keeps-is_running : Keeps E (On P) (is_running rt)
  unfolding is_running
  Keeps-is_running = record { at = λ o h. h }

  Ends-replied :
      (o : Orchestrator F) (c : HardwareCall F) (r : Reply F)
      → ((message : String) → r ≡ Reply.raised message → E (hardware_error message))
      → On P o
      → Ends E (On P) (replied rt r, awaited rt (called c) o)
  Ends-replied o c (Reply.returned v) allowed h = awaited-keeps (called c) o h
  Ends-replied o c (Reply.raised message) allowed h =
      (allowed message refl, awaited-keeps (called c) o h)

  pub Keeps-call : Allows rt E → (c : HardwareCall F) → Keeps E (On P) (call rt c)
  unfolding call
  Keeps-call allowed c = record {
    at = λ o h. Ends-replied o c (rt.hardware o.outputs c) (allowed.hardware o.outputs c) h;
  }

  pub Keeps-python :
      {A : Type 0} (m : Option A) → (m ≡ none → E arithmetic_error) → Keeps E (On P) (python rt m)
  unfolding python
  Keeps-python m allowed = Keeps-or_raise m arithmetic_error allowed
