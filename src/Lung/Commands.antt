-- ===== src/Lung/Commands.antt =====
-- The commands of oqlos/hardware/artificial_lung.py, and `execute_command` with the power gate.
use oqlos.Base.{
  ℕ, String, Bool, true, false, ◌&&◌, Option, none, some, ◌==◌, nat_eq, if◌then◌else◌, get_or,
}
use Prim.Native.String.{◌++◌ as append_text}
use oqlos.Base.Dict
use oqlos.Base.Dict.{Dict}
use oqlos.Base.Int.{ℤ, pos, at_least}
use oqlos.Base.Float.{Float}
use oqlos.Base.Texts.{strip, starts_with}
use oqlos.Models.{Value, Fields, bool, int, float, str, dict, end, field}
use oqlos.Models.Truth.{truthy}
use oqlos.Oql.Motor2.Config.{Parsed, number}
use oqlos.Power.Policy.{Python, Policy, safe_state, read_only, actuation, command_power_policy}
use oqlos.Power.Sampling.{Moment, OqlosError, ensure_power_safe}
use oqlos.Lung.{
  LungState, set_lung, stop_lung, health, Reply, returned, raised, Motor, Lung, refused, bad_number,
  Outcome, answered, raises, entry_of, answer, called, on_motor, clamp_lpm,
}

module _ {F : Type 0} (fl : Float F) (py : Python F) where
  abbrev zero_float : F
  zero_float = fl.of_int (pos 0)

  module _ (motor : Option (Motor F)) (params : Dict (Value F)) where
    abbrev int_param : String → ℤ → Parsed ℤ
    int_param key default = py.to_int (get_or (Dict.get params key) (int default))

    abbrev pause : Parsed F
    pause = py.to_float (get_or (Dict.get params "pause") (float (fl.decimal (pos 5) 1)))

    abbrev is_real : Bool
    is_real = elim motor [ none ↦ false | some m ↦ m.is_real ]

    -- `gateway.set_lung(…)` with arguments that are converted first
    unfoldable pub moved :
        Parsed ℤ
        → Parsed ℤ
        → Parsed ℤ
        → Parsed F
        → (Lung F → Outcome F × Lung F)
        → Lung F
        → Outcome F × Lung F
    moved (number steps) (number speed) (number cycles) (number wait) k l =
        on_motor motor (set_lung steps speed cycles wait) k l
    moved _ _ _ _ k l = (raises bad_number, l)

    abbrev running_state : String → LungState → LungState
    running_state status s = record {
      running = true;
      lpm = if nat_eq s.lpm 0 then 10 else s.lpm;
      status = status;
    }

    unfoldable pub lpm_set : Option ℕ → Lung F → Outcome F × Lung F
    lpm_set none l = (raises bad_number, l)
    lpm_set (some lpm) l = answer "set_lpm" (field "lpm" (int (pos lpm)) end) (record l {
      state = record { running = l.state.running; lpm = lpm; status = "configured" };
    })

    -- `_lung_cmd_set_lpm`
    unfoldable pub lung_cmd_set_lpm : Lung F → Outcome F × Lung F
    unfolding clamp_lpm lpm_set
    lung_cmd_set_lpm l = lpm_set (clamp_lpm (int_param "lpm" (pos 0))) l

    -- `_lung_cmd_lung_start`
    unfoldable pub lung_cmd_lung_start : Lung F → Outcome F × Lung F
    unfolding moved
    lung_cmd_lung_start l =
        let done = answer "lung_start" (
          field "running" (bool true)
            (field "lpm" (int (pos (running_state "running" l.state).lpm)) end)) in
        let started = record l { state = running_state "running" l.state } in
        if is_real
        then moved (int_param "steps" (pos 500)) (int_param "speed" (pos 10000000))
            (int_param "cycles" (pos 3)) pause done started
        else done started

    -- `_lung_cmd_lung_stop`
    unfoldable pub lung_cmd_lung_stop : Lung F → Outcome F × Lung F
    lung_cmd_lung_stop l =
        on_motor motor stop_lung (answer "lung_stop" (field "running" (bool false) end))
          (record l { state = record { running = false; lpm = l.state.lpm; status = "stopped" } })

    status_data : LungState → Bool → Fields F → Fields F
    status_data s connected detail =
        field "data"
          (dict (
            field "running" (bool s.running) (
              field "lpm" (int (pos s.lpm))
                (field "status" (str s.status) (field "motor_connected" (bool connected) detail)))))
          end

    -- `str(lung_health or "").startswith("ok")`
    abbrev is_connected : Value F → Bool
    is_connected v = truthy (λ x. fl.eq x zero_float) v && starts_with "ok" (py.text v)

    status_of : LungState → Reply F → Fields F
    unfolding status_data truthy
    status_of s (returned value) =
        let lung_health = entry_of "lung" value in
        status_data s (is_connected lung_health) (field "lung_service" lung_health end)
    status_of s (raised e) = status_data s false (field "lung_service_error" (str e) end)

    -- `get_peripheral_status`
    unfoldable pub get_peripheral_status : Lung F → Fields F × Lung F
    unfolding status_of status_data
    get_peripheral_status l = elim motor [
      | none ↦ (status_data l.state false end, l)
      | some m ↦
          if m.is_real
          then (status_of l.state (m.reply l.calls health), called health l)
          else (status_data l.state false end, l)
    ]

    -- `_lung_cmd_lung_status`
    unfoldable pub lung_cmd_lung_status : Lung F → Outcome F × Lung F
    unfolding get_peripheral_status
    lung_cmd_lung_status l =
        let status = get_peripheral_status l in answer "lung_status" status.0 status.1

    unfoldable pub cycled : Parsed ℤ → Lung F → Outcome F × Lung F
    unfolding moved
    cycled (number n) l =
        let cycles = pos (at_least 1 n) in
        let state = running_state "cycling" l.state in
        let done = answer "lung_cycle" (
          field "cycles" (int cycles)
            (field "lpm" (int (pos state.lpm)) (field "running" (bool true) end))) in
        if is_real
        then moved (int_param "steps" (pos 500)) (int_param "speed" (pos 10000000)) (number cycles)
            pause done (record l { state = state })
        else done (record l { state = state })
    cycled _ l = (raises bad_number, l)

    -- `_lung_cmd_lung_cycle`
    unfoldable pub lung_cmd_lung_cycle : Lung F → Outcome F × Lung F
    unfolding cycled
    lung_cmd_lung_cycle l = cycled (int_param "cycles" (pos 3)) l

    -- `_lung_cmd_emergency_stop`
    unfoldable pub lung_cmd_emergency_stop : Lung F → Outcome F × Lung F
    lung_cmd_emergency_stop l =
        on_motor motor stop_lung
          (answer "emergency_stop" (
            field "running" (bool false)
              (field "lpm" (int (pos 0)) (field "status" (str "emergency_stopped") end))))
          (record l { state = record { running = false; lpm = 0; status = "emergency_stopped" } })

    -- `_LUNG_COMMAND_HANDLERS`
    unfoldable pub lung_command_handlers : String → Option (Lung F → Outcome F × Lung F)
    unfolding lung_cmd_set_lpm lung_cmd_lung_start lung_cmd_lung_stop lung_cmd_lung_status
        lung_cmd_lung_cycle lung_cmd_emergency_stop
    lung_command_handlers cmd =
        if cmd == "set_lpm"
        then some lung_cmd_set_lpm
        else if cmd == "lung_start"
        then some lung_cmd_lung_start
        else if cmd == "lung_stop"
        then some lung_cmd_lung_stop
        else if cmd == "lung_status"
        then some lung_cmd_lung_status
        else if cmd == "lung_cycle"
        then some lung_cmd_lung_cycle
        else if cmd == "emergency_stop"
        then some lung_cmd_emergency_stop
        else none

    -- after the power gate
    unfoldable pub permitted :
        Option OqlosError → (Lung F → Outcome F × Lung F) → Lung F → Outcome F × Lung F
    permitted (some e) handler l = (raises (refused e), l)
    permitted none handler l = handler l

    unfoldable pub gated_by :
        Moment
        → Motor F
        → String
        → Option Policy
        → (Lung F → Outcome F × Lung F)
        → Lung F
        → Outcome F × Lung F
    unfolding permitted ensure_power_safe
    gated_by moment m cmd none handler l = (raises bad_number, l)
    gated_by moment m cmd (some policy) handler l =
        let gated = ensure_power_safe l.sampling (record {
          moment = moment;
          is_real = m.is_real;
          operation = append_text "artificial-lung." cmd;
          safe_state = elim policy [ actuation ↦ false | safe_state ↦ true | read_only ↦ true ];
        }) in
        permitted gated.raised handler (record l { sampling = gated.sampling })

    unfoldable pub dispatched :
        Moment → String → Option (Lung F → Outcome F × Lung F) → Lung F → Outcome F × Lung F
    unfolding gated_by command_power_policy
    dispatched moment cmd none l = (
      answered (record {
        ok = false;
        command = cmd;
        result = end;
        state = l.state;
        error = some (append_text "Unknown artificial-lung command: " cmd);
      }),
      l,
    )
    dispatched moment cmd (some handler) l = elim motor [
      | none ↦ handler l
      | some m ↦ gated_by moment m cmd (command_power_policy fl py cmd params) handler l
    ]

    -- `execute_command`, at one time the gate may ask for a sample
    unfoldable pub execute_command : Moment → String → Lung F → Outcome F × Lung F
    unfolding lung_command_handlers dispatched strip
    execute_command moment command l =
        let cmd = py.lower (strip command) in dispatched moment cmd (lung_command_handlers cmd) l
