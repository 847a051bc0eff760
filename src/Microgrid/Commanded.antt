-- ===== src/Microgrid/Commanded.antt =====
-- cli/CLIClient.cpp, controller/ and power_devices/: a line that the user enters, on its way through the client,
-- the servers of the controllers and a power device.
use developer_resources.Prelude.{
  ℕ, ◌<◌, ◌≡◌, refl, sym, ap, subst, ◌∙◌, true, false, ◌&&◌, Option, some, List, [], ◌∷◌, Identity,
  id_eq, codes, is_empty, find, if◌then◌else◌, length, ok, In, All,
}
use developer_resources.Data.{
  ReturnCode, retcode_ok, DeviceRole, opt_never_operate, opt_always_operate, essl_off,
  essl_operational, OperatorPriorityType, EnergyStartStopLevel,
}
use developer_resources.Controller.{PowerDeviceInfo}
use developer_resources.CliServer.{
  CliServer, OperatorIntent, on_operator_intents, essl_from_opt, request_of,
}
use developer_resources.Client.{ControllerMap}
use developer_resources.Client.Commands.{Call, enter, dispatch, tolower, start_device, stop_device}
use developer_resources.Client.Lines.{Line, Line-parse}
use developer_resources.Client.Gathering.{
  Answers, DevicesOf, is_empty_map, keys, send_start_stop_request,
}
use developer_resources.Client.Controllers.{Known, available_info}
use developer_resources.Client.Remote.{send_start_stop_request_reaches}
use developer_resources.Selector.Announced.{last_written}
use developer_resources.PowerDevice.{on_requests, reply_to}
use developer_resources.Microgrid.{Device, power_device, Input}
use developer_resources.Microgrid.Histories.{Reach, Started}
use developer_resources.Microgrid.Takeover.{takes_state, takes_state_id, is_due, told_controllers}

-- The words for a device, the call of each, its priority type and the level that is meant.
pub data Word : Type 0 where
  start stop : Word

abbrev pub spelled : Word → Identity
spelled start = codes "start"
spelled stop = codes "stop"

abbrev pub call_of : Word → Option Identity → Call
call_of start arg = start_device arg
call_of stop arg = stop_device arg

abbrev pub priority_of : Word → OperatorPriorityType
priority_of start = opt_always_operate
priority_of stop = opt_never_operate

abbrev pub level_of : Word → EnergyStartStopLevel
level_of start = essl_operational
level_of stop = essl_off

enter-word :
    (w : Word) (line op id : Identity)
    → length line < 18446744073709551616
    → Line line op (some id)
    → tolower op ≡ spelled w
    → enter line ≡ ok (call_of w (some id))
unfolding enter dispatch id_eq
enter-word start line op id small is_line lowered =
    rw (Line-parse line op (some id) is_line small, enter) (rw lowered refl)
enter-word stop line op id small is_line lowered =
    rw (Line-parse line op (some id) is_line small, enter) (rw lowered refl)

level_of-priority : (w : Word) → essl_from_opt (priority_of w) ≡ level_of w
unfolding essl_from_opt
level_of-priority start = refl
level_of-priority stop = refl

-- The user enters a line of the word "start" or "stop", in any letter case, and the identity of a power
-- device whose `init` returned OK, and that follows some controller after any history. The client has
-- collected devices before, and knows all the controllers that it has them from. Take one of these
-- that is available, knows the device, and has taken the last state that the device has written. Then
-- the line calls the method for the word; the client writes an intent that this controller takes; a
-- request goes out exactly if the level that is meant is not the one noted of the device and
-- the device follows this controller; and the device, when it takes that request, has this level
-- and answers if it follows this controller, and else is as before.
pub word_entered :
    (w : Word) (line op id : Identity) (role : DeviceRole) (d t : Device) (log : List (ℕ × Input))
    (time : ℕ) (c : CliServer) (pd : PowerDeviceInfo) (before now : ℕ)
    (answers : Identity → Answers) (controllers : ControllerMap) (m : DevicesOf) (rc : ReturnCode)
    → length line < 18446744073709551616
    → Line line op (some id)
    → tolower op ≡ spelled w
    → is_empty id ≡ false
    → Started id role d
    → Reach d log time t
    → is_empty t.selector.selected ≡ false
    → is_empty_map m ≡ false
    → All (Known controllers) (keys m)
    → In c.controller.device_id (keys m)
    → available_info now (find c.controller.device_id controllers) ≡ true
    → find id c.controller.power_devices ≡ some pd
    → let c' = takes_state (last_written t.selector.outputs) c in
      let leads = id_eq t.selector.selected c.controller.device_id in
      let request = request_of c id (level_of w) in
      (enter line ≡ ok (call_of w (some id)))
      × ((oi : OperatorIntent) × In oi
            (send_start_stop_request (some id) (priority_of w) before now answers controllers m).1
          × ((on_operator_intents retcode_ok ((true, oi) ∷ []) rc c').requests
              ≡ (if is_due (level_of w) pd && leads then request ∷ c.requests else c.requests)))
      × (on_requests retcode_ok ((true, request) ∷ []) (power_device t) ≡ (
          if leads
          then record (power_device t) {
            essl = level_of w;
            replies = reply_to (power_device t) request ∷ t.ports.replies;
          }
          else power_device t))
word_entered w line op id role d t log time c pd before now answers controllers m rc small is_line
      lowered named started r follows some_map known asked on knows =
    let state = last_written t.selector.outputs in
    let same = sym (takes_state_id state c) in
    let (oi, there, took) =
      send_start_stop_request_reaches id (priority_of w) before now answers controllers m
        (takes_state state c) rc named some_map known (subst (λ i. In i (keys m)) same asked)
        (subst (λ i. available_info now (find i controllers) ≡ true) same on) in
    let (sends, obeys) =
      told_controllers id role d t log time c pd (priority_of w) rc started r follows knows in
    (
      enter-word w line op id small is_line lowered,
      (oi, there, rw (sym (level_of-priority w)) (ap (λ s. s.requests) took ∙ sends)),
      rw (sym (level_of-priority w)) obeys,
    )
