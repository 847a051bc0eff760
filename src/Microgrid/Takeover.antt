-- ===== src/Microgrid/Takeover.antt =====
-- common/ControllerSelector.cpp, controller/CLIServer.cpp and power_devices/: the controllers that are told of
-- the controller that a device follows, and the requests that they send to it.
use developer_resources.Prelude.{
  ℕ, ◌≡◌, refl, Bool, true, false, not, ◌&&◌, Option, none, some, List, [], ◌∷◌, Identity, id_eq,
  id_eq_iff, id_eq_refl, is_empty, find, if◌then◌else◌, arith,
}
use developer_resources.Data.{
  ReturnCode, retcode_ok, EnergyStartStopLevel, essl_unknown, level_eq, OperatorPriorityType,
  DeviceRole,
}
use developer_resources.Controller.{PowerDeviceInfo, on_controller_states, set_active_controller}
use developer_resources.Controller.Devices.{find-set_active_controller}
use developer_resources.CliServer.{CliServer, start_stop_device, essl_from_opt, request_of}
use developer_resources.CliServer.Requests.{start_stop_device-sends}
use developer_resources.Selector.Announced.{last_written}
use developer_resources.PowerDevice.{on_requests, apply_requests, reply_to}
use developer_resources.Microgrid.{Device, power_device, Input}
use developer_resources.Microgrid.Histories.{Reach, Started}
use developer_resources.Microgrid.Told.{Started-Told, Reach-Told}

-- The server of a controller that takes the last sample that was written.
abbrev pub takes_state : Option (Identity × Option Identity) → CliServer → CliServer
takes_state none c = c
takes_state (some (id, master)) c = record c {
  controller =
      on_controller_states retcode_ok ((true, record { device_id = id; master_id = master }) ∷ [])
        c.controller;
}

pub takes_state_id :
    (state : Option (Identity × Option Identity)) (c : CliServer)
    → (takes_state state c).controller.device_id ≡ c.controller.device_id
unfolding on_controller_states set_active_controller
takes_state_id none c = refl
takes_state_id (some (id, master)) c = refl

find-takes_state :
    (id : Identity) (master : Option Identity) (c : CliServer) (pd : PowerDeviceInfo)
    → find id c.controller.power_devices ≡ some pd
    → find id (takes_state (some (id, master)) c).controller.power_devices
      ≡ some (record pd { master_id = master })
unfolding on_controller_states
find-takes_state id master c pd known =
    ground (arith, find-set_active_controller id master c.controller id, id_eq_refl id)

-- Whether a request is called for, by the level that is asked for and the one that is noted.
abbrev pub is_due : EnergyStartStopLevel → PowerDeviceInfo → Bool
is_due level pd = not (level_eq level essl_unknown) && not (level_eq pd.essl level)

leads_either : (a b : Identity) → id_eq a b ≡ id_eq b a
leads_either a b = ground (arith, id_eq_iff a b, id_eq_iff b a)

pub sent :
    (id selected : Identity) (c : CliServer) (pd : PowerDeviceInfo) (opt : OperatorPriorityType)
    (rc : ReturnCode)
    → find id c.controller.power_devices ≡ some pd
    → (start_stop_device id opt rc (takes_state (some (id, some selected)) c)).requests ≡ (
        if is_due (essl_from_opt opt) pd && id_eq selected c.controller.device_id
        then request_of c id (essl_from_opt opt) ∷ c.requests
        else c.requests)
unfolding on_controller_states
sent id selected c pd opt rc known = ground (
  arith,
  start_stop_device-sends id opt rc (takes_state (some (id, some selected)) c),
  find-takes_state id (some selected) c pd known,
  takes_state_id (some (id, some selected)) c,
)

-- Take a power device whose `init` returned OK, and that follows some controller after any history,
-- and the server of any controller that knows the device and has taken the last state that the
-- device has written. If the user asks this server to start or stop the device, then a request goes
-- out exactly if the level is not the one noted of the device and the controller is the one that
-- the device follows; and the device, when it takes that request, obeys and answers it if the
-- controller is that one, and else changes nothing.
pub told_controllers :
    (id : Identity) (role : DeviceRole) (d t : Device) (log : List (ℕ × Input)) (now : ℕ)
    (c : CliServer) (pd : PowerDeviceInfo) (opt : OperatorPriorityType) (rc : ReturnCode)
    → Started id role d
    → Reach d log now t
    → is_empty t.selector.selected ≡ false
    → find id c.controller.power_devices ≡ some pd
    → let c' = takes_state (last_written t.selector.outputs) c in
      let leads = id_eq t.selector.selected c.controller.device_id in
      let request = request_of c id (essl_from_opt opt) in
      ((start_stop_device id opt rc c').requests
        ≡ (if is_due (essl_from_opt opt) pd && leads then request ∷ c.requests else c.requests))
      × (on_requests retcode_ok ((true, request) ∷ []) (power_device t) ≡ (
          if leads
          then record (power_device t) {
            essl = essl_from_opt opt;
            replies = reply_to (power_device t) request ∷ t.ports.replies;
          }
          else power_device t))
unfolding on_requests apply_requests
told_controllers id role d t log now c pd opt rc started r follows known =
    let v = Reach-Told id d t log now (Started-Told id role d started) r in
    let state : last_written t.selector.outputs ≡ some (id, some t.selector.selected) =
      v.announced.told follows in
    (rw state (sent id t.selector.selected c pd opt rc known), obeyed v.same_device)
  where
    obeyed :
        t.ports.device_id ≡ id
        → on_requests retcode_ok ((true, request_of c id (essl_from_opt opt)) ∷ []) (power_device t)
          ≡ (if id_eq t.selector.selected c.controller.device_id
              then record (power_device t) {
                essl = essl_from_opt opt;
                replies =
                    reply_to (power_device t) (request_of c id (essl_from_opt opt))
                    ∷ t.ports.replies;
              }
              else power_device t)
    obeyed same = ground (
      arith,
      leads_either t.selector.selected c.controller.device_id,
      id_eq_iff id t.ports.device_id,
    )
