-- ===== src/CliServer.antt =====
-- controller/CLIServer.{h,cpp} and its listeners: commands from the command-line client, and the
-- requests to start and stop power devices.
--
-- What the DDS library answers is an argument: `rc` is what `write` or `take` returns, and a list
-- of samples, each with its `valid_data` flag, is what `take` gives.
pub mod Requests
pub mod Listeners
pub mod Commands
use developer_resources.Prelude.{
  ℕ, ◌+◌, ◌%◌, ◌==◌, Bool, true, false, not, ◌||◌, ◌&&◌, Option, none, some, List, [], ◌∷◌, ◌++◌,
  if◌then◌else◌, Identity, id_eq, is_empty, find,
}
use developer_resources.Data.{
  EnergyStartStopLevel, essl_unknown, essl_any, essl_off, essl_operational, level_eq,
  OperatorPriorityType, opt_unknown, opt_always_operate, opt_never_operate, EnergyStartStopRequest,
  config_active, Reply, ReturnCode, is_ok,
}
use developer_resources.Controller.{Controller, PowerDeviceInfo, PowerDevices, update_essl}

-- A request waiting for its reply: `pending_essr_` is keyed by sequence numbers.
abbrev pub Pending : Type 0
Pending = List (ℕ × Identity)

unfoldable pub find_pending : ℕ → Pending → Option Identity
find_pending n [] = none
find_pending n ((m, id) ∷ rest) = if m == n then some id else find_pending n rest

-- `insert`: an entry that is there stays.
unfoldable pub insert_pending : ℕ → Identity → Pending → Pending
insert_pending n id [] = (n, id) ∷ []
insert_pending n id ((m, x) ∷ rest) =
    if m == n then (m, x) ∷ rest else (m, x) ∷ insert_pending n id rest

unfoldable pub erase_pending : ℕ → Pending → Pending
erase_pending n [] = []
erase_pending n ((m, x) ∷ rest) =
    let tail = erase_pending n rest in if m == n then tail else (m, x) ∷ tail

-- `requests` are the requests handed to the writer, the latest first.
pub record CliServer : Type 0 where
  pub controller : Controller
  pub essr_seqnum : ℕ  -- uint64
  pub pending_essr : Pending
  pub requests : List EnergyStartStopRequest

unfoldable pub essl_from_opt : OperatorPriorityType → EnergyStartStopLevel
essl_from_opt opt_always_operate = essl_operational
essl_from_opt opt_never_operate = essl_off
essl_from_opt _ = essl_unknown

-- `!master_id.has_value() || master_id.value() != id`.
abbrev pub is_not_master : Option Identity → Identity → Bool
is_not_master none id = true
is_not_master (some m) id = not (id_eq m id)

abbrev pub request_of : CliServer → Identity → EnergyStartStopLevel → EnergyStartStopRequest
request_of s pd_id to_essl = record {
  requesting_device_id = s.controller.device_id;
  target_device_id = pd_id;
  config = config_active;
  sequence_id = s.essr_seqnum;
  from_level = essl_any;
  to_level = to_essl;
}

-- The request is numbered and handed to the writer; the level and the pending request are noted
-- only if the write succeeds.
unfoldable pub send_request : Identity → EnergyStartStopLevel → ReturnCode → CliServer → CliServer
send_request pd_id to_essl rc s =
    let s' = record s {
      essr_seqnum = (s.essr_seqnum + 1) % 18446744073709551616;
      requests = request_of s pd_id to_essl ∷ s.requests;
    } in
    if is_ok rc
    then record s' {
      controller = update_essl pd_id to_essl s.controller;
      pending_essr = insert_pending s.essr_seqnum pd_id s.pending_essr;
    }
    else s'

unfoldable pub start_stop_known :
    Identity → PowerDeviceInfo → EnergyStartStopLevel → ReturnCode → CliServer → CliServer
unfolding send_request
start_stop_known pd_id pd to_essl rc s =
    if level_eq to_essl essl_unknown
    then s
    else (if level_eq pd.essl to_essl
        then s
        else (if is_not_master pd.master_id s.controller.device_id
            then record s { controller = update_essl pd_id to_essl s.controller }
            else send_request pd_id to_essl rc s))

unfoldable pub start_stop_device :
    Identity → OperatorPriorityType → ReturnCode → CliServer → CliServer
unfolding start_stop_known
start_stop_device pd_id opt rc s = elim (find pd_id s.controller.power_devices) [
  | none ↦ s
  | some pd ↦ start_stop_known pd_id pd (essl_from_opt opt) rc s
]

-- The entry goes whatever the status of the reply.
unfoldable pub receive_reply : Reply → CliServer → CliServer
receive_reply reply s = record s {
  pending_essr = erase_pending reply.request_sequence_id s.pending_essr;
}

-- ReplyDataReaderListenerImpl.cpp.
unfoldable pub apply_replies : List (Bool × Reply) → CliServer → CliServer
unfolding receive_reply
apply_replies [] s = s
apply_replies ((valid, reply) ∷ rest) s = apply_replies rest (
    if valid && id_eq reply.requesting_device_id s.controller.device_id
    then receive_reply reply s
    else s)

unfoldable pub on_replies : ReturnCode → List (Bool × Reply) → CliServer → CliServer
unfolding apply_replies
on_replies rc samples s = if is_ok rc then apply_replies samples s else s

-- `tms::OperatorIntent`, in the fields that are read; its devices with their priority types.
pub record OperatorIntent : Type 0 where
  pub requesting_device_id : Identity
  pub devices : List (Identity × OperatorPriorityType)

-- The inner loop: the first device that has an identity.
unfoldable pub first_device :
    List (Identity × OperatorPriorityType) → Option (Identity × OperatorPriorityType)
first_device [] = none
first_device ((id, opt) ∷ rest) =
    let later = first_device rest in if is_empty id then later else some (id, opt)

abbrev pub or_else {ℓ} : {A : Type ℓ} → Option A → Option A → Option A
or_else none later = later
or_else (some a) later = some a

-- The outer loop runs on over all samples, so that the last one with a device counts. `target` is
-- none as long as `target_device` is empty.
unfoldable pub last_target :
    Identity
    → List (Bool × OperatorIntent)
    → Option (Identity × OperatorPriorityType)
    → Option (Identity × OperatorPriorityType)
unfolding first_device
last_target mc_id [] target = target
last_target mc_id ((valid, oi) ∷ rest) target = last_target mc_id rest (
    if valid && id_eq oi.requesting_device_id mc_id
    then or_else (first_device oi.devices) target
    else target)

abbrev pub start_stop_target :
    Option (Identity × OperatorPriorityType) → ReturnCode → CliServer → CliServer
start_stop_target none rc s = s
start_stop_target (some (id, opt)) rc s = start_stop_device id opt rc s

-- OperatorIntentRequestDataReaderListenerImpl.cpp; `written` is what a write of a request returns.
unfoldable pub on_operator_intents :
    ReturnCode → List (Bool × OperatorIntent) → ReturnCode → CliServer → CliServer
unfolding last_target start_stop_device
on_operator_intents rc samples written s =
    if is_ok rc
    then start_stop_target (last_target s.controller.device_id samples none) written s
    else s

-- PowerDevicesRequestDataReaderListenerImpl.cpp: whether one of the samples is for this controller.
unfoldable pub my_request : Identity → List (Bool × Identity) → Bool
my_request id [] = false
my_request id ((valid, mc_id) ∷ rest) =
    let later = my_request id rest in
    if not (id_eq mc_id id) then later else (if valid then true else later)

-- `!selected_mc.has_value() || selected_mc.value() == id`.
abbrev pub answers_to : Identity → Option Identity → Bool
answers_to id none = true
answers_to id (some m) = id_eq m id

-- The devices that have selected this controller or none.
unfoldable pub reply_devices : Identity → PowerDevices → List PowerDeviceInfo
reply_devices id [] = []
reply_devices id ((pd_id, pd) ∷ rest) =
    let later = reply_devices id rest in if answers_to id pd.master_id then pd ∷ later else later

-- The `cli::PowerDevicesReply` that is written, if one is.
unfoldable pub on_power_devices_requests :
    ReturnCode → List (Bool × Identity) → CliServer → Option (Identity × List PowerDeviceInfo)
unfolding my_request reply_devices
on_power_devices_requests rc samples s =
    let id = s.controller.device_id in
    if is_ok rc && my_request id samples
    then some (id, reply_devices id s.controller.power_devices)
    else none
