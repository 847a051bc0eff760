-- ===== src/Client/Gathering.antt =====
-- cli/CLIClient.cpp: the power devices that the client learns of from the controllers, the requests
-- to start or stop one, and the controller that gets the topology.
use developer_resources.Prelude.{
  ℕ, Bool, true, false, ◌&&◌, Option, none, some, List, [], ◌∷◌, if◌then◌else◌, Identity, id_eq,
  find, assign, insert, erase,
}
use developer_resources.Data.{ReturnCode, is_ok, SampleInfo, OperatorPriorityType}
use developer_resources.Controller.{PowerDeviceInfo, PowerDevices}
use developer_resources.CliServer.{OperatorIntent}
use developer_resources.Client.{ControllerMap, is_available, intents_to}

-- `mc_to_devices_`.
abbrev pub DevicesOf : Type 0
DevicesOf = List (Identity × PowerDevices)

-- `cli::PowerDevicesReply`, with its sample info.
pub record PowerDevicesReply : Type 0 where
  pub mc_id : Identity
  pub devices : List PowerDeviceInfo
  pub info : SampleInfo

-- What the library answers in `send_power_devices_request`: to the write, whether there is a query
-- condition, to `wait` and to `take`, with the replies taken.
pub record Answers : Type 0 where
  pub written : ReturnCode
  pub condition : Bool
  pub waited : ReturnCode
  pub taken : ReturnCode
  pub replies : List PowerDevicesReply

abbrev pub or_no_devices : Option PowerDevices → PowerDevices
or_no_devices none = []
or_no_devices (some pds) = pds

-- `insert_or_assign` of each device.
unfoldable pub assign_all : List PowerDeviceInfo → PowerDevices → PowerDevices
assign_all [] pds = pds
assign_all (d ∷ ds) pds = assign_all ds (assign d.device_info.device_id d pds)

-- A reply of the controller that was asked.
unfoldable pub receive_devices : Identity → PowerDevicesReply → DevicesOf → DevicesOf
unfolding assign_all
receive_devices mc_id r m =
    if r.info.valid_data
    then assign mc_id (assign_all r.devices (or_no_devices (find mc_id m))) m
    else (if r.info.disposed then erase mc_id m else m)

-- The loop over the replies ends at the first one of the controller that was asked.
unfoldable pub receive_replies : Identity → List PowerDevicesReply → DevicesOf → DevicesOf
unfolding receive_devices
receive_replies mc_id [] m = m
receive_replies mc_id (r ∷ rest) m =
    let later = receive_replies mc_id rest m in
    if id_eq r.mc_id mc_id then receive_devices mc_id r m else later

unfoldable pub send_power_devices_request : Identity → Answers → DevicesOf → Bool × DevicesOf
unfolding receive_replies
send_power_devices_request mc_id a m =
    if is_ok a.written && (a.condition && (is_ok a.waited && is_ok a.taken))
    then (true, receive_replies mc_id a.replies m)
    else (false, m)

-- The loop of `collect_power_devices`, behind `ret`.
unfoldable pub collect :
    ℕ → (Identity → Answers) → ControllerMap → Bool → DevicesOf → Bool × DevicesOf
unfolding is_available send_power_devices_request
collect now answers [] ret m = (ret, m)
collect now answers ((mc_id, i) ∷ rest) ret m =
    if is_available now i.last_hb
    then (let r = send_power_devices_request mc_id (answers mc_id) m in
        collect now answers rest (ret && r.0) r.1)
    else collect now answers rest ret (erase mc_id m)

unfoldable pub collect_power_devices :
    ℕ → (Identity → Answers) → ControllerMap → DevicesOf → Bool × DevicesOf
unfolding collect
collect_power_devices now answers controllers m = collect now answers controllers true m

-- `power_devices_.insert(pds.begin(), pds.end())`.
unfoldable pub insert_all : PowerDevices → PowerDevices → PowerDevices
insert_all [] into = into
insert_all ((id, pd) ∷ pds) into = insert_all pds (insert id pd into)

unfoldable pub insert_each : DevicesOf → PowerDevices → PowerDevices
unfolding insert_all
insert_each [] into = into
insert_each ((mc_id, pds) ∷ rest) into = insert_each rest (insert_all pds into)

abbrev pub is_empty_map {ℓ} : {A : Type ℓ} → List A → Bool
is_empty_map [] = true
is_empty_map (x ∷ xs) = false

-- `mc_to_devices_`, collected if it was empty, as at the start of `consolidate_power_devices` and
-- `send_start_stop_request`.
unfoldable pub collected : ℕ → (Identity → Answers) → ControllerMap → DevicesOf → DevicesOf
unfolding collect_power_devices
collected now answers controllers m =
    if is_empty_map m then (collect_power_devices now answers controllers m).1 else m

unfoldable pub consolidate_power_devices :
    ℕ → (Identity → Answers) → ControllerMap → DevicesOf → PowerDevices → DevicesOf × PowerDevices
unfolding collected insert_each
consolidate_power_devices now answers controllers m pds =
    let m' = collected now answers controllers m in (m', insert_each m' pds)

abbrev pub keys {ℓ} : {V : Type ℓ} → List (Identity × V) → List Identity
keys [] = []
keys ((k, v) ∷ m) = k ∷ keys m

abbrev pub intents : Identity → OperatorPriorityType → List Identity → List OperatorIntent
intents pd_id opt [] = []
intents pd_id opt (mc_id ∷ rest) =
    (record { requesting_device_id = mc_id; devices = (pd_id, opt) ∷ [] }) ∷ intents pd_id opt rest

-- `send_start_stop_request`, and so `send_start_device_cmd` and `send_stop_device_cmd`: the map, and
-- the intents handed to the writer in their order. `now` is read behind the collection.
unfoldable pub send_start_stop_request :
    Option Identity
    → OperatorPriorityType
    → ℕ
    → ℕ
    → (Identity → Answers)
    → ControllerMap
    → DevicesOf
    → DevicesOf × List OperatorIntent
unfolding collected intents_to
send_start_stop_request none opt before now answers controllers m = (m, [])
send_start_stop_request (some pd_id) opt before now answers controllers m =
    let m' = collected before answers controllers m in
    (m', intents pd_id opt (intents_to now controllers (keys m')))

-- The end of `connect_power_devices`: the controllers that the topology is written to, the last of
-- them with success if it was sent. `written` is what the write to a controller returns.
unfoldable pub send_topology : ℕ → (Identity → ReturnCode) → ControllerMap → List Identity × Bool
unfolding is_available
send_topology now written [] = ([], false)
send_topology now written ((mc_id, i) ∷ rest) =
    let later = send_topology now written rest in
    if is_available now i.last_hb
    then (if is_ok (written mc_id) then (mc_id ∷ [], true) else (mc_id ∷ later.0, later.1))
    else later
