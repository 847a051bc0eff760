-- ===== src/Client.antt =====
-- cli/CLIClient.{h,cpp}: the controllers that the command-line client knows, the requests to start
-- or stop a device, and the topology that the user sets up. `data_m_` is held where the state is
-- read or written.
pub mod Answering
pub mod Commands
pub mod Controllers
pub mod Display
pub mod Gathered
pub mod Gathering
pub mod Lines
pub mod Loop
pub mod Remote
pub mod Searches
pub mod Parsing
pub mod Topology
use developer_resources.Prelude.{
  ℕ, ◌+◌, Bool, true, false, not, ◌&&◌, ◌||◌, ltb, Option, none, some, List, [], ◌∷◌, if◌then◌else◌,
  Identity, id_eq, find, assign, insert, erase, update, ◌-◌,
}
use developer_resources.Data.{
  DeviceRole, role_source, role_load, role_storage, DeviceInfo, Heartbeat, SampleInfo,
  is_controller, role_eq,
}
use developer_resources.PowerDevice.{ConnectedDevice}

-- `CLIClient::ControllerInfo`. Times are nanoseconds since the epoch.
pub record ControllerInfo : Type 0 where
  pub info : DeviceInfo
  pub last_hb : ℕ

abbrev pub ControllerMap : Type 0
ControllerMap = List (Identity × ControllerInfo)

-- The sum of 3 and 6 seconds.
abbrev pub unavail_controller_delay : ℕ
unavail_controller_delay = 9000000000

-- `controller_status`, true for AVAILABLE. A last heartbeat is a reading of the clock, and so not
-- after `now`.
unfoldable pub is_available : ℕ → ℕ → Bool
is_available now last_hb = ltb (now - last_hb) unavail_controller_delay

unfoldable pub process_device_info : ℕ → DeviceInfo → SampleInfo → ControllerMap → ControllerMap
process_device_info now di si m =
    if si.valid_data
    then (if is_controller di.role
        then insert di.device_id (record { info = di; last_hb = now }) m
        else m)
    else (if si.disposed then erase di.device_id m else m)

unfoldable pub process_heartbeat : ℕ → Heartbeat → SampleInfo → ControllerMap → ControllerMap
process_heartbeat now hb si m =
    if si.valid_data
    then update hb.device_id (λ i. record i { last_hb = now }) m
    else (if si.disposed then erase hb.device_id m else m)

-- The loop of `send_start_stop_request` over the keys of `mc_to_devices_`: the controllers that the
-- intent is written to. It ends at the first one that `controllers_` lacks. What a write returns
-- is only logged.
unfoldable pub intents_to : ℕ → ControllerMap → List Identity → List Identity
unfolding is_available
intents_to now m [] = []
intents_to now m (mc_id ∷ rest) = elim (find mc_id m) [
  | none ↦ []
  | some i ↦
      let later = intents_to now m rest in
      if is_available now i.last_hb then mc_id ∷ later else later
]

abbrev pub is_single_port_device : DeviceRole → Bool
is_single_port_device role_source = true
is_single_port_device role_load = true
is_single_port_device role_storage = true
is_single_port_device _ = false

-- `power_connections_`: a set of connected devices for each device.
abbrev pub Connections : Type 0
Connections = List (Identity × List ConnectedDevice)

abbrev pub or_empty : Option (List ConnectedDevice) → List ConnectedDevice
or_empty none = []
or_empty (some ds) = ds

unfoldable pub connections_of : Identity → Connections → List ConnectedDevice
connections_of id pc = or_empty (find id pc)

-- `ConnectedDeviceEqual`.
abbrev pub device_eq : ConnectedDevice → ConnectedDevice → Bool
device_eq d e = id_eq d.id e.id && role_eq d.role e.role

unfoldable pub set_has : ConnectedDevice → List ConnectedDevice → Bool
set_has d [] = false
set_has d (e ∷ es) = let later = set_has d es in if device_eq e d then true else later

-- `std::unordered_set::insert`.
unfoldable pub insert_device : ConnectedDevice → List ConnectedDevice → List ConnectedDevice
unfolding set_has
insert_device d ds = if set_has d ds then ds else d ∷ ds

-- `power_connections_[id].insert(d)`.
unfoldable pub insert_connection : Identity → ConnectedDevice → Connections → Connections
unfolding connections_of insert_device
insert_connection id d pc = assign id (insert_device d (connections_of id pc)) pc

abbrev pub has_none : List ConnectedDevice → Bool
has_none [] = true
has_none (d ∷ ds) = false

unfoldable pub can_connect : Identity → DeviceRole → Identity → DeviceRole → Connections → Bool
unfolding connections_of
can_connect id1 role1 id2 role2 pc =
    if id_eq id1 id2
    then false
    else (if has_none (connections_of id1 pc) || not (is_single_port_device role1)
        then (if has_none (connections_of id2 pc) then true else not (is_single_port_device role2))
        else false)

unfoldable pub connect : Identity → DeviceRole → Identity → DeviceRole → Connections → Connections
unfolding insert_connection
connect id1 role1 id2 role2 pc =
    insert_connection id2 (record { id = id1; role = role1 })
      (insert_connection id1 (record { id = id2; role = role2 }) pc)

-- The two loops of `connect_power_devices`; `wants` is whether the user answers yes in the end.
module _ (wants : Identity → Identity → Bool) where
  unfoldable pub connect_to :
      Identity → DeviceRole → List (Identity × DeviceRole) → Connections → Connections
  unfolding can_connect connect
  connect_to id1 role1 [] pc = pc
  connect_to id1 role1 ((id2, role2) ∷ rest) pc = connect_to id1 role1 rest (
      if can_connect id1 role1 id2 role2 pc && wants id1 id2
      then connect id1 role1 id2 role2 pc
      else pc)

  unfoldable pub connect_power_devices : List (Identity × DeviceRole) → Connections → Connections
  unfolding connect_to
  connect_power_devices [] pc = pc
  connect_power_devices ((id1, role1) ∷ rest) pc =
      connect_power_devices rest (connect_to id1 role1 rest pc)
