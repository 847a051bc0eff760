-- ===== src/PowerDevice.antt =====
-- power_devices/: PowerDevice.{h,cpp} and its two listeners, and the listeners of
-- power_devices/Distribution.cpp and power_devices/Load.cpp.
pub mod Connections
pub mod Levels
pub mod Listening
pub mod Loads
pub mod Relay
pub mod Feeding
pub mod Sent
pub mod Shutdown
pub mod Sources
pub mod Ports
use developer_resources.Prelude.{
  ℕ, suc, ◌+◌, ◌≤◌, ltb, Bool, true, false, not, ◌&&◌, Option, none, some, List, [], ◌∷◌, ◌++◌,
  if◌then◌else◌, Identity, id_eq, length,
}
use developer_resources.Data.{
  DeviceRole, role_source, role_load, role_distribution, role_unknown, role_microgrid_controller,
  role_storage, role_microgrid_dashboard, role_conversion, role_monitor, EnergyStartStopLevel,
  essl_operational, level_eq, EnergyStartStopRequest, Reply, reply_ok, ReturnCode, is_ok,
}

-- `powersim::ConnectedDevice`.
pub record ConnectedDevice : Type 0 where
  pub id : Identity
  pub role : DeviceRole

-- `selected` is what `controller_selector_.selected()` returns; `replies` are the replies handed
-- to the writer, the latest first.
pub record PowerDevice : Type 0 where
  pub device_id : Identity
  pub role : DeviceRole
  pub selected : Identity
  pub essl : EnergyStartStopLevel
  pub connected_devices_in : List ConnectedDevice
  pub connected_devices_out : List ConnectedDevice
  pub replies : List Reply

-- The one port: `v[0] = d` if there is a `v[0]`, else `v.push_back(d)`.
abbrev pub set_single : ConnectedDevice → List ConnectedDevice → List ConnectedDevice
set_single d [] = d ∷ []
set_single d (x ∷ xs) = d ∷ xs

-- The case ROLE_DISTRIBUTION, by the role of the other device.
unfoldable pub connect_distribution : DeviceRole → ConnectedDevice → PowerDevice → PowerDevice
connect_distribution role_source d pd = record pd {
  connected_devices_in = pd.connected_devices_in ++ d ∷ [];
}
connect_distribution role_load d pd = record pd {
  connected_devices_out = pd.connected_devices_out ++ d ∷ [];
}
connect_distribution role_distribution d pd = record pd {
  connected_devices_in = pd.connected_devices_in ++ d ∷ [];
  connected_devices_out = pd.connected_devices_out ++ d ∷ [];
}
connect_distribution _ d pd = pd

-- One round of the loop of `connected_devices`, by the role of this device. A device of any other
-- role returns from the loop at once, which changes as little as going on would.
unfoldable pub connect_one : DeviceRole → ConnectedDevice → PowerDevice → PowerDevice
unfolding connect_distribution
connect_one role_source d pd = record pd {
  connected_devices_out = set_single d pd.connected_devices_out;
}
connect_one role_load d pd = record pd {
  connected_devices_in = set_single d pd.connected_devices_in;
}
connect_one role_distribution d pd = connect_distribution d.role d pd
connect_one _ d pd = pd

unfoldable pub connected_devices : List ConnectedDevice → PowerDevice → PowerDevice
unfolding connect_one
connected_devices [] pd = pd
connected_devices (d ∷ ds) pd = connected_devices ds (connect_one pd.role d pd)

-- PowerConnectionDataReaderListenerImpl.cpp: the first valid sample for this device counts.
unfoldable pub apply_connections :
    List (Bool × Identity × List ConnectedDevice) → PowerDevice → PowerDevice
unfolding connected_devices
apply_connections [] pd = pd
apply_connections ((valid, pd_id, devices) ∷ rest) pd =
    let later = apply_connections rest pd in
    if valid && id_eq pd_id pd.device_id then connected_devices devices pd else later

unfoldable pub on_power_connections :
    ReturnCode → List (Bool × Identity × List ConnectedDevice) → PowerDevice → PowerDevice
unfolding apply_connections
on_power_connections rc samples pd = if is_ok rc then apply_connections samples pd else pd

-- The reply to a request, always OK.
abbrev pub reply_to : PowerDevice → EnergyStartStopRequest → Reply
reply_to pd essr = record {
  requesting_device_id = essr.requesting_device_id;
  target_device_id = pd.device_id;
  config = essr.config;
  request_sequence_id = essr.sequence_id;
  code = reply_ok;
}

-- The request is valid, from the selected controller, and for this device.
abbrev pub is_for : PowerDevice → Bool → EnergyStartStopRequest → Bool
is_for pd valid essr =
    valid
    && (id_eq essr.requesting_device_id pd.selected && id_eq essr.target_device_id pd.device_id)

-- EnergyStartStopRequestDataReaderListenerImpl.cpp: the loop ends at the first request for this
-- device. What the write of the reply returns is only logged.
unfoldable pub apply_requests : List (Bool × EnergyStartStopRequest) → PowerDevice → PowerDevice
apply_requests [] pd = pd
apply_requests ((valid, essr) ∷ rest) pd =
    let later = apply_requests rest pd in
    if is_for pd valid essr
    then record pd { essl = essr.to_level; replies = reply_to pd essr ∷ pd.replies }
    else later

unfoldable pub on_requests :
    ReturnCode → List (Bool × EnergyStartStopRequest) → PowerDevice → PowerDevice
unfolding apply_requests
on_requests rc samples pd = if is_ok rc then apply_requests samples pd else pd

-- `powersim::ElectricCurrent` over a type `A` of amperages, which the program has as `float`.
pub record ElectricCurrent (A : Type 0) : Type 0 where
  pub power_path : List Identity
  pub amperage : A

-- `power_path[length - 2]` and `power_path[length - 1]`, if the length is at least 2.
unfoldable pub last_two : List Identity → Option (Identity × Identity)
last_two [] = none
last_two (x ∷ []) = none
last_two (x ∷ y ∷ []) = some (x, y)
last_two (x ∷ y ∷ z ∷ rest) = last_two (y ∷ z ∷ rest)

-- The search of `connected_devices_in` for the sender.
unfoldable pub found_in : Identity → List ConnectedDevice → Bool
found_in from [] = false
found_in from (d ∷ ds) = let later = found_in from ds in if id_eq d.id from then true else later

module _ {A : Type 0} (divide : A → ℕ → A) where
  -- The currents handed to the writer for one that arrived, in order. `divide` is the division of
  -- a `float` by a `size_t`, which stands here for the arithmetic of floats.
  unfoldable pub relay_to : ElectricCurrent A → ℕ → List ConnectedDevice → List (ElectricCurrent A)
  relay_to ec ports [] = []
  relay_to ec ports (d ∷ ds) =
      (record { power_path = ec.power_path ++ d.id ∷ []; amperage = divide ec.amperage ports })
      ∷ relay_to ec ports ds

  unfoldable pub relay_one : PowerDevice → ElectricCurrent A → List (ElectricCurrent A)
  unfolding relay_to found_in last_two
  relay_one pd ec = elim (last_two ec.power_path) [
    | none ↦ []
    | some (from, to) ↦
        if id_eq to pd.device_id && found_in from pd.connected_devices_in
        then relay_to ec (length pd.connected_devices_out) pd.connected_devices_out
        else []
  ]

  unfoldable pub relay_all :
      PowerDevice → List (Bool × ElectricCurrent A) → List (ElectricCurrent A)
  unfolding relay_one
  relay_all pd [] = []
  relay_all pd ((valid, ec) ∷ rest) = (if valid then relay_one pd ec else []) ++ relay_all pd rest

  -- The `on_data_available` of Distribution.cpp.
  unfoldable pub on_electric_currents :
      ReturnCode → List (Bool × ElectricCurrent A) → PowerDevice → List (ElectricCurrent A)
  unfolding relay_all
  on_electric_currents rc samples pd =
      if is_ok rc && level_eq pd.essl essl_operational then relay_all pd samples else []
