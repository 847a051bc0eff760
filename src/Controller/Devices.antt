-- ===== src/Controller/Devices.antt =====
-- controller/Controller.cpp: what the map of the power devices comes to hold.
use developer_resources.Prelude.{
  ◌≡◌, Bool, not, ◌&&◌, Option, none, some, List, [], ◌∷◌, if◌then◌else◌, Identity, id_eq,
  id_eq_iff, find, find-insert, find-update, Option-cases, contains, map_option, arith,
}
use developer_resources.Data.{
  DeviceInfo, SampleInfo, is_controller, essl_operational, ReturnCode, is_ok,
}
use developer_resources.Controller.{
  Controller, PowerDeviceInfo, device_info_cb, ControllerState, apply_states, on_controller_states,
  set_active_controller,
}

-- Whether the arrival of a device info adds a power device to a controller that does not know it.
abbrev pub adds : DeviceInfo → SampleInfo → Controller → Bool
adds di si c =
    si.valid_data && (not (id_eq di.device_id c.device_id) && not (is_controller di.role))

-- A valid device info of another device that is no microgrid controller adds the device, at
-- operational level and with no master, if it is not known; a known device keeps its level, its
-- master and its first device info. No other entry changes.
pub find-device_info_cb :
    (di : DeviceInfo) (si : SampleInfo) (c : Controller) (id : Identity)
    → find id (device_info_cb di si c).power_devices ≡ (
        if adds di si c && (id_eq di.device_id id && not (contains (find id c.power_devices)))
        then some (record { device_info = di; essl = essl_operational; master_id = none })
        else find id c.power_devices)
unfolding device_info_cb
find-device_info_cb di si c id = ground (
  arith,
  id_eq_iff di.device_id id,
  Option-cases (find id c.power_devices),
  find-insert di.device_id id
      (record { device_info = di; essl = essl_operational; master_id = none }) c.power_devices,
)

-- The master that the last valid state of a device names; without one, the master there was.
abbrev pub last_master :
    Identity → List (Bool × ControllerState) → Option Identity → Option Identity
last_master id [] old = old
last_master id ((valid, state) ∷ rest) old =
    last_master id rest (if valid && id_eq state.device_id id then state.master_id else old)

abbrev pub follow : Identity → List (Bool × ControllerState) → PowerDeviceInfo → PowerDeviceInfo
follow id samples pd = record pd { master_id = last_master id samples pd.master_id }

pub find-set_active_controller :
    (pd_id : Identity) (master : Option Identity) (c : Controller) (id : Identity)
    → find id (set_active_controller pd_id master c).power_devices ≡ (
        if id_eq pd_id id
        then map_option (λ pd. record pd { master_id = master }) (find id c.power_devices)
        else find id c.power_devices)
unfolding set_active_controller
find-set_active_controller pd_id master c id =
    find-update pd_id id (λ pd. record pd { master_id = master }) c.power_devices

find-apply_states :
    (samples : List (Bool × ControllerState)) (c : Controller) (id : Identity)
    → find id (apply_states samples c).power_devices
      ≡ map_option (follow id samples) (find id c.power_devices)
unfolding apply_states
find-apply_states [] c id = ground (arith, Option-cases (find id c.power_devices))
find-apply_states ((valid, state) ∷ rest) c id = ground (
  arith,
  find-apply_states rest c id,
  find-apply_states rest (set_active_controller state.device_id state.master_id c) id,
  find-set_active_controller state.device_id state.master_id c id,
  Option-cases (find id c.power_devices),
)

-- If the samples can be taken, each known device has for its master the one that its last valid
-- state names, and what else is known of it stays; no device is added. If not, nothing changes.
pub find-on_controller_states :
    (rc : ReturnCode) (samples : List (Bool × ControllerState)) (c : Controller) (id : Identity)
    → find id (on_controller_states rc samples c).power_devices ≡ (
        if is_ok rc
        then map_option (follow id samples) (find id c.power_devices)
        else find id c.power_devices)
unfolding on_controller_states
find-on_controller_states rc samples c id = ground (arith, find-apply_states samples c id)
