-- ===== src/Microgrid.antt =====
-- power_devices/PowerDevice.{h,cpp}: a whole power device, made of its selector, its heartbeats, and
-- its ports and level, with all that reaches it.
--
-- Each of the three has its own lock, and no call holds two, so that what reaches a device is a
-- sequence of steps, each of one part; only the handling of a request reads another part, the selector.
pub mod Histories
pub mod Obeyed
pub mod Told
pub mod Takeover
pub mod Commanded
pub mod Stale
use developer_resources.Prelude.{
  ℕ, Bool, true, false, List, [], ◌∷◌, Result, ok, ◌>>=◌, Identity, is_empty, ◌≡◌, none,
}
use developer_resources.Data.{
  DeviceRole, DeviceInfo, SampleInfo, Heartbeat, EnergyStartStopRequest, ReturnCode,
  essl_operational,
}
use developer_resources.Timers.{Fault}
use developer_resources.Handshaking
use developer_resources.Handshaking.{Handshaking, init_handshaking}
use developer_resources.Handshaking.Heartbeats.{running}
use developer_resources.Selector
use developer_resources.Selector.{Selector, Event, Callbacks, init_selector}
use developer_resources.Selector.Invariant.{on}
use developer_resources.PowerDevice.{
  PowerDevice, ConnectedDevice, on_power_connections, on_requests,
}
use developer_resources.PowerDevice.Listening.{device_got_heartbeat, device_got_device_info}
use developer_resources.Setup.{DdsCall}
use developer_resources.Setup.Devices.{start_power_device}

-- What the selector has selected is in `selector`; the field of the ports is read through `power_device`.
pub record Device : Type 0 where
  pub handshaking : Handshaking
  pub selector : Selector
  pub ports : PowerDevice

abbrev pub power_device : Device → PowerDevice
power_device d = record d.ports { selected = d.selector.selected }

-- A sample of the TMS topics that a device reads, samples of the power connections and of the
-- requests as `take` gives them, and the timers.
pub data Input : Type 0 where
  hears : Heartbeat × SampleInfo → Input
  learns : DeviceInfo × SampleInfo → Input
  connections : ReturnCode → List (Bool × Identity × List ConnectedDevice) → Input
  requests : ReturnCode → List (Bool × EnergyStartStopRequest) → Input
  beats : Input
  fires : Event → Input

unfoldable pub step : ℕ → Input → Device → Result Fault Device
step now (hears sample) d = do
  s ← device_got_heartbeat d.ports.device_id now sample d.selector
  ok (record d { selector = s })
step now (learns sample) d = do
  s ← device_got_device_info d.ports.device_id sample d.selector
  ok (record d { selector = s })
step now (connections rc samples) d =
    ok (record d { ports = on_power_connections rc samples (power_device d) })
step now (requests rc samples) d = ok (record d { ports = on_requests rc samples (power_device d) })
step now beats d = do h ← Handshaking.time_out d.handshaking; ok (record d { handshaking = h })
step now (fires k) d = do s ← Selector.time_out now k d.selector; ok (record d { selector = s })

-- `PowerDevice::populate_device_info`, in the fields that other devices read.
abbrev pub populate_device_info : Identity → DeviceRole → DeviceInfo
populate_device_info id role = record { device_id = id; role = role; control_service = none }

-- The constructor: nothing is connected, and the level is operational.
abbrev pub init_ports : Identity → DeviceRole → PowerDevice
init_ports id role = record {
  device_id = id;
  role = role;
  selected = [];
  essl = essl_operational;
  connected_devices_in = [];
  connected_devices_out = [];
  replies = [];
}

-- The constructor and `init`. `answer`, `registered` and `written` are what the library answers,
-- `ids` and `timer_ids` what the reactors of the heartbeats and of the selector return.
unfoldable pub start :
    (List DdsCall → DdsCall → ReturnCode)
    → Bool
    → ReturnCode
    → (ℕ → ℕ)
    → (ℕ → ℕ)
    → Callbacks
    → Identity
    → DeviceRole
    → Result Fault (Device × ReturnCode)
start answer registered written ids timer_ids callbacks id role = do
  (h, s, rc) ←
      start_power_device answer (populate_device_info id role) registered written
        (init_handshaking id ids) (init_selector id timer_ids callbacks)
  ok (record { handshaking = h; selector = s; ports = init_ports id role }, rc)

-- A device has an identity, and the reactors fire active timers only.
abbrev pub IsEnabled : Input → Device → Type 0
IsEnabled (learns (di, si)) d = is_empty di.device_id ≡ false
IsEnabled beats d = running d.handshaking ≡ true
IsEnabled (fires k) d = on k d.selector ≡ true
IsEnabled _ d = Unit {0}
