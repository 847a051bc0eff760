-- ===== src/Tests.antt =====
-- Devices, messages and states to run the definitions on.
mod Histories
mod Timing
mod Orders
mod Controlling
mod Powering
mod Starting
mod Connecting
mod Commanding
mod Flowing
mod Living
mod Typing
mod Stopping
use developer_resources.Prelude.{
  ℕ, suc, Bool, true, false, Option, some, none, List, [], ◌∷◌, Identity, codes, Result, ok, err,
}
use developer_resources.Data.{
  DeviceInfo, role_microgrid_controller, role_load, Heartbeat, essl_off, essl_operational,
  EnergyStartStopLevel, role_distribution, role_source, DeviceRole,
}
use developer_resources.Selector.{Callbacks, Selector, init_selector, set_writer}
use developer_resources.Controller.{Controller, PowerDeviceInfo}
use developer_resources.CliServer.{CliServer}
use developer_resources.PowerDevice.{PowerDevice, ConnectedDevice}

abbrev pub mc1 : Identity
mc1 = codes "mc1"

abbrev pub mc2 : Identity
mc2 = codes "mc2"

abbrev pub pd1 : Identity
pd1 = codes "pd1"

abbrev pub pd2 : Identity
pd2 = codes "pd2"

abbrev pub pd3 : Identity
pd3 = codes "pd3"

abbrev pub controller_info : Identity → ℕ → DeviceInfo
controller_info id priority = record {
  device_id = id;
  role = role_microgrid_controller;
  control_service = some (some priority);
}

abbrev pub load_info : Identity → DeviceInfo
load_info id = record { device_id = id; role = role_load; control_service = none }

abbrev pub heartbeat_of : Identity → Heartbeat
heartbeat_of id = record { device_id = id; sequence_number = 7 }

abbrev pub all_callbacks : Callbacks
all_callbacks = record {
  new_controller_set = true;
  missed_heartbeat_set = true;
  lost_controller_set = true;
  no_controllers_set = true;
}

-- The selector of a power device that has just started.
abbrev pub fresh_selector : Selector
fresh_selector = set_writer (init_selector pd1 (λ n. suc n) all_callbacks)

abbrev pub known_device : Option Identity → PowerDeviceInfo
known_device master = record {
  device_info = load_info pd1;
  essl = essl_operational;
  master_id = master;
}

abbrev pub one_device : Option Identity → Controller
one_device master = record {
  device_id = mc1;
  debug = false;
  power_devices = (pd1, known_device master) ∷ [];
  priority = 3;
}

abbrev pub server : CliServer
server = record {
  controller = one_device (some mc1);
  essr_seqnum = 5;
  pending_essr = [];
  requests = [];
}

abbrev pub connected : Identity → DeviceRole → ConnectedDevice
connected id role = record { id = id; role = role }

abbrev pub power_device : DeviceRole → PowerDevice
power_device role = record {
  device_id = pd1;
  role = role;
  selected = mc1;
  essl = essl_operational;
  connected_devices_in = connected pd2 role_source ∷ [];
  connected_devices_out = connected pd3 role_load ∷ [];
  replies = [];
}

abbrev pub value_or : {E A : Type 0} → Result E A → A → A
value_or (ok a) d = a
value_or (err e) d = d
