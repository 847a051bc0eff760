-- ===== src/Controller.antt =====
-- controller/Controller.{h,cpp} and the listener
-- controller/ActiveMicrogridControllerStateDataReaderListenerImpl.cpp: what a microgrid controller
-- knows of the power devices. Each method holds the mutex throughout. Log messages are left out.
pub mod Devices
use developer_resources.Prelude.{
  ℕ, Bool, true, false, not, ◌||◌, Option, none, some, List, [], ◌∷◌, if◌then◌else◌, Identity,
  id_eq, insert, update,
}
use developer_resources.Data.{
  DeviceInfo, SampleInfo, EnergyStartStopLevel, essl_operational, is_controller,
  role_microgrid_controller, ReturnCode, is_ok,
}

-- `cli::PowerDeviceInfo`.
pub record PowerDeviceInfo : Type 0 where
  pub device_info : DeviceInfo
  pub essl : EnergyStartStopLevel
  pub master_id : Option Identity

abbrev pub PowerDevices : Type 0
PowerDevices = List (Identity × PowerDeviceInfo)

pub record Controller : Type 0 where
  pub device_id : Identity
  pub debug : Bool
  pub power_devices : PowerDevices
  pub priority : ℕ  -- uint16

unfoldable pub set_debug : Bool → Controller → Controller
set_debug value c = record c { debug = value }

unfoldable pub update_essl : Identity → EnergyStartStopLevel → Controller → Controller
update_essl pd_id to_level c = record c {
  power_devices = update pd_id (λ pd. record pd { essl = to_level }) c.power_devices;
}

unfoldable pub device_info_cb : DeviceInfo → SampleInfo → Controller → Controller
device_info_cb di si c =
    if not si.valid_data || id_eq di.device_id c.device_id
    then c
    else (if is_controller di.role then c else record c {
      power_devices =
          insert di.device_id
            (record { device_info = di; essl = essl_operational; master_id = none })
            c.power_devices;
    })

unfoldable pub set_active_controller : Identity → Option Identity → Controller → Controller
set_active_controller pd_id master_id c = record c {
  power_devices = update pd_id (λ pd. record pd { master_id = master_id }) c.power_devices;
}

-- `populate_device_info`, in the fields that other devices read.
unfoldable pub populate_device_info : Controller → DeviceInfo
populate_device_info c = record {
  device_id = c.device_id;
  role = role_microgrid_controller;
  control_service = some (some c.priority);
}

-- A sample of `tms::ActiveMicrogridControllerState`.
pub record ControllerState : Type 0 where
  pub device_id : Identity
  pub master_id : Option Identity

-- The loop of `on_data_available` over the samples that `take` returned.
unfoldable pub apply_states : List (Bool × ControllerState) → Controller → Controller
unfolding set_active_controller
apply_states [] c = c
apply_states ((valid, state) ∷ rest) c =
    apply_states rest (if valid then set_active_controller state.device_id state.master_id c else c)

-- `rc` and `samples` are what `take` gives.
unfoldable pub on_controller_states :
    ReturnCode → List (Bool × ControllerState) → Controller → Controller
unfolding apply_states
on_controller_states rc samples c = if is_ok rc then apply_states samples c else c
