-- ===== src/PowerDevice/Ports.antt =====
-- power_devices/PowerDevice.cpp and its listeners: what reaches a device keeps its ports fit for its role.
use developer_resources.Prelude.{Bool, List, [], ◌∷◌, Identity, Bool-cases, inl, inr, id_eq, ◌&&◌}
use developer_resources.Data.{ReturnCode, is_ok, EnergyStartStopRequest}
use developer_resources.PowerDevice.{
  PowerDevice, ConnectedDevice, on_power_connections, apply_connections, on_requests,
  apply_requests, is_for,
}
use developer_resources.PowerDevice.Connections.{PortsOk, connected_devices-PortsOk}

pub PortsOk-selected :
    (pd : PowerDevice) (id : Identity) → PortsOk pd → PortsOk (record pd { selected = id })
PortsOk-selected pd id v = record {
  source_out = v.source_out;
  source_in = v.source_in;
  load_in = v.load_in;
  load_out = v.load_out;
}

apply_connections-PortsOk :
    (samples : List (Bool × Identity × List ConnectedDevice)) (pd : PowerDevice)
    → PortsOk pd
    → PortsOk (apply_connections samples pd)
unfolding apply_connections
apply_connections-PortsOk [] pd v = v
apply_connections-PortsOk ((valid, pd_id, devices) ∷ rest) pd v =
    elim (Bool-cases (valid && id_eq pd_id pd.device_id)) [
      | inl ours ↦ simp (ours, apply_connections) (connected_devices-PortsOk devices pd v)
      | inr other ↦ simp (other, apply_connections) (apply_connections-PortsOk rest pd v)
    ]

pub on_power_connections-PortsOk :
    (rc : ReturnCode) (samples : List (Bool × Identity × List ConnectedDevice)) (pd : PowerDevice)
    → PortsOk pd
    → PortsOk (on_power_connections rc samples pd)
unfolding on_power_connections
on_power_connections-PortsOk rc samples pd v = elim (Bool-cases (is_ok rc)) [
  | inl fine ↦ simp (fine, on_power_connections) (apply_connections-PortsOk samples pd v)
  | inr failed ↦ simp (failed, on_power_connections) v
]

apply_requests-PortsOk :
    (samples : List (Bool × EnergyStartStopRequest)) (pd : PowerDevice)
    → PortsOk pd
    → PortsOk (apply_requests samples pd)
unfolding apply_requests
apply_requests-PortsOk [] pd v = v
apply_requests-PortsOk ((valid, essr) ∷ rest) pd v = elim (Bool-cases (is_for pd valid essr)) [
  | inl ours ↦
      simp (ours, apply_requests)
        (record {
          source_out = v.source_out;
          source_in = v.source_in;
          load_in = v.load_in;
          load_out = v.load_out;
        })
  | inr other ↦ simp (other, apply_requests) (apply_requests-PortsOk rest pd v)
]

pub on_requests-PortsOk :
    (rc : ReturnCode) (samples : List (Bool × EnergyStartStopRequest)) (pd : PowerDevice)
    → PortsOk pd
    → PortsOk (on_requests rc samples pd)
unfolding on_requests
on_requests-PortsOk rc samples pd v = elim (Bool-cases (is_ok rc)) [
  | inl fine ↦ simp (fine, on_requests) (apply_requests-PortsOk samples pd v)
  | inr failed ↦ simp (failed, on_requests) v
]
