-- ===== src/PowerDevice/Feeding.antt =====
-- power_devices/Source.cpp: no device feeds a source, whatever its listeners take.
use developer_resources.Prelude.{
  ◌≡◌, sym, subst, Bool, ◌&&◌, List, [], ◌∷◌, Identity, Bool-cases, inl, inr, id_eq,
}
use developer_resources.Data.{ReturnCode, is_ok, role_source, EnergyStartStopRequest}
use developer_resources.PowerDevice.{
  is_for, PowerDevice, ConnectedDevice, on_power_connections, on_requests, connected_devices,
  connect_one, apply_connections, apply_requests,
}

-- A source of this identity; it has no device to take current from.
abbrev pub IsSource : Identity → PowerDevice → Type 0
IsSource id pd = (pd.role ≡ role_source) × (pd.connected_devices_in ≡ []) × (pd.device_id ≡ id)

connect_one-IsSource :
    (id : Identity) (d : ConnectedDevice) (pd : PowerDevice)
    → IsSource id pd
    → IsSource id (connect_one pd.role d pd)
unfolding connect_one
connect_one-IsSource id d pd v = subst (λ r. IsSource id (connect_one r d pd)) (sym v.0) v

connected_devices-IsSource :
    (id : Identity) (ds : List ConnectedDevice) (pd : PowerDevice)
    → IsSource id pd
    → IsSource id (connected_devices ds pd)
unfolding connected_devices
connected_devices-IsSource id [] pd v = v
connected_devices-IsSource id (d ∷ ds) pd v =
    connected_devices-IsSource id ds (connect_one pd.role d pd) (connect_one-IsSource id d pd v)

apply_connections-IsSource :
    (id : Identity) (samples : List (Bool × Identity × List ConnectedDevice)) (pd : PowerDevice)
    → IsSource id pd
    → IsSource id (apply_connections samples pd)
unfolding apply_connections
apply_connections-IsSource id [] pd v = v
apply_connections-IsSource id ((valid, pd_id, devices) ∷ rest) pd v =
    elim (Bool-cases (valid && id_eq pd_id pd.device_id)) [
      | inl ours ↦ simp (ours, apply_connections) (connected_devices-IsSource id devices pd v)
      | inr other ↦ simp (other, apply_connections) (apply_connections-IsSource id rest pd v)
    ]

pub on_power_connections-IsSource :
    (id : Identity) (rc : ReturnCode) (samples : List (Bool × Identity × List ConnectedDevice))
    (pd : PowerDevice)
    → IsSource id pd
    → IsSource id (on_power_connections rc samples pd)
unfolding on_power_connections
on_power_connections-IsSource id rc samples pd v = elim (Bool-cases (is_ok rc)) [
  | inl fine ↦ simp (fine, on_power_connections) (apply_connections-IsSource id samples pd v)
  | inr failed ↦ simp (failed, on_power_connections) v
]

apply_requests-IsSource :
    (id : Identity) (samples : List (Bool × EnergyStartStopRequest)) (pd : PowerDevice)
    → IsSource id pd
    → IsSource id (apply_requests samples pd)
unfolding apply_requests
apply_requests-IsSource id [] pd v = v
apply_requests-IsSource id ((valid, essr) ∷ rest) pd v = elim (Bool-cases (is_for pd valid essr)) [
  | inl ours ↦ simp (ours, apply_requests) v
  | inr other ↦ simp (other, apply_requests) (apply_requests-IsSource id rest pd v)
]

pub on_requests-IsSource :
    (id : Identity) (rc : ReturnCode) (samples : List (Bool × EnergyStartStopRequest))
    (pd : PowerDevice)
    → IsSource id pd
    → IsSource id (on_requests rc samples pd)
unfolding on_requests
on_requests-IsSource id rc samples pd v = elim (Bool-cases (is_ok rc)) [
  | inl fine ↦ simp (fine, on_requests) (apply_requests-IsSource id samples pd v)
  | inr failed ↦ simp (failed, on_requests) v
]
