-- ===== src/PowerDevice/Connections.antt =====
-- power_devices/PowerDevice.cpp: the ports of a device.
use developer_resources.Prelude.{
  ◌≤◌, ◌≡◌, refl, Bool, true, false, List, [], ◌∷◌, ◌++◌, if◌then◌else◌, length, arith, sym, ap,
  ◌∙◌,
}
use mathlib.Core.List.{append-nil, append_assoc}
use developer_resources.Data.{DeviceRole, role_source, role_load, role_distribution}
use developer_resources.PowerDevice.{
  PowerDevice, ConnectedDevice, connect_one, connect_distribution, connected_devices, set_single,
}

-- A source has at most one device to send to and none to receive from, a load the other way round.
pub record PortsOk (pd : PowerDevice) : Type 0 where
  pub source_out : pd.role ≡ role_source → length pd.connected_devices_out ≤ 1
  pub source_in : pd.role ≡ role_source → pd.connected_devices_in ≡ []
  pub load_in : pd.role ≡ role_load → length pd.connected_devices_in ≤ 1
  pub load_out : pd.role ≡ role_load → pd.connected_devices_out ≡ []

single_bound :
    (d : ConnectedDevice) (ds : List ConnectedDevice) → length ds ≤ 1 → length (set_single d ds) ≤ 1
single_bound d [] h = omega arith
single_bound d (x ∷ xs) h = omega arith

connect_one-PortsOk :
    (d : ConnectedDevice) (pd : PowerDevice)
    → PortsOk pd
    → PortsOk (connect_one pd.role d pd) × ((connect_one pd.role d pd).role ≡ pd.role)
unfolding connect_one
connect_one-PortsOk d pd v =
    ground (arith, single_bound d pd.connected_devices_out, single_bound d pd.connected_devices_in)

-- However many connections arrive, a source keeps to one device at most that it sends current to
-- and none that it takes current from, and a load the other way round.
pub connected_devices-PortsOk :
    (ds : List ConnectedDevice) (pd : PowerDevice) → PortsOk pd → PortsOk (connected_devices ds pd)
unfolding connected_devices
connected_devices-PortsOk [] pd v = v
connected_devices-PortsOk (d ∷ ds) pd v =
    connected_devices-PortsOk ds (connect_one pd.role d pd) (connect_one-PortsOk d pd v).0

-- Whether a distribution device takes current from a device, or sends it current.
abbrev pub is_upstream : DeviceRole → Bool
is_upstream role_source = true
is_upstream role_distribution = true
is_upstream _ = false

abbrev pub is_downstream : DeviceRole → Bool
is_downstream role_load = true
is_downstream role_distribution = true
is_downstream _ = false

abbrev pub select_devices : (DeviceRole → Bool) → List ConnectedDevice → List ConnectedDevice
select_devices test [] = []
select_devices test (d ∷ ds) =
    let later = select_devices test ds in if test d.role then d ∷ later else later

connect_distribution_ports :
    (r : DeviceRole) (d : ConnectedDevice) (pd : PowerDevice)
    → ((connect_distribution r d pd).connected_devices_in
        ≡ pd.connected_devices_in ++ (if is_upstream r then d ∷ [] else []))
      × ((connect_distribution r d pd).connected_devices_out
          ≡ pd.connected_devices_out ++ (if is_downstream r then d ∷ [] else []))
      × ((connect_distribution r d pd).role ≡ pd.role)
unfolding connect_distribution
connect_distribution_ports r d pd =
    ground (arith, append-nil pd.connected_devices_in, append-nil pd.connected_devices_out)

step_append :
    (test : Bool) (d : ConnectedDevice) (old new later : List ConnectedDevice)
    → new ≡ old ++ (if test then d ∷ [] else [])
    → new ++ later ≡ old ++ (if test then d ∷ later else later)
step_append true d old new later h = rw h (append_assoc old (d ∷ []) later)
step_append false d old new later h = rw (h, append-nil old) refl

-- A distribution device keeps its ports and adds, in the order of the connections, the sources and
-- distribution devices to those it takes current from, and the loads and distribution devices to
-- those it sends current to. Devices of other roles are left out.
pub connected_devices_ports :
    (ds : List ConnectedDevice) (pd : PowerDevice)
    → pd.role ≡ role_distribution
    → ((connected_devices ds pd).connected_devices_in
        ≡ pd.connected_devices_in ++ select_devices is_upstream ds)
      × ((connected_devices ds pd).connected_devices_out
          ≡ pd.connected_devices_out ++ select_devices is_downstream ds)
unfolding connected_devices connect_one
connected_devices_ports [] pd same =
    (sym (append-nil pd.connected_devices_in), sym (append-nil pd.connected_devices_out))
connected_devices_ports (d ∷ ds) pd same =
    let pd' = connect_distribution d.role d pd in
    let one : connect_one pd.role d pd ≡ pd' = ap (λ r. connect_one r d pd) same in
    let (ins, outs, role) = connect_distribution_ports d.role d pd in
    let (later_in, later_out) = connected_devices_ports ds pd' (role ∙ same) in
    (
      ap (λ p. (connected_devices ds p).connected_devices_in) one
          ∙ (later_in ∙ step_append _ d _ _ _ ins),
      ap (λ p. (connected_devices ds p).connected_devices_out) one
          ∙ (later_out ∙ step_append _ d _ _ _ outs),
    )
