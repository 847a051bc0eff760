-- ===== src/Microgrid/Told.antt =====
-- power_devices/PowerDevice.cpp with common/ControllerSelector.cpp: over its whole life a device has told whom it
-- follows.
use developer_resources.Prelude.{
  ℕ, ◌≡◌, refl, ap, subst, ◌∙◌, Bool, not, ◌||◌, Result, err, ◌>>=◌, List, [], ◌∷◌, ok, Identity,
  id_eq, is_empty, arith, ok_same, Bool-cases, inl, inr,
}
use developer_resources.Data.{ReturnCode, EnergyStartStopRequest, DeviceRole}
use developer_resources.Timers.{Fault}
use developer_resources.Handshaking
use developer_resources.Handshaking.{Handshaking}
use developer_resources.Selector
use developer_resources.Selector.{Selector, got_device_info}
use developer_resources.Selector.Announced.{
  Announced, got_heartbeat-Announced, got_device_info-Announced, time_out-Announced,
}
use developer_resources.PowerDevice.{
  PowerDevice, ConnectedDevice, on_power_connections, apply_connections, connected_devices,
  connect_one, on_requests, apply_requests,
}
use developer_resources.PowerDevice.Listening.{device_got_heartbeat, device_got_device_info}
use developer_resources.Microgrid.{
  Device, power_device, Input, hears, learns, connections, requests, beats, fires, step,
}
use developer_resources.Microgrid.Histories.{Reach, begin, next, Started}

connected_devices_id :
    (ds : List ConnectedDevice) (pd : PowerDevice)
    → (connected_devices ds pd).device_id ≡ pd.device_id
unfolding connected_devices connect_one
connected_devices_id [] pd = refl
connected_devices_id (d ∷ ds) pd =
    ground (arith, connected_devices_id ds (connect_one pd.role d pd))

on_power_connections_id :
    (rc : ReturnCode) (samples : List (Bool × Identity × List ConnectedDevice)) (pd : PowerDevice)
    → (on_power_connections rc samples pd).device_id ≡ pd.device_id
unfolding on_power_connections apply_connections
on_power_connections_id rc [] pd = ground arith
on_power_connections_id rc ((valid, id, ds) ∷ rest) pd =
    ground (arith, connected_devices_id ds pd, on_power_connections_id rc rest pd)

on_requests_id :
    (rc : ReturnCode) (samples : List (Bool × EnergyStartStopRequest)) (pd : PowerDevice)
    → (on_requests rc samples pd).device_id ≡ pd.device_id
unfolding on_requests apply_requests
on_requests_id rc [] pd = ground arith
on_requests_id rc ((valid, essr) ∷ rest) pd = ground (arith, on_requests_id rc rest pd)

-- A device of this identity whose selector is true to what it has told.
pub record Told (id : Identity) (d : Device) : Type 0 where
  pub same_device : d.ports.device_id ≡ id
  pub announced : Announced id d.selector

step-Told :
    (id : Identity) (now : ℕ) (i : Input) (d d' : Device)
    → Told id d
    → step now i d ≡ ok d'
    → Told id d'
unfolding step device_got_heartbeat device_got_device_info
step-Told id now (hears (hb, si)) d d' v run =
    heard (device_got_heartbeat d.ports.device_id now (hb, si) d.selector) refl run
  where
    kept :
        (s : Selector)
        → device_got_heartbeat d.ports.device_id now (hb, si) d.selector ≡ ok s
        → Announced id s
    kept s h = elim (Bool-cases (not si.valid_data || id_eq hb.device_id d.ports.device_id)) [
      | inl ignored ↦ subst (Announced id) (ground (arith, h)) v.announced
      | inr other ↦ got_heartbeat-Announced id now hb d.selector s v.announced (ground (arith, h))
    ]

    heard :
        (r : Result Fault Selector)
        → device_got_heartbeat d.ports.device_id now (hb, si) d.selector ≡ r
        → (r >>= λ s. ok (record d { selector = s })) ≡ ok d'
        → Told id d'
    heard (err e) same h = cc h
    heard (ok s) same h =
        subst (Told id) (ok_same h)
          (record { same_device = v.same_device; announced = kept s same })
step-Told id now (learns (di, si)) d d' v run =
    elim (Bool-cases (not si.valid_data || id_eq di.device_id d.ports.device_id)) [
      | inl ignored ↦ subst (Told id) (ground arith) v
      | inr other ↦
          subst (Told id) {x = record d { selector = got_device_info di d.selector }} (ground arith)
            (record {
              same_device = v.same_device;
              announced = got_device_info-Announced id di d.selector v.announced;
            })
    ]
step-Told id now (connections rc samples) d d' v run = subst (Told id) (ok_same run) (record {
  same_device = on_power_connections_id rc samples (power_device d) ∙ v.same_device;
  announced = v.announced;
})
step-Told id now (requests rc samples) d d' v run = subst (Told id) (ok_same run) (record {
  same_device = on_requests_id rc samples (power_device d) ∙ v.same_device;
  announced = v.announced;
})
step-Told id now beats d d' v run = beaten (Handshaking.time_out d.handshaking) run
  where
    beaten :
        (r : Result Fault Handshaking)
        → (r >>= λ h. ok (record d { handshaking = h })) ≡ ok d'
        → Told id d'
    beaten (err e) h = cc h
    beaten (ok s) h =
        subst (Told id) (ok_same h)
          (record { same_device = v.same_device; announced = v.announced })
step-Told id now (fires k) d d' v run = fired (Selector.time_out now k d.selector) refl run
  where
    fired :
        (r : Result Fault Selector)
        → Selector.time_out now k d.selector ≡ r
        → (r >>= λ s. ok (record d { selector = s })) ≡ ok d'
        → Told id d'
    fired (err e) same h = cc h
    fired (ok s) same h = subst (Told id) (ok_same h) (record {
      same_device = v.same_device;
      announced = time_out-Announced id now k d.selector s v.announced same;
    })

pub Reach-Told :
    (id : Identity) (d t : Device) (log : List (ℕ × Input)) (now : ℕ)
    → Told id d
    → Reach d log now t
    → Told id t
Reach-Told id d t log now v (begin time small) = v
Reach-Told id d t log now v (next {log = old} {now = n} {t = s} later i u r le small e run) =
    step-Told id later i s t (Reach-Told id d s old n v r) run

pub Started-Told : (id : Identity) (role : DeviceRole) (d : Device) → Started id role d → Told id d
Started-Told id role d s = record {
  same_device = ap (λ pd. pd.device_id) s.fresh;
  announced = record { same_device = s.named; told = λ e. cc (ap is_empty s.vacant, e) };
}
