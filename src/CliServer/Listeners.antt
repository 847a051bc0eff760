-- ===== src/CliServer/Listeners.antt =====
-- The listeners of controller/: what is answered and what is started.
use developer_resources.Prelude.{
  ◌≡◌, Bool, true, ◌⊎◌, ◌↔◌, Option, some, List, [], ◌∷◌, ◌++◌, if◌then◌else◌, Identity, id_eq,
  id_eq_iff, In, arith,
}
use developer_resources.Data.{OperatorPriorityType, ReturnCode, is_ok}
use developer_resources.Controller.{PowerDeviceInfo, PowerDevices}
use developer_resources.CliServer.{
  CliServer, OperatorIntent, answers_to, reply_devices, my_request, on_power_devices_requests,
  first_device, last_target, or_else,
}

-- The device is known under some identity.
abbrev pub Known : PowerDeviceInfo → PowerDevices → Type 0
Known pd [] = ⊥
Known pd ((id, x) ∷ rest) = (x ≡ pd) ⊎ Known pd rest

In-reply_devices :
    (id : Identity) (pd : PowerDeviceInfo) (pds : PowerDevices)
    → (In pd (reply_devices id pds) → Known pd pds × (answers_to id pd.master_id ≡ true))
      × (Known pd pds → answers_to id pd.master_id ≡ true → In pd (reply_devices id pds))
unfolding reply_devices
In-reply_devices id pd [] = (λ there. absurd there, λ there. absurd there)
In-reply_devices id pd ((pd_id, x) ∷ rest) = ground (arith, In-reply_devices id pd rest)

-- A reply is written only if the samples could be taken and one of them is for this controller. It
-- lists exactly the known devices that follow this controller or none.
pub on_power_devices_requests_devices :
    (rc : ReturnCode) (samples : List (Bool × Identity)) (s : CliServer) (id : Identity)
    (devices : List PowerDeviceInfo)
    → on_power_devices_requests rc samples s ≡ some (id, devices)
    → (is_ok rc ≡ true)
      × (my_request s.controller.device_id samples ≡ true)
      × (id ≡ s.controller.device_id)
      × ((pd : PowerDeviceInfo)
          → In pd devices
            ↔ (Known pd s.controller.power_devices × (answers_to id pd.master_id ≡ true)))
unfolding on_power_devices_requests
on_power_devices_requests_devices rc samples s id devices run = (
  ground arith,
  ground arith,
  own,
  λ pd.
      rw (own, ← listed)
        (
          (In-reply_devices s.controller.device_id pd s.controller.power_devices).0,
          λ both.
              (In-reply_devices s.controller.device_id pd s.controller.power_devices).1 both.0
                both.1,
        ),
)
  where
    own : id ≡ s.controller.device_id
    own = ground arith

    listed : reply_devices s.controller.device_id s.controller.power_devices ≡ devices
    listed = ground arith

-- The samples are asked for exactly if a valid one carries the identity of this controller.
pub my_request_iff :
    (id : Identity) (samples : List (Bool × Identity))
    → (my_request id samples ≡ true) ↔ In (true, id) samples
unfolding my_request
my_request_iff id [] = (λ h. cc, λ h. absurd h)
my_request_iff id ((valid, mc_id) ∷ rest) =
    ground (arith, id_eq_iff mc_id id, my_request_iff id rest)

-- Of several samples the last one that is for this controller and names a device decides.
pub last_target-append :
    (mc_id : Identity) (before : List (Bool × OperatorIntent)) (oi : OperatorIntent)
    (target : Option (Identity × OperatorPriorityType))
    → last_target mc_id (before ++ (true, oi) ∷ []) target ≡ (
        if id_eq oi.requesting_device_id mc_id
        then or_else (first_device oi.devices) (last_target mc_id before target)
        else last_target mc_id before target)
unfolding last_target
last_target-append mc_id [] oi target = ground arith
last_target-append mc_id ((valid, x) ∷ rest) oi target = last_target-append mc_id rest oi _
