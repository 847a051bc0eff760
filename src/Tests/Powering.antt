-- ===== src/Tests/Powering.antt =====
-- power_devices/: a device that gets requests, connections and currents.
use developer_resources.Prelude.{
  ℕ, ◌≡◌, refl, Bool, true, false, List, [], ◌∷◌, Identity, find, id_eq,
}
use developer_resources.Data.{
  opt_never_operate, retcode_ok, EnergyStartStopRequest, Reply, config_active, essl_any, essl_off,
  role_load,
}
use developer_resources.CliServer.{start_stop_device, on_replies, find_pending, essl_from_opt}
use developer_resources.PowerDevice.{on_requests}
use developer_resources.PowerDevice.Levels.{start_stop_round_trip}
use developer_resources.Tests.{mc1, pd1, pd2, server, power_device}
use developer_resources.Tests.Controlling.{server-PendingOk}

start_stop_round_trip_example :
    (request : EnergyStartStopRequest) × (reply : Reply) × ((start_stop_device pd1 opt_never_operate
        retcode_ok server).requests
      ≡ request ∷ server.requests)
    × ((on_requests retcode_ok ((true, request) ∷ []) (power_device role_load)).essl
        ≡ essl_from_opt opt_never_operate)
    × ((on_requests retcode_ok ((true, request) ∷ []) (power_device role_load)).replies
        ≡ reply ∷ [])
    × ((n : ℕ)
        → find_pending n
            (on_replies retcode_ok
              ((true, reply) ∷ [])
              (start_stop_device pd1 opt_never_operate retcode_ok server)).pending_essr
          ≡ find_pending n server.pending_essr)
unfolding find essl_from_opt id_eq
start_stop_round_trip_example =
    start_stop_round_trip opt_never_operate server (power_device role_load) refl refl
      server-PendingOk

abbrev request : Identity → EnergyStartStopRequest
request target = record {
  requesting_device_id = mc1;
  target_device_id = target;
  config = config_active;
  sequence_id = 5;
  from_level = essl_any;
  to_level = essl_off;
}

abbrev requests : List (Bool × EnergyStartStopRequest)
requests = (true, request pd2) ∷ (false, request pd1) ∷ (true, request pd1) ∷ []
