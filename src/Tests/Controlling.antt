-- ===== src/Tests/Controlling.antt =====
-- controller/: a controller with one power device, its requests and its listeners.
use developer_resources.Prelude.{
  false, ◌≡◌, ◌≢◌, refl, arith, not, ◌&&◌, Bool, true, some, none, List, [], ◌∷◌, if◌then◌else◌,
  id_eq, find,
}
use developer_resources.Data.{opt_never_operate, retcode_ok, retcode_error, is_ok, essl_unknown}
use developer_resources.Controller.{ControllerState}
use developer_resources.CliServer.{start_stop_device, find_pending, essl_from_opt}
use developer_resources.CliServer.Requests.{
  sends, start_stop_device_level, PendingOk, start_stop_device-PendingOk,
}
use developer_resources.Tests.{mc1, mc2, pd1, server, known_device}

abbrev states : List (Bool × ControllerState)
states =
    (true, record { device_id = pd1; master_id = some mc2 })
    ∷ (false, record { device_id = pd1; master_id = none })
    ∷ []

off_is_named : essl_from_opt opt_never_operate ≢ essl_unknown
unfolding essl_from_opt
off_is_named h = cc h

start_stop_device_level_example :
    find pd1 (start_stop_device pd1 opt_never_operate retcode_error server).controller.power_devices
    ≡ (if sends (some (known_device (some mc1))) (essl_from_opt opt_never_operate) mc1
          && not (is_ok retcode_error)
        then some (known_device (some mc1))
        else some (record (known_device (some mc1)) { essl = essl_from_opt opt_never_operate }))
unfolding find id_eq
start_stop_device_level_example =
    start_stop_device_level pd1 opt_never_operate retcode_error server (known_device (some mc1))
      refl off_is_named

pub server-PendingOk : PendingOk server
unfolding find_pending
server-PendingOk = record { written = λ n id there. cc; below = λ n id there. cc }

start_stop_device-PendingOk_example :
    PendingOk (start_stop_device pd1 opt_never_operate retcode_ok server)
start_stop_device-PendingOk_example =
    start_stop_device-PendingOk pd1 opt_never_operate retcode_ok server server-PendingOk
      (omega arith)
