-- ===== src/Tests/Stopping.antt =====
-- A line that the user enters, carried out by a controller and a power device.
use developer_resources.Prelude.{
  true, ◌≡◌, refl, arith, ap, ◌&&◌, some, [], ◌∷◌, id_eq, find, ok, inl, In, if◌then◌else◌,
  is_empty, codes, Identity,
}
use developer_resources.Data.{retcode_ok, role_load}
use developer_resources.CliServer.{OperatorIntent, on_operator_intents, request_of}
use developer_resources.Client.{is_available}
use developer_resources.Client.Commands.{enter, tolower}
use developer_resources.Client.Searches.{final}
use developer_resources.Client.Lines.{Line, word_and_argument}
use developer_resources.Client.Gathering.{send_start_stop_request}
use developer_resources.Selector.Announced.{last_written}
use developer_resources.PowerDevice.{on_requests, reply_to}
use developer_resources.Microgrid.{power_device}
use developer_resources.Microgrid.Takeover.{takes_state, is_due}
use developer_resources.Microgrid.Commanded.{stop, level_of, call_of, priority_of, word_entered}
use developer_resources.Tests.{mc1, mc2, pd1, controller_info, server, known_device}
use developer_resources.Tests.Commanding.{answers, both_controllers, known_devices}
use developer_resources.Tests.Living.{device, device-Started, following, log, history}

abbrev stop_line : Identity
stop_line = codes "STOP pd1"

stop_line-Line : Line stop_line (codes "STOP") (some pd1)
unfolding final
stop_line-Line =
    word_and_argument stop_line [] (codes "TOP") [] pd1 [] 83 32 refl tt tt
      (refl, (refl, (refl, (refl, tt)))) refl tt refl

word_entered_example :
    let c' = takes_state (last_written following.selector.outputs) server in
    let leads = id_eq following.selector.selected mc1 in
    let request = request_of server pd1 (level_of stop) in
    (enter stop_line ≡ ok (call_of stop (some pd1)))
    × ((oi : OperatorIntent) × In oi
          (send_start_stop_request
            (some pd1)
            (priority_of stop)
            8000
            9000
            answers
            both_controllers
            known_devices).1
        × ((on_operator_intents retcode_ok ((true, oi) ∷ []) retcode_ok c').requests ≡ (
            if is_due (level_of stop) (known_device (some mc1)) && leads
            then request ∷ server.requests
            else server.requests)))
    × (on_requests retcode_ok ((true, request) ∷ []) (power_device following) ≡ (
        if leads
        then record (power_device following) {
          essl = level_of stop;
          replies = reply_to (power_device following) request ∷ following.ports.replies;
        }
        else power_device following))
unfolding find id_eq is_available tolower
word_entered_example =
    word_entered stop stop_line (codes "STOP") pd1 role_load device following log 3000001000 server
      (known_device (some mc1)) 8000 9000 answers both_controllers known_devices retcode_ok
      (omega arith) stop_line-Line refl refl device-Started history.0 (ap is_empty history.1) refl
      (
        (record { info = controller_info mc1 4; last_hb = 1000 }, refl),
        ((record { info = controller_info mc2 4; last_hb = 0 }, refl), tt),
      )
      (inl refl) refl refl
