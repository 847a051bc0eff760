-- ===== src/Tests/Commanding.antt =====
-- cli/CLIClient.cpp: lines that the user enters, and what the controllers make of them.
use developer_resources.Prelude.{
  ◌<◌, ◌≡◌, ◌↔◌, refl, true, false, none, some, [], ◌∷◌, Identity, id_eq, codes, length, ok, find,
  arith,
}
use developer_resources.Data.{retcode_ok}
use developer_resources.Timers.{schedule}
use developer_resources.Handshaking.{Handshaking, init_handshaking, start_heartbeats}
use developer_resources.Handshaking.Heartbeats.{Inv, running}
use developer_resources.CliServer.Commands.{cct_stop, on_controller_commands}
use developer_resources.Client.{ControllerMap}
use developer_resources.Client.Commands.{parse, enter, tolower, controller_cmd, send_controller_cmd}
use developer_resources.Client.Searches.{final}
use developer_resources.Client.Lines.{Line, word_and_argument, parse_iff}
use developer_resources.Client.Remote.{suspend_entered}
use developer_resources.Client.Gathering.{DevicesOf, Answers}
use developer_resources.Client.Gathered.{IsMap}
use developer_resources.Client.Display.{
  list_power_devices, Tell, all_devices, all_lines, list_power_devices-Tell,
}
use developer_resources.Tests.{mc1, mc2, pd1, controller_info, known_device}
use developer_resources.Tests.Timing.{beating, beating-Inv}

abbrev line : Identity
line = codes "\t Suspend  mc1 "

abbrev operation : Identity
operation = codes "Suspend"

line_small : length line < 18446744073709551616
line_small = omega arith

is_line : Line line operation (some mc1)
unfolding final
is_line =
    word_and_argument line (codes "\t ") (codes "uspend") (codes " ") mc1 (codes " ") 83 32 refl
      (refl, (refl, tt)) (refl, tt) (refl, (refl, (refl, (refl, (refl, (refl, (refl, tt))))))) refl
      (refl, tt) refl

parse_iff_example : (parse line ≡ ok (operation, some mc1)) ↔ Line line operation (some mc1)
parse_iff_example = parse_iff line operation (some mc1) line_small

abbrev pub both_controllers : ControllerMap
both_controllers =
    (mc1, record { info = controller_info mc1 4; last_hb = 1000 })
    ∷ (mc2, record { info = controller_info mc2 4; last_hb = 0 })
    ∷ []

suspend_entered_example :
    (enter line ≡ ok (controller_cmd cct_stop (some mc1)))
    × (send_controller_cmd cct_stop (some mc1) both_controllers ≡ some (mc1, cct_stop))
    × ((s' : Handshaking) × (on_controller_commands retcode_ok ((true, mc1, cct_stop) ∷ []) beating
          ≡ ok s')
        × Inv s'
        × (running s' ≡ false)
        × (s'.heartbeats ≡ beating.heartbeats))
    × ((other : Handshaking)
        → id_eq mc1 other.device_id ≡ false
        → on_controller_commands retcode_ok ((true, mc1, cct_stop) ∷ []) other ≡ ok other)
unfolding start_heartbeats init_handshaking schedule tolower find id_eq
suspend_entered_example =
    suspend_entered line operation both_controllers beating line_small is_line refl refl beating-Inv

abbrev pub known_devices : DevicesOf
known_devices = (mc1, (pd1, known_device (some mc1)) ∷ []) ∷ (mc2, []) ∷ []

-- mc1 tells of another device; mc2 is silent.
abbrev pub answers : Identity → Answers
answers id = record {
  written = retcode_ok;
  condition = true;
  waited = retcode_ok;
  taken = retcode_ok;
  replies =
      (record {
        mc_id = mc1;
        devices = known_device none ∷ [];
        info = record { valid_data = true; disposed = false };
      })
      ∷ [];
}

both-IsMap : IsMap both_controllers
unfolding find id_eq
both-IsMap = (refl, (refl, tt))

list_power_devices-Tell_example :
    let (m', shown) = list_power_devices 9000 answers both_controllers known_devices in
    Tell 1 (all_devices m') (all_lines shown)
list_power_devices-Tell_example =
    list_power_devices-Tell 9000 answers both_controllers known_devices
