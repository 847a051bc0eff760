-- ===== src/Tests/Living.antt =====
-- A whole power device, from its start through the choice of a controller to the loss of it.
use developer_resources.Selector.Choice.{OneUnavailable, IsAvailable}
use developer_resources.Selector
use developer_resources.Timers
use developer_resources.Selector.Invariant.{on}
use developer_resources.PowerDevice.Listening.{device_got_heartbeat, device_got_device_info}
use developer_resources.Timers.{
  schedule, after_fired, assign_key, cancel, end_loop_if, erase_key, find_key, handle_timeout,
  schedule_once, schedule_timer_of, timer_wont_run, to_time_value,
}
use developer_resources.Setup.{run_steps, has_made}
use developer_resources.Setup.Devices.{start_power_device, with_writers, with_state_writer}
use developer_resources.Prelude.{
  ℕ, suc, ◌≡◌, ◌≢◌, refl, arith, true, false, ◌&&◌, some, List, [], ◌∷◌, id_eq, find, ok, inl, inr,
  if◌then◌else◌, is_empty, assign, update, id_lt, In, subst, sym, ap,
}
use developer_resources.Data.{retcode_ok, role_load, SampleInfo, opt_never_operate}
use developer_resources.Handshaking.{init_handshaking, send_device_info, start_heartbeats}
use developer_resources.Selector.{
  init_selector, new_controller, missed_heartbeat, lost_controller, got_heartbeat, got_device_info,
  set_writer, before_deadline, elapsed, insert_prioritized, left_of_deadline, precedes,
  any_timer_fired, first_available, missed_heartbeat_fired, new_controller_fired, no_available,
  select, select_controller, send_controller_state, PrioritizedController,
}
use developer_resources.Selector.Announced.{last_written}
use developer_resources.CliServer.{start_stop_device, essl_from_opt, request_of}
use developer_resources.PowerDevice.{on_requests, reply_to}
use developer_resources.Microgrid.{
  Device, power_device, Input, hears, learns, requests, fires, step, start, init_ports,
}
use developer_resources.Microgrid.Histories.{
  Reach, begin, next, DeviceOk, device_no_fault, Started, start-Started,
}
use developer_resources.Microgrid.Obeyed.{LevelFrom, Reach-LevelFrom}
use developer_resources.Microgrid.Takeover.{takes_state, is_due, told_controllers}
use developer_resources.Microgrid.Stale.{lost_controller_untold, NoneAvailable}
use developer_resources.Tests.{
  mc1, pd1, controller_info, heartbeat_of, all_callbacks, value_or, server, known_device,
}

abbrev unstarted : Device
unstarted = record {
  handshaking = init_handshaking pd1 (λ n. suc n);
  selector = init_selector pd1 (λ n. suc n) all_callbacks;
  ports = init_ports pd1 role_load;
}

abbrev pub device : Device
device =
    (value_or
      (start (λ made c. retcode_ok) true retcode_ok (λ n. suc n) (λ n. suc n) all_callbacks pd1
        role_load)
      (unstarted, retcode_ok)).0

ids_valid : (n : ℕ) → suc n ≢ 0
ids_valid n h = omega (arith, h)

device_started :
    start
      (λ made c. retcode_ok)
      true
      retcode_ok
      (λ n. suc n)
      (λ n. suc n)
      all_callbacks
      pd1
      role_load
    ≡ ok (device, retcode_ok)
unfolding start start_power_device run_steps send_device_info with_writers init_handshaking schedule
device_started = refl

pub device-Started : Started pd1 role_load device
device-Started =
    start-Started (λ made c. retcode_ok) true retcode_ok (λ n. suc n) (λ n. suc n) all_callbacks pd1
      role_load device ids_valid ids_valid device_started

abbrev valid : SampleInfo
valid = record { valid_data = true; disposed = false }

abbrev after : ℕ → Input → Device → Device
after now i d = value_or (step now i d) d

abbrev informed : Device
informed = after 1000 (learns (controller_info mc1 4, valid)) device

abbrev heard : Device
heard = after 2000 (hears (heartbeat_of mc1, valid)) informed

abbrev pub following : Device
following = after 3000001000 (fires new_controller) heard

abbrev missing : Device
missing = after 3000002000 (fires missed_heartbeat) following

abbrev pub log : List (ℕ × Input)
log =
    (3000001000, fires new_controller)
    ∷ (2000, hears (heartbeat_of mc1, valid))
    ∷ (1000, learns (controller_info mc1 4, valid))
    ∷ []

-- The device follows the controller that it heard, and loses it.
pub history :
    Reach device log 3000001000 following
    × (following.selector.selected ≡ mc1)
    × (on missed_heartbeat following.selector ≡ true)
    × (step 3000002000 (fires missed_heartbeat) following ≡ ok missing)
    × (on lost_controller missing.selector ≡ true)
    × (missing.selector.selected ≡ mc1)
    × (missing.selector.prioritized_controllers ≡ (record { priority = 4; id = mc1 }) ∷ [])
    × (missing.selector.all_controllers ≡ (mc1, 2000) ∷ [])
unfolding step device_got_device_info device_got_heartbeat id_eq start start_power_device run_steps
    has_made with_writers with_state_writer send_device_info start_heartbeats init_handshaking
    schedule got_heartbeat find got_device_info set_writer init_selector assign update id_lt
    before_deadline elapsed insert_prioritized left_of_deadline precedes any_timer_fired
    first_available missed_heartbeat_fired new_controller_fired no_available select
    select_controller send_controller_state Selector.time_out after_fired assign_key cancel
    end_loop_if erase_key find_key handle_timeout schedule_once schedule_timer_of Timers.start
    timer_wont_run to_time_value
history = (
  next 3000001000 (fires new_controller) following
      (next 2000 (hears (heartbeat_of mc1, valid)) heard
        (next 1000 (learns (controller_info mc1 4, valid)) informed (begin 0 (omega arith))
          (omega arith) (omega arith) refl refl)
        (omega arith) (omega arith) tt refl)
      (omega arith) (omega arith) refl refl,
  refl,
  refl,
  refl,
  refl,
  refl,
  refl,
  refl,
)

silent_alone :
    (q : PrioritizedController)
    → In q ((record { priority = 4; id = mc1 }) ∷ [])
    → OneUnavailable 9000002000 ((mc1, 2000) ∷ []) q
unfolding find before_deadline elapsed id_eq
silent_alone q (inl same) a =
    let b = subst (IsAvailable 9000002000 ((mc1, 2000) ∷ [])) (sym same) a in
    ground (arith, b.found, b.recent)
silent_alone q (inr there) a = absurd there

alone : NoneAvailable 9000002000 missing.selector
alone =
    let (r, follows, on, run, lost, selected, ps, all) = history in
    subst
      (λ m.
        (q : PrioritizedController)
        → In q missing.selector.prioritized_controllers
        → OneUnavailable 9000002000 m q)
      (sym all)
      (subst
        (λ l. (q : PrioritizedController) → In q l → OneUnavailable 9000002000 ((mc1, 2000) ∷ []) q)
        (sym ps) silent_alone)

Reach-missing : Reach device ((3000002000, fires missed_heartbeat) ∷ log) 3000002000 missing
Reach-missing =
    let (r, follows, on, run, lost, selected, ps, all) = history in
    next 3000002000 (fires missed_heartbeat) missing r (omega arith) (omega arith) on run

device_no_fault_example :
    DeviceOk 3000001000 following
    × ((u : Device) × (step 3000002000 (fires missed_heartbeat) following ≡ ok u))
device_no_fault_example =
    device_no_fault (λ made c. retcode_ok) true retcode_ok (λ n. suc n) (λ n. suc n) all_callbacks
      pd1 role_load device log 3000001000 3000002000 following (fires missed_heartbeat) ids_valid
      ids_valid device_started history.0 (omega arith) (omega arith) history.2

abbrev asked : Input
asked = requests retcode_ok ((true, request_of server pd1 (essl_from_opt opt_never_operate)) ∷ [])

abbrev obedient : Device
obedient = record following {
  ports =
      on_requests retcode_ok ((true, request_of server pd1 (essl_from_opt opt_never_operate)) ∷ [])
        (power_device following);
}

Reach-obedient : Reach device ((3000001500, asked) ∷ log) 3000001500 obedient
unfolding step
Reach-obedient = next 3000001500 asked obedient history.0 (omega arith) (omega arith) tt refl

Reach-LevelFrom_example : LevelFrom device ((3000001500, asked) ∷ log) obedient
Reach-LevelFrom_example =
    Reach-LevelFrom device obedient ((3000001500, asked) ∷ log) 3000001500 Reach-obedient

told_controllers_example :
    let c' = takes_state (last_written following.selector.outputs) server in
    let leads = id_eq following.selector.selected mc1 in
    let request = request_of server pd1 (essl_from_opt opt_never_operate) in
    ((start_stop_device pd1 opt_never_operate retcode_ok c').requests ≡ (
      if is_due (essl_from_opt opt_never_operate) (known_device (some mc1)) && leads
      then request ∷ server.requests
      else server.requests))
    × (on_requests retcode_ok ((true, request) ∷ []) (power_device following) ≡ (
        if leads
        then record (power_device following) {
          essl = essl_from_opt opt_never_operate;
          replies = reply_to (power_device following) request ∷ following.ports.replies;
        }
        else power_device following))
unfolding find id_eq
told_controllers_example =
    told_controllers pd1 role_load device following log 3000001000 server (known_device (some mc1))
      opt_never_operate retcode_ok device-Started history.0 (ap is_empty history.1) refl

lost_controller_untold_example :
    (u : Device) × (step 9000002000 (fires lost_controller) missing ≡ ok u)
    × (u.selector.selected ≡ [])
    × (last_written u.selector.outputs ≡ some (pd1, some mc1))
    × ((start_stop_device pd1 opt_never_operate retcode_ok
          (takes_state (last_written u.selector.outputs) server)).requests
        ≡ request_of server pd1 (essl_from_opt opt_never_operate) ∷ server.requests)
    × (on_requests retcode_ok
          ((true, request_of server pd1 (essl_from_opt opt_never_operate)) ∷ [])
          (power_device u)
        ≡ power_device u)
unfolding find essl_from_opt id_eq
lost_controller_untold_example =
    lost_controller_untold pd1 role_load device missing ((3000002000, fires missed_heartbeat) ∷ log)
      3000002000 9000002000 server (known_device (some mc1)) opt_never_operate retcode_ok
      device-Started Reach-missing (omega arith) history.4 alone history.5 refl refl
