-- ===== src/Tests/Flowing.antt =====
-- power_devices/Source.cpp and power_devices/Load.cpp with a distribution device between them, the
-- readers of a power device, the configuration, and the timers as settings.
use developer_resources.Prelude.{
  ℕ, zero, suc, ◌/◌, ◌≡◌, ◌≢◌, refl, Bool, true, false, some, List, [], ◌∷◌, Identity, codes,
  length, ok, In, inl, arith,
}
use developer_resources.Data.{
  ReturnCode, retcode_ok, retcode_no_data, role_source, role_load, role_distribution, Heartbeat,
  SampleInfo,
}
use developer_resources.PowerDevice.{PowerDevice, ElectricCurrent, on_electric_currents}
use developer_resources.PowerDevice.Sources.{
  Source, wait_for_connections, level_test, finished, Input, thread, connections, selects, steps,
  started, send_current,
}
use developer_resources.PowerDevice.Sent.{Inv, started-Inv, steps-Inv}
use developer_resources.PowerDevice.Shutdown.{source_goes_on}
use developer_resources.PowerDevice.Loads.{on_load_currents, current_reaches_load}
use developer_resources.PowerDevice.Listening.{device_got_heartbeat, heartbeats_taken, accepted}
use developer_resources.Selector.Informed.{got_device_info-Inv}
use developer_resources.Selector.Failover.{hear, last_heard}
use developer_resources.Handshaking.Readers.{on_data_available, Ends}
use developer_resources.Selector.{Selector, got_device_info}
use developer_resources.Selector.Invariant
use developer_resources.Configuration.{ConfigPair}
use developer_resources.Selector.{Event, new_controller, missed_heartbeat, event_Eq}
use developer_resources.Timers.Specification.{
  Op, schedules, cancels, times_out, IsSound, Simulates, view,
}
use developer_resources.Timers.Refinement.{run_ops, specified_all, run_ops-Simulates}
use developer_resources.Tests.{
  mc1, pd1, pd2, pd3, power_device, connected, heartbeat_of, fresh_selector, controller_info,
}
use developer_resources.Tests.Timing.{fresh-Inv}

abbrev source_device : PowerDevice
source_device = record (power_device role_source) {
  device_id = pd2;
  connected_devices_in = [];
  connected_devices_out = [];
}

abbrev new_source : Source ℕ
new_source = started source_device

new_source-Inv : Inv 10 pd2 new_source
new_source-Inv = started-Inv 10 pd2 source_device (refl, refl, refl)

-- The device is connected, the thread sends, and then it is connected to another device.
abbrev inputs : List Input
inputs =
    thread
    ∷ connections retcode_ok ((true, pd2, connected pd1 role_distribution ∷ []) ∷ [])
    ∷ thread
    ∷ thread
    ∷ thread
    ∷ thread
    ∷ thread
    ∷ thread
    ∷ connections retcode_ok ((true, pd2, connected pd3 role_load ∷ []) ∷ [])
    ∷ thread
    ∷ thread
    ∷ thread
    ∷ []

steps-Inv_example :
    (s' : Source ℕ) × (steps 10 inputs new_source ≡ ok s')
    × Inv 10 pd2 s'
    × (new_source.place ≢ wait_for_connections → s'.connected_devs ≡ new_source.connected_devs)
steps-Inv_example = steps-Inv 10 pd2 inputs new_source new_source-Inv

-- A source that sends to a distribution device.
abbrev feeding : Source ℕ
feeding = record new_source {
  device = record source_device { connected_devices_out = connected pd1 role_distribution ∷ [] };
  place = level_test;
  connected_devs = connected pd1 role_distribution ∷ [];
}

feeding-Inv : Inv 10 pd2 feeding
feeding-Inv = record {
  is_source = (refl, refl, refl);
  idle = λ e. refl;
  copied = λ beyond. refl;
  addressed = λ ec there. absurd there;
}

abbrev source_inputs : List Input
source_inputs = thread ∷ selects mc1 ∷ thread ∷ thread ∷ []

source_goes_on_example :
    (s' : Source ℕ) × (steps 10 source_inputs (started source_device) ≡ ok s')
    × (s'.place ≢ finished)
source_goes_on_example =
    source_goes_on 10 pd2 source_inputs source_device new_source-Inv.is_source
      (tt, (tt, (tt, (tt, tt))))

abbrev load_device : PowerDevice
load_device = record (power_device role_load) {
  device_id = pd3;
  connected_devices_in = connected pd1 role_distribution ∷ [];
}

current_reaches_load_example :
    (src' : Source ℕ) × (sent : ElectricCurrent ℕ) × (taken : ElectricCurrent ℕ) × (send_current 10
        feeding
      ≡ ok src')
    × (src'.sent ≡ sent ∷ [])
    × In taken (
        on_electric_currents
          (λ a n. a / n)
          retcode_ok
          ((true, sent) ∷ [])
          (power_device role_distribution))
    × (on_load_currents retcode_ok ((true, taken) ∷ []) load_device ≡ some taken)
    × (taken.power_path ≡ pd2 ∷ pd1 ∷ pd3 ∷ [])
    × (taken.amperage ≡ 10 / length (power_device role_distribution).connected_devices_out)
current_reaches_load_example =
    current_reaches_load 10 (λ a n. a / n) feeding (power_device role_distribution) load_device
      (connected pd1 role_distribution) (connected pd2 role_source) [] (connected pd3 role_load)
      refl refl (inl refl) refl (inl refl) refl refl refl refl

-- Two samples and then none.
abbrev two_samples : ℕ → ReturnCode
two_samples zero = retcode_ok
two_samples (suc zero) = retcode_ok
two_samples (suc (suc n)) = retcode_no_data

two_samples-Ends : Ends two_samples 0 2
two_samples-Ends = record {
  fine = elim [
    | zero ↦ λ small. refl
    | suc zero ↦ λ small. refl
    | suc (suc n) ↦ λ small. absurd (omega (arith, small))
  ];
  last = refl;
}

abbrev samples : ℕ → Heartbeat × SampleInfo
samples n = (heartbeat_of mc1, record { valid_data = true; disposed = false })

-- A selector that knows the sender.
abbrev informed : Selector
informed = got_device_info (controller_info mc1 4) fresh_selector

informed-Inv : Invariant.Inv 0 informed
informed-Inv = got_device_info-Inv 0 (controller_info mc1 4) fresh_selector fresh-Inv refl

heartbeats_taken_example :
    (sel' : Selector) × (on_data_available two_samples
        (λ n. n)
        true
        (some (λ n. device_got_heartbeat pd1 n (samples n)))
        3
        informed
      ≡ some (ok sel'))
    × Invariant.Inv 2 sel'
    × (hear (accepted pd1 (λ n. n) samples 2) informed ≡ ok sel')
    × (sel'.all_controllers ≡ last_heard (accepted pd1 (λ n. n) samples 2) informed.all_controllers)
heartbeats_taken_example =
    heartbeats_taken pd1 (λ n. n) two_samples samples 2 informed (λ n. omega arith) two_samples-Ends
      informed-Inv

abbrev debug_samples : List (Bool × ConfigPair)
debug_samples =
    (true, record { key = codes "TMS_SELECTOR_DEBUG"; value = codes "true" })
    ∷ (true, record { key = codes "TMS_SELECTOR_OTHER"; value = codes "false" })
    ∷ []

fresh-IsSound : IsSound fresh_selector.handler
fresh-IsSound = record {
  well_formed = fresh-Inv.handler_ok.well_formed;
  valid_ids = fresh-Inv.handler_ok.valid_ids;
}

abbrev operations : List (Op Event Identity)
operations =
    schedules new_controller mc1 0 3000000000
    ∷ schedules missed_heartbeat [] 0 1
    ∷ cancels missed_heartbeat
    ∷ times_out new_controller
    ∷ []

run_ops-Simulates_example :
    Simulates
      (run_ops operations fresh_selector.handler)
      (specified_all operations (view fresh_selector.handler))
run_ops-Simulates_example = run_ops-Simulates operations fresh_selector.handler fresh-IsSound
