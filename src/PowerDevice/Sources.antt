-- ===== src/PowerDevice/Sources.antt =====
-- power_devices/Source.cpp: the thread that simulates the power flow, next to the listeners and the
-- signal handler that run in other threads.
use developer_resources.Prelude.{
  Bool, true, false, not, ◌||◌, List, [], ◌∷◌, if◌then◌else◌, Identity, Result, ok, err, ◌>>=◌,
}
use developer_resources.Data.{ReturnCode, essl_operational, level_eq, EnergyStartStopRequest}
use developer_resources.PowerDevice.{
  PowerDevice, ConnectedDevice, ElectricCurrent, on_power_connections, on_requests,
}

-- Where the thread of `simulate_power_flow` stands: at one of the two waits, at the test of the
-- outer loop, at the first or second part of the test of the inner loop, or in its body.
pub data Place : Type 0 where
  wait_for_connections outer_test wait_for_operational inner_test level_test sending finished :
      Place

-- A `SourceDevice`, with the thread's copy of the connected devices; `sent` are the currents handed
-- to the writer, the latest first.
pub record Source (A : Type 0) : Type 0 where
  pub device : PowerDevice
  pub shutdown : Bool
  pub place : Place
  pub connected_devs : List ConnectedDevice
  pub sent : List (ElectricCurrent A)

-- `connected_devs[0]` of an empty sequence.
pub data OutOfBounds : Type 0 where
  out_of_bounds : OutOfBounds

abbrev pub is_none : List ConnectedDevice → Bool
is_none [] = true
is_none (d ∷ ds) = false

-- The predicates of the two waits. Whoever makes one true notifies its condition variable, so that
-- the thread goes on if and only if the predicate holds.
abbrev pub is_connected : PowerDevice → Bool
is_connected pd = not (is_none pd.connected_devices_in) || not (is_none pd.connected_devices_out)

abbrev pub is_operational : PowerDevice → Bool
is_operational pd = level_eq pd.essl essl_operational

-- What happens to a source: the thread goes on, power connections or requests arrive, another
-- controller is selected, or the signal of `handle_signal`, which no code of the repository
-- registers.
pub data Input : Type 0 where
  thread : Input
  connections : ReturnCode → List (Bool × Identity × List ConnectedDevice) → Input
  requests : ReturnCode → List (Bool × EnergyStartStopRequest) → Input
  selects : Identity → Input
  signal : Input

module _ {A : Type 0} (amps : A) where
  -- The body of the inner loop; `amps` stands for the `10.0f` amperes.
  unfoldable pub send_current : Source A → Result OutOfBounds (Source A)
  send_current s = elim s.connected_devs [
    | [] ↦ err out_of_bounds
    | d ∷ ds ↦ ok (record s {
      place = inner_test;
      sent = (record { power_path = s.device.device_id ∷ d.id ∷ []; amperage = amps }) ∷ s.sent;
    })
  ]

  -- The thread's next step from a place; at a wait whose predicate does not hold it stays.
  unfoldable pub thread_step : Place → Source A → Result OutOfBounds (Source A)
  unfolding send_current
  thread_step wait_for_connections s = ok (
      if is_connected s.device
      then record s { place = outer_test; connected_devs = s.device.connected_devices_out }
      else s)
  thread_step outer_test s =
      ok (record s { place = if s.shutdown then finished else wait_for_operational })
  thread_step wait_for_operational s =
      ok (if is_operational s.device then record s { place = inner_test } else s)
  thread_step inner_test s = ok (record s { place = if s.shutdown then outer_test else level_test })
  thread_step level_test s =
      ok (record s { place = if is_operational s.device then sending else outer_test })
  thread_step sending s = send_current s
  thread_step finished s = ok s

  unfoldable pub step : Input → Source A → Result OutOfBounds (Source A)
  unfolding thread_step
  step thread s = thread_step s.place s
  step (connections rc samples) s =
      ok (record s { device = on_power_connections rc samples s.device })
  step (requests rc samples) s = ok (record s { device = on_requests rc samples s.device })
  step (selects id) s = ok (record s { device = record s.device { selected = id } })
  step signal s = ok (record s { shutdown = true })

  unfoldable pub steps : List Input → Source A → Result OutOfBounds (Source A)
  unfolding step
  steps [] s = ok s
  steps (i ∷ is) s = do s' ← step i s; steps is s'

-- `SourceDevice` when `run` starts the thread.
abbrev pub started : {A : Type 0} → PowerDevice → Source A
started pd = record {
  device = pd;
  shutdown = false;
  place = wait_for_connections;
  connected_devs = [];
  sent = [];
}
