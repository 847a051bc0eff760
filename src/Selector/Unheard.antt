-- ===== src/Selector/Unheard.antt =====
-- common/ControllerSelector.cpp: a controller that has sent its device information and no
-- heartbeat. `got_device_info` gives it the time `TimePoint::min()`, and `now` less that overflows.
use developer_resources.Prelude.{
  ℕ, ◌+◌, ◌-◌, ◌<◌, ◌≡◌, refl, true, false, some, List, [], ◌∷◌, find, ok, arith,
}
use developer_resources.Timers.{schedule_once, start}
use developer_resources.Timers.Calls.{configure, schedule-start}
use developer_resources.Selector.Clock.{before_deadline-min, left_of_deadline-min}
use developer_resources.Selector.Choice.{first_available_recent}
use developer_resources.Selector.Invariant.{on}
use developer_resources.Selector.{
  missed_heartbeat, event_Eq, Selector, PrioritizedController, time_point_min, heartbeat_deadline,
  elapsed, output, master, new_controller_callback, write_controller_state, first_available,
  left_of_deadline, select_controller,
}

-- If the first of the prioritized controllers has never sent a heartbeat, the writer is set,
-- MissedHeartbeat is not active and `now` is below 2^63, then `select_controller` selects that
-- controller, and gives MissedHeartbeat the delay of three seconds and 2^63 - now nanoseconds.
pub select_controller_unheard :
    (now : ℕ) (s : Selector) (p : PrioritizedController) (ps : List PrioritizedController)
    → now < time_point_min
    → s.prioritized_controllers ≡ p ∷ ps
    → find p.id s.all_controllers ≡ some time_point_min
    → s.amcs_dw ≡ true
    → on missed_heartbeat s ≡ false
    → (s' : Selector) × (select_controller now s ≡ ok s')
      × (s'.selected ≡ p.id)
      × ((s'.handler.timers missed_heartbeat).delay ≡ heartbeat_deadline + (time_point_min - now))
unfolding select_controller schedule_once start
select_controller_unheard now s p ps small first never writer off =
    let found : first_available now s.all_controllers s.prioritized_controllers
        ≡ ok (some (p.id, elapsed now time_point_min)) =
      rw first (
        first_available_recent now s.all_controllers p ps time_point_min never
          (before_deadline-min now small)) in
    let d = left_of_deadline (elapsed now time_point_min) in
    let h = start missed_heartbeat (configure missed_heartbeat [] 0 d s.handler) in
    let run : schedule_once missed_heartbeat [] d s.handler ≡ ok h =
      schedule-start missed_heartbeat [] 0 d s.handler off in
    let s₁ = record s { selected = p.id } in
    let s₂ = output s.callbacks.new_controller_set (new_controller_callback p.id) s₁ in
    (
      record s₂ {
        outputs = write_controller_state s.device_id (master p.id) ∷ s₂.outputs;
        handler = h;
      },
      rw (found, select_controller) (ground arith),
      refl,
      left_of_deadline-min now small,
    )
