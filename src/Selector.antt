-- ===== src/Selector.antt =====
-- common/ControllerSelector.{h,cpp}: which microgrid controller a power device follows.
--
-- A timer's callback and a listener's call each hold the lock throughout, so each is one function
-- from state to state. `now` is the reading of the clock that the call makes (each makes one at
-- most), in nanoseconds since the epoch, as `std::chrono::system_clock` counts them in an `int64`.
-- Log messages are left out.
pub mod State
pub mod Clock
pub mod Order
pub mod Choice
pub mod Invariant
pub mod Selecting
pub mod Handlers
pub mod Announced
pub mod Best
pub mod Missed
pub mod Fired
pub mod Reactions
pub mod Received
pub mod Replaced
pub mod Failover
pub mod Informed
pub mod Traces
pub mod Unheard
pub mod Diagram
pub mod Carried
pub mod Watched
pub mod Picked
pub mod Leaving
pub mod Moved
pub mod Paths
pub mod Deadline
use developer_resources.Prelude.{
  ℕ, ◌+◌, ◌-◌, ◌%◌, ◌≡◌, Bool, true, false, not, ◌&&◌, ◌||◌, Option, none, some, List, [], ◌∷◌, ltb,
  leb, ◌==◌, if◌then◌else◌, Eq, Result, ok, err, ◌>>=◌, Identity, id_eq, id_lt, is_empty, find,
  assign, update, contains, arith,
}
use developer_resources.Data.{DeviceInfo, Heartbeat, is_controller}
use developer_resources.Timers.{
  TimerHandler, Timer, cleared, Fault, null_pointer, active, schedule_once, cancel, reschedule,
  handle_timeout,
}
unfoldable pub use developer_resources.Selector.State.*

abbrev pub output : Bool → Output → Selector → Selector
output set o s = record s { outputs = if set then o ∷ s.outputs else s.outputs }

-- The timer operations on the selector.
abbrev pub with_handler : TimerHandler Event Identity → Selector → Selector
with_handler h s = record s { handler = h }

unfoldable pub set_debug : Bool → Selector → Selector
set_debug value s = record s { debug = value }

abbrev pub master : Identity → Option Identity
master [] = none
master (x ∷ xs) = some (x ∷ xs)

-- The write follows a null pointer unless the writer has been set. Its return code is only logged.
unfoldable pub send_controller_state : Selector → Result Fault Selector
send_controller_state s =
    if s.amcs_dw
    then ok
        (record s { outputs = write_controller_state s.device_id (master s.selected) ∷ s.outputs })
    else err null_pointer

unfoldable pub select : Identity → ℕ → Selector → Result Fault Selector
unfolding send_controller_state
select id last_hb s = do
  let s₁ = record s { selected = id }
  let s₂ = output s₁.callbacks.new_controller_set (new_controller_callback id) s₁
  s₃ ← send_controller_state s₂
  h ← schedule_once missed_heartbeat [] (left_of_deadline last_hb) s₃.handler
  ok (with_handler h s₃)

-- The loop of `select_controller`, which stops at the first controller with a recent heartbeat. An
-- identity that `all_controllers_` lacks gives the iterator `end()`, which is followed.
unfoldable pub first_available :
    ℕ → List (Identity × ℕ) → List PrioritizedController → Result Fault (Option (Identity × ℕ))
first_available now all [] = ok none
first_available now all (p ∷ ps) = elim (find p.id all) [
  | none ↦ err null_pointer
  | some last ↦
      let rest = first_available now all ps in
      if before_deadline (elapsed now last) then ok (some (p.id, elapsed now last)) else rest
]

abbrev pub select_found : Option (Identity × ℕ) → Selector → Result Fault Selector
select_found none s = ok s
select_found (some (id, last_hb)) s = select id last_hb s

-- The function returns false on every path, and no caller reads it.
unfoldable pub select_controller : ℕ → Selector → Result Fault Selector
unfolding first_available select
select_controller now s = do
  found ← first_available now s.all_controllers s.prioritized_controllers
  select_found found s

-- The part of `got_heartbeat` for a selector that follows no controller, or this one.
pub heartbeat_timers : Identity → Selector → Result Fault Selector
heartbeat_timers id s =
    if is_empty s.selected
    then (if active (s.handler.timers new_controller) then ok s else (do
      h ← schedule_once new_controller id new_active_controller_delay s.handler
      ok (with_handler h s)))
    else (if id_eq s.selected id
        then (let h₁ = cancel lost_controller s.handler in
            if active (h₁.timers missed_heartbeat)
            then (do h ← reschedule missed_heartbeat h₁; ok (with_handler h s))
            else (do
              h ← schedule_once missed_heartbeat [] heartbeat_deadline h₁
              ok (with_handler h s)))
        else ok s)

unfoldable pub got_heartbeat : ℕ → Heartbeat → Selector → Result Fault Selector
unfolding heartbeat_timers
got_heartbeat now hb s = elim (find hb.device_id s.all_controllers) [
  | none ↦ ok s
  | some last ↦ heartbeat_timers hb.device_id (record s {
    all_controllers = update hb.device_id (λ _. now) s.all_controllers;
    handler = cancel no_controllers s.handler;
  })
]

unfoldable pub got_device_info : DeviceInfo → Selector → Selector
unfolding insert_prioritized
got_device_info di s =
    if is_controller di.role && not (contains (find di.device_id s.all_controllers))
    then record s {
      all_controllers = assign di.device_id time_point_min s.all_controllers;
      prioritized_controllers = insert_prioritized (prioritized di) s.prioritized_controllers;
    }
    else s

unfoldable pub new_controller_fired : ℕ → Selector → Result Fault Selector
unfolding select_controller
new_controller_fired now s = elim (find (s.handler.timers new_controller).arg s.all_controllers) [
  | none ↦ ok s
  | some last ↦ select_controller now s
]

-- The loop of `timer_fired(Timer<MissedHeartbeat>&)` over `all_controllers_`.
unfoldable pub no_available : ℕ → List (Identity × ℕ) → Bool
no_available now [] = true
no_available now ((id, last) ∷ m) =
    let rest = no_available now m in if before_deadline (elapsed now last) then false else rest

unfoldable pub missed_heartbeat_fired : ℕ → Selector → Result Fault Selector
unfolding no_available
missed_heartbeat_fired now s = do
  let s₁ = output s.callbacks.missed_heartbeat_set (missed_heartbeat_callback s.selected) s
  h ← schedule_once lost_controller [] lost_active_controller_delay s₁.handler
  if no_available now s.all_controllers
      then (do h' ← schedule_once no_controllers [] no_controllers_delay h; ok (with_handler h' s₁))
      else ok (with_handler h s₁)

unfoldable pub lost_controller_fired : ℕ → Selector → Result Fault Selector
unfolding select_controller
lost_controller_fired now s =
    let s₁ = output s.callbacks.lost_controller_set (lost_controller_callback s.selected) s in
    select_controller now (record s₁ { selected = [] })

unfoldable pub no_controllers_fired : Selector → Selector
no_controllers_fired s = output s.callbacks.no_controllers_set no_controllers_callback s

-- `any_timer_fired`.
unfoldable pub any_timer_fired : ℕ → Event → Selector → Result Fault Selector
any_timer_fired now new_controller s = new_controller_fired now s
any_timer_fired now missed_heartbeat s = missed_heartbeat_fired now s
any_timer_fired now lost_controller s = lost_controller_fired now s
any_timer_fired now no_controllers s = ok (no_controllers_fired s)

-- `handle_timeout` for the timer of an event type: the reactor hands over a pointer to the timer's
-- key, which is read when the timer fires.
unfoldable pub time_out : ℕ → Event → Selector → Result Fault Selector
unfolding any_timer_fired
time_out now k s =
    handle_timeout (λ t. t.handler) with_handler (any_timer_fired now) (s.handler.timers k).key s
