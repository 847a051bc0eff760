-- ===== src/Selector/Traces.antt =====
-- common/ControllerSelector.cpp: whole histories of a selector.
use developer_resources.Prelude.{
  ℕ, ◌+◌, ◌≤◌, ◌<◌, ◌≡◌, ◌≢◌, ◌⊎◌, refl, subst, find, true, false, some, Identity, is_empty, Result,
  ok, err,
}
use developer_resources.Data.{DeviceInfo, Heartbeat}
use developer_resources.Timers.{Fault, find_key}
use developer_resources.Selector.Invariant.{Inv, on, DataOk-later, Phase-later}
use developer_resources.Selector.Fired.{time_out-Inv}
use developer_resources.Selector.Received.{got_heartbeat-Inv}
use developer_resources.Selector.Informed.{got_device_info-Inv}
use developer_resources.Selector.{
  Event, new_controller, missed_heartbeat, lost_controller, no_controllers, heartbeat_deadline,
  event_Eq, Selector, Callbacks, init_selector, time_point_min, got_heartbeat, got_device_info,
  time_out, set_writer,
}

-- What reaches a selector: a heartbeat, device information, or a timer that fires.
pub data Input : Type 0 where
  heartbeat : Heartbeat → Input
  device_info : DeviceInfo → Input
  fires : Event → Input

unfoldable pub step : ℕ → Input → Selector → Result Fault Selector
step now (heartbeat hb) s = got_heartbeat now hb s
step now (device_info di) s = ok (got_device_info di s)
step now (fires k) s = time_out now k s

-- A device has an identity, and the reactor fires active timers only.
abbrev pub IsEnabled : Input → Selector → Type 0
IsEnabled (heartbeat hb) s = Unit {0}
IsEnabled (device_info di) s = is_empty di.device_id ≡ false
IsEnabled (fires k) s = on k s ≡ true

-- Times are before the year 2262, where the clock's `int64` ends.
pub data Reach (s : Selector) : ℕ → Selector → Type 0 where
  start : (now : ℕ) → now < time_point_min → Reach s now s
  next :
      {now : ℕ} {t : Selector} (later : ℕ) (i : Input) (u : Selector)
      → Reach s now t
      → now ≤ later
      → later < time_point_min
      → IsEnabled i t
      → step later i t ≡ ok u
      → Reach s later u

pub Inv-later : {now later : ℕ} {s : Selector} → now ≤ later → Inv now s → Inv later s
Inv-later le v = record {
  handler_ok = v.handler_ok;
  data_ok = DataOk-later le v.data_ok;
  writer = v.writer;
  phase = Phase-later le v.phase;
}

-- Every enabled input is handled without a fault, and the invariant holds again after it.
pub step-Inv :
    (now later : ℕ) (i : Input) (s : Selector)
    → now ≤ later
    → later < time_point_min
    → Inv now s
    → IsEnabled i s
    → (s' : Selector) × (step later i s ≡ ok s') × Inv later s'
unfolding step
step-Inv now later (heartbeat hb) s le small v enabled =
    let (s', run, kept, reacts) = got_heartbeat-Inv later hb s (Inv-later le v) in (s', run, kept)
step-Inv now later (device_info di) s le small v enabled =
    (got_device_info di s, refl, got_device_info-Inv later di s (Inv-later le v) enabled)
step-Inv now later (fires k) s le small v enabled =
    time_out-Inv later k s small (Inv-later le v) enabled

pub init_selector-Inv :
    (now : ℕ) (device_id : Identity) (ids : ℕ → ℕ) (callbacks : Callbacks)
    → ((n : ℕ) → ids n ≢ 0)
    → Inv now (set_writer (init_selector device_id ids callbacks))
unfolding init_selector set_writer find_key find
init_selector-Inv now device_id ids callbacks valid = record {
  handler_ok = record {
    well_formed = record {
      keyed = λ k active. cc;
      idle = λ k off. refl;
      listed = λ k active. cc;
      live = λ key k there. cc;
    };
    valid_ids = valid;
    once = λ k. refl;
  };
  data_ok = record {
    known = λ q member. absurd member;
    named = refl;
    stamped = λ id t there. cc;
    sorted = tt;
  };
  writer = refl;
  phase = record {
    vacant = λ e. (refl, refl);
    waiting = λ e. cc;
    apart = λ e. cc;
    silent = λ e. cc;
    unheard = λ e. cc;
  };
}

pub Reach-Inv : {s t : Selector} {now : ℕ} → ((now : ℕ) → Inv now s) → Reach s now t → Inv now t
Reach-Inv v (start now small) = v now
Reach-Inv v (next {now} {t} later i u r le small enabled run) =
    let (u', run', v') = step-Inv now later i t le small (Reach-Inv v r) enabled in
    let same : u' ≡ u = cc in subst (Inv later) same v'

-- Over a reactor that never returns the id 0, no history of heartbeats, device information with an
-- identity, and time-outs of active timers, at times that do not go back and are below 2^63, makes
-- a selector with a writer throw, as a timer scheduled twice would, or follow a null pointer or the
-- iterator `end()`.
pub Reach_no_fault :
    (device_id : Identity) (ids : ℕ → ℕ) (callbacks : Callbacks) (now later : ℕ) (s : Selector)
    (i : Input) (f : Fault)
    → ((n : ℕ) → ids n ≢ 0)
    → Reach (set_writer (init_selector device_id ids callbacks)) now s
    → now ≤ later
    → later < time_point_min
    → IsEnabled i s
    → step later i s ≢ err f
Reach_no_fault device_id ids callbacks now later s i f valid r le small enabled fault =
    let v = Reach-Inv (λ n. init_selector-Inv n device_id ids callbacks valid) r in
    let (s', run, kept) = step-Inv now later i s le small v enabled in cc (run, fault)

-- Over a reactor that never returns the id 0, in every reachable state: without a controller
-- neither MissedHeartbeat nor LostController runs, NewController runs without a controller only,
-- MissedHeartbeat and LostController never run both, and while NoControllers runs each known
-- controller has never been heard of or not in the last three seconds.
pub Reach_timers :
    (device_id : Identity) (ids : ℕ → ℕ) (callbacks : Callbacks) (now : ℕ) (s : Selector)
    → ((n : ℕ) → ids n ≢ 0)
    → Reach (set_writer (init_selector device_id ids callbacks)) now s
    → (is_empty s.selected ≡ true
        → (on missed_heartbeat s ≡ false) × (on lost_controller s ≡ false))
      × (on new_controller s ≡ true → is_empty s.selected ≡ true)
      × (on missed_heartbeat s ≡ true → on lost_controller s ≡ false)
      × (on no_controllers s ≡ true
          → (id : Identity) (t : ℕ) → find id s.all_controllers ≡ some t
          → (t ≡ time_point_min) ⊎ (t + heartbeat_deadline ≤ now))
Reach_timers device_id ids callbacks now s valid r =
    let v = Reach-Inv (λ n. init_selector-Inv n device_id ids callbacks valid) r in
    (v.phase.vacant, v.phase.waiting, v.phase.apart, v.phase.silent)
