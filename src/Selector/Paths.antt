-- ===== src/Selector/Paths.antt =====
-- common/ControllerSelector.cpp: histories of a selector are paths of the pseudo state machine.
use developer_resources.Prelude.{
  ℕ, ◌≤◌, ◌<◌, ◌≡◌, ◌≢◌, refl, subst, true, find, Identity, inl, inr, ok, ok_injective, Bool-cases,
  find-assign, assign, contains, List, arith,
}
use developer_resources.Data.{DeviceInfo}
use developer_resources.Selector.Invariant.{Inv, on}
use developer_resources.Selector.Traces.{
  Input, heartbeat, device_info, fires, step, IsEnabled, Reach, start, next, Inv-later, step-Inv,
  init_selector-Inv, Reach-Inv,
}
use developer_resources.Selector.Diagram.{
  Node, unfollowing, joins, no_news, is_news, Trail, begin, along, At, shown,
}
use developer_resources.Selector.Carried.{Moves, Carries-to}
use developer_resources.Selector.Watched.{got_heartbeat-Moves}
use developer_resources.Selector.Moved.{time_out-Moves}
use developer_resources.Selector.{
  no_controllers, event_Eq, Selector, Callbacks, init_selector, set_writer, time_point_min,
  got_device_info,
}

known_assigned :
    (id j : Identity) (all : List (Identity × ℕ))
    → contains (find j all) ≡ true
    → contains (find j (assign id time_point_min all)) ≡ true
known_assigned id j all known = ground (arith, find-assign id j time_point_min all)

got_device_info-Moves :
    (now : ℕ) (di : DeviceInfo) (n : Node) (s : Selector)
    → At n s
    → Moves now (device_info di) n s (got_device_info di s)
unfolding got_device_info
got_device_info-Moves now di n s a = elim (Bool-cases (is_news di s.all_controllers)) [
  | inr ignored ↦
      rw (ignored, got_device_info)
        (
          n,
          no_news di n (on no_controllers s) s.all_controllers s.prioritized_controllers ignored,
          a,
        )
  | inl new ↦
      rw (new, got_device_info)
        (
          n,
          joins di n (on no_controllers s) s.all_controllers s.prioritized_controllers new,
          record {
            selected = a.selected;
            new = a.new;
            missed = a.missed;
            lost = a.lost;
            carries =
                Carries-to n s _ refl refl refl
                  (λ j. known_assigned di.device_id j s.all_controllers) a.carries;
            comms_loss = a.comms_loss;
          },
        )
]

step_edge :
    (now : ℕ) (i : Input) (n : Node) (s : Selector)
    → now < time_point_min
    → Inv now s
    → IsEnabled i s
    → At n s
    → (s' : Selector) × (step now i s ≡ ok s') × Moves now i n s s'
unfolding step
step_edge now (heartbeat hb) n s small v enabled a = got_heartbeat-Moves now hb n s v a
step_edge now (device_info di) n s small v enabled a =
    (got_device_info di s, refl, got_device_info-Moves now di n s a)
step_edge now (fires k) n s small v enabled a = time_out-Moves now k n s small v a enabled

-- Where the invariant holds and the selector is at a node of the pseudo state machine, an enabled
-- input at a later time below 2^63 is handled without a fault, as an edge of that machine for this
-- input says, whose end is the node that the selector is at then, and the invariant holds again.
pub step-Moves :
    (now later : ℕ) (i : Input) (n : Node) (s : Selector)
    → now ≤ later
    → later < time_point_min
    → Inv now s
    → IsEnabled i s
    → At n s
    → (s' : Selector) × (step later i s ≡ ok s') × Inv later s' × Moves later i n s s'
step-Moves now later i n s le small v enabled a =
    let (s', run, moves) = step_edge later i n s small (Inv-later le v) enabled a in
    let (t, again, kept) = step-Inv now later i s le small v enabled in
    (s', run, subst (Inv later) (ok_injective again run) kept, moves)

At-init_selector :
    (device_id : Identity) (ids : ℕ → ℕ) (callbacks : Callbacks)
    → At unfollowing (set_writer (init_selector device_id ids callbacks))
unfolding init_selector set_writer
At-init_selector device_id ids callbacks = record {
  selected = refl;
  new = refl;
  missed = refl;
  lost = refl;
  carries = tt;
  comms_loss = λ e. cc;
}

begin-init_selector :
    (now : ℕ) (device_id : Identity) (ids : ℕ → ℕ) (callbacks : Callbacks)
    → Trail now (shown unfollowing (set_writer (init_selector device_id ids callbacks)))
unfolding init_selector set_writer
begin-init_selector now device_id ids callbacks = begin now

-- Over a reactor that never returns the id 0, every reachable state of a selector with a writer is
-- at a node of the pseudo state machine, which tells the selected controller and which of
-- NewController, MissedHeartbeat and LostController run. NewController, LostController and
-- NoControllers have delays of three, six and ten seconds where they run. A path of that machine's
-- edges from the node without a controller leads there.
pub Reach-Trail :
    (device_id : Identity) (ids : ℕ → ℕ) (callbacks : Callbacks) (now : ℕ) (s : Selector)
    → ((n : ℕ) → ids n ≢ 0)
    → Reach (set_writer (init_selector device_id ids callbacks)) now s
    → (n : Node) × At n s × Trail now (shown n s)
Reach-Trail device_id ids callbacks now s valid (start _ small) = (
  unfollowing,
  At-init_selector device_id ids callbacks,
  begin-init_selector now device_id ids callbacks,
)
Reach-Trail device_id ids callbacks now s valid
      (next {now = early} {t} _ i _ r le small enabled run) =
    let (n, a, path) = Reach-Trail device_id ids callbacks early t valid r in
    let v = Reach-Inv (λ m. init_selector-Inv m device_id ids callbacks valid) r in
    let (u, done, kept, (n', edge, a')) = step-Moves early now i n t le small v enabled a in
    subst (λ w. (m : Node) × At m w × Trail now (shown m w)) (ok_injective done run)
      (n', a', along i path le edge)
