-- ===== src/Selector/Leaving.antt =====
-- common/ControllerSelector.cpp: the callback of a timer takes an edge of the pseudo state machine.
use developer_resources.Prelude.{
  ℕ, ◌<◌, ◌≡◌, refl, ap, sym, subst, ◌∙◌, true, false, inl, inr, [], find, contains, ok,
  ok_injective, Bool-cases,
}
use developer_resources.Timers.{active}
use developer_resources.Timers.Armed.{schedule_once-IsArmed, schedule_once_delay}
use developer_resources.Selector.Replaced.{new_controller_fired_known}
use developer_resources.Selector.Invariant.{Inv, on, armed-HandlerOk}
use developer_resources.Selector.Missed.{no_controllers_off}
use developer_resources.Selector.Handlers.{but}
use developer_resources.Selector.Traces.{fires}
use developer_resources.Selector.Diagram.{
  Node, unfollowing, waiting, following, doubting, selection, is_waiting, is_following, is_doubting,
  view, Edge, selects_new, misses, misses_all, loses, At, Carries, shown,
}
use developer_resources.Selector.Carried.{Edge-to}
use developer_resources.Selector.{
  Event, new_controller, missed_heartbeat, lost_controller, no_controllers, event_Eq, Selector,
  time_point_min, new_controller_fired, missed_heartbeat_fired, lost_controller_fired, no_available,
  output, missed_heartbeat_callback, lost_controller_callback, lost_active_controller_delay,
  no_controllers_delay,
}
use developer_resources.Selector.Picked.{select_controller-Picked}

-- What a callback leaves at the node that its edge leads to, but for the timer that fired.
pub record Leaves (k : Event) (n : Node) (s : Selector) : Type 0 where
  pub selected : s.selected ≡ selection n
  pub new : but k new_controller s ≡ is_waiting n
  pub missed : but k missed_heartbeat s ≡ is_following n
  pub lost : but k lost_controller s ≡ is_doubting n
  pub carries : Carries n s
  pub comms_loss :
      but k no_controllers s ≡ true → (s.handler.timers no_controllers).delay ≡ no_controllers_delay

abbrev pub Fires : ℕ → Event → Node → Selector → Selector → Type 0
Fires now k n s s' =
    (n' : Node) × Edge now (fires k) (shown n s)
      (view n' (but k no_controllers s') s'.all_controllers s'.prioritized_controllers)
    × Leaves k n' s'

pub new_controller_fired-Fires :
    (now : ℕ) (n : Node) (s s' : Selector)
    → Inv now s
    → At n s
    → on new_controller s ≡ true
    → new_controller_fired now s ≡ ok s'
    → Fires now new_controller n s s'
new_controller_fired-Fires now unfollowing s s' v a fired run = cc (a.new, fired)
new_controller_fired-Fires now (following j) s s' v a fired run = cc (a.new, fired)
new_controller_fired-Fires now (doubting j) s s' v a fired run = cc (a.new, fired)
new_controller_fired-Fires now (waiting j) s s' v a fired run =
    let (t, pick, (n', x)) =
      select_controller-Picked now s v.handler_ok v.data_ok v.writer a.missed a.selected in
    subst (Fires now new_controller (waiting j) s)
      (ok_injective
        (new_controller_fired_known now s
            (ap (λ i. contains (find i s.all_controllers)) a.carries.0 ∙ a.carries.1)
          ∙ pick)
        run)
      (
        n',
        Edge-to (ap active (x.others no_controllers refl)) x.same_all x.same_set (
            selects_new j n' (on no_controllers s) s.all_controllers s.prioritized_controllers
              x.edge),
        record {
          selected = x.selected;
          new = sym x.new;
          missed = x.missed;
          lost = ap active (x.others lost_controller refl) ∙ a.lost ∙ sym x.lost;
          carries = x.carries t;
          comms_loss = λ e.
              ap (λ m. m.delay) (x.others no_controllers refl)
              ∙ a.comms_loss (sym (ap active (x.others no_controllers refl)) ∙ e);
        },
      )

pub lost_controller_fired-Fires :
    (now : ℕ) (n : Node) (s s' : Selector)
    → Inv now s
    → At n s
    → on lost_controller s ≡ true
    → lost_controller_fired now s ≡ ok s'
    → Fires now lost_controller n s s'
unfolding lost_controller_fired
lost_controller_fired-Fires now unfollowing s s' v a fired run = cc (a.lost, fired)
lost_controller_fired-Fires now (following j) s s' v a fired run = cc (a.lost, fired)
lost_controller_fired-Fires now (waiting j) s s' v a fired run = cc (a.lost, fired)
lost_controller_fired-Fires now (doubting j) s s' v a fired run =
    let (t, pick, (n', x)) =
      select_controller-Picked now cleared v.handler_ok v.data_ok v.writer a.missed refl in
    subst (Fires now lost_controller (doubting j) s) (ok_injective pick run) (
      n',
      Edge-to (ap active (x.others no_controllers refl)) x.same_all x.same_set
          (loses j n' (on no_controllers s) s.all_controllers s.prioritized_controllers x.edge),
      record {
        selected = x.selected;
        new = ap active (x.others new_controller refl) ∙ a.new ∙ sym x.new;
        missed = x.missed;
        lost = sym x.lost;
        carries = x.carries t;
        comms_loss = λ e.
            ap (λ m. m.delay) (x.others no_controllers refl)
            ∙ a.comms_loss (sym (ap active (x.others no_controllers refl)) ∙ e);
      },
    )
  where
    cleared : Selector
    cleared =
        record (output s.callbacks.lost_controller_set (lost_controller_callback s.selected) s) {
          selected = [];
        }

pub missed_heartbeat_fired-Fires :
    (now : ℕ) (n : Node) (s s' : Selector)
    → now < time_point_min
    → Inv now s
    → At n s
    → on missed_heartbeat s ≡ true
    → missed_heartbeat_fired now s ≡ ok s'
    → Fires now missed_heartbeat n s s'
unfolding missed_heartbeat_fired
missed_heartbeat_fired-Fires now unfollowing s s' small v a fired run = cc (a.missed, fired)
missed_heartbeat_fired-Fires now (doubting j) s s' small v a fired run = cc (a.missed, fired)
missed_heartbeat_fired-Fires now (waiting j) s s' small v a fired run = cc (a.missed, fired)
missed_heartbeat_fired-Fires now (following j) s s' small v a fired done =
    let (h, run, armed) =
      schedule_once-IsArmed lost_controller [] lost_active_controller_delay s.handler
        v.handler_ok.well_formed v.handler_ok.valid_ids a.lost in
    let o = armed-HandlerOk lost_controller [] s.handler h v.handler_ok armed in
    let new = ap active (armed.others new_controller refl) ∙ a.new in
    let c = ap active (armed.others no_controllers refl) in
    let delay =
      schedule_once_delay lost_controller [] lost_active_controller_delay s.handler h a.lost run in
    elim (Bool-cases (no_available now s.all_controllers)) [
      | inr avail ↦
          let left : missed_heartbeat_fired now s ≡ ok (record announced { handler = h }) =
            rw run (rw avail) in
          subst (Fires now missed_heartbeat (following j) s) (ok_injective left done) (
            doubting j,
            Edge-to c refl refl (misses j (on no_controllers s) _ s.prioritized_controllers avail),
            record {
              selected = a.selected;
              new = new;
              missed = refl;
              lost = armed.on;
              carries = delay;
              comms_loss = λ e.
                  ap (λ m. m.delay) (armed.others no_controllers refl) ∙ a.comms_loss (sym c ∙ e);
            },
          )
      | inl no_avail ↦
          let off : on no_controllers s ≡ false = no_controllers_off small v.phase fired no_avail in
          let (h', run', armed') =
            schedule_once-IsArmed no_controllers [] no_controllers_delay h o.well_formed o.valid_ids
              (c ∙ off) in
          let left : missed_heartbeat_fired now s ≡ ok (record announced { handler = h' }) =
            rw run (rw no_avail (rw run')) in
          subst (Fires now missed_heartbeat (following j) s) (ok_injective left done) (
            doubting j,
            rw (off, armed'.on) (misses_all j _ s.prioritized_controllers no_avail),
            record {
              selected = a.selected;
              new = ap active (armed'.others new_controller refl) ∙ new;
              missed = refl;
              lost = ap active (armed'.others lost_controller refl) ∙ armed.on;
              carries = ap (λ m. m.delay) (armed'.others lost_controller refl) ∙ delay;
              comms_loss = λ e.
                  schedule_once_delay no_controllers [] no_controllers_delay h h' (c ∙ off) run';
            },
          )
    ]
  where
    announced : Selector
    announced = output s.callbacks.missed_heartbeat_set (missed_heartbeat_callback s.selected) s
