-- ===== src/Selector/Moved.antt =====
-- common/ControllerSelector.cpp: a time-out takes an edge of the pseudo state machine.
use developer_resources.Prelude.{ℕ, ◌<◌, ◌≡◌, refl, sym, subst, ◌∙◌, true, ok, ok_injective, arith}
use developer_resources.Timers.{after_fired}
use developer_resources.Timers.Timeout.{after_fired-timers, handle_timeout_total}
use developer_resources.Selector.Invariant.{Inv, on}
use developer_resources.Selector.Fired.{any_timer_fired-Settles, on-after_fired}
use developer_resources.Selector.Traces.{fires}
use developer_resources.Selector.Diagram.{Node, alone, At}
use developer_resources.Selector.Carried.{Moves, Edge-to, Carries-to}
use developer_resources.Selector.{
  Event, new_controller, missed_heartbeat, lost_controller, no_controllers, event_Eq, Selector,
  time_point_min, any_timer_fired, time_out, with_handler, no_controllers_fired,
}
use developer_resources.Selector.Leaving.{
  Fires, new_controller_fired-Fires, lost_controller_fired-Fires, missed_heartbeat_fired-Fires,
}

any_timer_fired-Fires :
    (now : ℕ) (k : Event) (n : Node) (s s' : Selector)
    → now < time_point_min
    → Inv now s
    → At n s
    → on k s ≡ true
    → any_timer_fired now k s ≡ ok s'
    → Fires now k n s s'
unfolding any_timer_fired no_controllers_fired
any_timer_fired-Fires now new_controller n s s' small v a fired run =
    new_controller_fired-Fires now n s s' v a fired run
any_timer_fired-Fires now missed_heartbeat n s s' small v a fired run =
    missed_heartbeat_fired-Fires now n s s' small v a fired run
any_timer_fired-Fires now lost_controller n s s' small v a fired run =
    lost_controller_fired-Fires now n s s' v a fired run
any_timer_fired-Fires now no_controllers n s s' small v a fired run =
    subst (Fires now no_controllers n s) (ok_injective refl run) (
      n,
      rw fired (alone n s.all_controllers s.prioritized_controllers),
      record {
        selected = a.selected;
        new = a.new;
        missed = a.missed;
        lost = a.lost;
        carries = Carries-to n s _ refl refl refl (λ j known. known) a.carries;
        comms_loss = λ e. cc;
      },
    )

after_fired_kept :
    (k j : Event) (s : Selector)
    → (((after_fired k s.handler).timers j).arg ≡ (s.handler.timers j).arg)
      × (((after_fired k s.handler).timers j).delay ≡ (s.handler.timers j).delay)
after_fired_kept k j s = ground (arith, after_fired-timers k j s.handler, event_Eq.beq_iff k j)

pub time_out-Moves :
    (now : ℕ) (k : Event) (n : Node) (s : Selector)
    → now < time_point_min
    → Inv now s
    → At n s
    → on k s ≡ true
    → (s' : Selector) × (time_out now k s ≡ ok s') × Moves now (fires k) n s s'
unfolding time_out
time_out-Moves now k n s small v a fired =
    let (s', run, x) = any_timer_fired-Settles now k s small v fired in
    let (n', edge, l) = any_timer_fired-Fires now k n s s' small v a fired run in
    let o = x.handler_ok in
    (
      with_handler (after_fired k s'.handler) s',
      (handle_timeout_total (λ (t : Selector). t.handler) with_handler (any_timer_fired now) s s' k
          v.handler_ok.well_formed fired run o.well_formed).0,
      (
        n',
        Edge-to (on-after_fired k no_controllers s' o) refl refl edge,
        record {
          selected = l.selected;
          new = on-after_fired k new_controller s' o ∙ l.new;
          missed = on-after_fired k missed_heartbeat s' o ∙ l.missed;
          lost = on-after_fired k lost_controller s' o ∙ l.lost;
          carries =
              Carries-to n' s' _ (after_fired_kept k new_controller s').0
                (after_fired_kept k new_controller s').1 (after_fired_kept k lost_controller s').1
                (λ j known. known) l.carries;
          comms_loss = λ e.
              (after_fired_kept k no_controllers s').1
              ∙ l.comms_loss (sym (on-after_fired k no_controllers s' o) ∙ e);
        },
      ),
    )
