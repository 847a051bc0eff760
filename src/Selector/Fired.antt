-- ===== src/Selector/Fired.antt =====
-- common/ControllerSelector.cpp: the callbacks of MissedHeartbeat, LostController and
-- NoControllers, and every time-out.
use developer_resources.Prelude.{
  ℕ, ◌<◌, ◌≡◌, refl, subst, sym, true, false, inl, inr, [], ok, arith,
}
use developer_resources.Timers.{active, after_fired}
use developer_resources.Timers.Timeout.{after_fired-timers, handle_timeout_total}
use developer_resources.Selector.Invariant.{HandlerOk, Phase, Inv, on, after_fired-HandlerOk}
use developer_resources.Selector.{
  Event, new_controller, missed_heartbeat, lost_controller, no_controllers, event_Eq, output,
  lost_controller_callback, Selector, time_point_min, any_timer_fired, time_out, with_handler,
  lost_controller_fired, no_controllers_fired,
}
use developer_resources.Selector.Handlers.{
  Settled, Settles, but, Phase-to, settle_selection, new_controller_fired-Settles,
}
use developer_resources.Selector.Selecting.{Selected, select_controller-Selected}
use developer_resources.Selector.Missed.{missed_heartbeat_fired-Settles}

lost_controller_fired-Settles :
    (now : ℕ) (s : Selector)
    → now < time_point_min
    → Inv now s
    → on lost_controller s ≡ true
    → Settles lost_controller now (lost_controller_fired now s)
unfolding lost_controller_fired
lost_controller_fired-Settles now s small v fires =
    let (s', run, outcome) =
      select_controller-Selected now cleared v.handler_ok v.data_ok v.writer missed_off in
    (s', run, settled s' outcome)
  where
    cleared : Selector
    cleared =
        record (output s.callbacks.lost_controller_set (lost_controller_callback s.selected) s) {
          selected = [];
        }

    missed_off : on missed_heartbeat s ≡ false
    missed_off = ground (arith, v.phase.apart)

    new_off : on new_controller s ≡ false
    new_off = ground (arith, v.phase.waiting, v.phase.vacant)

    base : Phase false false false (on no_controllers s) now [] s.all_controllers
    base = record {
      vacant = λ _. (refl, refl);
      waiting = λ e. cc;
      apart = λ e. cc;
      silent = v.phase.silent;
      unheard = λ _ e. cc;
    }

    settled : (s' : Selector) → Selected now cleared s' → Settled lost_controller now s'
    settled s' (inl same) = subst (Settled lost_controller now) (sym same) (record {
      handler_ok = v.handler_ok;
      data_ok = v.data_ok;
      writer = v.writer;
      phase = Phase-to new_off missed_off refl refl refl refl base;
    })
    settled s' (inr (id, t, there, recent, x)) =
        settle_selection lost_controller now cleared s' small v.handler_ok v.data_ok v.writer base
          new_off missed_off refl refl refl t id there recent x

no_controllers_fired-Settled :
    (now : ℕ) (s : Selector) → Inv now s → Settled no_controllers now (no_controllers_fired s)
unfolding no_controllers_fired
no_controllers_fired-Settled now s v = record {
  handler_ok = v.handler_ok;
  data_ok = v.data_ok;
  writer = v.writer;
  phase = record {
    vacant = v.phase.vacant;
    waiting = v.phase.waiting;
    apart = v.phase.apart;
    silent = λ e. cc;
    unheard = λ e. cc;
  };
}

pub any_timer_fired-Settles :
    (now : ℕ) (k : Event) (s : Selector)
    → now < time_point_min
    → Inv now s
    → on k s ≡ true
    → Settles k now (any_timer_fired now k s)
unfolding any_timer_fired
any_timer_fired-Settles now new_controller s small v fires =
    new_controller_fired-Settles now s small v fires
any_timer_fired-Settles now missed_heartbeat s small v fires =
    missed_heartbeat_fired-Settles now s small v fires
any_timer_fired-Settles now lost_controller s small v fires =
    lost_controller_fired-Settles now s small v fires
any_timer_fired-Settles now no_controllers s small v fires =
    (no_controllers_fired s, refl, no_controllers_fired-Settled now s v)

pub on-after_fired :
    (k j : Event) (s : Selector)
    → HandlerOk s.handler
    → active ((after_fired k s.handler).timers j) ≡ but k j s
on-after_fired k j s o = ground (arith, after_fired-timers k j s.handler, o.once k)

pub Settled-Inv :
    (k : Event) (now : ℕ) (s : Selector)
    → Settled k now s
    → Inv now (with_handler (after_fired k s.handler) s)
Settled-Inv k now s x = record {
  handler_ok = after_fired-HandlerOk k s.handler x.handler_ok;
  data_ok = x.data_ok;
  writer = x.writer;
  phase =
      Phase-to (on-after_fired k new_controller s x.handler_ok)
        (on-after_fired k missed_heartbeat s x.handler_ok)
        (on-after_fired k lost_controller s x.handler_ok)
        (on-after_fired k no_controllers s x.handler_ok) refl refl x.phase;
}

-- Where the invariant of the selector holds, a timer that is active fires at a time below 2^63
-- without a fault, and the invariant holds again after it.
pub time_out-Inv :
    (now : ℕ) (k : Event) (s : Selector)
    → now < time_point_min
    → Inv now s
    → on k s ≡ true
    → (s' : Selector) × (time_out now k s ≡ ok s') × Inv now s'
unfolding time_out
time_out-Inv now k s small v fires =
    let (s', run, x) = any_timer_fired-Settles now k s small v fires in
    (
      with_handler (after_fired k s'.handler) s',
      (handle_timeout_total (λ (t : Selector). t.handler) with_handler (any_timer_fired now) s s' k
          v.handler_ok.well_formed fires run x.handler_ok.well_formed).0,
      Settled-Inv k now s' x,
    )
