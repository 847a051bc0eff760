-- ===== src/Selector/Received.antt =====
-- common/ControllerSelector.cpp: what `got_heartbeat` keeps.
use developer_resources.Prelude.{
  ℕ, ◌≡◌, refl, ap, ◌∙◌, true, false, inl, inr, some, [], Identity, is_empty, id_eq, ◌∷◌,
  if◌then◌else◌, find, update, ok, Bool-cases, Option-cases,
}
use developer_resources.Data.{Heartbeat}
use developer_resources.Timers.{TimerHandler, active, cancel, cancel_timer}
use developer_resources.Timers.Calls.{cancel-IsWellFormed}
use developer_resources.Timers.Armed.{
  schedule_once-IsArmed, reschedule-IsArmed, reschedule_delay, schedule_once_delay,
  reschedule_calls, schedule_once_calls, asks_start, asks_stop,
}
use developer_resources.Selector.Invariant.{HandlerOk, Inv, cancel-HandlerOk}
use developer_resources.Selector.{
  Event, event_eq, new_controller, missed_heartbeat, lost_controller, no_controllers, event_Eq,
  Selector, heartbeat_deadline, heartbeat_timers, got_heartbeat,
}
use developer_resources.Selector.Handlers.{Phase-to}
use developer_resources.Selector.Reactions.{
  beat-DataOk, quiet, Beaten, Reacts, ReactsOk, heartbeat_vacant, followed,
}

heartbeat_following :
    (now : ℕ) (id : Identity) (s : Selector)
    → Beaten now s
    → is_empty s.selected ≡ false
    → id_eq s.selected id ≡ true
    → ReactsOk now id s
unfolding heartbeat_timers
heartbeat_following now id s b follows same =
    elim (Bool-cases (active (h₁.timers missed_heartbeat))) [
      | inl running ↦
          let (h, run, armed) =
            reschedule-IsArmed missed_heartbeat h₁ o.well_formed o.valid_ids
              (o.once missed_heartbeat) in
          let (v, reacts) =
            followed now s id _ h b follows armed same
              (λ _.
                reschedule_delay missed_heartbeat h₁ h run
                ∙ ap (λ t. t.delay) (others missed_heartbeat refl))
              (λ off. cc (off, running, others missed_heartbeat refl))
              (restarted h (reschedule_calls missed_heartbeat h₁ h o.well_formed run)) in
          (
            record s { handler = h },
            rw (follows, heartbeat_timers) (rw same (rw running (rw run))),
            v,
            reacts,
          )
      | inr off ↦
          let (h, run, armed) =
            schedule_once-IsArmed missed_heartbeat [] heartbeat_deadline h₁ o.well_formed
              o.valid_ids off in
          let (v, reacts) =
            followed now s id _ h b follows armed same
              (λ on. cc (on, off, others missed_heartbeat refl))
              (λ _. schedule_once_delay missed_heartbeat [] heartbeat_deadline h₁ h off run)
              (restarted h
                (schedule_once_calls missed_heartbeat [] heartbeat_deadline h₁ h off run)) in
          (
            record s { handler = h },
            rw (follows, heartbeat_timers) (rw same (rw off (rw run))),
            v,
            reacts,
          )
    ]
  where
    h₁ : TimerHandler Event Identity
    h₁ = cancel lost_controller s.handler

    others : (j : Event) → event_eq lost_controller j ≡ false → h₁.timers j ≡ s.handler.timers j
    others = (cancel-IsWellFormed lost_controller s.handler b.inv.handler_ok.well_formed).2

    restarted :
        (h : TimerHandler Event Identity)
        → h.reactor.calls
          ≡ asks_start missed_heartbeat h ∷ asks_stop missed_heartbeat h₁ h₁.reactor.calls
        → h.reactor.calls
          ≡ asks_start missed_heartbeat h ∷ asks_stop missed_heartbeat s.handler h₁.reactor.calls
    restarted h calls =
        calls
        ∙ ap
            (λ t.
              asks_start missed_heartbeat h
              ∷ (if active t then cancel_timer t.id ∷ h₁.reactor.calls else h₁.reactor.calls))
            (others missed_heartbeat refl)

    o : HandlerOk h₁
    o = cancel-HandlerOk lost_controller s.handler b.inv.handler_ok

heartbeat_timers-Inv : (now : ℕ) (id : Identity) (s : Selector) → Beaten now s → ReactsOk now id s
unfolding heartbeat_timers
heartbeat_timers-Inv now id s b = elim (Bool-cases (is_empty s.selected)) [
  | inl vacant ↦ heartbeat_vacant now id s b vacant
  | inr follows ↦ elim (Bool-cases (id_eq s.selected id)) [
    | inl same ↦ heartbeat_following now id s b follows same
    | inr other ↦ (
      s,
      rw (follows, heartbeat_timers) (rw other),
      b.inv,
      record {
        same_selected = refl;
        same_all = refl;
        silenced = b.silenced;
        seeks = λ e. cc;
        follows = λ _ e. cc;
        ignores = λ _ _. refl;
        same_set = refl;
        kept = λ _ e. cc;
        fresh = λ _ e. cc;
        restarts = λ _ e. cc;
        sought = λ e. cc;
        sought_delay = λ e. cc;
      },
    )
  ]
]

-- The state in which `got_heartbeat` turns to the timers, for a known sender.
abbrev pub beaten_by : ℕ → Identity → Selector → Selector
beaten_by now id s = record s {
  all_controllers = update id (λ _. now) s.all_controllers;
  handler = cancel no_controllers s.handler;
}

pub beaten_by-Beaten :
    (now : ℕ) (id : Identity) (s : Selector) → Inv now s → Beaten now (beaten_by now id s)
beaten_by-Beaten now id s v =
    let (kept, off, others, told) =
      cancel-IsWellFormed no_controllers s.handler v.handler_ok.well_formed in
    record {
      inv = record {
        handler_ok = cancel-HandlerOk no_controllers s.handler v.handler_ok;
        data_ok = beat-DataOk now id s.all_controllers _ v.data_ok;
        writer = v.writer;
        phase =
            Phase-to (ap active (others new_controller refl))
              (ap active (others missed_heartbeat refl)) (ap active (others lost_controller refl))
              off refl refl (quiet v.phase.vacant v.phase.waiting v.phase.apart);
      };
      silenced = off;
    }

-- Where the invariant of the selector holds, a heartbeat is handled without a fault, and the
-- invariant holds again after it. The heartbeat of a known controller sets its time, stops
-- NoControllers, and acts on the other timers as `Reacts` says: among that, where the sender is
-- selected, it has the reactor stop MissedHeartbeat if that runs, and start it anew.
pub got_heartbeat-Inv :
    (now : ℕ) (hb : Heartbeat) (s : Selector)
    → Inv now s
    → (s' : Selector) × (got_heartbeat now hb s ≡ ok s')
      × Inv now s'
      × ((t : ℕ)
          → find hb.device_id s.all_controllers ≡ some t
          → Reacts hb.device_id (beaten_by now hb.device_id s) s')
unfolding got_heartbeat
got_heartbeat-Inv now hb s v = elim (Option-cases (find hb.device_id s.all_controllers)) [
  | inl unknown ↦ (s, rw (unknown, got_heartbeat), v, λ t there. cc)
  | inr (t, there) ↦
      let (s', run, v', reacts) =
        heartbeat_timers-Inv now hb.device_id _ (beaten_by-Beaten now hb.device_id s v) in
      (s', rw (there, got_heartbeat) run, v', λ _ _. reacts)
]
