-- ===== src/Selector/Missed.antt =====
-- common/ControllerSelector.cpp: the callback of MissedHeartbeat.
use developer_resources.Prelude.{
  ℕ, ◌+◌, ◌≤◌, ◌<◌, ◌≡◌, refl, ap, ◌∙◌, Bool, true, false, ◌⊎◌, inl, inr, some, List, [], ◌∷◌,
  Identity, find, Bool-cases, arith,
}
use developer_resources.Timers.{active}
use developer_resources.Timers.Armed.{schedule_once-IsArmed}
use developer_resources.Selector.Clock.{before_deadline-elapsed, before_deadline-min}
use developer_resources.Selector.Invariant.{DataOk, Phase, Inv, on, armed-HandlerOk}
use developer_resources.Selector.{
  new_controller, missed_heartbeat, lost_controller, no_controllers, event_Eq, output,
  missed_heartbeat_callback, Selector, PrioritizedController, time_point_min, heartbeat_deadline,
  elapsed, before_deadline, missed_heartbeat_fired, no_available, lost_active_controller_delay,
  no_controllers_delay,
}
use developer_resources.Selector.Handlers.{Settles, Phase-to}

-- `no_avail_mc` says that no controller has been heard of before the deadline.
no_available-find :
    (now : ℕ) (all : List (Identity × ℕ)) (id : Identity) (t : ℕ)
    → no_available now all ≡ true
    → find id all ≡ some t
    → before_deadline (elapsed now t) ≡ false
unfolding no_available find
no_available-find now [] id t no_avail there = cc
no_available-find now ((j, last) ∷ m) id t no_avail there =
    ground (arith, no_available-find now m id t)

-- NoControllers is not running when MissedHeartbeat fires and no controller is available.
pub no_controllers_off :
    {n m l c : Bool} {now : ℕ} {selected : Identity} {all : List (Identity × ℕ)}
    → now < time_point_min
    → Phase n m l c now selected all
    → m ≡ true
    → no_available now all ≡ true
    → c ≡ false
no_controllers_off {c} {now} {all} small p missed no_avail = elim (Bool-cases c) [
  | inl running ↦
      let (id, there) = p.unheard running missed in
      cc (no_available-find now all id time_point_min no_avail there, before_deadline-min now small)
  | inr off ↦ off
]

silence :
    {all : List (Identity × ℕ)} {ps : List PrioritizedController} (now : ℕ)
    → now < time_point_min
    → DataOk now all ps
    → no_available now all ≡ true
    → (id : Identity) (t : ℕ) → find id all ≡ some t
    → (t ≡ time_point_min) ⊎ (t + heartbeat_deadline ≤ now)
silence {all} now small d no_avail id t there = elim (d.stamped id t there) [
  | inl never ↦ inl never
  | inr past ↦ inr (
      ground (
        arith,
        no_available-find now all id t no_avail there,
        before_deadline-elapsed now t past small,
      ))
]

pub missed_heartbeat_fired-Settles :
    (now : ℕ) (s : Selector)
    → now < time_point_min
    → Inv now s
    → on missed_heartbeat s ≡ true
    → Settles missed_heartbeat now (missed_heartbeat_fired now s)
unfolding missed_heartbeat_fired
missed_heartbeat_fired-Settles now s small v fires =
    let (h, run, armed) =
      schedule_once-IsArmed lost_controller [] lost_active_controller_delay s.handler
        v.handler_ok.well_formed v.handler_ok.valid_ids (v.phase.apart fires) in
    let o = armed-HandlerOk lost_controller [] s.handler h v.handler_ok armed in
    elim (Bool-cases (no_available now s.all_controllers)) [
      | inr avail ↦ (
        record announced { handler = h },
        rw run (rw avail),
        record {
          handler_ok = o;
          data_ok = v.data_ok;
          writer = v.writer;
          phase =
              Phase-to (ground (arith, armed.others new_controller)) refl armed.on
                (ground (arith, armed.others no_controllers)) refl refl (fallen v.phase.silent);
        },
      )
      | inl no_avail ↦
          let off : on no_controllers s ≡ false = no_controllers_off small v.phase fires no_avail in
          let (h', run', armed') =
            schedule_once-IsArmed no_controllers [] no_controllers_delay h o.well_formed o.valid_ids
              (ap active (armed.others no_controllers refl) ∙ off) in
          (
            record announced { handler = h' },
            rw run (rw no_avail (rw run')),
            record {
              handler_ok = armed-HandlerOk no_controllers [] h h' o armed';
              data_ok = v.data_ok;
              writer = v.writer;
              phase =
                  Phase-to
                    (ground (arith, armed.others new_controller, armed'.others new_controller)) refl
                    (ground (arith, armed.on, armed'.others lost_controller)) armed'.on refl refl
                    (fallen (λ _. silence now small v.data_ok no_avail));
            },
          )
    ]
  where
    announced : Selector
    announced = output s.callbacks.missed_heartbeat_set (missed_heartbeat_callback s.selected) s

    fallen :
        {c : Bool}
        → (c ≡ true
            → (id : Identity) (t : ℕ) → find id s.all_controllers ≡ some t
            → (t ≡ time_point_min) ⊎ (t + heartbeat_deadline ≤ now))
        → Phase (on new_controller s) false true c now s.selected s.all_controllers
    fallen silent = record {
      vacant = λ e. cc ((v.phase.vacant e).0);
      waiting = v.phase.waiting;
      apart = λ e. cc;
      silent = silent;
      unheard = λ _ e. cc;
    }
