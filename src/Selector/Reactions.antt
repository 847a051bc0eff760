-- ===== src/Selector/Reactions.antt =====
-- common/ControllerSelector.cpp: what a heartbeat does to the timers, by the controller that is followed.
use developer_resources.Prelude.{
  ℕ, ◌≡◌, refl, ap, ◌∙◌, Bool, true, false, inl, inr, List, [], ◌∷◌, Identity, is_empty, id_eq,
  find, update, find-update, ok, Bool-cases, Option-cases, arith, if◌then◌else◌,
}
use developer_resources.Timers.{TimerHandler, active, cancel}
use developer_resources.Timers.Calls.{cancel-IsWellFormed}
use developer_resources.Timers.Armed.{
  IsArmed, schedule_once-IsArmed, schedule_once_delay, asks_start, asks_stop,
}
use developer_resources.Selector.Invariant.{
  DataOk, Phase, Inv, on, armed-HandlerOk, cancel-HandlerOk,
}
use developer_resources.Selector.{
  Event, new_controller, missed_heartbeat, lost_controller, no_controllers, event_Eq, Selector,
  PrioritizedController, heartbeat_timers, heartbeat_deadline, new_active_controller_delay,
}
use developer_resources.Selector.Handlers.{Phase-to}

-- Writing the time of a heartbeat.
pub beat-DataOk :
    (now : ℕ) (id : Identity) (all : List (Identity × ℕ)) (ps : List PrioritizedController)
    → DataOk now all ps
    → DataOk now (update id (λ _. now) all) ps
beat-DataOk now id all ps d = record {
  known = λ q member.
      let (t, there) = d.known q member in
      (if id_eq id q.id then now else t, ground (arith, find-update id q.id (λ _. now) all));
  named = ground (arith, find-update id [] (λ _. now) all, d.named);
  stamped = λ j t there.
      ground (arith, find-update id j (λ _. now) all, d.stamped j t, Option-cases (find j all));
  sorted = d.sorted;
}

-- With NoControllers off nothing is asked of the times of the heartbeats.
pub quiet :
    {n m l : Bool} {now : ℕ} {selected : Identity} {all : List (Identity × ℕ)}
    → (is_empty selected ≡ true → (m ≡ false) × (l ≡ false))
    → (n ≡ true → is_empty selected ≡ true)
    → (m ≡ true → l ≡ false)
    → Phase n m l false now selected all
quiet vacant waiting apart = record {
  vacant = vacant;
  waiting = waiting;
  apart = apart;
  silent = λ e. cc;
  unheard = λ e. cc;
}

-- The state in which `got_heartbeat` turns to the timers.
pub record Beaten (now : ℕ) (s : Selector) : Type 0 where
  pub inv : Inv now s
  pub silenced : on no_controllers s ≡ false

-- What a heartbeat from a known controller does, by the controller that is followed. Without one,
-- NewController runs; where it is the sender, MissedHeartbeat is stopped where it runs and started anew, with the delay
-- that it had or else `heartbeat_deadline`, and LostController is stopped;
-- where it is another, nothing is done.
pub record Reacts (id : Identity) (s s' : Selector) : Type 0 where
  pub same_selected : s'.selected ≡ s.selected
  pub same_all : s'.all_controllers ≡ s.all_controllers
  pub silenced : on no_controllers s' ≡ false
  pub seeks : is_empty s.selected ≡ true → on new_controller s' ≡ true
  pub follows :
      is_empty s.selected ≡ false
      → id_eq s.selected id ≡ true
      → (on missed_heartbeat s' ≡ true) × (on lost_controller s' ≡ false)
  pub ignores : is_empty s.selected ≡ false → id_eq s.selected id ≡ false → s' ≡ s
  pub same_set : s'.prioritized_controllers ≡ s.prioritized_controllers
  pub kept :
      is_empty s.selected ≡ false
      → id_eq s.selected id ≡ true
      → on missed_heartbeat s ≡ true
      → (s'.handler.timers missed_heartbeat).delay ≡ (s.handler.timers missed_heartbeat).delay
  pub fresh :
      is_empty s.selected ≡ false
      → id_eq s.selected id ≡ true
      → on missed_heartbeat s ≡ false
      → (s'.handler.timers missed_heartbeat).delay ≡ heartbeat_deadline
  pub restarts :
      is_empty s.selected ≡ false
      → id_eq s.selected id ≡ true
      → s'.handler.reactor.calls
        ≡ asks_start missed_heartbeat s'.handler
          ∷ asks_stop missed_heartbeat s.handler
              (asks_stop lost_controller s.handler s.handler.reactor.calls)
  pub sought :
      is_empty s.selected ≡ true
      → (s'.handler.timers new_controller).arg
        ≡ (if on new_controller s then (s.handler.timers new_controller).arg else id)
  pub sought_delay :
      is_empty s.selected ≡ true
      → (s'.handler.timers new_controller).delay ≡ (
          if on new_controller s
          then (s.handler.timers new_controller).delay
          else new_active_controller_delay)

abbrev pub ReactsOk : ℕ → Identity → Selector → Type 0
ReactsOk now id s = (s' : Selector) × (heartbeat_timers id s ≡ ok s') × Inv now s' × Reacts id s s'

pub heartbeat_vacant :
    (now : ℕ) (id : Identity) (s : Selector)
    → Beaten now s
    → is_empty s.selected ≡ true
    → ReactsOk now id s
unfolding heartbeat_timers
heartbeat_vacant now id s b vacant = elim (Bool-cases (on new_controller s)) [
  | inl running ↦ (
    s,
    rw (vacant, heartbeat_timers) (rw running),
    b.inv,
    record {
      same_selected = refl;
      same_all = refl;
      silenced = b.silenced;
      seeks = λ _. running;
      follows = λ e. cc;
      ignores = λ e. cc;
      same_set = refl;
      kept = λ e. cc;
      fresh = λ e. cc;
      restarts = λ e. cc;
      sought = λ _. rw running refl;
      sought_delay = λ _. rw running refl;
    },
  )
  | inr off ↦
      let o = b.inv.handler_ok in
      let (h, run, armed) =
        schedule_once-IsArmed new_controller id new_active_controller_delay s.handler o.well_formed
          o.valid_ids off in
      (
        record s { handler = h },
        rw (vacant, heartbeat_timers) (rw off (rw run)),
        record {
          handler_ok = armed-HandlerOk new_controller id s.handler h o armed;
          data_ok = b.inv.data_ok;
          writer = b.inv.writer;
          phase =
              Phase-to armed.on (ap active (armed.others missed_heartbeat refl))
                (ap active (armed.others lost_controller refl))
                (ap active (armed.others no_controllers refl) ∙ b.silenced) refl refl
                (quiet b.inv.phase.vacant (λ _. vacant) b.inv.phase.apart);
        },
        record {
          same_selected = refl;
          same_all = refl;
          silenced = ap active (armed.others no_controllers refl) ∙ b.silenced;
          seeks = λ _. armed.on;
          follows = λ e. cc;
          ignores = λ e. cc;
          same_set = refl;
          kept = λ e. cc;
          fresh = λ e. cc;
          restarts = λ e. cc;
          sought = λ _. rw off armed.same_arg;
          sought_delay = λ _. rw off (
              schedule_once_delay new_controller id new_active_controller_delay s.handler h off
                run);
        },
      )
]

-- Following the sender: LostController is off, and MissedHeartbeat starts anew.
pub followed :
    (now : ℕ) (s : Selector) (id arg : Identity) (h : TimerHandler Event Identity)
    → Beaten now s
    → is_empty s.selected ≡ false
    → IsArmed missed_heartbeat arg (cancel lost_controller s.handler) h
    → id_eq s.selected id ≡ true
    → (on missed_heartbeat s ≡ true
        → (h.timers missed_heartbeat).delay ≡ (s.handler.timers missed_heartbeat).delay)
    → (on missed_heartbeat s ≡ false → (h.timers missed_heartbeat).delay ≡ heartbeat_deadline)
    → h.reactor.calls
      ≡ asks_start missed_heartbeat h
        ∷ asks_stop missed_heartbeat s.handler (cancel lost_controller s.handler).reactor.calls
    → Inv now (record s { handler = h }) × Reacts id s (record s { handler = h })
followed now s id arg h b follows armed same kept fresh restarts =
    let o = b.inv.handler_ok in
    let (well, off, others, told) = cancel-IsWellFormed lost_controller s.handler o.well_formed in
    (
      record {
        handler_ok =
            armed-HandlerOk missed_heartbeat arg _ h (cancel-HandlerOk lost_controller s.handler o)
              armed;
        data_ok = b.inv.data_ok;
        writer = b.inv.writer;
        phase =
            Phase-to
              (ap active (armed.others new_controller refl ∙ others new_controller refl) ∙ idle)
              armed.on (ap active (armed.others lost_controller refl) ∙ off)
              (ap active (armed.others no_controllers refl ∙ others no_controllers refl)
                ∙ b.silenced)
              refl refl (quiet {n = false} {m = true} {l = false} (λ e. cc) (λ e. cc) (λ _. refl));
      },
      record {
        same_selected = refl;
        same_all = refl;
        silenced =
            ap active (armed.others no_controllers refl ∙ others no_controllers refl) ∙ b.silenced;
        seeks = λ e. cc;
        follows = λ _ _. (armed.on, ap active (armed.others lost_controller refl) ∙ off);
        ignores = λ _ e. cc;
        same_set = refl;
        kept = λ _ _. kept;
        fresh = λ _ _. fresh;
        restarts = λ _ _.
            restarts
            ∙ ap (λ c. asks_start missed_heartbeat h ∷ asks_stop missed_heartbeat s.handler c) told;
        sought = λ e. cc;
        sought_delay = λ e. cc;
      },
    )
  where
    idle : on new_controller s ≡ false
    idle = ground (arith, b.inv.phase.waiting)
