-- ===== src/Selector/Invariant.antt =====
-- common/ControllerSelector.cpp: what holds of a selector between two calls, and what arming and
-- cancelling its timers keeps.
use developer_resources.Prelude.{
  ℕ, ◌+◌, ◌≤◌, ◌≡◌, ◌≢◌, ap, subst, sym, ◌∙◌, Bool, true, false, ◌⊎◌, inl, inr, none, some, List,
  [], Identity, is_empty, find, Bool-cases, In, arith,
}
use developer_resources.Timers.{TimerHandler, active, cancel, after_fired}
use developer_resources.Timers.WellFormed.{IsWellFormed}
use developer_resources.Timers.Calls.{IdsAreValid, cancel-IsWellFormed, cancel_reactor}
use developer_resources.Timers.Armed.{IsArmed}
use developer_resources.Timers.Timeout.{
  after_fired-IsWellFormed, after_fired-timers, after_fired_ids,
}
use developer_resources.Selector.{
  Event, new_controller, missed_heartbeat, lost_controller, no_controllers, event_eq, event_Eq,
  Selector, PrioritizedController, time_point_min, heartbeat_deadline,
}
use developer_resources.Selector.Order.{IsSorted}

-- The timers are in step with the map of active timers, and none repeats.
pub record HandlerOk (h : TimerHandler Event Identity) : Type 0 where
  pub well_formed : IsWellFormed h
  pub valid_ids : IdsAreValid h.reactor
  pub once : (k : Event) → (h.timers k).period ≡ 0

-- Every prioritized controller has an entry; a time of heartbeat is `TimePoint::min()` or past.
pub record DataOk (now : ℕ) (all : List (Identity × ℕ)) (ps : List PrioritizedController)
    : Type 0 where
  pub known : (q : PrioritizedController) → In q ps → (t : ℕ) × (find q.id all ≡ some t)
  pub named : find [] all ≡ none
  pub stamped : (id : Identity) (t : ℕ) → find id all ≡ some t → (t ≡ time_point_min) ⊎ (t ≤ now)
  pub sorted : IsSorted ps

-- What the selected identity says of the timers. The flags tell which timers are active:
-- NewController, MissedHeartbeat, LostController and NoControllers.
pub record Phase (n m l c : Bool) (now : ℕ) (selected : Identity) (all : List (Identity × ℕ))
    : Type 0 where
  pub vacant : is_empty selected ≡ true → (m ≡ false) × (l ≡ false)
  pub waiting : n ≡ true → is_empty selected ≡ true
  pub apart : m ≡ true → l ≡ false
  pub silent :
      c ≡ true
      → (id : Identity) (t : ℕ) → find id all ≡ some t
      → (t ≡ time_point_min) ⊎ (t + heartbeat_deadline ≤ now)
  pub unheard : c ≡ true → m ≡ true → (id : Identity) × (find id all ≡ some time_point_min)

abbrev pub on : Event → Selector → Bool
on k s = active (s.handler.timers k)

pub record Inv (now : ℕ) (s : Selector) : Type 0 where
  pub handler_ok : HandlerOk s.handler
  pub data_ok : DataOk now s.all_controllers s.prioritized_controllers
  pub writer : s.amcs_dw ≡ true
  pub phase :
      Phase
        (on new_controller s)
        (on missed_heartbeat s)
        (on lost_controller s)
        (on no_controllers s)
        now
        s.selected
        s.all_controllers

-- Time passes.
pub DataOk-later :
    {now later : ℕ} {all : List (Identity × ℕ)} {ps : List PrioritizedController}
    → now ≤ later
    → DataOk now all ps
    → DataOk later all ps
DataOk-later le d = record {
  known = d.known;
  named = d.named;
  stamped = λ id t there. ground (arith, d.stamped id t there);
  sorted = d.sorted;
}

pub Phase-later :
    {n m l c : Bool} {now later : ℕ} {selected : Identity} {all : List (Identity × ℕ)}
    → now ≤ later
    → Phase n m l c now selected all
    → Phase n m l c later selected all
Phase-later le p = record {
  vacant = p.vacant;
  waiting = p.waiting;
  apart = p.apart;
  silent = λ on id t there. ground (arith, p.silent on id t there);
  unheard = p.unheard;
}

pub armed-HandlerOk :
    (k : Event) (arg : Identity) (h h' : TimerHandler Event Identity)
    → HandlerOk h
    → IsArmed k arg h h'
    → HandlerOk h'
armed-HandlerOk k arg h h' ok_before a = record {
  well_formed = a.well_formed;
  valid_ids = λ n. subst (λ ids. ids n ≢ 0) (sym a.same_ids) (ok_before.valid_ids n);
  once = λ j. elim (Bool-cases (event_eq k j)) [
    | inl same ↦ subst (λ i. (h'.timers i).period ≡ 0) ((event_Eq.beq_iff k j).0 same) a.once
    | inr ne ↦ ap (λ t. t.period) (a.others j ne) ∙ ok_before.once j
  ];
}

pub cancel-HandlerOk :
    (k : Event) (h : TimerHandler Event Identity) → HandlerOk h → HandlerOk (cancel k h)
cancel-HandlerOk k h o = record {
  well_formed = kept;
  valid_ids = λ n. subst (λ ids. ids n ≢ 0) (sym ids) (o.valid_ids n);
  once = λ j. elim (Bool-cases (event_eq k j)) [
    | inl same ↦
        subst (λ i. ((cancel k h).timers i).period ≡ 0) ((event_Eq.beq_iff k j).0 same)
          (period ∙ o.once k)
    | inr ne ↦ ap (λ t. t.period) (others j ne) ∙ o.once j
  ];
}
  where
    kept : IsWellFormed (cancel k h)
    kept = (cancel-IsWellFormed k h o.well_formed).0

    others : (j : Event) → event_eq k j ≡ false → (cancel k h).timers j ≡ h.timers j
    others = (cancel-IsWellFormed k h o.well_formed).2

    ids : (cancel k h).reactor.ids ≡ h.reactor.ids
    ids = (cancel_reactor k h).0

    period : ((cancel k h).timers k).period ≡ (h.timers k).period
    period = (cancel_reactor k h).2

pub after_fired-HandlerOk :
    (k : Event) (h : TimerHandler Event Identity) → HandlerOk h → HandlerOk (after_fired k h)
after_fired-HandlerOk k h o = record {
  well_formed = after_fired-IsWellFormed k h o.well_formed;
  valid_ids = λ n. subst (λ ids. ids n ≢ 0) (sym (after_fired_ids k h)) (o.valid_ids n);
  once = λ j. ground (arith, after_fired-timers k j h, o.once j, o.once k);
}
