-- ===== src/Selector/Handlers.antt =====
-- common/ControllerSelector.cpp: each callback and listener returns, and keeps the invariant.
use developer_resources.Prelude.{
  ℕ, ◌+◌, ◌≤◌, ◌<◌, ◌≡◌, refl, ap, subst, sym, ◌∙◌, Bool, true, false, ◌⊎◌, inl, inr, none, some,
  List, [], ◌∷◌, Identity, is_empty, find, Result, ok, Option-cases, arith, if◌then◌else◌,
}
use developer_resources.Timers.{Fault}
use developer_resources.Selector.Clock.{before_deadline-elapsed}
use developer_resources.Selector.Invariant.{HandlerOk, DataOk, Phase, Inv, on, armed-HandlerOk}
use developer_resources.Selector.{
  Event, new_controller, missed_heartbeat, lost_controller, no_controllers, event_eq, event_Eq,
  Selector, time_point_min, heartbeat_deadline, elapsed, before_deadline, new_controller_fired,
}
use developer_resources.Selector.Selecting.{Selects, Selected, select_controller-Selected}

-- Entries heard of before the deadline of a silence are not recent.
pub silent_stale :
    (now t : ℕ)
    → now < time_point_min
    → t + heartbeat_deadline ≤ now
    → before_deadline (elapsed now t) ≡ false
silent_stale now t small silent = ground (arith, before_deadline-elapsed now t)

-- While NoControllers runs, only a controller never heard of can be selected.
recent_unheard :
    (now t : ℕ)
    → now < time_point_min
    → (t ≡ time_point_min) ⊎ (t + heartbeat_deadline ≤ now)
    → before_deadline (elapsed now t) ≡ true
    → t ≡ time_point_min
recent_unheard now t small (inl never) recent = never
recent_unheard now t small (inr silent) recent = cc (silent_stale now t small silent)

-- An identity with an entry is not empty.
pub named_entry :
    (all : List (Identity × ℕ)) (id : Identity) (t : ℕ)
    → find [] all ≡ none
    → find id all ≡ some t
    → is_empty id ≡ false
named_entry all [] t named there = cc
named_entry all (x ∷ xs) t named there = refl

-- The flags once a controller is selected and the timer that led to it is off.
selected-Phase :
    {n m l c : Bool} {now : ℕ} {selected : Identity} {all : List (Identity × ℕ)} (id : Identity)
    (t : ℕ)
    → now < time_point_min
    → Phase n m l c now selected all
    → find [] all ≡ none
    → find id all ≡ some t
    → before_deadline (elapsed now t) ≡ true
    → Phase false true false c now id all
selected-Phase {c} {now} {all} id t small p named there recent = record {
  vacant = λ e. cc (named_entry all id t named there);
  waiting = λ e. cc;
  apart = λ _. refl;
  silent = p.silent;
  unheard =
      λ on _. (id, there ∙ ap some (recent_unheard now t small (p.silent on id t there) recent));
}

pub Phase-to :
    {n m l c n' m' l' c' : Bool} {now : ℕ} {id id' : Identity} {all all' : List (Identity × ℕ)}
    → n' ≡ n
    → m' ≡ m
    → l' ≡ l
    → c' ≡ c
    → id' ≡ id
    → all' ≡ all
    → Phase n m l c now id all
    → Phase n' m' l' c' now id' all'
Phase-to en em el ec es ea p = rw (en, em, el, ec, es, ea) p

-- The flag of a timer once that of `k` has been switched off.
abbrev pub but : Event → Event → Selector → Bool
but k j s = if event_eq k j then false else on j s

-- What the callback of `k` leaves: the invariant, but for the timer that fired.
pub record Settled (k : Event) (now : ℕ) (s : Selector) : Type 0 where
  pub handler_ok : HandlerOk s.handler
  pub data_ok : DataOk now s.all_controllers s.prioritized_controllers
  pub writer : s.amcs_dw ≡ true
  pub phase :
      Phase
        (but k new_controller s)
        (but k missed_heartbeat s)
        (but k lost_controller s)
        (but k no_controllers s)
        now
        s.selected
        s.all_controllers

abbrev pub Settles : Event → ℕ → Result Fault Selector → Type 0
Settles k now r = (s' : Selector) × (r ≡ ok s') × Settled k now s'

-- A selection made by the callback of NewController or LostController.
pub settle_selection :
    {n m l c : Bool} (k : Event) (now : ℕ) (s s' : Selector)
    → now < time_point_min
    → HandlerOk s.handler
    → DataOk now s.all_controllers s.prioritized_controllers
    → s.amcs_dw ≡ true
    → Phase n m l c now s.selected s.all_controllers
    → but k new_controller s ≡ false
    → but k missed_heartbeat s ≡ false
    → but k lost_controller s ≡ false
    → but k no_controllers s ≡ c
    → event_eq k missed_heartbeat ≡ false
    → (t : ℕ) (id : Identity) → find id s.all_controllers ≡ some t
    → before_deadline (elapsed now t) ≡ true
    → Selects id (elapsed now t) s s'
    → Settled k now s'
settle_selection {n} {m} {l} {c} k now s s' small o d writer p en em el ec other t id there recent
      x =
    record {
      handler_ok = armed-HandlerOk missed_heartbeat [] s.handler s'.handler o x.armed;
      data_ok = rw (x.same_all, x.same_set) d;
      writer = x.same_writer ∙ writer;
      phase =
          Phase-to (ground (arith, x.armed.others new_controller)) (ground (arith, x.armed.on))
            (ground (arith, x.armed.others lost_controller))
            (ground (arith, x.armed.others no_controllers)) x.chosen x.same_all
            (selected-Phase id t small p d.named there recent);
    }

pub new_controller_fired-Settles :
    (now : ℕ) (s : Selector)
    → now < time_point_min
    → Inv now s
    → on new_controller s ≡ true
    → Settles new_controller now (new_controller_fired now s)
unfolding new_controller_fired
new_controller_fired-Settles now s small v fires =
    elim (Option-cases (find (s.handler.timers new_controller).arg s.all_controllers)) [
      | inl missing ↦ (s, rw (missing, new_controller_fired), unchanged)
      | inr (t, there) ↦
          let (s', run, outcome) =
            select_controller-Selected now s v.handler_ok v.data_ok v.writer idle.0 in
          (s', rw (there, new_controller_fired) run, settled s' outcome)
    ]
  where
    idle : (on missed_heartbeat s ≡ false) × (on lost_controller s ≡ false)
    idle = v.phase.vacant (v.phase.waiting fires)

    unchanged : Settled new_controller now s
    unchanged = record {
      handler_ok = v.handler_ok;
      data_ok = v.data_ok;
      writer = v.writer;
      phase = record {
        vacant = v.phase.vacant;
        waiting = λ e. cc;
        apart = v.phase.apart;
        silent = v.phase.silent;
        unheard = v.phase.unheard;
      };
    }

    settled : (s' : Selector) → Selected now s s' → Settled new_controller now s'
    settled s' (inl same) = subst (Settled new_controller now) (sym same) unchanged
    settled s' (inr (id, t, there, recent, x)) =
        settle_selection new_controller now s s' small v.handler_ok v.data_ok v.writer v.phase refl
          idle.0 idle.1 refl refl t id there recent x
