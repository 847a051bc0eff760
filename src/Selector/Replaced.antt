-- ===== src/Selector/Replaced.antt =====
-- common/ControllerSelector.cpp: a selector whose timer fires follows a controller again, if there is one.
use developer_resources.Prelude.{
  ℕ, ◌<◌, ◌≡◌, refl, sym, ◌∙◌, true, inl, inr, find, contains, ok, In, Option-cases, [],
}
use developer_resources.Timers.{after_fired}
use developer_resources.Timers.Timeout.{handle_timeout_total}
use developer_resources.Selector.{
  Selector, Event, new_controller, missed_heartbeat, lost_controller, no_controllers, event_Eq,
  PrioritizedController, time_point_min, select_controller, any_timer_fired, new_controller_fired,
  lost_controller_fired, output, lost_controller_callback, time_out, with_handler,
}
use developer_resources.Selector.Order.{IsSorted}
use developer_resources.Selector.Choice.{IsBest, IsAvailable, select_controller-IsBest}
use developer_resources.Selector.Invariant.{Inv, on}
use developer_resources.Selector.Fired.{any_timer_fired-Settles, Settled-Inv}

-- The timer makes the selector choose: LostController, or NewController for a controller that is known.
abbrev pub Chooses : Event → Selector → Type 0
Chooses new_controller s =
    contains (find (s.handler.timers new_controller).arg s.all_controllers) ≡ true
Chooses missed_heartbeat s = ⊥
Chooses lost_controller s = Unit {0}
Chooses no_controllers s = ⊥

abbrev Selects : ℕ → Selector → Selector → Type 0
Selects now s s' =
    (p : PrioritizedController) × IsBest now s.all_controllers s.prioritized_controllers p
    × (s'.selected ≡ p.id)

select_controller-Selects :
    (now : ℕ) (s s' : Selector) (q : PrioritizedController)
    → IsSorted s.prioritized_controllers
    → In q s.prioritized_controllers
    → IsAvailable now s.all_controllers q
    → select_controller now s ≡ ok s'
    → Selects now s s'
select_controller-Selects now s s' q sorted there available run =
    elim (select_controller-IsBest now s s' sorted run) [
      | inl (same, none_on) ↦ absurd (none_on q there available)
      | inr best ↦ best
    ]

pub new_controller_fired_known :
    (now : ℕ) (s : Selector)
    → contains (find (s.handler.timers new_controller).arg s.all_controllers) ≡ true
    → new_controller_fired now s ≡ select_controller now s
unfolding new_controller_fired
new_controller_fired_known now s known =
    elim (Option-cases (find (s.handler.timers new_controller).arg s.all_controllers)) [
      | inl missing ↦ cc (missing, known)
      | inr (t, there) ↦ rw (there, new_controller_fired) refl
    ]

any_timer_fired-Selects :
    (now : ℕ) (k : Event) (s s' : Selector) (q : PrioritizedController)
    → IsSorted s.prioritized_controllers
    → Chooses k s
    → In q s.prioritized_controllers
    → IsAvailable now s.all_controllers q
    → any_timer_fired now k s ≡ ok s'
    → Selects now s s'
unfolding any_timer_fired lost_controller_fired
any_timer_fired-Selects now new_controller s s' q sorted known there available run =
    select_controller-Selects now s s' q sorted there available
      (sym (new_controller_fired_known now s known) ∙ run)
any_timer_fired-Selects now lost_controller s s' q sorted known there available run =
    select_controller-Selects now
      (record (output s.callbacks.lost_controller_set (lost_controller_callback s.selected) s) {
        selected = [];
      })
      s' q sorted there available run
any_timer_fired-Selects now missed_heartbeat s s' q sorted known there available run = absurd known
any_timer_fired-Selects now no_controllers s s' q sorted known there available run = absurd known

-- When LostController fires, or NewController of a known controller, in a state where the invariant
-- holds and some known controller is available, then the selector follows an available controller
-- afterwards that no other available one precedes by priority and identity, and the invariant holds.
pub time_out-Selects :
    (now : ℕ) (k : Event) (s : Selector) (q : PrioritizedController)
    → now < time_point_min
    → Inv now s
    → on k s ≡ true
    → Chooses k s
    → In q s.prioritized_controllers
    → IsAvailable now s.all_controllers q
    → (s' : Selector) × (time_out now k s ≡ ok s')
      × Inv now s'
      × ((p : PrioritizedController) × IsBest now s.all_controllers s.prioritized_controllers p
          × (s'.selected ≡ p.id))
unfolding time_out
time_out-Selects now k s q small v fires chooses there available =
    let (s', run, x) = any_timer_fired-Settles now k s small v fires in
    let (p, best, selected) =
      any_timer_fired-Selects now k s s' q v.data_ok.sorted chooses there available run in
    (
      with_handler (after_fired k s'.handler) s',
      (handle_timeout_total (λ (t : Selector). t.handler) with_handler (any_timer_fired now) s s' k
          v.handler_ok.well_formed fires run x.handler_ok.well_formed).0,
      Settled-Inv k now s' x,
      (p, best, selected),
    )
