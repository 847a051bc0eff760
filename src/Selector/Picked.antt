-- ===== src/Selector/Picked.antt =====
-- common/ControllerSelector.cpp: `select_controller` takes the edge [S] of the pseudo state machine.
use developer_resources.Prelude.{
  ℕ, ◌≡◌, refl, ap, sym, subst, ◌∙◌, true, false, inl, inr, [], ok, List, Identity, find, some,
}
use developer_resources.Selector.Choice.{IsBest, select_controller-IsBest}
use developer_resources.Selector.Selecting.{Selected, Selects, select_controller-Selected}
use developer_resources.Selector.Invariant.{HandlerOk, DataOk, on}
use developer_resources.Selector.Diagram.{
  Node, unfollowing, following, selection, is_waiting, is_following, is_doubting, Picks, picks,
  picks_none, Carries,
}
use developer_resources.Selector.{
  Event, missed_heartbeat, event_eq, event_Eq, Selector, PrioritizedController, select_controller,
  elapsed, left_of_deadline,
}

-- The deadline of the controller that is followed: what is left of it since its last heartbeat.
abbrev pub IsDueAt : ℕ → List (Identity × ℕ) → Node → ℕ → Type 0
IsDueAt now all (following id) d =
    (t : ℕ) → find id all ≡ some t → d ≡ left_of_deadline (elapsed now t)
IsDueAt now all _ d = Unit {0}

-- [S] from a selector that follows no controller.
pub record Picked (now : ℕ) (s : Selector) (n : Node) (s' : Selector) : Type 0 where
  pub edge : Picks now s.all_controllers s.prioritized_controllers n
  pub selected : s'.selected ≡ selection n
  pub missed : on missed_heartbeat s' ≡ is_following n
  pub lost : is_doubting n ≡ false
  pub new : is_waiting n ≡ false
  pub carries : (t : Selector) → Carries n t
  pub others :
      (j : Event) → event_eq missed_heartbeat j ≡ false → s'.handler.timers j ≡ s.handler.timers j
  pub due : IsDueAt now s.all_controllers n (s'.handler.timers missed_heartbeat).delay
  pub same_all : s'.all_controllers ≡ s.all_controllers
  pub same_set : s'.prioritized_controllers ≡ s.prioritized_controllers

pub select_controller-Picked :
    (now : ℕ) (s : Selector)
    → HandlerOk s.handler
    → DataOk now s.all_controllers s.prioritized_controllers
    → s.amcs_dw ≡ true
    → on missed_heartbeat s ≡ false
    → s.selected ≡ []
    → (s' : Selector) × (select_controller now s ≡ ok s') × ((n : Node) × Picked now s n s')
select_controller-Picked now s h d writer off vacant =
    let (s', run, selected) = select_controller-Selected now s h d writer off in
    (
      s',
      run,
      elim (select_controller-IsBest now s s' d.sorted run) [
        | inl (same, none_on) ↦ (
          unfollowing,
          record {
            edge = picks_none none_on;
            selected = ap (λ t. t.selected) same ∙ vacant;
            missed = ap (on missed_heartbeat) same ∙ off;
            lost = refl;
            new = refl;
            carries = λ t. tt;
            others = λ j ne. ap (λ t. t.handler.timers j) same;
            due = tt;
            same_all = ap (λ t. t.all_controllers) same;
            same_set = ap (λ t. t.prioritized_controllers) same;
          },
        )
        | inr (p, best, chosen) ↦
            let (t, there, x) = selects p s' selected best chosen in
            (
              following p.id,
              record {
                edge = picks p best;
                selected = chosen;
                missed = x.armed.on;
                lost = refl;
                new = refl;
                carries = λ t. tt;
                others = x.armed.others;
                due = λ u found. x.deadline ∙ cc (there, found);
                same_all = x.same_all;
                same_set = x.same_set;
              },
            )
      ],
    )
  where
    selects :
        (p : PrioritizedController) (s' : Selector)
        → Selected now s s'
        → IsBest now s.all_controllers s.prioritized_controllers p
        → s'.selected ≡ p.id
        → (t : ℕ) × (find p.id s.all_controllers ≡ some t) × Selects p.id (elapsed now t) s s'
    selects p s' (inl same) best chosen = cc (best.available.found, d.named, same, vacant, chosen)
    selects p s' (inr (id, t, there, recent, x)) best chosen =
        subst (λ i. (t : ℕ) × (find i s.all_controllers ≡ some t) × Selects i (elapsed now t) s s')
          (sym x.chosen ∙ chosen) (t, there, x)
