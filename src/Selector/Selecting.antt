-- ===== src/Selector/Selecting.antt =====
-- common/ControllerSelector.cpp: `select` and `select_controller` return, and what they change.
use developer_resources.Prelude.{
  ℕ, ◌≡◌, refl, true, false, ◌⊎◌, inl, inr, none, some, List, [], ◌∷◌, Identity, find, ok,
  Bool-cases, In, arith,
}
use developer_resources.Timers.Armed.{IsArmed, schedule_once-IsArmed, schedule_once_delay}
use developer_resources.Selector.Choice.{first_available_recent, first_available_stale}
use developer_resources.Selector.Invariant.{HandlerOk, DataOk, on}
use developer_resources.Selector.{
  missed_heartbeat, event_Eq, output, master, new_controller_callback, write_controller_state,
  Selector, PrioritizedController, elapsed, before_deadline, left_of_deadline, first_available,
  select, select_controller,
}

-- The outcome of `select`.
pub record Selects (id : Identity) (last_hb : ℕ) (s s' : Selector) : Type 0 where
  pub chosen : s'.selected ≡ id
  pub same_all : s'.all_controllers ≡ s.all_controllers
  pub same_set : s'.prioritized_controllers ≡ s.prioritized_controllers
  pub same_writer : s'.amcs_dw ≡ s.amcs_dw
  pub armed : IsArmed missed_heartbeat [] s.handler s'.handler
  pub deadline : (s'.handler.timers missed_heartbeat).delay ≡ left_of_deadline last_hb

select-Selects :
    (id : Identity) (last_hb : ℕ) (s : Selector)
    → HandlerOk s.handler
    → s.amcs_dw ≡ true
    → on missed_heartbeat s ≡ false
    → (s' : Selector) × (select id last_hb s ≡ ok s') × Selects id last_hb s s'
unfolding select
select-Selects id last_hb s o writer off =
    let (h, run, armed) =
      schedule_once-IsArmed missed_heartbeat [] (left_of_deadline last_hb) s.handler o.well_formed
        o.valid_ids off in
    let s₁ = record s { selected = id } in
    let s₂ = output s.callbacks.new_controller_set (new_controller_callback id) s₁ in
    (
      record s₂ {
        outputs = write_controller_state s.device_id (master id) ∷ s₂.outputs;
        handler = h;
      },
      ground arith,
      record {
        chosen = refl;
        same_all = refl;
        same_set = refl;
        same_writer = refl;
        armed = armed;
        deadline =
            schedule_once_delay missed_heartbeat [] (left_of_deadline last_hb) s.handler h off run;
      },
    )

-- Where every entry is known, the loop of `select_controller` returns.
first_available_total :
    (now : ℕ) (all : List (Identity × ℕ)) (ps : List PrioritizedController)
    → ((q : PrioritizedController) → In q ps → (t : ℕ) × (find q.id all ≡ some t))
    → (first_available now all ps ≡ ok none)
      ⊎ ((id : Identity) × (t : ℕ) × (first_available now all ps ≡ ok (some (id, elapsed now t)))
          × (find id all ≡ some t)
          × (before_deadline (elapsed now t) ≡ true))
unfolding first_available
first_available_total now all [] known = inl refl
first_available_total now all (p ∷ ps) known =
    let (t, there) = known p (inl refl) in
    elim (Bool-cases (before_deadline (elapsed now t))) [
      | inl recent ↦
          inr (p.id, t, first_available_recent now all p ps t there recent, there, recent)
      | inr stale ↦
          rw (first_available_stale now all p ps t there stale)
            (first_available_total now all ps (λ q member. known q (inr member)))
    ]

-- The outcome of `select_controller`.
abbrev pub Selected : ℕ → Selector → Selector → Type 0
Selected now s s' =
    (s' ≡ s)
    ⊎ ((id : Identity) × (t : ℕ) × (find id s.all_controllers ≡ some t)
        × (before_deadline (elapsed now t) ≡ true)
        × Selects id (elapsed now t) s s')

pub select_controller-Selected :
    (now : ℕ) (s : Selector)
    → HandlerOk s.handler
    → DataOk now s.all_controllers s.prioritized_controllers
    → s.amcs_dw ≡ true
    → on missed_heartbeat s ≡ false
    → (s' : Selector) × (select_controller now s ≡ ok s') × Selected now s s'
unfolding select_controller
select_controller-Selected now s o d writer off =
    elim (first_available_total now s.all_controllers s.prioritized_controllers d.known) [
      | inl none_left ↦ (s, rw (none_left, select_controller), inl refl)
      | inr (id, t, run, there, recent) ↦
          let (s', chosen, selects) = select-Selects id (elapsed now t) s o writer off in
          (s', rw (run, select_controller) chosen, inr (id, t, there, recent, selects))
    ]
