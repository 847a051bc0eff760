-- ===== src/Selector/Deadline.antt =====
-- common/ControllerSelector.cpp: the deadline that `select` gives MissedHeartbeat, and the heartbeats
-- of the selected controller after it, which `got_heartbeat` answers with `reschedule`.
use developer_resources.Prelude.{
  ℕ, ◌<◌, ◌≤◌, ◌≡◌, refl, ok_injective, ap, sym, subst, ◌∙◌, true, false, inl, inr, ok,
  Option-cases, [], ◌∷◌, some, find, contains, Identity, id_eq, id_eq_iff, is_empty, arith,
}
use developer_resources.Timers.{active, after_fired}
use developer_resources.Timers.Timeout.{after_fired-timers, handle_timeout_total}
use developer_resources.Selector.Fired.{any_timer_fired-Settles, Settled-Inv}
use developer_resources.Timers.Calls.{cancel-IsWellFormed}
use developer_resources.Selector.{
  Selector, time_out, any_timer_fired, with_handler, lost_controller, output,
  lost_controller_callback, lost_controller_fired, elapsed, left_of_deadline, missed_heartbeat,
  no_controllers, event_Eq, got_heartbeat, time_point_min,
}
use developer_resources.Selector.Invariant.{Inv, on}
use developer_resources.Selector.Received.{got_heartbeat-Inv}
use developer_resources.Selector.Failover.{Heard, hear}
use developer_resources.Selector.Traces.{Inv-later}
use developer_resources.Selector.Diagram.{Node, unfollowing, waiting, following, doubting}
use developer_resources.Selector.Picked.{Picked, select_controller-Picked}
use developer_resources.Selector.Carried.{known_beaten}
use developer_resources.Data.{Heartbeat}

abbrev pub deadline : Selector → ℕ
deadline s = (s.handler.timers missed_heartbeat).delay

-- The heartbeats arrive in order between two times, and all are from this controller.
abbrev pub AllFrom : Identity → ℕ → ℕ → Heard → Type 0
AllFrom id now later [] = now ≤ later
AllFrom id now later ((t, hb) ∷ rest) =
    (now ≤ t) × (id_eq id hb.device_id ≡ true) × AllFrom id t later rest

-- The selected controller is known, and its next heartbeat is due.
pub record IsDue (s : Selector) : Type 0 where
  pub runs : on missed_heartbeat s ≡ true
  pub known : contains (find s.selected s.all_controllers) ≡ true

got_heartbeat-IsDue :
    (now : ℕ) (hb : Heartbeat) (s : Selector)
    → Inv now s
    → IsDue s
    → id_eq s.selected hb.device_id ≡ true
    → (s' : Selector) × (got_heartbeat now hb s ≡ ok s')
      × Inv now s'
      × IsDue s'
      × (s'.selected ≡ s.selected)
      × (deadline s' ≡ deadline s)
got_heartbeat-IsDue now hb s v d same =
    let (s', run, kept, reacts) = got_heartbeat-Inv now hb s v in
    let (w, off, others, told) =
      cancel-IsWellFormed no_controllers s.handler v.handler_ok.well_formed in
    let missed = others missed_heartbeat refl in
    elim (Option-cases (find hb.device_id s.all_controllers)) [
      | inl missing ↦ cc ((id_eq_iff s.selected hb.device_id).0 same, d.known, missing)
      | inr (t, there) ↦
          let r = reacts t there in
          (
            s',
            run,
            kept,
            record {
              runs = (r.follows named same).0;
              known =
                  rw (r.same_selected, r.same_all)
                    (known_beaten now hb.device_id s.selected s.all_controllers d.known);
            },
            r.same_selected,
            r.kept named same (ap active missed ∙ d.runs) ∙ ap (λ x. x.delay) missed,
          )
    ]
  where
    named : is_empty s.selected ≡ false
    named = ground (arith, v.phase.vacant, d.runs)

hear_deadline :
    (now later : ℕ) (hbs : Heard) (s : Selector)
    → AllFrom s.selected now later hbs
    → Inv now s
    → IsDue s
    → (s' : Selector) × (hear hbs s ≡ ok s')
      × Inv later s'
      × IsDue s'
      × (s'.selected ≡ s.selected)
      × (deadline s' ≡ deadline s)
unfolding hear
hear_deadline now later [] s le v d = (s, refl, Inv-later le v, d, refl, refl)
hear_deadline now later ((t, hb) ∷ rest) s (le, same, spaced) v d =
    let (s', run, kept, due, chosen, delay) = got_heartbeat-IsDue t hb s (Inv-later le v) d same in
    let (s'', runs, kept', due', chosen', delay') =
      hear_deadline t later rest s' (subst (λ i. AllFrom i t later rest) (sym chosen) spaced) kept
        due in
    (s'', rw (run, hear) runs, kept', due', chosen' ∙ chosen, delay' ∙ delay)

-- What LostController chooses, and the deadline of the choice.
lost_controller_fired-IsDue :
    (now : ℕ) (s s' : Selector) (t : ℕ)
    → Inv now s
    → on lost_controller s ≡ true
    → lost_controller_fired now s ≡ ok s'
    → find s'.selected s.all_controllers ≡ some t
    → IsDue s' × (deadline s' ≡ left_of_deadline (elapsed now t))
unfolding lost_controller_fired
lost_controller_fired-IsDue now s s' t v lost run found =
    let (u, pick, (n, x)) =
      select_controller-Picked now cleared v.handler_ok v.data_ok v.writer
        (ground (arith, v.phase.apart)) refl in
    go n s' found (subst (Picked now cleared n) (ok_injective pick run) x)
  where
    cleared : Selector
    cleared =
        record (output s.callbacks.lost_controller_set (lost_controller_callback s.selected) s) {
          selected = [];
        }

    go :
        (n : Node) (u : Selector)
        → find u.selected s.all_controllers ≡ some t
        → Picked now cleared n u
        → IsDue u × (deadline u ≡ left_of_deadline (elapsed now t))
    go unfollowing u found x = cc (x.selected, found, v.data_ok.named)
    go (waiting j) u found x = cc (x.new)
    go (doubting j) u found x = cc (x.lost)
    go (following j) u found x = (
      record { runs = x.missed; known = rw x.same_all (ap contains found) },
      x.due t (subst (λ i. find i s.all_controllers ≡ some t) x.selected found),
    )

time_out-IsDue :
    (now : ℕ) (s s' : Selector) (t : ℕ)
    → now < time_point_min
    → Inv now s
    → on lost_controller s ≡ true
    → time_out now lost_controller s ≡ ok s'
    → find s'.selected s.all_controllers ≡ some t
    → Inv now s' × IsDue s' × (deadline s' ≡ left_of_deadline (elapsed now t))
unfolding time_out any_timer_fired
time_out-IsDue now s s' t small v lost done found =
    let (u, run, x) = any_timer_fired-Settles now lost_controller s small v lost in
    let w = with_handler (after_fired lost_controller u.handler) u in
    let returns : time_out now lost_controller s ≡ ok w =
      (handle_timeout_total (λ (t : Selector). t.handler) with_handler (any_timer_fired now) s u
        lost_controller v.handler_ok.well_formed lost run x.handler_ok.well_formed).0 in
    let same : w ≡ s' = ok_injective returns done in
    let (due, left) =
      lost_controller_fired-IsDue now s u t v lost run
        (subst (λ r. find r.selected s.all_controllers ≡ some t) (sym same) found) in
    let missed = after_fired-timers lost_controller missed_heartbeat u.handler in
    subst (λ r. Inv now r × IsDue r × (deadline r ≡ left_of_deadline (elapsed now t))) same
      (
        Settled-Inv lost_controller now u x,
        record { runs = ap active missed ∙ due.runs; known = due.known },
        ap (λ m. m.delay) missed ∙ left,
      )

-- When LostController fires in a state where the invariant holds, and the selector follows a
-- controller then that was last heard of at a time `t`, any number of heartbeats of that controller
-- in the order of time are handled without a fault and keep it selected, and MissedHeartbeat runs
-- after them with the delay that was left of the deadline at the time of the selection, for a
-- heartbeat at `t`.
pub replacement_deadline :
    (now later t : ℕ) (hbs : Heard) (s s' : Selector)
    → now < time_point_min
    → Inv now s
    → on lost_controller s ≡ true
    → time_out now lost_controller s ≡ ok s'
    → find s'.selected s.all_controllers ≡ some t
    → AllFrom s'.selected now later hbs
    → (s'' : Selector) × (hear hbs s' ≡ ok s'')
      × (s''.selected ≡ s'.selected)
      × (on missed_heartbeat s'' ≡ true)
      × (deadline s'' ≡ left_of_deadline (elapsed now t))
replacement_deadline now later t hbs s s' small v lost done found spaced =
    let (v', due, left) = time_out-IsDue now s s' t small v lost done found in
    let (s'', runs, kept, due', chosen, delay) = hear_deadline now later hbs s' spaced v' due in
    (s'', runs, chosen, due'.runs, delay ∙ left)
