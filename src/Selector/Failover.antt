-- ===== src/Selector/Failover.antt =====
-- common/ControllerSelector.cpp: the two time-outs that lead from a silent controller to another,
-- with the heartbeats of other controllers in between.
use developer_resources.Prelude.{
  ok_injective, ℕ, ◌<◌, ◌≤◌, ◌≡◌, refl, ap, sym, subst, ◌∙◌, true, false, inl, inr, ok, Result, In,
  Bool-cases, Option-cases, List, [], ◌∷◌, ◌>>=◌, none, find, update, Identity, id_eq, is_empty,
  arith,
}
use developer_resources.Data.{Heartbeat}
use developer_resources.Timers.Calls.{cancel-IsWellFormed}
use developer_resources.Selector.Received.{got_heartbeat-Inv}
use developer_resources.Timers.{active, after_fired, Fault}
use developer_resources.Timers.Armed.{schedule_once-IsArmed}
use developer_resources.Timers.Timeout.{handle_timeout_total}
use developer_resources.Selector.{
  Selector, missed_heartbeat, lost_controller, no_controllers, event_Eq, PrioritizedController,
  time_point_min, missed_heartbeat_fired, any_timer_fired, no_available, output, time_out,
  missed_heartbeat_callback, lost_active_controller_delay, no_controllers_delay, with_handler,
  got_heartbeat,
}
use developer_resources.Selector.Choice.{IsBest, IsAvailable}
use developer_resources.Selector.Invariant.{Inv, on, armed-HandlerOk}
use developer_resources.Selector.Missed.{no_controllers_off, missed_heartbeat_fired-Settles}
use developer_resources.Selector.Fired.{on-after_fired, Settled-Inv}
use developer_resources.Selector.Replaced.{time_out-Selects}
use developer_resources.Selector.Traces.{Inv-later}

-- What MissedHeartbeat leaves for LostController, which runs then.
record Falls (s s' : Selector) : Type 0 where
  lost : on lost_controller s' ≡ true
  same_selected : s'.selected ≡ s.selected
  same_all : s'.all_controllers ≡ s.all_controllers
  same_set : s'.prioritized_controllers ≡ s.prioritized_controllers

missed_heartbeat_fired-Falls :
    (now : ℕ) (s s' : Selector)
    → now < time_point_min
    → Inv now s
    → on missed_heartbeat s ≡ true
    → missed_heartbeat_fired now s ≡ ok s'
    → Falls s s'
unfolding missed_heartbeat_fired
missed_heartbeat_fired-Falls now s s' small v fires done =
    let (h, run, armed) =
      schedule_once-IsArmed lost_controller [] lost_active_controller_delay s.handler
        v.handler_ok.well_formed v.handler_ok.valid_ids (v.phase.apart fires) in
    let o = armed-HandlerOk lost_controller [] s.handler h v.handler_ok armed in
    elim (Bool-cases (no_available now s.all_controllers)) [
      | inr avail ↦
          let left : missed_heartbeat_fired now s ≡ ok (record announced { handler = h }) =
            rw run (rw avail) in
          subst (Falls s) (ok_injective left done)
            (record { lost = armed.on; same_selected = refl; same_all = refl; same_set = refl })
      | inl no_avail ↦
          let off : on no_controllers s ≡ false = no_controllers_off small v.phase fires no_avail in
          let (h', run', armed') =
            schedule_once-IsArmed no_controllers [] no_controllers_delay h o.well_formed o.valid_ids
              (ap active (armed.others no_controllers refl) ∙ off) in
          let left : missed_heartbeat_fired now s ≡ ok (record announced { handler = h' }) =
            rw run (rw no_avail (rw run')) in
          subst (Falls s) (ok_injective left done) (record {
            lost = ap active (armed'.others lost_controller refl) ∙ armed.on;
            same_selected = refl;
            same_all = refl;
            same_set = refl;
          })
    ]
  where
    announced : Selector
    announced = output s.callbacks.missed_heartbeat_set (missed_heartbeat_callback s.selected) s

-- The heartbeats that arrive, each with the time of its arrival, the first one first.
abbrev pub Heard : Type 0
Heard = List (ℕ × Heartbeat)

unfoldable pub hear : Heard → Selector → Result Fault Selector
unfolding got_heartbeat
hear [] s = ok s
hear ((t, hb) ∷ rest) s = do s' ← got_heartbeat t hb s; hear rest s'

-- They arrive in order between two times, and none is from this controller.
abbrev pub Others : Identity → ℕ → ℕ → Heard → Type 0
Others id now later [] = now ≤ later
Others id now later ((t, hb) ∷ rest) =
    (now ≤ t) × (id_eq id hb.device_id ≡ false) × Others id t later rest

Others-le : (id : Identity) (now later : ℕ) (hbs : Heard) → Others id now later hbs → now ≤ later
Others-le id now later [] le = le
Others-le id now later ((t, hb) ∷ rest) (le, other, spaced) =
    omega (arith, le, Others-le id t later rest spaced)

-- The last time that each known controller was heard of.
unfoldable pub last_heard : Heard → List (Identity × ℕ) → List (Identity × ℕ)
last_heard [] all = all
last_heard ((t, hb) ∷ rest) all = last_heard rest (update hb.device_id (λ _. t) all)

-- Waiting for LostController, with the entries that are given.
record Waits (s : Selector) (all : List (Identity × ℕ)) (s' : Selector) : Type 0 where
  lost : on lost_controller s' ≡ true
  same_selected : s'.selected ≡ s.selected
  heard_all : s'.all_controllers ≡ all
  same_set : s'.prioritized_controllers ≡ s.prioritized_controllers

update_missing :
    (k : Identity) (f : ℕ → ℕ) (m : List (Identity × ℕ)) → find k m ≡ none → update k f m ≡ m
unfolding find update
update_missing k f [] missing = refl
update_missing k f ((j, w) ∷ m) missing = ground (arith, missing, update_missing k f m)

-- A heartbeat that is handled sets the time of its sender, where that is known.
pub got_heartbeat_noted :
    (now : ℕ) (hb : Heartbeat) (s s' : Selector)
    → Inv now s
    → got_heartbeat now hb s ≡ ok s'
    → s'.all_controllers ≡ update hb.device_id (λ _. now) s.all_controllers
unfolding got_heartbeat
got_heartbeat_noted now hb s s' v run = elim (Option-cases (find hb.device_id s.all_controllers)) [
  | inl unknown ↦
      let same : s ≡ s' = ok_injective (rw (unknown, got_heartbeat)) run in
      ap (λ t. t.all_controllers) (sym same)
      ∙ sym (update_missing hb.device_id (λ _. now) s.all_controllers unknown)
  | inr (t, there) ↦
      let (u, again, kept, reacts) = got_heartbeat-Inv now hb s v in
      ap (λ t. t.all_controllers) (ok_injective run again) ∙ (reacts t there).same_all
]

got_heartbeat-Waits :
    (now : ℕ) (hb : Heartbeat) (s : Selector)
    → Inv now s
    → on lost_controller s ≡ true
    → id_eq s.selected hb.device_id ≡ false
    → (s' : Selector) × (got_heartbeat now hb s ≡ ok s')
      × Inv now s'
      × Waits s (update hb.device_id (λ _. now) s.all_controllers) s'
unfolding got_heartbeat
got_heartbeat-Waits now hb s v lost other =
    elim (Option-cases (find hb.device_id s.all_controllers)) [
      | inl unknown ↦ (
        s,
        rw (unknown, got_heartbeat),
        v,
        record {
          lost = lost;
          same_selected = refl;
          heard_all = sym (update_missing hb.device_id (λ _. now) s.all_controllers unknown);
          same_set = refl;
        },
      )
      | inr (t, there) ↦
          let (s', run, kept, reacts) = got_heartbeat-Inv now hb s v in
          let (w, off, others, told) =
            cancel-IsWellFormed no_controllers s.handler v.handler_ok.well_formed in
          (
            s',
            run,
            kept,
            subst (Waits s (update hb.device_id (λ _. now) s.all_controllers))
                (sym ((reacts t there).ignores follows other))
                (record {
                  lost = ap active (others lost_controller refl) ∙ lost;
                  same_selected = refl;
                  heard_all = refl;
                  same_set = refl;
                }),
          )
    ]
  where
    follows : is_empty s.selected ≡ false
    follows = elim (Bool-cases (is_empty s.selected)) [
      | inl vacant ↦ cc ((v.phase.vacant vacant).1, lost)
      | inr named ↦ named
    ]

hear-Waits :
    (id : Identity) (now later : ℕ) (hbs : Heard) (s : Selector)
    → Others id now later hbs
    → s.selected ≡ id
    → Inv now s
    → on lost_controller s ≡ true
    → (s' : Selector) × (hear hbs s ≡ ok s')
      × Inv later s'
      × Waits s (last_heard hbs s.all_controllers) s'
unfolding hear last_heard
hear-Waits id now later [] s le same v lost = (
  s,
  refl,
  Inv-later le v,
  record { lost = lost; same_selected = refl; heard_all = refl; same_set = refl },
)
hear-Waits id now later ((t, hb) ∷ rest) s (le, other, spaced) same v lost =
    let (s', run, kept, w) =
      got_heartbeat-Waits t hb s (Inv-later le v) lost
        (subst (λ i. id_eq i hb.device_id ≡ false) (sym same) other) in
    let (s'', runs, kept', w') =
      hear-Waits id t later rest s' spaced (w.same_selected ∙ same) kept w.lost in
    (
      s'',
      rw (run, hear) runs,
      kept',
      record {
        lost = w'.lost;
        same_selected = w'.same_selected ∙ w.same_selected;
        heard_all = w'.heard_all ∙ ap (last_heard rest) w.heard_all;
        same_set = w'.same_set ∙ w.same_set;
      },
    )

-- When MissedHeartbeat fires in a state where the invariant holds, then heartbeats of controllers
-- other than the selected one arrive, and then LostController fires, all in the order of time and
-- below 2^63, and some known controller is available in the end by the time it was last heard of,
-- then nothing of that ends in a fault, LostController runs until it fires, the selector follows
-- an available controller that no other available one precedes by priority and identity, and the
-- invariant holds.
pub failover :
    (now later : ℕ) (hbs : Heard) (s : Selector) (q : PrioritizedController)
    → later < time_point_min
    → Others s.selected now later hbs
    → Inv now s
    → on missed_heartbeat s ≡ true
    → In q s.prioritized_controllers
    → IsAvailable later (last_heard hbs s.all_controllers) q
    → (s₁ : Selector) × (time_out now missed_heartbeat s ≡ ok s₁)
      × (on lost_controller s₁ ≡ true)
      × ((s₂ : Selector) × (hear hbs s₁ ≡ ok s₂)
          × (on lost_controller s₂ ≡ true)
          × ((s₃ : Selector) × (time_out later lost_controller s₂ ≡ ok s₃)
              × Inv later s₃
              × ((p : PrioritizedController) × IsBest later
                    (last_heard hbs s.all_controllers)
                    s.prioritized_controllers
                    p
                  × (s₃.selected ≡ p.id))))
unfolding time_out any_timer_fired
failover now later hbs s q small spaced v fires there available =
    let early : now < time_point_min =
      omega (arith, Others-le s.selected now later hbs spaced, small) in
    let (s', run, x) = missed_heartbeat_fired-Settles now s early v fires in
    let falls = missed_heartbeat_fired-Falls now s s' early v fires run in
    let s₁ = with_handler (after_fired missed_heartbeat s'.handler) s' in
    let lost : on lost_controller s₁ ≡ true =
      on-after_fired missed_heartbeat lost_controller s' x.handler_ok ∙ falls.lost in
    let (s₂, runs, kept, w) =
      hear-Waits s.selected now later hbs s₁ spaced falls.same_selected
        (Settled-Inv missed_heartbeat now s' x) lost in
    let all : s₂.all_controllers ≡ last_heard hbs s.all_controllers =
      w.heard_all ∙ ap (last_heard hbs) falls.same_all in
    let set : s₂.prioritized_controllers ≡ s.prioritized_controllers =
      w.same_set ∙ falls.same_set in
    let (s₃, again, kept', (p, best, selected)) =
      time_out-Selects later lost_controller s₂ q small kept w.lost tt
        (subst (In q) (sym set) there) (subst (λ m. IsAvailable later m q) (sym all) available) in
    (
      s₁,
      (handle_timeout_total (λ (t : Selector). t.handler) with_handler (any_timer_fired now) s s'
          missed_heartbeat v.handler_ok.well_formed fires run x.handler_ok.well_formed).0,
      lost,
      (
        s₂,
        runs,
        w.lost,
        (
          s₃,
          again,
          kept',
          (
            p,
            subst (λ m. IsBest later m s.prioritized_controllers p) all
                (subst (λ ps. IsBest later s₂.all_controllers ps p) set best),
            selected,
          ),
        ),
      ),
    )
