-- ===== src/Selector/Watched.antt =====
-- common/ControllerSelector.cpp: `got_heartbeat` takes the edges of the pseudo state machine.
use developer_resources.Prelude.{
  ℕ, ◌≡◌, refl, ap, sym, subst, ◌∙◌, true, false, inl, inr, [], Identity, is_empty, id_eq, find,
  contains, ok, Bool-cases, Option-cases, arith,
}
use developer_resources.Data.{Heartbeat}
use developer_resources.Timers.{active}
use developer_resources.Timers.Calls.{cancel-IsWellFormed}
use developer_resources.Selector.Invariant.{Inv, on}
use developer_resources.Selector.Reactions.{Reacts}
use developer_resources.Selector.Received.{got_heartbeat-Inv, beaten_by, beaten_by-Beaten}
use developer_resources.Selector.Traces.{heartbeat}
use developer_resources.Selector.Diagram.{
  Node, unfollowing, waiting, following, doubting, is_following, is_doubting, Hears, seek, wait,
  follow, recover, pass, doubt, unknown, hears, At,
}
use developer_resources.Selector.{
  new_controller, missed_heartbeat, lost_controller, no_controllers, event_Eq, Selector,
  got_heartbeat, new_active_controller_delay,
}
use developer_resources.Selector.Carried.{Moves, Edge-to, known_beaten, Carries-to}

-- Where MissedHeartbeat or LostController runs, a controller is followed.
follows_one :
    (now : ℕ) (n : Node) (s : Selector)
    → Inv now s
    → At n s
    → is_following n ≡ true
    → is_empty s.selected ≡ false
follows_one now n s v a fol = ground (arith, v.phase.vacant, a.missed)

doubts_one :
    (now : ℕ) (n : Node) (s : Selector)
    → Inv now s
    → At n s
    → is_doubting n ≡ true
    → is_empty s.selected ≡ false
doubts_one now n s v a fol = ground (arith, v.phase.vacant, a.lost)

At-beaten_by :
    (now : ℕ) (id : Identity) (n : Node) (s : Selector)
    → Inv now s
    → At n s
    → At n (beaten_by now id s)
At-beaten_by now id n s v a =
    let (kept, off, others, told) =
      cancel-IsWellFormed no_controllers s.handler v.handler_ok.well_formed in
    record {
      selected = a.selected;
      new = ap active (others new_controller refl) ∙ a.new;
      missed = ap active (others missed_heartbeat refl) ∙ a.missed;
      lost = ap active (others lost_controller refl) ∙ a.lost;
      carries =
          Carries-to n s _ (ap (λ t. t.arg) (others new_controller refl))
            (ap (λ t. t.delay) (others new_controller refl))
            (ap (λ t. t.delay) (others lost_controller refl))
            (λ j. known_beaten now id j s.all_controllers) a.carries;
      comms_loss = λ e. cc (off, e);
    }

-- The sender is followed: MissedHeartbeat runs and LostController does not.
At-followed :
    (now : ℕ) (id j : Identity) (b s' : Selector)
    → Inv now s'
    → b.selected ≡ j
    → is_empty b.selected ≡ false
    → id_eq j id ≡ true
    → Reacts id b s'
    → At (following j) s'
At-followed now id j b s' v' chosen named same r =
    let (m, l) = r.follows named (subst (λ i. id_eq i id ≡ true) (sym chosen) same) in
    record {
      selected = r.same_selected ∙ chosen;
      new = ground (arith, v'.phase.waiting, r.same_selected, named);
      missed = m;
      lost = l;
      carries = tt;
      comms_loss = λ e. cc (r.silenced, e);
    }

At-sought :
    (now : ℕ) (id j : Identity) (b s' : Selector)
    → Inv now s'
    → is_empty b.selected ≡ true
    → b.selected ≡ []
    → (s'.handler.timers new_controller).arg ≡ j
    → contains (find j b.all_controllers) ≡ true
    → ((s'.handler.timers new_controller).delay ≡ new_active_controller_delay)
    → Reacts id b s'
    → At (waiting j) s'
At-sought now id j b s' v' vacant chosen arg known delay r =
    let (m, l) = v'.phase.vacant (ap is_empty r.same_selected ∙ vacant) in
    record {
      selected = r.same_selected ∙ chosen;
      new = r.seeks vacant;
      missed = m;
      lost = l;
      carries = (arg, rw r.same_all known, delay);
      comms_loss = λ e. cc (r.silenced, e);
    }

heartbeat-Hears :
    (now : ℕ) (id : Identity) (n : Node) (b s' : Selector)
    → Inv now b
    → Inv now s'
    → At n b
    → contains (find id b.all_controllers) ≡ true
    → Reacts id b s'
    → (n' : Node) × Hears id n n' × At n' s'
heartbeat-Hears now id unfollowing b s' v v' a known r = (
  waiting id,
  seek,
  At-sought now id id b s' v' (ap is_empty a.selected) a.selected
      (r.sought (ap is_empty a.selected) ∙ rw a.new refl) known
      (r.sought_delay (ap is_empty a.selected) ∙ rw a.new refl) r,
)
heartbeat-Hears now id (waiting j) b s' v v' a known r = (
  waiting j,
  wait j,
  At-sought now id j b s' v' (ap is_empty a.selected) a.selected
      (r.sought (ap is_empty a.selected) ∙ rw a.new a.carries.0) a.carries.1
      (r.sought_delay (ap is_empty a.selected) ∙ rw a.new a.carries.2) r,
)
heartbeat-Hears now id (following j) b s' v v' a known r =
    let named = follows_one now (following j) b v a refl in
    elim (Bool-cases (id_eq j id)) [
      | inl same ↦
          (following j, follow j same, At-followed now id j b s' v' a.selected named same r)
      | inr other ↦ (
        following j,
        pass j other,
        subst (At (following j))
            (sym (r.ignores named (subst (λ i. id_eq i id ≡ false) (sym a.selected) other))) a,
      )
    ]
heartbeat-Hears now id (doubting j) b s' v v' a known r =
    let named = doubts_one now (doubting j) b v a refl in
    elim (Bool-cases (id_eq j id)) [
      | inl same ↦
          (following j, recover j same, At-followed now id j b s' v' a.selected named same r)
      | inr other ↦ (
        doubting j,
        doubt j other,
        subst (At (doubting j))
            (sym (r.ignores named (subst (λ i. id_eq i id ≡ false) (sym a.selected) other))) a,
      )
    ]

pub got_heartbeat-Moves :
    (now : ℕ) (hb : Heartbeat) (n : Node) (s : Selector)
    → Inv now s
    → At n s
    → (s' : Selector) × (got_heartbeat now hb s ≡ ok s') × Moves now (heartbeat hb) n s s'
unfolding got_heartbeat
got_heartbeat-Moves now hb n s v a = elim (Option-cases (find hb.device_id s.all_controllers)) [
  | inl missing ↦ (
    s,
    rw (missing, got_heartbeat),
    (n, unknown hb n (on no_controllers s) _ s.prioritized_controllers missing, a),
  )
  | inr (t, there) ↦
      let (s', run, v', reacts) = got_heartbeat-Inv now hb s v in
      let r = reacts t there in
      let (n', edge, a') =
        heartbeat-Hears now hb.device_id n b s' (beaten_by-Beaten now hb.device_id s v).inv v'
          (At-beaten_by now hb.device_id n s v a)
          (known_beaten now hb.device_id hb.device_id s.all_controllers (ap contains there)) r in
      (
        s',
        run,
        (
          n',
          Edge-to r.silenced r.same_all r.same_set (
              hears hb n n' (on no_controllers s) s.all_controllers s.prioritized_controllers t
                there edge),
          a',
        ),
      )
]
  where
    b : Selector
    b = beaten_by now hb.device_id s
