-- ===== src/Timers/Timeout.antt =====
-- common/TimerHandler.h: `handle_timeout`, the call that the reactor makes when a timer fires.
use developer_resources.Prelude.{
  ◌≡◌, refl, ap, subst, ◌∙◌, inl, inr, Bool, true, false, some, ◌==◌, ◌&&◌, if◌then◌else◌,
  Bool-cases, Option-cases, Eq, Result, ok, err, arith,
}
use developer_resources.Timers.WellFormed.{IsWellFormed, timer_wont_run-IsWellFormed}
use developer_resources.Timers.{
  TimerHandler, Fault, null_pointer, active, find_key, deactivate, timer_wont_run, end_loop_if,
  after_fired, handle_timeout,
}

module _ {K A : Type 0} ⦃e : Eq K⦄ where
  end_loop_if-timers :
      (b : Bool) (h : TimerHandler K A)
      → ((end_loop_if b h).timers ≡ h.timers) × ((end_loop_if b h).active_timers ≡ h.active_timers)
  unfolding end_loop_if
  end_loop_if-timers true h = (refl, refl)
  end_loop_if-timers false h = (refl, refl)

  end_loop_if-IsWellFormed :
      (b : Bool) (h : TimerHandler K A) → IsWellFormed h → IsWellFormed (end_loop_if b h)
  unfolding end_loop_if
  end_loop_if-IsWellFormed true h w = record {
    keyed = w.keyed;
    idle = w.idle;
    listed = w.listed;
    live = w.live;
  }
  end_loop_if-IsWellFormed false h w = w

  pub after_fired-IsWellFormed :
      (k : K) (h : TimerHandler K A) → IsWellFormed h → IsWellFormed (after_fired k h)
  unfolding after_fired
  after_fired-IsWellFormed k h w = elim (Bool-cases ((h.timers k).period == 0)) [
    | inl once ↦
        rw (once, after_fired) (end_loop_if-IsWellFormed _ _ (timer_wont_run-IsWellFormed k h w))
    | inr again ↦ rw (again, after_fired) (end_loop_if-IsWellFormed _ h w)
  ]

  pub after_fired_ids :
      (k : K) (h : TimerHandler K A) → (after_fired k h).reactor.ids ≡ h.reactor.ids
  unfolding after_fired timer_wont_run end_loop_if
  after_fired_ids k h = ground arith

  pub after_fired-timers :
      (k j : K) (h : TimerHandler K A)
      → (after_fired k h).timers j
        ≡ (if e.beq k j && (h.timers k).period == 0 then deactivate (h.timers k) else h.timers j)
  unfolding after_fired timer_wont_run
  after_fired-timers k j h =
      let rest = if (h.timers k).period == 0 then timer_wont_run k h else h in
      ap (λ t. t j) (end_loop_if-timers (rest.timers k).exit_after rest).0 ∙ ground arith

module _ {K A S : Type 0} ⦃e : Eq K⦄ (handler : S → TimerHandler K A)
    (put : TimerHandler K A → S → S) (fired : K → S → Result Fault S) where
  -- The key of an active timer of a well-formed handler reaches `any_timer_fired` of that timer.
  -- If that returns a well-formed handler, it stays so; a timer with no period is inactive then,
  -- and every other timer is as `any_timer_fired` left it, and in the map if it is active, also
  -- where the reactor gave it the id of the timer that fired.
  pub handle_timeout_total :
      (s s' : S) (k : K)
      → IsWellFormed (handler s)
      → active ((handler s).timers k) ≡ true
      → fired k s ≡ ok s'
      → IsWellFormed (handler s')
      → let h' = after_fired k (handler s') in
        (handle_timeout handler put fired ((handler s).timers k).key s ≡ ok (put h' s'))
        × IsWellFormed h'
        × (((handler s').timers k).period ≡ 0 → active (h'.timers k) ≡ false)
        × ((j : K)
            → e.beq k j ≡ false
            → active ((handler s').timers j) ≡ true
            → (h'.timers j ≡ (handler s').timers j)
              × (find_key ((handler s').timers j).key h'.active_timers ≡ some j))
  unfolding handle_timeout
  handle_timeout_total s s' k w on done w' = (
    rw (w.listed k on, handle_timeout) (rw done),
    after,
    λ once. ground (arith, after_fired-timers k k h, e.beq_iff k k),
    λ j ne live.
        let same : (after_fired k h).timers j ≡ h.timers j =
          ground (arith, after_fired-timers k j h) in
        (
          same,
          subst (λ t. find_key t.key (after_fired k h).active_timers ≡ some j) same
              (after.listed j (ap active same ∙ live)),
        ),
  )
    where
      h : TimerHandler K A
      h = handler s'

      after : IsWellFormed (after_fired k h)
      after = after_fired-IsWellFormed k h w'

  -- On a well-formed handler, a time-out that still arrives for a timer that is not active, whose
  -- key is the empty string then, is warned of and all the same followed through a null pointer.
  pub handle_timeout_inactive :
      (s : S) (k : K)
      → IsWellFormed (handler s)
      → active ((handler s).timers k) ≡ false
      → handle_timeout handler put fired ((handler s).timers k).key s ≡ err null_pointer
  unfolding handle_timeout
  handle_timeout_inactive s k w off =
      elim (Option-cases (find_key ((handler s).timers k).key (handler s).active_timers)) [
        | inl gone ↦ rw (gone, handle_timeout)
        | inr (j, there) ↦
            absurd
              (ground (arith, w.live ((handler s).timers k).key j there, w.idle k off, w.keyed j))
      ]
