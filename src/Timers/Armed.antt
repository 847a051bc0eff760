-- ===== src/Timers/Armed.antt =====
-- common/TimerHandler.h: the timers that a class arms with `schedule`, `schedule_once` or `reschedule`.
use developer_resources.Prelude.{
  List, ◌∷◌, subst, if◌then◌else◌, ℕ, ◌≡◌, refl, ◌≢◌, true, false, Eq, ok, ok_injective, ap, sym,
  ◌∙◌, Bool-cases, inl, inr, arith,
}
use developer_resources.Timers.WellFormed.{IsWellFormed, start-IsWellFormed}
use developer_resources.Timers.{
  TimerHandler, ReactorCall, cancel_timer, schedule_timer, to_time_value, active, start,
  schedule_timer_of, schedule, cancel, reschedule, schedule_once,
}
use developer_resources.Timers.Calls.{
  IdsAreValid, SameButFor, configure, configure-IsWellFormed, schedule-start, cancel-IsWellFormed,
  cancel_reactor,
}

module _ {K A : Type 0} ⦃e : Eq K⦄ where
  -- How a handler looks after `schedule_once` has armed a timer.
  pub record IsArmed (k : K) (arg : A) (h h' : TimerHandler K A) : Type 0 where
    pub well_formed : IsWellFormed h'
    pub on : active (h'.timers k) ≡ true
    pub once : (h'.timers k).period ≡ 0
    pub same_arg : (h'.timers k).arg ≡ arg
    pub same_ids : h'.reactor.ids ≡ h.reactor.ids
    pub others : SameButFor k h h'

  pub schedule_once-IsArmed :
      (k : K) (arg : A) (delay : ℕ) (h : TimerHandler K A)
      → IsWellFormed h
      → IdsAreValid h.reactor
      → active (h.timers k) ≡ false
      → (h' : TimerHandler K A) × (schedule_once k arg delay h ≡ ok h') × IsArmed k arg h h'
  unfolding schedule_once start
  schedule_once-IsArmed k arg delay h w valid off =
      let c = configure k arg 0 delay h in
      (
        start k c,
        schedule-start k arg 0 delay h off,
        record {
          well_formed =
              start-IsWellFormed k c (configure-IsWellFormed k arg 0 delay h w)
                (ground (arith, e.beq_iff k k)) (valid h.reactor.issued);
          on = ground (arith, e.beq_iff k k, valid h.reactor.issued);
          once = ground (arith, e.beq_iff k k);
          same_arg = ground (arith, e.beq_iff k k);
          same_ids = refl;
          others = λ j ne. ground arith;
        },
      )

  -- `reschedule` arms a timer with no period, whether or not it is active.
  pub reschedule-IsArmed :
      (k : K) (h : TimerHandler K A)
      → IsWellFormed h
      → IdsAreValid h.reactor
      → (h.timers k).period ≡ 0
      → (h' : TimerHandler K A) × (reschedule k h ≡ ok h') × IsArmed k (h.timers k).arg h h'
  unfolding reschedule start
  reschedule-IsArmed k h w valid none_left =
      let c = cancel k h in
      let (kept, off, others, told) = cancel-IsWellFormed k h w in
      let (ids, delay, period, arg) = cancel_reactor k h in
      let fresh : c.reactor.ids c.reactor.issued ≢ 0 = rw ids (valid c.reactor.issued) in
      (
        start k c,
        rw (off, schedule_timer_of),
        record {
          well_formed = start-IsWellFormed k c kept off fresh;
          on = ground (arith, e.beq_iff k k);
          once = ground (arith, e.beq_iff k k);
          same_arg = ground (arith, e.beq_iff k k);
          same_ids = ids;
          others = λ j ne. ground (arith, others j ne);
        },
      )

  pub schedule_once_delay :
      (k : K) (arg : A) (delay : ℕ) (h h' : TimerHandler K A)
      → active (h.timers k) ≡ false
      → schedule_once k arg delay h ≡ ok h'
      → (h'.timers k).delay ≡ delay
  unfolding schedule_once start
  schedule_once_delay k arg delay h h' off run =
      let same : start k (configure k arg 0 delay h) ≡ h' =
        ok_injective (schedule-start k arg 0 delay h off) run in
      ap (λ g. (g.timers k).delay) (sym same) ∙ ground (arith, e.beq_iff k k)

  -- `reschedule` takes the delay that the timer has.
  pub reschedule_delay :
      (k : K) (h h' : TimerHandler K A)
      → reschedule k h ≡ ok h'
      → (h'.timers k).delay ≡ (h.timers k).delay
  unfolding reschedule start
  reschedule_delay k h h' run = elim (Bool-cases (active ((cancel k h).timers k))) [
    | inl still ↦ cc (rw (still, schedule_timer_of) at run)
    | inr off ↦
        let done : schedule_timer_of k (cancel k h) ≡ ok (start k (cancel k h)) =
          rw (off, schedule_timer_of) in
        let same : start k (cancel k h) ≡ h' = ok_injective done run in
        let (ids, delay, period, arg) = cancel_reactor k h in
        ap (λ g. (g.timers k).delay) (sym same) ∙ ground (arith, e.beq_iff k k, delay)
  ]

  -- What the reactor is asked when a timer that may be active is scheduled anew.
  abbrev pub asks_stop : K → TimerHandler K A → List (ReactorCall K) → List (ReactorCall K)
  asks_stop k h calls = if active (h.timers k) then cancel_timer (h.timers k).id ∷ calls else calls

  abbrev pub asks_start : K → TimerHandler K A → ReactorCall K
  asks_start k h =
      schedule_timer k (to_time_value (h.timers k).delay) (to_time_value (h.timers k).period)

  pub reschedule_calls :
      (k : K) (h h' : TimerHandler K A)
      → IsWellFormed h
      → reschedule k h ≡ ok h'
      → h'.reactor.calls ≡ asks_start k h' ∷ asks_stop k h h.reactor.calls
  unfolding reschedule start
  reschedule_calls k h h' w run =
      let (kept, off, others, told) = cancel-IsWellFormed k h w in
      let done : schedule_timer_of k (cancel k h) ≡ ok (start k (cancel k h)) =
        rw (off, schedule_timer_of) in
      let same : start k (cancel k h) ≡ h' = ok_injective done run in
      subst (λ g. g.reactor.calls ≡ asks_start k g ∷ asks_stop k h h.reactor.calls) same
        (ground (arith, e.beq_iff k k, told))

  pub schedule_once_calls :
      (k : K) (arg : A) (delay : ℕ) (h h' : TimerHandler K A)
      → active (h.timers k) ≡ false
      → schedule_once k arg delay h ≡ ok h'
      → h'.reactor.calls ≡ asks_start k h' ∷ asks_stop k h h.reactor.calls
  unfolding schedule_once start
  schedule_once_calls k arg delay h h' off run =
      let same : start k (configure k arg 0 delay h) ≡ h' =
        ok_injective (schedule-start k arg 0 delay h off) run in
      subst (λ g. g.reactor.calls ≡ asks_start k g ∷ asks_stop k h h.reactor.calls) same
        (ground (arith, e.beq_iff k k, off))

  -- A timer scheduled with a period.
  pub schedule-IsRunning :
      (k : K) (arg : A) (period delay : ℕ) (h : TimerHandler K A)
      → IsWellFormed h
      → IdsAreValid h.reactor
      → active (h.timers k) ≡ false
      → (h' : TimerHandler K A) × (schedule k arg period delay h ≡ ok h')
        × IsWellFormed h'
        × (active (h'.timers k) ≡ true)
        × ((h'.timers k).arg ≡ arg)
        × ((h'.timers k).period ≡ period)
        × (h'.reactor.ids ≡ h.reactor.ids)
  unfolding start
  schedule-IsRunning k arg period delay h w valid off =
      let c = configure k arg period delay h in
      (
        start k c,
        schedule-start k arg period delay h off,
        start-IsWellFormed k c (configure-IsWellFormed k arg period delay h w)
            (ground (arith, e.beq_iff k k)) (valid h.reactor.issued),
        ground (arith, e.beq_iff k k, valid h.reactor.issued),
        ground (arith, e.beq_iff k k),
        ground (arith, e.beq_iff k k),
        refl,
      )
