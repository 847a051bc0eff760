-- ===== src/Timers/Calls.antt =====
-- common/TimerHandler.h: what `schedule`, `cancel` and `reschedule` do to a well-formed handler.
use developer_resources.Prelude.{
  ℕ, ◌+◌, ◌*◌, ◌≤◌, ◌<◌, ◌≡◌, refl, ◌∙◌, ◌≢◌, ◌⊎◌, inl, inr, true, false, ◌∷◌, if◌then◌else◌,
  Bool-cases, Eq, ok, err, arith,
}
use developer_resources.Timers.WellFormed.{
  IsWellFormed, start-IsWellFormed, timer_wont_run-IsWellFormed,
}
use developer_resources.Timers.{
  Reactor, TimerHandler, already_active, active, set_timer, start, to_time_value, schedule_timer_of,
  schedule, cancel, reschedule, call, schedule_timer, cancel_timer,
}

-- The reactor never returns the id 0 to `schedule_timer`.
abbrev pub IdsAreValid : {K : Type 0} → Reactor K → Type 0
IdsAreValid r = (n : ℕ) → r.ids n ≢ 0

module _ {K A : Type 0} ⦃e : Eq K⦄ where
  -- All timers but that of `k` are as they were.
  abbrev pub SameButFor : K → TimerHandler K A → TimerHandler K A → Type 0
  SameButFor k h h' = (j : K) → e.beq k j ≡ false → h'.timers j ≡ h.timers j

  abbrev pub configure : K → A → ℕ → ℕ → TimerHandler K A → TimerHandler K A
  configure k arg period delay h = record h {
    timers =
        set_timer k (record (h.timers k) { arg = arg; period = period; delay = delay }) h.timers;
  }

  pub configure-IsWellFormed :
      (k : K) (arg : A) (period delay : ℕ) (h : TimerHandler K A)
      → IsWellFormed h
      → IsWellFormed (configure k arg period delay h)
  configure-IsWellFormed k arg period delay h w = record {
    keyed = λ j on. ground (arith, e.beq_iff k j, w.keyed j);
    idle = λ j on. ground (arith, e.beq_iff k j, w.idle j);
    listed = λ j on. ground (arith, e.beq_iff k j, w.listed j);
    live = λ key j found. ground (arith, e.beq_iff k j, w.live key j);
  }

  pub schedule-start :
      (k : K) (arg : A) (period delay : ℕ) (h : TimerHandler K A)
      → active (h.timers k) ≡ false
      → schedule k arg period delay h ≡ ok (start k (configure k arg period delay h))
  unfolding schedule
  schedule-start k arg period delay h off = ground (arith, e.beq_iff k k)

  start_effect :
      (k : K) (h : TimerHandler K A)
      → h.reactor.ids h.reactor.issued ≢ 0
      → (active ((start k h).timers k) ≡ true)
        × (((start k h).timers k).arg ≡ (h.timers k).arg)
        × ((start k h).reactor.calls
            ≡ schedule_timer k
                (to_time_value (h.timers k).delay)
                (to_time_value (h.timers k).period)
              ∷ h.reactor.calls)
        × SameButFor k h (start k h)
  unfolding start
  start_effect k h valid =
      (ground (arith, e.beq_iff k k), ground (arith, e.beq_iff k k), refl, λ j ne. ground arith)

  -- On a well-formed handler whose reactor never returns the id 0, `schedule` throws if the timer
  -- is active. Otherwise it hands the delay and the period to the reactor, the timer is active with
  -- the new argument, no other timer changes, and the handler stays well formed.
  pub schedule_cases :
      (k : K) (arg : A) (period delay : ℕ) (h : TimerHandler K A)
      → IsWellFormed h
      → IdsAreValid h.reactor
      → ((active (h.timers k) ≡ true) × (schedule k arg period delay h ≡ err already_active))
        ⊎ ((h' : TimerHandler K A) × (schedule k arg period delay h ≡ ok h')
            × IsWellFormed h'
            × (active (h'.timers k) ≡ true)
            × ((h'.timers k).arg ≡ arg)
            × (h'.reactor.calls
                ≡ schedule_timer k (to_time_value delay) (to_time_value period) ∷ h.reactor.calls)
            × SameButFor k h h')
  unfolding schedule
  schedule_cases k arg period delay h w valid = elim (Bool-cases (active (h.timers k))) [
    | inl on ↦ inl (on, ground arith)
    | inr off ↦
        let c = configure k arg period delay h in
        let (on, same, calls, others) = start_effect k c (valid h.reactor.issued) in
        inr (
          start k c,
          schedule-start k arg period delay h off,
          start-IsWellFormed k c (configure-IsWellFormed k arg period delay h w)
              (ground (arith, e.beq_iff k k)) (valid h.reactor.issued),
          on,
          ground (arith, e.beq_iff k k),
          ground (arith, e.beq_iff k k),
          λ j ne. ground (arith, others j ne),
        )
  ]

  -- After `cancel` the timer is inactive, no other timer has changed, the reactor was told exactly
  -- if the timer was active, and the handler stays well formed.
  pub cancel-IsWellFormed :
      (k : K) (h : TimerHandler K A)
      → IsWellFormed h
      → IsWellFormed (cancel k h)
        × (active ((cancel k h).timers k) ≡ false)
        × SameButFor k h (cancel k h)
        × ((cancel k h).reactor.calls ≡ (
            if active (h.timers k)
            then cancel_timer (h.timers k).id ∷ h.reactor.calls
            else h.reactor.calls))
  unfolding cancel
  cancel-IsWellFormed k h w =
      (cancelled, ground (arith, e.beq_iff k k), λ j ne. ground arith, ground arith)
    where
      asked : TimerHandler K A
      asked = record h { reactor = call (cancel_timer (h.timers k).id) h.reactor }

      asked-IsWellFormed : IsWellFormed asked
      asked-IsWellFormed = record {
        keyed = w.keyed;
        idle = w.idle;
        listed = w.listed;
        live = w.live;
      }

      cancelled : IsWellFormed (cancel k h)
      cancelled = elim (Bool-cases (active (h.timers k))) [
        | inl on ↦ rw (on, cancel) (timer_wont_run-IsWellFormed k asked asked-IsWellFormed)
        | inr off ↦ rw (off, cancel) w
      ]

  pub cancel_reactor :
      (k : K) (h : TimerHandler K A)
      → ((cancel k h).reactor.ids ≡ h.reactor.ids)
        × (((cancel k h).timers k).delay ≡ (h.timers k).delay)
        × (((cancel k h).timers k).period ≡ (h.timers k).period)
        × (((cancel k h).timers k).arg ≡ (h.timers k).arg)
  unfolding cancel
  cancel_reactor k h = ground (arith, e.beq_iff k k)

  -- On a well-formed handler whose reactor never returns the id 0, `reschedule` never throws: the
  -- timer is active after it, with its argument, the handler stays well formed, and no other timer
  -- changes.
  pub reschedule_total :
      (k : K) (h : TimerHandler K A)
      → IsWellFormed h
      → IdsAreValid h.reactor
      → (h' : TimerHandler K A) × (reschedule k h ≡ ok h')
        × IsWellFormed h'
        × (active (h'.timers k) ≡ true)
        × ((h'.timers k).arg ≡ (h.timers k).arg)
        × SameButFor k h h'
  unfolding reschedule
  reschedule_total k h w valid =
      let c = cancel k h in
      let (kept, off, others, told) = cancel-IsWellFormed k h w in
      let (ids, delay, period, arg) = cancel_reactor k h in
      let fresh : c.reactor.ids c.reactor.issued ≢ 0 = rw ids (valid c.reactor.issued) in
      let (on, same, calls, started) = start_effect k c fresh in
      (
        start k c,
        rw (off, schedule_timer_of),
        start-IsWellFormed k c kept off fresh,
        on,
        same ∙ arg,
        λ j ne. started j ne ∙ others j ne,
      )

-- The reactor is given at most the duration, less than a microsecond short of it.
pub to_time_value_bounds :
    (duration : ℕ)
    → let (sec, usec) = to_time_value duration in
      (usec < 1000000)
      × (sec * 1000000000 + usec * 1000 ≤ duration)
      × (duration < sec * 1000000000 + usec * 1000 + 1000)
unfolding to_time_value
to_time_value_bounds duration = omega arith
