-- ===== src/Timers/Specification.antt =====
-- common/TimerHandler.h: timers that are nothing but settings and a flag, without ids, keys, a map of
-- active timers or a reactor, as what the handler promises to the classes that use it.
use developer_resources.Prelude.{
  ℕ, ◌==◌, ◌≡◌, Bool, true, false, Option, none, some, if◌then◌else◌, Eq, Result, ok, err,
}
use developer_resources.Timers.{
  TimerHandler, Timer, Fault, active, schedule, cancel, reschedule, cancel_all, handle_timeout,
}
use developer_resources.Timers.WellFormed.{IsWellFormed}
use developer_resources.Timers.Calls.{IdsAreValid}

-- What a class that has timers sees of one.
pub record Setting (A : Type 0) : Type 0 where
  pub arg : A
  pub period : ℕ
  pub delay : ℕ
  pub on : Bool

-- What a class can do with its timers, and the time-out of one; `fired` does nothing here.
pub data Op (K A : Type 0) : Type 0 where
  schedules : K → A → ℕ → ℕ → Op K A
  cancels reschedules times_out : K → Op K A
  cancels_all : Op K A

abbrev pub Settings : Type 0 → Type 0 → Type 0
Settings K A = K → Setting A

module _ {K A : Type 0} ⦃e : Eq K⦄ where
  abbrev pub put : K → Setting A → Settings K A → Settings K A
  put k t m j = if e.beq k j then t else m j

  -- The specification: what each operation does to the settings, or `none` where it is refused.
  unfoldable pub specified : Op K A → Settings K A → Option (Settings K A)
  specified (schedules k arg period delay) m =
      if (m k).on
      then none
      else some (put k (record { arg = arg; period = period; delay = delay; on = true }) m)
  specified (cancels k) m = some (put k (record (m k) { on = false }) m)
  specified (reschedules k) m = some (put k (record (m k) { on = true }) m)
  specified cancels_all m = some (λ j. record (m j) { on = false })
  specified (times_out k) m =
      if (m k).on
      then some (if (m k).period == 0 then put k (record (m k) { on = false }) m else m)
      else none

  -- The operations of `TimerHandler`; the reactor hands back the key of the timer that times out.
  unfoldable pub run_op : Op K A → TimerHandler K A → Result Fault (TimerHandler K A)
  unfolding schedule cancel reschedule cancel_all handle_timeout
  run_op (schedules k arg period delay) h = schedule k arg period delay h
  run_op (cancels k) h = ok (cancel k h)
  run_op (reschedules k) h = reschedule k h
  run_op cancels_all h = ok (cancel_all h)
  run_op (times_out k) h = handle_timeout (λ s. s) (λ s _. s) (λ _ s. ok s) (h.timers k).key h

  abbrev pub view_of : Timer K A → Setting A
  view_of t = record { arg = t.arg; period = t.period; delay = t.delay; on = active t }

  abbrev pub view : TimerHandler K A → Settings K A
  view h k = view_of (h.timers k)

  pub record IsSound (h : TimerHandler K A) : Type 0 where
    pub well_formed : IsWellFormed h
    pub valid_ids : IdsAreValid h.reactor

  -- The handler does what is specified: it has the settings, or it throws where there are none.
  abbrev pub Simulates : Result Fault (TimerHandler K A) → Option (Settings K A) → Type 0
  Simulates (ok h) (some m) = IsSound h × (view h ≡ m)
  Simulates (err f) none = Unit {0}
  Simulates _ _ = ⊥
