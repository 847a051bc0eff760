-- ===== src/Timers.antt =====
-- common/TimerHandler.h: a set of timers over an ACE reactor.
--
-- `K` is the type of the handler's event types (the template's parameter pack) and `A` the type of
-- their arguments. Every caller leaves a timer's name at its default "", so an event type has one
-- timer, and `get_timer` is `timers`. A shared pointer to a timer is its event type.
pub mod WellFormed
pub mod Calls
pub mod Armed
pub mod CancelAll
pub mod Refinement
pub mod Specification
pub mod Timeout
use developer_resources.Prelude.{
  ℕ, suc, ◌+◌, ◌/◌, ◌%◌, Bool, true, false, Option, none, some, List, [], ◌∷◌, ◌==◌, ◌&&◌,
  if◌then◌else◌, Eq, Result, ok, err, ◌>>=◌,
}

-- The key of an active timer is `std::to_string(id) + "_" + EventType::name()`; two such strings
-- are equal exactly if the ids and the names are. `cleared` is the empty string.
pub data TimerKey (K : Type 0) : Type 0 where
  cleared : TimerKey K
  key_of : ℕ → K → TimerKey K

-- Times are in nanoseconds; 0 is `null_timer_id`.
pub record Timer (K A : Type 0) : Type 0 where
  pub id : ℕ
  pub key : TimerKey K
  pub arg : A
  pub period : ℕ
  pub delay : ℕ
  pub exit_after : Bool

-- Whole seconds and the microseconds of the rest; the rest below a microsecond is cut off.
unfoldable pub to_time_value : ℕ → ℕ × ℕ
to_time_value duration = (duration / 1000000000, duration % 1000000000 / 1000)

-- What the handler asks of the reactor; `schedule_timer` has the delay and the period.
pub data ReactorCall (K : Type 0) : Type 0 where
  schedule_timer : K → ℕ × ℕ → ℕ × ℕ → ReactorCall K
  cancel_timer : ℕ → ReactorCall K
  end_event_loop : ReactorCall K

-- The reactor is not part of this repository: `ids n` is the id that it returns to the n-th call
-- of `schedule_timer`, and `calls` are the calls made so far, the latest first.
pub record Reactor (K : Type 0) : Type 0 where
  pub ids : ℕ → ℕ
  pub issued : ℕ
  pub calls : List (ReactorCall K)

pub record TimerHandler (K A : Type 0) : Type 0 where
  pub timers : K → Timer K A
  pub active_timers : List (TimerKey K × K)
  pub reactor : Reactor K

-- A timer already active is scheduled (the `std::runtime_error` of `assert_inactive`), or a
-- pointer that is null is followed.
pub data Fault : Type 0 where
  already_active null_pointer : Fault

abbrev pub active : {K A : Type 0} → Timer K A → Bool
active t = if t.id == 0 then false else true

module _ {K : Type 0} ⦃e : Eq K⦄ where
  abbrev pub key_eq : TimerKey K → TimerKey K → Bool
  key_eq cleared cleared = true
  key_eq cleared (key_of i k) = false
  key_eq (key_of i k) cleared = false
  key_eq (key_of i k) (key_of j l) = i == j && e.beq k l

  -- `std::map::find` of the active timers.
  unfoldable pub find_key : TimerKey K → List (TimerKey K × K) → Option K
  find_key key [] = none
  find_key key ((j, k) ∷ m) = if key_eq j key then some k else find_key key m

  -- `active_timers_[key] = timer`.
  unfoldable pub assign_key : TimerKey K → K → List (TimerKey K × K) → List (TimerKey K × K)
  assign_key key k [] = (key, k) ∷ []
  assign_key key k ((j, l) ∷ m) = if key_eq j key then (j, k) ∷ m else (j, l) ∷ assign_key key k m

  unfoldable pub erase_key : TimerKey K → List (TimerKey K × K) → List (TimerKey K × K)
  erase_key key [] = []
  erase_key key ((j, l) ∷ m) =
      let rest = erase_key key m in if key_eq j key then rest else (j, l) ∷ rest

  abbrev pub set_timer : {A : Type 0} → K → Timer K A → (K → Timer K A) → K → Timer K A
  set_timer k t timers j = if e.beq k j then t else timers j

abbrev pub call : {K : Type 0} → ReactorCall K → Reactor K → Reactor K
call c r = record r { calls = c ∷ r.calls }

-- `reactor_->schedule_timer`, with the id that it returns.
abbrev pub issue : {K : Type 0} → K → ℕ → ℕ → Reactor K → Reactor K × ℕ
issue k delay period r = (
  record (call (schedule_timer k (to_time_value delay) (to_time_value period)) r) {
    issued = suc r.issued;
  },
  r.ids r.issued,
)

abbrev pub activate : {K A : Type 0} → K → ℕ → Timer K A → Timer K A
activate k a_id t = record t { id = a_id; key = key_of a_id k }

abbrev pub deactivate : {K A : Type 0} → Timer K A → Timer K A
deactivate t = record t { id = 0; key = cleared }

module _ {K A : Type 0} ⦃e : Eq K⦄ where
  -- The part of `schedule(timer)` behind `assert_inactive`.
  unfoldable pub start : K → TimerHandler K A → TimerHandler K A
  start k h =
      let timer = h.timers k in
      let (reactor', id) = issue k timer.delay timer.period h.reactor in
      record {
        timers = set_timer k (activate k id timer) h.timers;
        active_timers = assign_key (key_of id k) k h.active_timers;
        reactor = reactor';
      }

  unfoldable pub schedule_timer_of : K → TimerHandler K A → Result Fault (TimerHandler K A)
  schedule_timer_of k h = if active (h.timers k) then err already_active else ok (start k h)

  -- `schedule(name, arg, period, delay)`. The timer's fields change only if it is inactive.
  unfoldable pub schedule : K → A → ℕ → ℕ → TimerHandler K A → Result Fault (TimerHandler K A)
  unfolding schedule_timer_of
  schedule k arg period delay h =
      let timer = h.timers k in
      if active timer
      then err already_active
      else schedule_timer_of k (record h {
        timers = set_timer k (record timer { arg = arg; period = period; delay = delay }) h.timers;
      })

  unfoldable pub schedule_once : K → A → ℕ → TimerHandler K A → Result Fault (TimerHandler K A)
  unfolding schedule
  schedule_once k arg delay h = schedule k arg 0 delay h

  unfoldable pub timer_wont_run : K → TimerHandler K A → TimerHandler K A
  timer_wont_run k h = record h {
    timers = set_timer k (deactivate (h.timers k)) h.timers;
    active_timers = erase_key (h.timers k).key h.active_timers;
  }

  unfoldable pub cancel : K → TimerHandler K A → TimerHandler K A
  unfolding timer_wont_run
  cancel k h =
      if active (h.timers k)
      then timer_wont_run k (record h { reactor = call (cancel_timer (h.timers k).id) h.reactor })
      else h

  unfoldable pub reschedule : K → TimerHandler K A → Result Fault (TimerHandler K A)
  unfolding cancel schedule_timer_of
  reschedule k h = schedule_timer_of k (cancel k h)

  -- The loop of `cancel_all` over the active timers, which leaves the map to its end.
  unfoldable pub cancel_each : List (TimerKey K × K) → TimerHandler K A → TimerHandler K A
  cancel_each [] h = h
  cancel_each ((key, k) ∷ m) h = cancel_each m (record h {
    timers = set_timer k (deactivate (h.timers k)) h.timers;
    reactor = call (cancel_timer (h.timers k).id) h.reactor;
  })

  unfoldable pub cancel_all : TimerHandler K A → TimerHandler K A
  unfolding cancel_each
  cancel_all h = record (cancel_each h.active_timers h) { active_timers = [] }

  unfoldable pub end_loop_if : Bool → TimerHandler K A → TimerHandler K A
  end_loop_if true h = record h { reactor = call end_event_loop h.reactor }
  end_loop_if false h = h

  -- The part of `handle_timeout` behind `any_timer_fired`.
  unfoldable pub after_fired : K → TimerHandler K A → TimerHandler K A
  unfolding timer_wont_run end_loop_if
  after_fired k h =
      let h' = if (h.timers k).period == 0 then timer_wont_run k h else h in
      end_loop_if (h'.timers k).exit_after h'

  -- `handle_timeout` of a class with state `S` whose `any_timer_fired` is `fired`. A key that is
  -- not there gives a warning only: `operator[]` then makes a null pointer, which is followed.
  unfoldable pub handle_timeout :
      {S : Type 0}
      → (S → TimerHandler K A)
      → (TimerHandler K A → S → S)
      → (K → S → Result Fault S)
      → TimerKey K
      → S
      → Result Fault S
  unfolding after_fired
  handle_timeout handler put fired key s = elim (find_key key (handler s).active_timers) [
    | none ↦ err null_pointer
    | some k ↦ do s' ← fired k s; ok (put (after_fired k (handler s')) s')
  ]
