-- ===== src/Timers/Refinement.antt =====
-- common/TimerHandler.h against timers that are nothing but settings and a flag: no ids, no keys, no
-- map of active timers, no reactor.
use developer_resources.Prelude.{
  ℕ, ◌==◌, ◌≡◌, refl, sym, subst, fun_ext, ◌≢◌, true, false, Option, none, some, List, [], ◌∷◌,
  if◌then◌else◌, Eq, Result, ok, err, ◌>>=◌, Bool-cases, inl, inr, arith,
}
use developer_resources.Timers.Specification.{
  Op, schedules, cancels, reschedules, times_out, cancels_all, Settings, put, specified, run_op,
  view, IsSound, Simulates,
}
use developer_resources.Timers.{
  TimerKey, deactivate, call, cancel_timer, TimerHandler, Fault, already_active, null_pointer,
  active, find_key, start, schedule, cancel, reschedule, cancel_all, cancel_each, timer_wont_run,
  after_fired, schedule_timer_of, set_timer,
}
use developer_resources.Timers.WellFormed.{start-IsWellFormed}
use developer_resources.Timers.Calls.{
  configure, configure-IsWellFormed, schedule-start, cancel-IsWellFormed, cancel_reactor,
}
use developer_resources.Timers.CancelAll.{cancel_all_told}
use developer_resources.Timers.Timeout.{
  handle_timeout_total, handle_timeout_inactive, after_fired-IsWellFormed, after_fired_ids,
  after_fired-timers,
}

module _ {K A : Type 0} ⦃e : Eq K⦄ where
  gives :
      (r : Result Fault (TimerHandler K A)) (o : Option (Settings K A)) (h : TimerHandler K A)
      (m : Settings K A)
      → r ≡ ok h
      → o ≡ some m
      → IsSound h
      → ((j : K) → view h j ≡ m j)
      → Simulates r o
  gives r o h m run spec sound same =
      subst (λ x. Simulates x o) (sym run)
        (subst (λ x. Simulates (ok h) x) (sym spec) (sound, fun_ext same))

  refuses :
      (r : Result Fault (TimerHandler K A)) (o : Option (Settings K A)) (f : Fault)
      → r ≡ err f
      → o ≡ none
      → Simulates r o
  refuses r o f run spec =
      subst (λ x. Simulates x o) (sym run) (subst (λ x. Simulates (err f) x) (sym spec) tt)

  schedule-Simulates :
      (k : K) (arg : A) (period delay : ℕ) (h : TimerHandler K A)
      → IsSound h
      → Simulates
          (run_op (schedules k arg period delay) h)
          (specified (schedules k arg period delay) (view h))
  unfolding run_op specified schedule start
  schedule-Simulates k arg period delay h v = elim (Bool-cases (active (h.timers k))) [
    | inl on ↦ refuses _ _ already_active (ground (arith, on)) (rw on refl)
    | inr off ↦
        let c = configure k arg period delay h in
        gives _ _ (start k c)
          (put k (record { arg = arg; period = period; delay = delay; on = true }) (view h))
          (schedule-start k arg period delay h off) (rw off refl)
          (record {
            well_formed =
                start-IsWellFormed k c (configure-IsWellFormed k arg period delay h v.well_formed)
                  (ground (arith, e.beq_iff k k)) (v.valid_ids h.reactor.issued);
            valid_ids = v.valid_ids;
          })
          (λ j. ground (arith, e.beq_iff k k, e.beq_iff k j, v.valid_ids h.reactor.issued))
  ]

  cancel-Simulates :
      (k : K) (h : TimerHandler K A)
      → IsSound h
      → Simulates (run_op (cancels k) h) (specified (cancels k) (view h))
  unfolding run_op specified cancel timer_wont_run
  cancel-Simulates k h v =
      let (kept, off, others, told) = cancel-IsWellFormed k h v.well_formed in
      let (ids, delay, period, arg) = cancel_reactor k h in
      gives _ _ (cancel k h) _ refl refl
        (record { well_formed = kept; valid_ids = λ n. rw ids (v.valid_ids n) })
        (λ j. ground (arith, e.beq_iff k j, e.beq_iff k k))

  reschedule-Simulates :
      (k : K) (h : TimerHandler K A)
      → IsSound h
      → Simulates (run_op (reschedules k) h) (specified (reschedules k) (view h))
  unfolding run_op specified reschedule schedule_timer_of start
  reschedule-Simulates k h v =
      let c = cancel k h in
      let (kept, off, others, told) = cancel-IsWellFormed k h v.well_formed in
      let (ids, delay, period, arg) = cancel_reactor k h in
      let fresh : c.reactor.ids c.reactor.issued ≢ 0 = rw ids (v.valid_ids c.reactor.issued) in
      gives _ _ (start k c) (put k (record (view h k) { on = true }) (view h)) (rw off refl) refl
        (record {
          well_formed = start-IsWellFormed k c kept off fresh;
          valid_ids = λ n. rw ids (v.valid_ids n);
        })
        (λ j. ground (arith, e.beq_iff k j, e.beq_iff k k, others j, fresh, delay, period, arg))

  cancel_each_kept :
      (m : List (TimerKey K × K)) (h : TimerHandler K A) (j : K)
      → (((cancel_each m h).timers j).arg ≡ (h.timers j).arg)
        × (((cancel_each m h).timers j).period ≡ (h.timers j).period)
        × (((cancel_each m h).timers j).delay ≡ (h.timers j).delay)
  unfolding cancel_each
  cancel_each_kept [] h j = (refl, refl, refl)
  cancel_each_kept ((key, k) ∷ m) h j =
      let h' : TimerHandler K A = record h {
        timers = set_timer k (deactivate (h.timers k)) h.timers;
        reactor = call (cancel_timer (h.timers k).id) h.reactor;
      } in
      let (arg, period, delay) = cancel_each_kept m h' j in
      ground (arith, arg, period, delay, e.beq_iff k j)

  cancel_each_ids :
      (m : List (TimerKey K × K)) (h : TimerHandler K A)
      → (cancel_each m h).reactor.ids ≡ h.reactor.ids
  unfolding cancel_each
  cancel_each_ids [] h = refl
  cancel_each_ids ((key, k) ∷ m) h = cancel_each_ids m _

  cancel_all-Simulates :
      (h : TimerHandler K A)
      → IsSound h
      → Simulates (run_op cancels_all h) (specified cancels_all (view h))
  unfolding run_op specified cancel_all find_key
  cancel_all-Simulates h v =
      let (all_off, none_left, told) = cancel_all_told h v.well_formed in
      gives _ _ (cancel_all h) (λ j. record (view h j) { on = false }) refl refl
        (record {
          well_formed = record {
            keyed = λ k on. cc ((all_off k).0, on);
            idle = λ k off. (all_off k).1;
            listed = λ k on. cc ((all_off k).0, on);
            live = λ key k there. cc there;
          };
          valid_ids = λ n. rw (cancel_each_ids h.active_timers h) (v.valid_ids n);
        })
        (λ j. ground (arith, cancel_each_kept h.active_timers h j, all_off j))

  timeout-Simulates :
      (k : K) (h : TimerHandler K A)
      → IsSound h
      → Simulates (run_op (times_out k) h) (specified (times_out k) (view h))
  unfolding run_op specified
  timeout-Simulates k h v = elim (Bool-cases (active (h.timers k))) [
    | inr off ↦
        refuses _ _ null_pointer
          (handle_timeout_inactive (λ s. s) (λ s _. s) (λ _ s. ok s) h k v.well_formed off)
          (rw off refl)
    | inl on ↦
        gives _ _ (after_fired k h)
          (if (h.timers k).period == 0
            then put k (record (view h k) { on = false }) (view h)
            else view h)
          (handle_timeout_total (λ s. s) (λ s _. s) (λ _ s. ok s) h h k v.well_formed on refl
            v.well_formed).0
          (rw on refl)
          (record {
            well_formed = after_fired-IsWellFormed k h v.well_formed;
            valid_ids = λ n. rw (after_fired_ids k h) (v.valid_ids n);
          })
          (λ j. ground (arith, after_fired-timers k j h, e.beq_iff k j))
  ]

  op-Simulates :
      (op : Op K A) (h : TimerHandler K A)
      → IsSound h
      → Simulates (run_op op h) (specified op (view h))
  op-Simulates (schedules k arg period delay) h v = schedule-Simulates k arg period delay h v
  op-Simulates (cancels k) h v = cancel-Simulates k h v
  op-Simulates (reschedules k) h v = reschedule-Simulates k h v
  op-Simulates cancels_all h v = cancel_all-Simulates h v
  op-Simulates (times_out k) h v = timeout-Simulates k h v

  unfoldable pub run_ops : List (Op K A) → TimerHandler K A → Result Fault (TimerHandler K A)
  unfolding run_op
  run_ops [] h = ok h
  run_ops (op ∷ ops) h = do h' ← run_op op h; run_ops ops h'

  -- A specification that may refuse, and then another.
  abbrev pub and_then :
      Option (Settings K A) → (Settings K A → Option (Settings K A)) → Option (Settings K A)
  and_then none f = none
  and_then (some m) f = f m

  unfoldable pub specified_all : List (Op K A) → Settings K A → Option (Settings K A)
  unfolding specified
  specified_all [] m = some m
  specified_all (op ∷ ops) m = and_then (specified op m) (λ m'. specified_all ops m')

  and_then-Simulates :
      (r : Result Fault (TimerHandler K A)) (o : Option (Settings K A)) (ops : List (Op K A))
      → Simulates r o
      → ((h : TimerHandler K A)
          → IsSound h
          → Simulates (run_ops ops h) (specified_all ops (view h)))
      → Simulates (r >>= (λ h. run_ops ops h)) (and_then o (λ m. specified_all ops m))
  and_then-Simulates (ok h) (some m) ops (sound, same) later =
      subst (λ x. Simulates (run_ops ops h) (specified_all ops x)) same (later h sound)
  and_then-Simulates (ok h) none ops sim later = absurd sim
  and_then-Simulates (err f) (some m) ops sim later = absurd sim
  and_then-Simulates (err f) none ops sim later = tt

  -- On a well-formed handler over a reactor that never returns the id 0, any sequence of operations and
  -- time-outs does to the timers what the specification says, which knows of settings and flags only: an
  -- operation throws or faults exactly where the specification refuses it, and else leaves the settings
  -- specified in a handler that is again well formed.
  pub run_ops-Simulates :
      (ops : List (Op K A)) (h : TimerHandler K A)
      → IsSound h
      → Simulates (run_ops ops h) (specified_all ops (view h))
  unfolding run_ops specified_all
  run_ops-Simulates [] h v = (v, refl)
  run_ops-Simulates (op ∷ ops) h v =
      and_then-Simulates (run_op op h) (specified op (view h)) ops (op-Simulates op h v)
        (run_ops-Simulates ops)
