-- ===== src/Tests/Timing.antt =====
-- common/TimerHandler.h and common/Handshaking.cpp, run on the timers of a selector and on the heartbeats.
use developer_resources.Prelude.{
  ℕ, inl, inr, subst, sym, ap, suc, ◌+◌, ◌≡◌, ◌≢◌, refl, arith, true, ◌∷◌, Identity, Result, ok,
  err, ◌⊎◌, length,
}
use developer_resources.Data.{retcode_ok, ReturnCode}
use developer_resources.Timers.{
  TimerHandler, Fault, already_active, null_pointer, active, find_key, to_time_value,
  schedule_timer, schedule, handle_timeout, start,
}
use developer_resources.Timers.WellFormed.{IsWellFormed}
use developer_resources.Timers.Calls.{schedule_cases, SameButFor}
use developer_resources.Timers.Timeout.{handle_timeout_inactive}
use developer_resources.Selector.{
  init_selector, set_writer, Event, new_controller, missed_heartbeat, event_Eq,
}
use developer_resources.Selector.Invariant.{Inv}
use developer_resources.Selector.Traces.{init_selector-Inv}
use developer_resources.Handshaking.{Handshaking, init_handshaking, start_heartbeats, time_out}
use developer_resources.Handshaking.Heartbeats
use developer_resources.Handshaking.Heartbeats.{running, beat-Inv, start_heartbeats-Inv}
use developer_resources.Tests.{mc1, pd1, all_callbacks, fresh_selector, value_or}

ids_valid : (n : ℕ) → suc n ≢ 0
ids_valid n h = omega (arith, h)

pub fresh-Inv : Inv 0 fresh_selector
fresh-Inv = init_selector-Inv 0 pd1 (λ n. suc n) all_callbacks ids_valid

schedule_cases_scheduled :
    ((active (fresh_selector.handler.timers new_controller) ≡ true)
      × (schedule new_controller mc1 0 3000000000 fresh_selector.handler ≡ err already_active))
    ⊎ ((h' : TimerHandler Event Identity) × (schedule new_controller mc1 0 3000000000
            fresh_selector.handler
          ≡ ok h')
        × IsWellFormed h'
        × (active (h'.timers new_controller) ≡ true)
        × ((h'.timers new_controller).arg ≡ mc1)
        × (h'.reactor.calls
            ≡ schedule_timer new_controller (to_time_value 3000000000) (to_time_value 0)
              ∷ fresh_selector.handler.reactor.calls)
        × SameButFor new_controller fresh_selector.handler h')
schedule_cases_scheduled =
    schedule_cases new_controller mc1 0 3000000000 fresh_selector.handler
      fresh-Inv.handler_ok.well_formed fresh-Inv.handler_ok.valid_ids

abbrev scheduled : TimerHandler Event Identity
scheduled =
    value_or (schedule new_controller mc1 0 3000000000 fresh_selector.handler)
      fresh_selector.handler

scheduled-IsWellFormed : IsWellFormed scheduled
unfolding init_selector set_writer
scheduled-IsWellFormed = elim schedule_cases_scheduled [
  | inl (on, thrown) ↦ cc on
  | inr (h', run, kept, on, arg, calls, others) ↦
      subst (λ h. IsWellFormed h) (sym (ap (λ r. value_or r fresh_selector.handler) run)) kept
]

handle_timeout_inactive_example :
    handle_timeout {S = TimerHandler Event Identity}
      (λ h. h)
      (λ h' h. h')
      (λ k h. ok h)
      (scheduled.timers missed_heartbeat).key
      scheduled
    ≡ err null_pointer
unfolding init_selector set_writer schedule start
handle_timeout_inactive_example =
    handle_timeout_inactive (λ h. h) (λ h' h. h') (λ k h. ok h) scheduled missed_heartbeat
      scheduled-IsWellFormed refl

-- A participant whose writers exist.
abbrev joined : Handshaking
joined = record (init_handshaking mc1 (λ n. suc n)) { di_dw = true; hb_dw = true }

joined-Inv : Heartbeats.Inv joined
unfolding init_handshaking find_key
joined-Inv = record {
  well_formed = record {
    keyed = λ k on. cc;
    idle = λ k off. refl;
    listed = λ k on. cc;
    live = λ key k there. cc;
  };
  valid_ids = ids_valid;
  numbered = tt;
  next = refl;
  writer = λ on. cc;
  addressed = λ on. cc;
}

abbrev pub beating : Handshaking
beating = (value_or (start_heartbeats joined) (joined, retcode_ok)).0

pub beating-Inv : Heartbeats.Inv beating
unfolding init_handshaking
beating-Inv =
    let (s', run, kept, on, sent, num, infos) = start_heartbeats-Inv joined joined-Inv refl in
    subst (λ s. Heartbeats.Inv s)
      (sym (
        ap (λ (r : Result Fault (Handshaking × ReturnCode)). (value_or r (joined, retcode_ok)).0)
          run))
      kept

beat-Inv_example :
    (s' : Handshaking) × (time_out beating ≡ ok s')
    × Heartbeats.Inv s'
    × (running s' ≡ true)
    × (length s'.heartbeats ≡ length beating.heartbeats + 1)
unfolding init_handshaking start_heartbeats schedule start
beat-Inv_example = beat-Inv beating beating-Inv refl
