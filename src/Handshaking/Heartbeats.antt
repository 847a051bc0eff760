-- ===== src/Handshaking/Heartbeats.antt =====
-- common/Handshaking.cpp: the sequence of heartbeats.
use developer_resources.Prelude.{
  ℕ, ◌+◌, ◌%◌, ◌≡◌, refl, inl, inr, Bool, true, false, List, [], ◌∷◌, ok, Identity, Bool-cases,
  arith, length, ap, ◌∙◌, subst, sym, ◌≢◌,
}
use developer_resources.Data.{Heartbeat, retcode_ok}
use developer_resources.Timers.{find_key, TimerHandler, active, cancel, set_timer, after_fired}
use developer_resources.Timers.WellFormed.{IsWellFormed}
use developer_resources.Timers.Calls.{IdsAreValid, cancel-IsWellFormed, cancel_reactor}
use developer_resources.Timers.Armed.{schedule-IsRunning}
use developer_resources.Timers.Timeout.{
  handle_timeout_total, after_fired-IsWellFormed, after_fired-timers, after_fired_ids,
}
use developer_resources.Handshaking.{
  Handshaking, init_handshaking, heartbeat_event, heartbeat_event_Eq, HeartbeatEvent,
  heartbeat_period, with_handler, start_heartbeats, stop_heartbeats, timer_fired, time_out,
}

-- The sequence numbers of the heartbeats handed to the writer count up from 0, modulo 2^32, and
-- carry the identity.
abbrev pub Numbered : Identity → List Heartbeat → Type 0
Numbered id [] = Unit {0}
Numbered id (hb ∷ rest) =
    (hb.device_id ≡ id) × (hb.sequence_number ≡ length rest % 4294967296) × Numbered id rest

abbrev pub running : Handshaking → Bool
running s = active (s.handler.timers heartbeat_event)

pub record Inv (s : Handshaking) : Type 0 where
  pub well_formed : IsWellFormed s.handler
  pub valid_ids : IdsAreValid s.handler.reactor
  pub numbered : Numbered s.device_id s.heartbeats
  pub next : s.seq_num ≡ length s.heartbeats % 4294967296
  pub writer : running s ≡ true → s.hb_dw ≡ true
  pub addressed :
      running s ≡ true
      → ((s.handler.timers heartbeat_event).arg.device_id ≡ s.device_id)
        × ((s.handler.timers heartbeat_event).period ≡ heartbeat_period)

pub init_handshaking-Inv :
    (id : Identity) (ids : ℕ → ℕ) → ((n : ℕ) → ids n ≢ 0) → Inv (init_handshaking id ids)
unfolding init_handshaking find_key
init_handshaking-Inv id ids valid = record {
  well_formed = record {
    keyed = λ k on. cc;
    idle = λ k off. refl;
    listed = λ k on. cc;
    live = λ key k there. cc;
  };
  valid_ids = valid;
  numbered = tt;
  next = refl;
  writer = λ on. cc;
  addressed = λ on. cc;
}

pub init_handshaking_idle :
    (id : Identity) (ids : ℕ → ℕ) → running (init_handshaking id ids) ≡ false
unfolding init_handshaking
init_handshaking_idle id ids = refl

-- The state that `timer_fired` leaves.
abbrev fired : Handshaking → Handshaking
fired s =
    let timer = s.handler.timers heartbeat_event in
    let hb = record timer.arg { sequence_number = s.seq_num } in
    record s {
      handler = record s.handler {
        timers = set_timer heartbeat_event (record timer { arg = hb }) s.handler.timers;
      };
      seq_num = (s.seq_num + 1) % 4294967296;
      heartbeats = hb ∷ s.heartbeats;
    }

timer_fired-fired : (s : Handshaking) → s.hb_dw ≡ true → timer_fired s ≡ ok (fired s)
unfolding timer_fired
timer_fired-fired s writer = rw writer

fired-IsWellFormed : (s : Handshaking) → IsWellFormed s.handler → IsWellFormed (fired s).handler
fired-IsWellFormed s w = record {
  keyed = elim [ heartbeat_event ↦ w.keyed heartbeat_event ];
  idle = elim [ heartbeat_event ↦ w.idle heartbeat_event ];
  listed = elim [ heartbeat_event ↦ w.listed heartbeat_event ];
  live = λ key. elim [ heartbeat_event ↦ w.live key heartbeat_event ];
}

-- Where the invariant of the heartbeats holds and their timer is running, it fires without a fault
-- and goes on running, and the invariant holds again. One heartbeat more is handed over, with the
-- next number.
pub beat-Inv :
    (s : Handshaking)
    → Inv s
    → running s ≡ true
    → (s' : Handshaking) × (time_out s ≡ ok s')
      × Inv s'
      × (running s' ≡ true)
      × (length s'.heartbeats ≡ length s.heartbeats + 1)
unfolding time_out
beat-Inv s v on = (
  s',
  (handle_timeout_total (λ (t : Handshaking). t.handler) with_handler (λ _ t. timer_fired t) s
      (fired s) heartbeat_event v.well_formed on (timer_fired-fired s (v.writer on))
      (fired-IsWellFormed s v.well_formed)).0,
  record {
    well_formed = after_fired-IsWellFormed heartbeat_event h (fired-IsWellFormed s v.well_formed);
    valid_ids =
        λ n. subst (λ ids. ids n ≢ 0) (sym (after_fired_ids heartbeat_event h)) (v.valid_ids n);
    numbered = ((v.addressed on).0, v.next, v.numbered);
    next = ground (arith, v.next);
    writer = λ _. v.writer on;
    addressed = λ _. (
      ap (λ t. t.arg.device_id) same ∙ (v.addressed on).0,
      ap (λ t. t.period) same ∙ (v.addressed on).1,
    );
  },
  ap active same ∙ on,
  omega arith,
)
  where
    h : TimerHandler HeartbeatEvent Heartbeat
    h = (fired s).handler

    s' : Handshaking
    s' = with_handler (after_fired heartbeat_event h) (fired s)

    same : (after_fired heartbeat_event h).timers heartbeat_event ≡ h.timers heartbeat_event
    same = ground (arith, after_fired-timers heartbeat_event heartbeat_event h, v.addressed on)

-- With a heartbeat writer `start_heartbeats` never throws, and the timer runs after it. Nothing is
-- sent, and the numbering goes on where it was.
pub start_heartbeats-Inv :
    (s : Handshaking)
    → Inv s
    → s.hb_dw ≡ true
    → (s' : Handshaking) × (start_heartbeats s ≡ ok (s', retcode_ok))
      × Inv s'
      × (running s' ≡ true)
      × (s'.heartbeats ≡ s.heartbeats)
      × (s'.seq_num ≡ s.seq_num)
      × (s'.device_infos ≡ s.device_infos)
unfolding start_heartbeats
start_heartbeats-Inv s v writer = elim (Bool-cases (running s)) [
  | inl on ↦ (s, rw (writer, start_heartbeats) (rw on), v, on, refl, refl, refl)
  | inr off ↦
      let (h, run, kept, on, arg, period, ids) =
        schedule-IsRunning heartbeat_event (record { device_id = s.device_id; sequence_number = 0 })
          heartbeat_period 0 s.handler v.well_formed v.valid_ids off in
      (
        with_handler h s,
        rw (writer, start_heartbeats) (rw off (rw run)),
        record {
          well_formed = kept;
          valid_ids = λ n. subst (λ i. i n ≢ 0) (sym ids) (v.valid_ids n);
          numbered = v.numbered;
          next = v.next;
          writer = λ _. writer;
          addressed = λ _. (ap (λ a. a.device_id) arg, period);
        },
        on,
        refl,
        refl,
        refl,
      )
]

-- `stop_heartbeats` stops the timer, sends nothing, and keeps the numbering.
pub stop_heartbeats-Inv :
    (s : Handshaking)
    → Inv s
    → Inv (stop_heartbeats s)
      × (running (stop_heartbeats s) ≡ false)
      × ((stop_heartbeats s).heartbeats ≡ s.heartbeats)
      × ((stop_heartbeats s).seq_num ≡ s.seq_num)
unfolding stop_heartbeats
stop_heartbeats-Inv s v = elim (Bool-cases (running s)) [
  | inr off ↦ (rw (off, stop_heartbeats) v, ground arith, ground arith, ground arith)
  | inl on ↦
      let (kept, off, others, told) = cancel-IsWellFormed heartbeat_event s.handler v.well_formed in
      let stopped : Inv (with_handler (cancel heartbeat_event s.handler) s) = record {
        well_formed = kept;
        valid_ids = λ n.
            subst (λ i. i n ≢ 0) (sym (cancel_reactor heartbeat_event s.handler).0) (v.valid_ids n);
        numbered = v.numbered;
        next = v.next;
        writer = λ e. cc (off, e);
        addressed = λ e. cc (off, e);
      } in
      (rw (on, stop_heartbeats) stopped, rw (on, stop_heartbeats) off, ground arith, ground arith)
]
