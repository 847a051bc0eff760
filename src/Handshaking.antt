-- ===== src/Handshaking.antt =====
-- common/Handshaking.{h,cpp}: the heartbeats and the device information that a participant sends.
-- The creation of the DDS entities is in Setup.
pub mod Heartbeats
pub mod Readers
use developer_resources.Prelude.{
  ℕ, ◌+◌, ◌%◌, Bool, true, false, List, [], ◌∷◌, if◌then◌else◌, Eq, Result, ok, err, ◌>>=◌, refl,
  ◌≡◌, Identity,
}
use developer_resources.Data.{Heartbeat, DeviceInfo, ReturnCode, retcode_ok, retcode_error, is_ok}
use developer_resources.Timers.{
  TimerHandler, Timer, Fault, null_pointer, cleared, active, schedule, cancel, set_timer,
  handle_timeout,
}

-- The one event type of the handler.
pub data HeartbeatEvent : Type 0 where
  heartbeat_event : HeartbeatEvent

abbrev pub heartbeat_event_eq : HeartbeatEvent → HeartbeatEvent → Bool
heartbeat_event_eq heartbeat_event heartbeat_event = true

pub only_event : (a b : HeartbeatEvent) → a ≡ b
only_event heartbeat_event heartbeat_event = refl

pub only_event_eq : (a b : HeartbeatEvent) → heartbeat_event_eq a b ≡ true
only_event_eq heartbeat_event heartbeat_event = refl

instance abbrev pub heartbeat_event_Eq : Eq HeartbeatEvent
heartbeat_event_Eq = record {
  beq = heartbeat_event_eq;
  beq_iff = λ a b. (λ _. only_event a b, λ _. only_event_eq a b);
}

-- Which of the entities exist, and what has been handed to the two writers, the latest first.
pub record Handshaking : Type 0 where
  pub handler : TimerHandler HeartbeatEvent Heartbeat
  pub device_id : Identity
  pub di_dw : Bool
  pub hb_dw : Bool
  pub seq_num : ℕ  -- uint32
  pub heartbeats : List Heartbeat
  pub device_infos : List DeviceInfo

abbrev pub heartbeat_period : ℕ
heartbeat_period = 1000000000

abbrev pub with_handler : TimerHandler HeartbeatEvent Heartbeat → Handshaking → Handshaking
with_handler h s = record s { handler = h }

abbrev idle_timer : Timer HeartbeatEvent Heartbeat
idle_timer = record {
  id = 0;
  key = cleared;
  arg = record { device_id = []; sequence_number = 0 };
  period = 0;
  delay = 0;
  exit_after = false;
}

unfoldable pub init_handshaking : Identity → (ℕ → ℕ) → Handshaking
init_handshaking device_id ids = record {
  handler = record {
    timers = λ _. idle_timer;
    active_timers = [];
    reactor = record { ids = ids; issued = 0; calls = [] };
  };
  device_id = device_id;
  di_dw = false;
  hb_dw = false;
  seq_num = 0;
  heartbeats = [];
  device_infos = [];
}

-- The heartbeat timer has a period and no delay.
unfoldable pub start_heartbeats : Handshaking → Result Fault (Handshaking × ReturnCode)
start_heartbeats s =
    if s.hb_dw
    then (if active (s.handler.timers heartbeat_event) then ok (s, retcode_ok) else (do
      h ←
          schedule heartbeat_event (record { device_id = s.device_id; sequence_number = 0 })
            heartbeat_period 0 s.handler
      ok (with_handler h s, retcode_ok)))
    else ok (s, retcode_error)

unfoldable pub stop_heartbeats : Handshaking → Handshaking
stop_heartbeats s =
    if active (s.handler.timers heartbeat_event)
    then with_handler (cancel heartbeat_event s.handler) s
    else s

-- `registered` is whether `register_instance` returns a handle, and `rc` what `write` returns.
unfoldable pub send_device_info :
    DeviceInfo → Bool → ReturnCode → Handshaking → Result Fault (Handshaking × ReturnCode)
unfolding start_heartbeats
send_device_info di registered rc s =
    if s.di_dw
    then (if registered
        then (let s' = record s { device_infos = di ∷ s.device_infos } in
            if is_ok rc then start_heartbeats s' else ok (s', rc))
        else ok (s, retcode_error))
    else ok (s, retcode_error)

-- `timer_fired`: the argument's sequence number is set, and a copy is handed to the writer. A
-- `uint32` wraps. What `write` returns is only logged.
unfoldable pub timer_fired : Handshaking → Result Fault Handshaking
timer_fired s =
    let timer = s.handler.timers heartbeat_event in
    let hb = record timer.arg { sequence_number = s.seq_num } in
    let s' = record s {
      handler = record s.handler {
        timers = set_timer heartbeat_event (record timer { arg = hb }) s.handler.timers;
      };
      seq_num = (s.seq_num + 1) % 4294967296;
    } in
    if s.hb_dw then ok (record s' { heartbeats = hb ∷ s.heartbeats }) else err null_pointer

unfoldable pub time_out : Handshaking → Result Fault Handshaking
unfolding timer_fired
time_out s =
    handle_timeout (λ t. t.handler) with_handler (λ _ t. timer_fired t)
      (s.handler.timers heartbeat_event).key s
