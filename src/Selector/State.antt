-- ===== src/Selector/State.antt =====
-- common/ControllerSelector.{h,cpp}: the state of the selector, its times and its order of controllers.
use developer_resources.Prelude.{
  ℕ, ◌+◌, ◌-◌, ◌%◌, ◌≡◌, Bool, true, false, ◌&&◌, ◌||◌, Option, none, some, List, [], ◌∷◌, ltb, leb,
  ◌==◌, if◌then◌else◌, Eq, Identity, id_lt, arith,
}
use developer_resources.Data.{DeviceInfo}
use developer_resources.Timers.{TimerHandler, Timer, cleared}

-- The event types of the selector's timers. Only `NewController` carries an argument, the
-- identity; the others' empty structs are given as the empty identity.
pub data Event : Type 0 where
  new_controller missed_heartbeat lost_controller no_controllers : Event

abbrev pub event_eq : Event → Event → Bool
event_eq new_controller new_controller = true
event_eq missed_heartbeat missed_heartbeat = true
event_eq lost_controller lost_controller = true
event_eq no_controllers no_controllers = true
event_eq _ _ = false

pub event_eq_sound : (a b : Event) → event_eq a b ≡ true → a ≡ b
event_eq_sound a b h = ground arith

pub event_eq_refl : (a : Event) → event_eq a a ≡ true
event_eq_refl a = ground arith

instance abbrev pub event_Eq : Eq Event
event_Eq = record {
  beq = event_eq;
  beq_iff = λ a b. (event_eq_sound a b, λ same. rw same (event_eq_refl b));
}

pub record PrioritizedController : Type 0 where
  pub priority : ℕ
  pub id : Identity

-- What the selector does to the outside: the callbacks that it calls, and the
-- `ActiveMicrogridControllerState` samples that it writes (`masterId` is optional).
pub data Output : Type 0 where
  new_controller_callback missed_heartbeat_callback lost_controller_callback : Identity → Output
  no_controllers_callback : Output
  write_controller_state : Identity → Option Identity → Output

-- Which of the `std::function` members have been set.
pub record Callbacks : Type 0 where
  pub new_controller_set : Bool
  pub missed_heartbeat_set : Bool
  pub lost_controller_set : Bool
  pub no_controllers_set : Bool

pub record Selector : Type 0 where
  pub handler : TimerHandler Event Identity
  pub callbacks : Callbacks
  pub debug : Bool
  pub selected : Identity
  pub all_controllers : List (Identity × ℕ)
  pub prioritized_controllers : List PrioritizedController
  pub device_id : Identity
  pub amcs_dw : Bool
  pub outputs : List Output

abbrev idle_timer : Timer Event Identity
idle_timer = record { id = 0; key = cleared; arg = []; period = 0; delay = 0; exit_after = false }

-- The constructor. The callbacks are set through `ControllerCallbacks`, mostly right after it.
unfoldable pub init_selector : Identity → (ℕ → ℕ) → Callbacks → Selector
init_selector device_id ids callbacks = record {
  handler = record {
    timers = λ _. idle_timer;
    active_timers = [];
    reactor = record { ids = ids; issued = 0; calls = [] };
  };
  callbacks = callbacks;
  debug = false;
  selected = [];
  all_controllers = [];
  prioritized_controllers = [];
  device_id = device_id;
  amcs_dw = false;
  outputs = [];
}

-- `set_ActiveMicrogridControllerState_writer`, with a writer that is no null pointer.
unfoldable pub set_writer : Selector → Selector
set_writer s = record s { amcs_dw = true }

-- Delays and deadlines, in nanoseconds.
abbrev pub heartbeat_deadline : ℕ
heartbeat_deadline = 3000000000

abbrev pub new_active_controller_delay : ℕ
new_active_controller_delay = 3000000000

abbrev pub lost_active_controller_delay : ℕ
lost_active_controller_delay = 6000000000

abbrev pub no_controllers_delay : ℕ
no_controllers_delay = 10000000000

-- An `int64` is given by its bit pattern: 2^63 and above are the negative ones.
abbrev pub int64_modulus : ℕ
int64_modulus = 18446744073709551616

-- `TimePoint::min()`.
abbrev pub time_point_min : ℕ
time_point_min = 9223372036854775808

-- `now - last`, in two's complement.
unfoldable pub elapsed : ℕ → ℕ → ℕ
elapsed now last = (now + int64_modulus - last) % int64_modulus

abbrev pub is_negative : ℕ → Bool
is_negative d = leb time_point_min d

-- `last_hb < heartbeat_deadline`.
unfoldable pub before_deadline : ℕ → Bool
before_deadline last_hb = is_negative last_hb || ltb last_hb heartbeat_deadline

-- `heartbeat_deadline - last_hb`, where that is positive.
unfoldable pub left_of_deadline : ℕ → ℕ
left_of_deadline last_hb =
    if is_negative last_hb
    then heartbeat_deadline + (int64_modulus - last_hb)
    else heartbeat_deadline - last_hb

-- `std::tie(priority, id) < std::tie(lhs.priority, lhs.id)`.
unfoldable pub precedes : PrioritizedController → PrioritizedController → Bool
precedes a b = ltb a.priority b.priority || (a.priority == b.priority && id_lt a.id b.id)

-- `std::set::insert`.
unfoldable pub insert_prioritized :
    PrioritizedController → List PrioritizedController → List PrioritizedController
unfolding precedes
insert_prioritized p [] = p ∷ []
insert_prioritized p (q ∷ qs) =
    if precedes p q
    then p ∷ q ∷ qs
    else (if precedes q p then q ∷ insert_prioritized p qs else q ∷ qs)

-- The constructor of `PrioritizedController`.
abbrev pub ranking : Option (Option ℕ) → ℕ
ranking (some (some priority)) = priority
ranking (some none) = 0
ranking none = 0

abbrev pub prioritized : DeviceInfo → PrioritizedController
prioritized di = record { priority = ranking di.control_service; id = di.device_id }
