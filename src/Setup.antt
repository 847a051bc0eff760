-- ===== src/Setup.antt =====
-- The creation of the DDS entities: common/Handshaking.cpp, and the `init` methods of
-- controller/Controller.cpp, controller/CLIServer.cpp, power_devices/{PowerDevice,Distribution,Source,Load}.cpp
-- and cli/CLIClient.cpp.
--
-- The DDS library is not part of this repository: `answer made c` is what it returns to the call
-- `c` after the calls `made` that succeeded, the latest first. For a call that returns a pointer,
-- any answer but OK stands for the null pointer. Listeners and QoS values are left out, and so is
-- `create_inst`, whose pointer is only handed back to the library.
pub mod Steps
pub mod Devices
pub mod Ordered
use developer_resources.Prelude.{
  ℕ, Bool, true, false, ◌&&◌, ◌||◌, List, [], ◌∷◌, ◌++◌, if◌then◌else◌, Result, ok, err,
}
use developer_resources.Timers.{Fault, null_pointer}
use developer_resources.Data.{ReturnCode, retcode_ok, retcode_error, is_ok}

pub data Domain : Type 0 where
  tms sim : Domain

pub data Topic : Type 0 where
  device_info heartbeat operator_intent_request energy_start_stop_request reply
        active_microgrid_controller_state power_devices_request controller_command
        power_devices_reply power_topology power_connection electric_current :
      Topic

-- The methods that make a subscriber or a publisher, each in a variable of its own; `handshaking`
-- are `create_subscribers` and `create_publishers`.
pub data Method : Type 0 where
  handshaking controller server_tms server_sim power_device distribution source load client_tms
        client_sim :
      Method

-- What the code asks for and follows without a test: the participant factory, and the transport
-- configuration for a domain.
pub data Pointer : Type 0 where
  participant_factory : Pointer
  transport_config : Domain → Pointer

-- The calls that can fail; `narrow` is the cast of a new data writer to the writer of its type,
-- and `narrow_reader` that of a data reader.
pub data DdsCall : Type 0 where
  obtain : Pointer → DdsCall
  create_participant : Domain → DdsCall
  create_publisher create_subscriber : Method → Domain → DdsCall
  register_type create_topic : Domain → Topic → DdsCall
  create_datawriter narrow create_datareader narrow_reader : Method → Domain → Topic → DdsCall

abbrev pub domain_eq : Domain → Domain → Bool
domain_eq tms tms = true
domain_eq sim sim = true
domain_eq _ _ = false

abbrev pub topic_eq : Topic → Topic → Bool
topic_eq device_info device_info = true
topic_eq heartbeat heartbeat = true
topic_eq operator_intent_request operator_intent_request = true
topic_eq energy_start_stop_request energy_start_stop_request = true
topic_eq reply reply = true
topic_eq active_microgrid_controller_state active_microgrid_controller_state = true
topic_eq power_devices_request power_devices_request = true
topic_eq controller_command controller_command = true
topic_eq power_devices_reply power_devices_reply = true
topic_eq power_topology power_topology = true
topic_eq power_connection power_connection = true
topic_eq electric_current electric_current = true
topic_eq _ _ = false

abbrev pub method_eq : Method → Method → Bool
method_eq handshaking handshaking = true
method_eq controller controller = true
method_eq server_tms server_tms = true
method_eq server_sim server_sim = true
method_eq power_device power_device = true
method_eq distribution distribution = true
method_eq source source = true
method_eq load load = true
method_eq client_tms client_tms = true
method_eq client_sim client_sim = true
method_eq _ _ = false

abbrev pub pointer_eq : Pointer → Pointer → Bool
pointer_eq participant_factory participant_factory = true
pointer_eq (transport_config d) (transport_config e) = domain_eq d e
pointer_eq _ _ = false

abbrev pub call_eq : DdsCall → DdsCall → Bool
call_eq (create_participant d) (create_participant e) = domain_eq d e
call_eq (obtain p) (obtain q) = pointer_eq p q
call_eq (create_publisher m d) (create_publisher n e) = method_eq m n && domain_eq d e
call_eq (create_subscriber m d) (create_subscriber n e) = method_eq m n && domain_eq d e
call_eq (register_type d t) (register_type e u) = domain_eq d e && topic_eq t u
call_eq (create_topic d t) (create_topic e u) = domain_eq d e && topic_eq t u
call_eq (create_datawriter m d t) (create_datawriter n e u) =
    method_eq m n && domain_eq d e && topic_eq t u
call_eq (narrow m d t) (narrow n e u) = method_eq m n && domain_eq d e && topic_eq t u
call_eq (create_datareader m d t) (create_datareader n e u) =
    method_eq m n && domain_eq d e && topic_eq t u
call_eq (narrow_reader m d t) (narrow_reader n e u) = method_eq m n && domain_eq d e && topic_eq t u
call_eq _ _ = false

-- The call has succeeded before.
unfoldable pub has_made : DdsCall → List DdsCall → Bool
has_made c [] = false
has_made c (x ∷ made) = let later = has_made c made in if call_eq x c then true else later

-- What is returned when a call fails: `RETCODE_ERROR`, or what the call returned.
pub data Report : Type 0 where
  as_error as_is : Report

abbrev pub report : Report → ReturnCode → ReturnCode
report as_error rc = retcode_error
report as_is rc = rc

-- One `if (failed) return` of a method: a call, or a guard on an entity made before; or a pointer
-- that is followed.
pub data Step : Type 0 where
  perform : Report → DdsCall → Step
  require : DdsCall → Step
  follow : Pointer → Step

module _ (answer : List DdsCall → DdsCall → ReturnCode) where
  -- The calls that succeed, and what is returned, or the fault of a null pointer.
  unfoldable pub run_steps : List Step → List DdsCall → List DdsCall × Result Fault ReturnCode
  unfolding has_made
  run_steps [] made = (made, ok retcode_ok)
  run_steps (perform how c ∷ rest) made =
      let later = run_steps rest (c ∷ made) in
      if is_ok (answer made c) then later else (made, ok (report how (answer made c)))
  run_steps (require c ∷ rest) made =
      let later = run_steps rest made in if has_made c made then later else (made, ok retcode_error)
  run_steps (follow p ∷ rest) made =
      let later = run_steps rest (obtain p ∷ made) in
      if is_ok (answer made (obtain p)) then later else (made, err null_pointer)
