-- ===== src/Lib.antt =====
-- A model of the Tactical Microgrid Standard example, tactical-microgrid-standard/, in C++ over
-- OpenDDS: microgrid controllers, power devices that each follow one controller, and a
-- command-line client that tells controllers what to do.
--
-- Parts and their files. All paths are below tactical-microgrid-standard/.
--   Prelude        library names, Boolean tests, results, device identities, maps of them, strings
--   Data           the message types of common/mil-std-3071_data_model.idl that the code uses
--   Timers         common/TimerHandler.h: schedule, schedule_once, cancel, reschedule, cancel_all and
--                  handle_timeout over a reactor
--   Selector       common/ControllerSelector.{h,cpp}: got_heartbeat, got_device_info, the four
--                  timers, select_controller and select; in Selector/Diagram the pseudo state machine that
--                  the comment of the class draws, which the code is compared with
--   Handshaking    common/Handshaking.{h,cpp}: device information and periodic heartbeats
--   Controller     controller/Controller.{h,cpp} and the listener of the devices' controller states
--   CliServer      controller/CLIServer.{h,cpp} and the other listeners of controller/
--   PowerDevice    power_devices/: PowerDevice.{h,cpp}, its two listeners, the relay of currents in
--                  Distribution.cpp, the thread of Source.cpp and the listener of Load.cpp
--   Client         cli/CLIClient.{h,cpp}: the lines that the user enters and the loop that reads them,
--                  the controllers and devices it knows and displays, what it writes to whom, and the
--                  topology that the user sets up
--   Microgrid      a whole power device: its selector, heartbeats, ports and level, from init on
--                  through all that reaches it, and next to it the controllers that read its states
--   Setup          the init methods of Handshaking, Controller, CLIServer, PowerDevice, the three
--                  devices made from it, and CLIClient: which DDS entities they create, in which order
--   Qos            common/QosHelper.{h,cpp}: the QoS of these entities
--   Configuration  common/Configurable.h and the two classes that are configured
--   Announcing     populate_device_info of the controller and of the three devices
--   Programs       the main functions and the options they read
--   Utilities      the domain of the simulation and the product information (common/Utils.cpp), and the
--                  names that are displayed
--   Tests          states and messages to run the definitions on
--
-- How they interact. Selector and Handshaking each own a Timers.TimerHandler, whose time-outs call
-- back into them. A power device passes heartbeats and device information on to its selector, which
-- writes what it selects; the controllers read that (on_controller_states) and note it in the map
-- that the command-line server reads. The server writes requests, the device answers, and the
-- answers come back to the server. The client writes the operator's intents, commands and topology
-- that the server's listeners take. Microgrid puts the parts of one power device together, as the
-- sequence of the calls that reach it.
--
-- How code becomes definitions. An operation is a function from state to state, or to
-- `Result Fault` of it where the code can throw or follow a null pointer. A method that holds its
-- lock throughout is one step. What the outside answers is an argument: the ids that the reactor
-- hands out (`ids`, never 0 where a theorem says so), the reading of the clock (`now`), the return
-- codes of DDS and the samples that `take` gives. What the code does to the outside is a list in
-- the state, the latest first: calls of the reactor, callbacks and written samples.
--
-- Bounds. Numbers are natural numbers; unsigned 32-bit and 64-bit counters carry their `%`. Times
-- are nanoseconds, as system_clock counts them, and a difference of times is the bit pattern of an
-- int64; theorems on time suppose that `now` is below 2^63, which is the year 2262. Durations that
-- the code holds as seconds in a double are whole nanoseconds here. All recursion is structural
-- but for the `while (true)` of the two listeners that call take_next_sample (Handshaking/Readers),
-- whose fuel is one more than the samples that are there, the loop of run_cli (Client/Loop), whose
-- fuel is the rounds that are looked at, and the questions of connect_power_devices
-- (Client/Answering), whose fuel is the lines within which an answer is.
--
-- Not modelled: log messages, the layout of what is printed, threads other than by the steps they
-- take, mutexes, the wait of the client for a reply, the deletion of DDS entities, and what a transport
-- configuration holds.
-- The DDS library and ACE are arguments throughout. tests/mc-sel/ are drivers, and
-- node-websocket-chat/ is JavaScript.
pub mod Prelude
pub mod Data
pub mod Timers
pub mod Selector
pub mod Handshaking
pub mod Controller
pub mod CliServer
pub mod PowerDevice
pub mod Microgrid
pub mod Announcing
pub mod Client
pub mod Configuration
pub mod Qos
pub mod Utilities
pub mod Setup
pub mod Programs
pub mod Tests
