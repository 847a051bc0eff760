-- ===== src/Setup/Steps.antt =====
-- The steps of each method, in the order of the code.
use developer_resources.Prelude.{List, [], ◌∷◌, ◌++◌}
use developer_resources.Setup.{
  Step, perform, require, follow, participant_factory, transport_config, Method, handshaking,
  controller, server_tms, server_sim, power_device, distribution, source, load, client_tms,
  client_sim, as_error, as_is, create_participant, create_publisher, create_subscriber,
  register_type, create_topic, create_datawriter, narrow, create_datareader, narrow_reader, Domain,
  tms, sim, Topic, device_info, heartbeat, operator_intent_request, energy_start_stop_request,
  reply, active_microgrid_controller_state, power_devices_request, controller_command,
  power_devices_reply, power_topology, power_connection, electric_current,
}

-- `Handshaking::join_domain`.
abbrev pub join_domain : List Step
join_domain =
    follow (transport_config tms)
    ∷ follow participant_factory
    ∷ perform as_error (create_participant tms)
    ∷ perform as_is (register_type tms device_info)
    ∷ perform as_error (create_topic tms device_info)
    ∷ perform as_is (register_type tms heartbeat)
    ∷ perform as_error (create_topic tms heartbeat)
    ∷ []

-- A data writer and its cast, and the registration of a type and its topic, as most methods have
-- them.
abbrev pub writer : Method → Domain → Topic → List Step
writer m d t = perform as_error (create_datawriter m d t) ∷ perform as_error (narrow m d t) ∷ []

abbrev pub topic : Domain → Topic → List Step
topic d t = perform as_error (register_type d t) ∷ perform as_error (create_topic d t) ∷ []

-- `Handshaking::create_publishers`.
abbrev pub create_publishers : List Step
create_publishers =
    require (create_topic tms device_info)
      ∷ require (create_topic tms heartbeat)
      ∷ perform as_error (create_publisher handshaking tms)
      ∷ writer handshaking tms device_info
    ++ writer handshaking tms heartbeat

-- `Handshaking::create_subscribers`.
abbrev pub create_subscribers : List Step
create_subscribers =
    require (create_topic tms device_info)
    ∷ require (create_topic tms heartbeat)
    ∷ perform as_error (create_subscriber handshaking tms)
    ∷ perform as_error (create_datareader handshaking tms device_info)
    ∷ perform as_error (create_datareader handshaking tms heartbeat)
    ∷ []

-- `Controller::init`, up to `populate_device_info`.
abbrev pub controller_init : List Step
controller_init =
    join_domain
    ++ create_subscribers
    ++ create_publishers
    ++ topic tms active_microgrid_controller_state
    ++ perform as_error (create_subscriber controller tms)
      ∷ perform as_error (create_datareader controller tms active_microgrid_controller_state)
      ∷ []

-- `CLIServer::init_tms`.
abbrev pub server_init_tms : List Step
server_init_tms =
    topic tms operator_intent_request
    ++ perform as_error (create_subscriber server_tms tms)
      ∷ perform as_error (create_datareader server_tms tms operator_intent_request)
      ∷ topic tms energy_start_stop_request
    ++ perform as_error (create_publisher server_tms tms)
      ∷ writer server_tms tms energy_start_stop_request
    ++ topic tms reply
    ++ perform as_error (create_datareader server_tms tms reply) ∷ []

-- The part of `CLIServer::init_sim` for the topology of the power simulation.
abbrev pub server_topology : List Step
server_topology =
    topic sim power_topology
    ++ perform as_error (create_datareader server_sim sim power_topology)
      ∷ topic sim power_connection
    ++ writer server_sim sim power_connection

-- `CLIServer::init_sim`.
abbrev pub server_init_sim : List Step
server_init_sim =
    perform as_error (create_participant sim)
      ∷ follow (transport_config sim)
      ∷ topic sim power_devices_request
    ++ perform as_error (create_subscriber server_sim sim)
      ∷ perform as_error (create_datareader server_sim sim power_devices_request)
      ∷ topic sim controller_command
    ++ perform as_error (create_datareader server_sim sim controller_command)
      ∷ topic sim power_devices_reply
    ++ perform as_error (create_publisher server_sim sim)
      ∷ writer server_sim sim power_devices_reply
    ++ server_topology

-- `PowerDevice::init`, up to `populate_device_info`. The writer of the controller states goes to
-- the selector.
abbrev pub power_device_init : List Step
power_device_init =
    join_domain
    ++ create_subscribers
    ++ create_publishers
    ++ topic tms energy_start_stop_request
    ++ perform as_error (create_subscriber power_device tms)
      ∷ perform as_error (create_datareader power_device tms energy_start_stop_request)
      ∷ topic tms reply
    ++ perform as_error (create_publisher power_device tms) ∷ writer power_device tms reply
    ++ perform as_is (register_type tms active_microgrid_controller_state)
      ∷ perform as_error (create_topic tms active_microgrid_controller_state)
      ∷ writer power_device tms active_microgrid_controller_state
    ++ perform as_error (create_participant sim)
      ∷ follow (transport_config sim)
      ∷ topic sim power_connection
    ++ perform as_error (create_subscriber power_device sim)
      ∷ perform as_error (create_datareader power_device sim power_connection)
      ∷ []

-- `DistributionDevice::init`, behind `PowerDevice::init`.
abbrev pub distribution_init : List Step
distribution_init =
    topic sim electric_current
    ++ perform as_error (create_publisher distribution sim)
      ∷ writer distribution sim electric_current
    ++ perform as_error (create_subscriber distribution sim)
      ∷ perform as_error (create_datareader distribution sim electric_current)
      ∷ []

-- `SourceDevice::init` and `LoadDevice::init`, behind `PowerDevice::init`.
abbrev pub source_init : List Step
source_init =
    topic sim electric_current
    ++ perform as_error (create_publisher source sim) ∷ writer source sim electric_current

abbrev pub load_init : List Step
load_init =
    topic sim electric_current
    ++ perform as_error (create_subscriber load sim)
      ∷ perform as_error (create_datareader load sim electric_current)
      ∷ []

-- `CLIClient::init_tms`.
abbrev pub client_init_tms : List Step
client_init_tms =
    join_domain
    ++ create_subscribers
    ++ topic tms operator_intent_request
    ++ perform as_error (create_publisher client_tms tms)
      ∷ writer client_tms tms operator_intent_request

-- The part of `CLIClient::init_sim` for the topology of the power simulation.
abbrev pub client_topology : List Step
client_topology = topic sim power_topology ++ writer client_sim sim power_topology

-- `CLIClient::init_sim`.
abbrev pub client_init_sim : List Step
client_init_sim =
    perform as_error (create_participant sim)
      ∷ follow (transport_config sim)
      ∷ topic sim power_devices_request
    ++ perform as_error (create_publisher client_sim sim)
      ∷ writer client_sim sim power_devices_request
    ++ topic sim controller_command
    ++ writer client_sim sim controller_command
    ++ topic sim power_devices_reply
    ++ perform as_error (create_subscriber client_sim sim)
      ∷ perform as_error (create_datareader client_sim sim power_devices_reply)
      ∷ perform as_error (narrow_reader client_sim sim power_devices_reply)
      ∷ client_topology

-- `CLIClient::init`.
abbrev pub client_init : List Step
client_init = client_init_tms ++ client_init_sim
