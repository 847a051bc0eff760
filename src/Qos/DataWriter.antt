-- ===== src/Qos/DataWriter.antt =====
-- The namespace `Qos::DataWriter` of common/QosHelper.cpp. A function keeps its QoS in a static object,
-- made at its first call (`none` before it), and returns a reference to it: `static` is that object,
-- and the result is both what is returned and the object from then on.
use developer_resources.Prelude.{Option, none, some, [], Identity}
use developer_resources.Qos.{
  DataWriterQos, EndpointQos, PolicyName, initial, strength, init_user_data,
}
use developer_resources.Qos.Profiles.{
  init_endpoint_publish_last_profile, init_endpoint_rare_profile, init_endpoint_slow_profile,
  init_endpoint_medium_profile, init_endpoint_continuous_profile, init_endpoint_command_profile,
  init_endpoint_response_profile, init_endpoint_reply_profile,
}
use developer_resources.Setup.{
  Topic, device_info, heartbeat, operator_intent_request, energy_start_stop_request, reply,
  active_microgrid_controller_state,
}

-- `init_datawriter_common` on a QoS with these endpoint policies.
abbrev pub init_datawriter_common : EndpointQos → DataWriterQos
init_datawriter_common endpoint = record {
  endpoint = endpoint;
  user_data = [];
  durability_service = initial PolicyName.durability_service;
  transport_priority = initial PolicyName.transport_priority;
  lifespan = initial PolicyName.lifespan;
  ownership_strength = strength 1;
  writer_data_lifecycle = initial PolicyName.writer_data_lifecycle;
}

abbrev pub value_or : DataWriterQos → Option DataWriterQos → DataWriterQos
value_or qos none = qos
value_or qos (some made) = made

abbrev pub set_user_data : Identity → DataWriterQos → DataWriterQos
set_user_data device_id qos = record qos { user_data = init_user_data qos.user_data device_id }

unfoldable pub get_publish_last : Option DataWriterQos → Identity → DataWriterQos
get_publish_last static device_id =
    set_user_data device_id
      (value_or (init_datawriter_common init_endpoint_publish_last_profile) static)

unfoldable pub get_rare : Option DataWriterQos → Identity → DataWriterQos
get_rare static device_id =
    set_user_data device_id (value_or (init_datawriter_common init_endpoint_rare_profile) static)

unfoldable pub get_slow : Option DataWriterQos → Identity → DataWriterQos
get_slow static device_id =
    set_user_data device_id (value_or (init_datawriter_common init_endpoint_slow_profile) static)

unfoldable pub get_medium : Option DataWriterQos → Identity → DataWriterQos
get_medium static device_id =
    set_user_data device_id (value_or (init_datawriter_common init_endpoint_medium_profile) static)

unfoldable pub get_continuous : Option DataWriterQos → Identity → DataWriterQos
get_continuous static device_id =
    set_user_data device_id
      (value_or (init_datawriter_common init_endpoint_continuous_profile) static)

unfoldable pub get_command : Option DataWriterQos → Identity → DataWriterQos
get_command static device_id =
    set_user_data device_id (value_or (init_datawriter_common init_endpoint_command_profile) static)

unfoldable pub get_response : Option DataWriterQos → Identity → DataWriterQos
get_response static device_id =
    set_user_data device_id
      (value_or (init_datawriter_common init_endpoint_response_profile) static)

unfoldable pub get_reply : Option DataWriterQos → Identity → DataWriterQos
get_reply static device_id =
    set_user_data device_id (value_or (init_datawriter_common init_endpoint_reply_profile) static)

-- `fn_map.at`; `none` where it throws `std::out_of_range`.
unfoldable pub fn_map : Topic → Option (Option DataWriterQos → Identity → DataWriterQos)
fn_map heartbeat = some get_medium
fn_map device_info = some get_publish_last
fn_map operator_intent_request = some get_command
fn_map energy_start_stop_request = some get_command
fn_map reply = some get_reply
fn_map active_microgrid_controller_state = some get_publish_last
fn_map _ = none
