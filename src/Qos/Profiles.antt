-- ===== src/Qos/Profiles.antt =====
-- The profiles of common/QosHelper.cpp: the policies that readers and writers share.
use developer_resources.Qos.{
  EndpointQos, PolicyName, initial, transient_local, exclusive, reliable, period, keep_last,
}

abbrev pub init_endpoint_publish_last_profile : EndpointQos
init_endpoint_publish_last_profile = record {
  durability = transient_local;
  deadline = initial PolicyName.deadline;
  latency_budget = initial PolicyName.latency_budget;
  ownership = exclusive;
  liveliness = initial PolicyName.liveliness;
  reliability = reliable;
  destination_order = initial PolicyName.destination_order;
  history = initial PolicyName.history;
  resource_limits = initial PolicyName.resource_limits;
}

abbrev pub init_endpoint_rare_profile : EndpointQos
init_endpoint_rare_profile = record {
  durability = initial PolicyName.durability;
  deadline = period 2000 0;
  latency_budget = initial PolicyName.latency_budget;
  ownership = exclusive;
  liveliness = initial PolicyName.liveliness;
  reliability = initial PolicyName.reliability;
  destination_order = initial PolicyName.destination_order;
  history = initial PolicyName.history;
  resource_limits = initial PolicyName.resource_limits;
}

abbrev pub init_endpoint_slow_profile : EndpointQos
init_endpoint_slow_profile = record {
  durability = initial PolicyName.durability;
  deadline = period 20 0;
  latency_budget = initial PolicyName.latency_budget;
  ownership = exclusive;
  liveliness = initial PolicyName.liveliness;
  reliability = initial PolicyName.reliability;
  destination_order = initial PolicyName.destination_order;
  history = initial PolicyName.history;
  resource_limits = initial PolicyName.resource_limits;
}

abbrev pub init_endpoint_medium_profile : EndpointQos
init_endpoint_medium_profile = record {
  durability = initial PolicyName.durability;
  deadline = period 3 0;
  latency_budget = initial PolicyName.latency_budget;
  ownership = exclusive;
  liveliness = initial PolicyName.liveliness;
  reliability = initial PolicyName.reliability;
  destination_order = initial PolicyName.destination_order;
  history = initial PolicyName.history;
  resource_limits = initial PolicyName.resource_limits;
}

abbrev pub init_endpoint_continuous_profile : EndpointQos
init_endpoint_continuous_profile = record {
  durability = initial PolicyName.durability;
  deadline = period 2 0;
  latency_budget = initial PolicyName.latency_budget;
  ownership = exclusive;
  liveliness = initial PolicyName.liveliness;
  reliability = initial PolicyName.reliability;
  destination_order = initial PolicyName.destination_order;
  history = initial PolicyName.history;
  resource_limits = initial PolicyName.resource_limits;
}

abbrev pub init_endpoint_command_profile : EndpointQos
init_endpoint_command_profile = record {
  durability = initial PolicyName.durability;
  deadline = initial PolicyName.deadline;
  latency_budget = initial PolicyName.latency_budget;
  ownership = exclusive;
  liveliness = initial PolicyName.liveliness;
  reliability = reliable;
  destination_order = initial PolicyName.destination_order;
  history = initial PolicyName.history;
  resource_limits = initial PolicyName.resource_limits;
}

abbrev pub init_endpoint_response_profile : EndpointQos
init_endpoint_response_profile = record {
  durability = initial PolicyName.durability;
  deadline = initial PolicyName.deadline;
  latency_budget = initial PolicyName.latency_budget;
  ownership = exclusive;
  liveliness = initial PolicyName.liveliness;
  reliability = reliable;
  destination_order = initial PolicyName.destination_order;
  history = initial PolicyName.history;
  resource_limits = initial PolicyName.resource_limits;
}

abbrev pub init_endpoint_reply_profile : EndpointQos
init_endpoint_reply_profile = record {
  durability = initial PolicyName.durability;
  deadline = initial PolicyName.deadline;
  latency_budget = initial PolicyName.latency_budget;
  ownership = exclusive;
  liveliness = initial PolicyName.liveliness;
  reliability = reliable;
  destination_order = initial PolicyName.destination_order;
  history = keep_last 128;
  resource_limits = initial PolicyName.resource_limits;
}
