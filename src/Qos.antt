-- ===== src/Qos.antt =====
-- common/QosHelper.{h,cpp}: the QoS of publishers, subscribers, readers and writers, as values. The
-- policies' own contents belong to the DDS library and its participant: a policy is named here by
-- the call that makes it, with the numbers this code gives.
pub mod Profiles
pub mod DataReader
pub mod DataWriter
pub mod Matching
use developer_resources.Prelude.{ℕ, zero, suc, Bool, true, false, List, [], ◌∷◌, Identity, length}

-- `TheServiceParticipant->initial_…QosPolicy()`.
pub data PolicyName : Type 0 where
  durability deadline latency_budget ownership liveliness reliability destination_order history
        resource_limits time_based_filter reader_data_lifecycle type_consistency durability_service
        transport_priority lifespan ownership_strength writer_data_lifecycle :
      PolicyName

-- The policy a call makes. A builder starts from the initial policy and changes what it names.
pub data Policy : Type 0 where
  initial : PolicyName → Policy
  transient_local exclusive reliable : Policy
  period : ℕ → ℕ → Policy
  keep_last : ℕ → Policy
  strength : ℕ → Policy

-- The part that `DDS::DataReaderQos` and `DDS::DataWriterQos` share, which the profiles set.
pub record EndpointQos : Type 0 where
  pub durability : Policy
  pub deadline : Policy
  pub latency_budget : Policy
  pub ownership : Policy
  pub liveliness : Policy
  pub reliability : Policy
  pub destination_order : Policy
  pub history : Policy
  pub resource_limits : Policy

pub record DataReaderQos : Type 0 where
  pub endpoint : EndpointQos
  pub user_data : List ℕ
  pub time_based_filter : Policy
  pub reader_data_lifecycle : Policy
  pub type_consistency : Policy

pub record DataWriterQos : Type 0 where
  pub endpoint : EndpointQos
  pub user_data : List ℕ
  pub durability_service : Policy
  pub transport_priority : Policy
  pub lifespan : Policy
  pub ownership_strength : Policy
  pub writer_data_lifecycle : Policy

-- `DDS::SubscriberQos` and `DDS::PublisherQos`: whether the access scope is the instance, the two
-- flags of the presentation, and `autoenable_created_entities`. The partition and the group data
-- stay empty.
pub record GroupQos : Type 0 where
  pub instance_scope : Bool
  pub coherent_access : Bool
  pub ordered_access : Bool
  pub autoenable_created_entities : Bool

abbrev pub get_group_qos_profile : GroupQos
get_group_qos_profile = record {
  instance_scope = true;
  coherent_access = false;
  ordered_access = false;
  autoenable_created_entities = true;
}

-- `value.length(len)`: the first `len` bytes stay, and new ones are 0.
unfoldable pub resize : ℕ → List ℕ → List ℕ
resize zero value = []
resize (suc len) [] = 0 ∷ resize len []
resize (suc len) (x ∷ value) = x ∷ resize len value

-- `memcpy` to the start of a buffer; nothing is written behind its end.
unfoldable pub memcpy : List ℕ → List ℕ → List ℕ
memcpy buffer [] = buffer
memcpy [] (y ∷ ys) = []
memcpy (x ∷ buffer) (y ∷ ys) = y ∷ memcpy buffer ys

-- The user data, on top of what the policy held before.
unfoldable pub init_user_data : List ℕ → Identity → List ℕ
unfolding resize memcpy
init_user_data value device_id = memcpy (resize (length device_id) value) device_id
