-- ===== src/Data.antt =====
-- common/mil-std-3071_data_model.idl: the fields of the message types that the C++ code reads or
-- writes.
use developer_resources.Prelude.{ℕ, Bool, true, false, Option, Identity}

pub data DeviceRole : Type 0 where
  role_unknown role_microgrid_controller role_source role_load role_storage role_distribution
        role_microgrid_dashboard role_conversion role_monitor :
      DeviceRole

-- `controlService()->mc()->priorityRanking()` stands under two optional fields; it is a `uint16`.
pub record DeviceInfo : Type 0 where
  pub device_id : Identity
  pub role : DeviceRole
  pub control_service : Option (Option ℕ)

pub record Heartbeat : Type 0 where
  pub device_id : Identity
  pub sequence_number : ℕ  -- uint32

-- `DDS::SampleInfo`: of the instance state the code reads whether it is disposed.
pub record SampleInfo : Type 0 where
  pub valid_data : Bool
  pub disposed : Bool

abbrev pub is_controller : DeviceRole → Bool
is_controller role_microgrid_controller = true
is_controller _ = false

pub data EnergyStartStopLevel : Type 0 where
  essl_unknown essl_any essl_off essl_warm essl_idle essl_ready essl_ready_synced essl_operational :
      EnergyStartStopLevel

pub data OperatorPriorityType : Type 0 where
  opt_unknown opt_never_operate opt_always_operate opt_numeric_rank : OperatorPriorityType

pub data ReplyCode : Type 0 where
  reply_unknown reply_ok reply_bad_request reply_method_not_allowed reply_conflict reply_gone
        reply_precondition_failed reply_internal_server_error reply_not_implemented
        reply_service_unavailable reply_pending_authorization reply_not_master
        reply_permission_denied :
      ReplyCode

pub data ConfigId : Type 0 where
  config_unknown config_defaults config_active config_on_reboot config_on_comms_loss : ConfigId

pub record EnergyStartStopRequest : Type 0 where
  pub requesting_device_id : Identity
  pub target_device_id : Identity
  pub config : ConfigId
  pub sequence_id : ℕ  -- uint64
  pub from_level : EnergyStartStopLevel
  pub to_level : EnergyStartStopLevel

-- The port number of a reply is `INVALID_PORT_NUMBER` and its reason "OK" throughout.
pub record Reply : Type 0 where
  pub requesting_device_id : Identity
  pub target_device_id : Identity
  pub config : ConfigId
  pub request_sequence_id : ℕ
  pub code : ReplyCode

-- What a call of the DDS library returns: `DDS::ReturnCode_t`.
pub data ReturnCode : Type 0 where
  retcode_ok retcode_error retcode_no_data : ReturnCode
  retcode_other : ℕ → ReturnCode

abbrev pub is_ok : ReturnCode → Bool
is_ok retcode_ok = true
is_ok _ = false

abbrev pub level_eq : EnergyStartStopLevel → EnergyStartStopLevel → Bool
level_eq essl_unknown essl_unknown = true
level_eq essl_any essl_any = true
level_eq essl_off essl_off = true
level_eq essl_warm essl_warm = true
level_eq essl_idle essl_idle = true
level_eq essl_ready essl_ready = true
level_eq essl_ready_synced essl_ready_synced = true
level_eq essl_operational essl_operational = true
level_eq _ _ = false

abbrev pub role_eq : DeviceRole → DeviceRole → Bool
role_eq role_unknown role_unknown = true
role_eq role_microgrid_controller role_microgrid_controller = true
role_eq role_source role_source = true
role_eq role_load role_load = true
role_eq role_storage role_storage = true
role_eq role_distribution role_distribution = true
role_eq role_microgrid_dashboard role_microgrid_dashboard = true
role_eq role_conversion role_conversion = true
role_eq role_monitor role_monitor = true
role_eq _ _ = false
