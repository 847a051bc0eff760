-- ===== src/Announcing.antt =====
-- controller/Controller.cpp and power_devices/{Source,Load,Distribution}.cpp: `populate_device_info` of each
-- class, the device information that it announces, in all fields that it sets.
use developer_resources.Prelude.{ℕ, Option, none, some, List, [], ◌∷◌, Identity}
use developer_resources.Data.{
  DeviceRole, DeviceInfo, EnergyStartStopLevel, role_microgrid_controller, role_source, role_load,
  role_distribution, essl_off, essl_operational,
}
use developer_resources.Setup.{energy_start_stop_request, operator_intent_request}
use developer_resources.Utilities.Products.{
  ProductInfo, TopicInfo, get_product_info, get_topic_info,
}

pub data SourceFeature : Type 0 where
  srcf_unknown srcf_genset srcf_fuel_cell srcf_solar srcf_wind srcf_vehicle : SourceFeature

pub data LoadFeature : Type 0 where
  loadf_unknown loadf_demand_response loadf_change_notification loadf_soft_start : LoadFeature

pub data DistributionFeature : Type 0 where
  distf_unknown distf_clamp_meter distf_tap_meter distf_pcc distf_feeder distf_distribution :
      DistributionFeature

pub data MicrogridControllerFeature : Type 0 where
  mcf_unknown mcf_fixed mcf_general : MicrogridControllerFeature

-- `tms::PowerPortInfo`, of which no field is set.
pub data PowerPortInfo : Type 0 where
  default_port : PowerPortInfo

pub record SourceInfo : Type 0 where
  pub features : List SourceFeature
  pub supported_energy_start_stop_levels : List EnergyStartStopLevel

pub record MicrogridControllerInfo : Type 0 where
  pub features : List MicrogridControllerFeature
  pub priority_ranking : ℕ  -- uint16

pub record PowerDeviceInfo : Type 0 where
  pub power_ports : List PowerPortInfo
  pub distribution : Option (List DistributionFeature)
  pub source : Option SourceInfo
  pub load : Option (List LoadFeature)

pub record Announcement : Type 0 where
  pub device_id : Identity
  pub role : DeviceRole
  pub product : ProductInfo
  pub topics : TopicInfo
  pub control_service : Option (Option MicrogridControllerInfo)
  pub power_device : Option PowerDeviceInfo

abbrev priority_of : Option (Option MicrogridControllerInfo) → Option (Option ℕ)
priority_of none = none
priority_of (some none) = some none
priority_of (some (some mc)) = some (some mc.priority_ranking)

-- The fields that other devices read.
abbrev pub fields_read : Announcement → DeviceInfo
fields_read a = record {
  device_id = a.device_id;
  role = a.role;
  control_service = priority_of a.control_service;
}

-- `Handshaking::get_device_info` makes an information with the identity alone. `drawn` and `clock` are
-- what the random digits of the product information are made of.
module _ (drawn : ℕ → ℕ) (clock : ℕ → ℕ) where
  unfoldable pub controller_info : Identity → ℕ → Announcement
  controller_info id priority = record {
    device_id = id;
    role = role_microgrid_controller;
    product = get_product_info drawn clock;
    topics = get_topic_info [] (energy_start_stop_request ∷ []) (operator_intent_request ∷ []);
    control_service =
        some (some (record { features = mcf_general ∷ []; priority_ranking = priority }));
    power_device = none;
  }

  unfoldable pub source_info : Identity → Announcement
  source_info id = record {
    device_id = id;
    role = role_source;
    product = get_product_info drawn clock;
    topics = get_topic_info [] [] (energy_start_stop_request ∷ []);
    control_service = none;
    power_device = some (record {
      power_ports = default_port ∷ [];
      distribution = none;
      source = some (record {
        features = srcf_genset ∷ srcf_solar ∷ [];
        supported_energy_start_stop_levels = essl_off ∷ essl_operational ∷ [];
      });
      load = none;
    });
  }

  unfoldable pub load_info : Identity → Announcement
  load_info id = record {
    device_id = id;
    role = role_load;
    product = get_product_info drawn clock;
    topics = get_topic_info [] [] [];
    control_service = none;
    power_device = some (record {
      power_ports = default_port ∷ [];
      distribution = none;
      source = none;
      load = some (loadf_demand_response ∷ []);
    });
  }

  unfoldable pub distribution_info : Identity → Announcement
  distribution_info id = record {
    device_id = id;
    role = role_distribution;
    product = get_product_info drawn clock;
    topics = get_topic_info [] [] [];
    control_service = none;
    power_device = some (record {
      power_ports = default_port ∷ default_port ∷ [];
      distribution = some (distf_feeder ∷ distf_distribution ∷ []);
      source = none;
      load = none;
    });
  }
