-- ===== src/Utilities.antt =====
-- common/Utils.cpp and the names that are displayed: `CLIServer::replycode_to_string` of
-- controller/CLIServer.cpp and `CLIClient::energy_level_to_string` of cli/CLIClient.cpp.
pub mod Products
use developer_resources.Prelude.{
  ℕ, zero, suc, ◌+◌, ◌-◌, ◌<◌, ltb, ◌≡◌, ◌≢◌, refl, some, List, [], ◌∷◌, if◌then◌else◌, Identity,
  id_eq, codes, find, arith,
}
use developer_resources.Data.{
  DeviceRole, role_unknown, role_microgrid_controller, role_source, role_load, role_storage,
  role_distribution, role_microgrid_dashboard, role_conversion, role_monitor, ReplyCode,
  reply_unknown, reply_ok, reply_bad_request, reply_method_not_allowed, reply_conflict, reply_gone,
  reply_precondition_failed, reply_internal_server_error, reply_not_implemented,
  reply_service_unavailable, reply_pending_authorization, reply_not_master, reply_permission_denied,
  EnergyStartStopLevel, essl_unknown, essl_any, essl_off, essl_warm, essl_idle, essl_ready,
  essl_ready_synced, essl_operational,
}

-- `DDS::DomainId_t`, a signed 32-bit integer: `pos n`, or `negsuc n` for the negative number -1 - n.
pub data ℤ : Type 0 where
  pos negsuc : ℕ → ℤ

abbrev pub IsInt32 : ℤ → Type 0
IsInt32 (pos n) = n < 2147483648
IsInt32 (negsuc n) = n < 2147483648

unfoldable pub get_sim_domain_id : ℤ → ℤ
get_sim_domain_id (pos n) = pos (if ltb n 2147483647 then n + 1 else n - 1)
get_sim_domain_id (negsuc zero) = pos 0
get_sim_domain_id (negsuc (suc n)) = negsuc n

unfoldable pub device_role_to_string : DeviceRole → Identity
device_role_to_string role_microgrid_controller = codes "Microgrid Controller"
device_role_to_string role_source = codes "Source"
device_role_to_string role_load = codes "Load"
device_role_to_string role_storage = codes "Storage"
device_role_to_string role_distribution = codes "Distribution"
device_role_to_string role_microgrid_dashboard = codes "Microgrid Dashboard"
device_role_to_string role_conversion = codes "Conversion"
device_role_to_string role_monitor = codes "Monitor"
device_role_to_string _ = codes "Unknown"

unfoldable pub replycode_to_string : ReplyCode → Identity
replycode_to_string reply_ok = codes "OK"
replycode_to_string reply_bad_request = codes "Bad Request"
replycode_to_string reply_method_not_allowed = codes "Method Not Allowed"
replycode_to_string reply_conflict = codes "Conflict"
replycode_to_string reply_gone = codes "Gone"
replycode_to_string reply_precondition_failed = codes "Precondition Failed"
replycode_to_string reply_internal_server_error = codes "Internal Server Error"
replycode_to_string reply_not_implemented = codes "Not Implemented"
replycode_to_string reply_service_unavailable = codes "Service Unavailable"
replycode_to_string reply_pending_authorization = codes "Pending Authorization"
replycode_to_string reply_not_master = codes "Not Master"
replycode_to_string reply_permission_denied = codes "Permission Denied"
replycode_to_string _ = codes "Unknown"

unfoldable pub energy_level_to_string : EnergyStartStopLevel → Identity
energy_level_to_string essl_operational = codes "Operational"
energy_level_to_string essl_ready_synced = codes "Ready Synced"
energy_level_to_string essl_ready = codes "Ready"
energy_level_to_string essl_idle = codes "Idle"
energy_level_to_string essl_warm = codes "Warm"
energy_level_to_string essl_off = codes "Off"
energy_level_to_string essl_any = codes "Any"
energy_level_to_string _ = codes "Unknown"

-- The domain of the simulation is a 32-bit number, and another domain than that of the messages.
pub get_sim_domain_id_other :
    (id : ℤ) → IsInt32 id → IsInt32 (get_sim_domain_id id) × (get_sim_domain_id id ≢ id)
unfolding get_sim_domain_id
get_sim_domain_id_other (pos n) small = ground (arith, small)
get_sim_domain_id_other (negsuc zero) small = ground (arith, small)
get_sim_domain_id_other (negsuc (suc n)) small = ground (arith, small)

abbrev table : {V : Type 0} → (V → Identity) → List V → List (Identity × V)
table name [] = []
table name (v ∷ vs) = (name v, v) ∷ table name vs

abbrev pub roles : List (Identity × DeviceRole)
roles = table device_role_to_string (
    role_unknown ∷ role_microgrid_controller ∷ role_source ∷ role_load ∷ role_storage
    ∷ role_distribution ∷ role_microgrid_dashboard ∷ role_conversion ∷ role_monitor ∷ [])

abbrev pub reply_codes : List (Identity × ReplyCode)
reply_codes = table replycode_to_string (
    reply_unknown ∷ reply_ok ∷ reply_bad_request ∷ reply_method_not_allowed ∷ reply_conflict
    ∷ reply_gone ∷ reply_precondition_failed ∷ reply_internal_server_error ∷ reply_not_implemented
    ∷ reply_service_unavailable ∷ reply_pending_authorization ∷ reply_not_master
    ∷ reply_permission_denied ∷ [])

abbrev pub levels : List (Identity × EnergyStartStopLevel)
levels = table energy_level_to_string (
    essl_unknown ∷ essl_any ∷ essl_off ∷ essl_warm ∷ essl_idle ∷ essl_ready ∷ essl_ready_synced
    ∷ essl_operational ∷ [])

-- What is displayed of a role, a reply code or a level tells which one it is: looked up among the
-- names of all, it is found as the value it was made of.
pub names_round_trip :
    ((r : DeviceRole) → find (device_role_to_string r) roles ≡ some r)
    × ((c : ReplyCode) → find (replycode_to_string c) reply_codes ≡ some c)
    × ((l : EnergyStartStopLevel) → find (energy_level_to_string l) levels ≡ some l)
unfolding device_role_to_string replycode_to_string energy_level_to_string find id_eq
names_round_trip = (
  elim [ role_unknown ↦ refl | _ ↦ refl ],
  elim [ reply_unknown ↦ refl | _ ↦ refl ],
  elim [ essl_unknown ↦ refl | _ ↦ refl ],
)
