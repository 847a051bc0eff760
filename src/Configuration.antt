-- ===== src/Configuration.antt =====
-- common/Configurable.h, and the `got_config` of common/ControllerSelector.cpp and
-- controller/Controller.cpp. `convert` stands for `OpenDDS::DCPS::convertToInteger` to a Boolean.
pub mod Debugging
use developer_resources.Prelude.{
  Bool, true, false, Option, none, some, List, [], ◌∷◌, ◌++◌, if◌then◌else◌, Identity, id_eq, codes,
  length, take, substr, substr_from, OutOfRange, Result, ok, err, ◌>>=◌,
}
use developer_resources.Selector.{Selector}
use developer_resources.Selector
use developer_resources.Controller.{Controller}
use developer_resources.Controller

-- `OpenDDS::DCPS::ConfigPair`.
pub record ConfigPair : Type 0 where
  pub key : Identity
  pub value : Identity

abbrev pub set_if {ℓ} : {S : Type ℓ} → (Bool → S → S) → Option Bool → S → S
set_if set none s = s
set_if set (some b) s = set b s

module _ (convert : Identity → Option Bool) where
  -- `convert_bool`: the value it writes, if it returns true.
  unfoldable pub convert_bool : ConfigPair → Option Bool
  convert_bool pair =
      if id_eq pair.value (codes "true")
      then some true
      else (if id_eq pair.value (codes "false") then some false else convert pair.value)

  -- `ControllerSelector::got_config` and `Controller::got_config`: whether the name is a property, and
  -- the state after it.
  unfoldable pub selector_got_config : Identity → ConfigPair → Selector → Bool × Selector
  unfolding convert_bool Selector.set_debug
  selector_got_config name pair s =
      if id_eq name (codes "DEBUG")
      then (true, set_if Selector.set_debug (convert_bool pair) s)
      else (false, s)

  unfoldable pub controller_got_config : Identity → ConfigPair → Controller → Bool × Controller
  unfolding convert_bool Controller.set_debug
  controller_got_config name pair c =
      if id_eq name (codes "DEBUG")
      then (true, set_if Controller.set_debug (convert_bool pair) c)
      else (false, c)

-- A `Configurable` as its listener uses it.
pub record Configurable {ℓ} (S : Type ℓ) : Type ℓ where
  pub config_prefix : Identity
  pub got_config : Identity → ConfigPair → S → Bool × S

abbrev pub selector_configurable : (Identity → Option Bool) → Configurable Selector
selector_configurable convert = record {
  config_prefix = codes "TMS_SELECTOR";
  got_config = selector_got_config convert;
}

abbrev pub controller_configurable : (Identity → Option Bool) → Configurable Controller
controller_configurable convert = record {
  config_prefix = codes "TMS_CONTROLLER";
  got_config = controller_got_config convert;
}

module _ {ℓ} {S : Type ℓ} (configurable : Configurable S) where
  -- The listener's `prefix_`.
  abbrev pub prefix : Identity
  prefix = configurable.config_prefix ++ codes "_"

  -- A valid sample in `ConfigListener::on_data_available`, by the start of its key. A name that is no
  -- property is only logged.
  abbrev pub got_start : Bool → ConfigPair → S → Result OutOfRange S
  got_start false pair s = ok s
  got_start true pair s = do
    name ← substr_from pair.key (some (length prefix))
    ok (configurable.got_config name pair s).1

  unfoldable pub got_pair : ConfigPair → S → Result OutOfRange S
  unfolding id_eq
  got_pair pair s = do
    start ← substr pair.key 0 (length prefix)
    got_start (id_eq start prefix) pair s

  -- `ConfigListener::on_data_available`.
  unfoldable pub on_config_available : List (Bool × ConfigPair) → S → Result OutOfRange S
  unfolding got_pair
  on_config_available [] s = ok s
  on_config_available ((valid, pair) ∷ rest) s =
      if valid
      then (do s' ← got_pair pair s; on_config_available rest s')
      else on_config_available rest s
