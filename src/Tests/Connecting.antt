-- ===== src/Tests/Connecting.antt =====
-- cli/CLIClient.cpp: three devices to connect, and a client that knows one of two controllers.
use developer_resources.PowerDevice.{found_in}
use developer_resources.Prelude.{
  Bool, some, codes, ◌≡◌, refl, arith, true, false, List, [], ◌∷◌, ◌++◌, if◌then◌else◌, id_eq,
  Identity, find, id_eq, assign,
}
use developer_resources.Data.{DeviceRole, role_source, role_load, role_distribution, role_unknown}
use developer_resources.Client.{
  Connections, connections_of, connect_power_devices, ControllerMap, intents_to,
}
use developer_resources.Client.Topology.{TopologyOk, linked}
use developer_resources.Client.Answering.{
  answers_within, read_connections, read_connections-TopologyOk, read_connections-ended,
}
use developer_resources.Client.Controllers.{intents_to_unknown}
use developer_resources.Tests.{mc1, mc2, pd1, pd2, pd3, controller_info}

abbrev role_of : Identity → DeviceRole
role_of id =
    if id_eq id pd1
    then role_source
    else (if id_eq id pd2
        then role_distribution
        else (if id_eq id pd3 then role_load else role_unknown))

abbrev devices : List (Identity × DeviceRole)
devices = (pd1, role_source) ∷ (pd2, role_distribution) ∷ (pd3, role_load) ∷ []

empty-TopologyOk : TopologyOk role_of []
unfolding connections_of find linked found_in
empty-TopologyOk = record {
  single = λ id one. omega arith;
  both_ways = λ a b. refl;
  loose = λ a. refl;
}

-- The lines "y" and "n", and then the end of the input.
abbrev read : List Bool → Identity × List Bool
read [] = ([], [])
read (true ∷ input) = (codes "y", input)
read (false ∷ input) = (codes "n", input)

read-answers_within : (input : List Bool) → answers_within read 1 input ≡ true
unfolding answers_within id_eq
read-answers_within [] = refl
read-answers_within (true ∷ input) = refl
read-answers_within (false ∷ input) = refl

read_connections-TopologyOk_example :
    (input' : List Bool) × (pc' : Connections) × (read_connections read 1 devices
        (false ∷ true ∷ [])
        []
      ≡ some (input', pc'))
    × TopologyOk role_of pc'
unfolding id_eq
read_connections-TopologyOk_example =
    read_connections-TopologyOk read role_of 1 read-answers_within devices (false ∷ true ∷ []) []
      (refl, (refl, (refl, tt))) empty-TopologyOk

read_connections-ended_example :
    read_connections read 1 devices [] []
    ≡ some ([], connect_power_devices (λ a b. true) devices [])
read_connections-ended_example = read_connections-ended read [] refl 0 devices []

-- The source is connected to the distribution device only, although the user always says yes.
source_connections :
    (linked pd1 pd2 (connect_power_devices (λ a b. true) devices []) ≡ true)
    × (linked pd1 pd3 (connect_power_devices (λ a b. true) devices []) ≡ false)
unfolding connect_power_devices linked found_in find id_eq assign
source_connections = (refl, refl)

abbrev known_controllers : ControllerMap
known_controllers = (mc1, record { info = controller_info mc1 4; last_hb = 1000 }) ∷ []

-- The available controller stands behind one that is no longer known, and is not asked.
intents_to_unknown_example :
    intents_to 5000 known_controllers ([] ++ mc2 ∷ mc1 ∷ []) ≡ intents_to 5000 known_controllers []
unfolding find id_eq
intents_to_unknown_example = intents_to_unknown 5000 known_controllers [] (mc1 ∷ []) mc2 refl
