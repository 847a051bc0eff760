-- ===== src/Client/Topology.antt =====
-- cli/CLIClient.cpp: what holds of the topology, whatever the user answers.
use developer_resources.Prelude.{
  ◌≤◌, ◌≡◌, ap, subst, sym, ◌∙◌, Bool, true, false, ◌&&◌, ◌||◌, List, [], ◌∷◌, if◌then◌else◌,
  Identity, id_eq, id_eq_iff, find-assign, length, All, Bool-cases, inl, inr, arith,
}
use developer_resources.Data.{DeviceRole}
use developer_resources.PowerDevice.{ConnectedDevice, found_in}
use developer_resources.Client.{
  Connections, connections_of, insert_device, set_has, insert_connection, has_none,
  is_single_port_device, can_connect, connect, connect_to, connect_power_devices,
}

-- The second device is among those connected to the first.
unfoldable pub linked : Identity → Identity → Connections → Bool
linked a b pc = found_in b (connections_of a pc)

-- A device with a single port has one connection at most; connections go both ways; no device is
-- connected to itself.
pub record TopologyOk (role : Identity → DeviceRole) (pc : Connections) : Type 0 where
  pub single :
      (id : Identity) → is_single_port_device (role id) ≡ true → length (connections_of id pc) ≤ 1
  pub both_ways : (a b : Identity) → linked a b pc ≡ linked b a pc
  pub loose : (a : Identity) → linked a a pc ≡ false

connections_of-insert_connection :
    (id j : Identity) (d : ConnectedDevice) (pc : Connections)
    → connections_of j (insert_connection id d pc)
      ≡ (if id_eq id j then insert_device d (connections_of id pc) else connections_of j pc)
unfolding insert_connection
connections_of-insert_connection id j d pc =
    ground (arith, find-assign id j (insert_device d (connections_of id pc)) pc)

found_in-set_has :
    (d : ConnectedDevice) (ds : List ConnectedDevice)
    → set_has d ds ≡ true
    → found_in d.id ds ≡ true
unfolding set_has found_in
found_in-set_has d [] h = h
found_in-set_has d (e ∷ es) h = ground (arith, h, found_in-set_has d es)

found_in-insert_device :
    (d : ConnectedDevice) (b : Identity) (ds : List ConnectedDevice)
    → found_in b (insert_device d ds) ≡ (id_eq d.id b || found_in b ds)
unfolding insert_device found_in
found_in-insert_device d b ds = ground (arith, id_eq_iff d.id b, found_in-set_has d ds)

linked-insert_connection :
    (id a b : Identity) (d : ConnectedDevice) (pc : Connections)
    → linked a b (insert_connection id d pc) ≡ ((id_eq id a && id_eq d.id b) || linked a b pc)
unfolding linked
linked-insert_connection id a b d pc = ground (
  arith,
  id_eq_iff id a,
  connections_of-insert_connection id a d pc,
  found_in-insert_device d b (connections_of id pc),
)

linked-connect :
    (id1 id2 a b : Identity) (role1 role2 : DeviceRole) (pc : Connections)
    → linked a b (connect id1 role1 id2 role2 pc)
      ≡ ((id_eq id2 a && id_eq id1 b) || ((id_eq id1 a && id_eq id2 b) || linked a b pc))
unfolding connect
linked-connect id1 id2 a b role1 role2 pc =
    let d1 : ConnectedDevice = record { id = id1; role = role1 } in
    let d2 : ConnectedDevice = record { id = id2; role = role2 } in
    linked-insert_connection id2 a b d1 (insert_connection id1 d2 pc)
    ∙ ap (λ x. (id_eq id2 a && id_eq id1 b) || x) (linked-insert_connection id1 a b d2 pc)

length-insert_device :
    (d : ConnectedDevice) (ds : List ConnectedDevice)
    → has_none ds ≡ true
    → length (insert_device d ds) ≤ 1
unfolding insert_device found_in
length-insert_device d [] h = omega arith
length-insert_device d (x ∷ ds) h = ground (arith, h)

length-connect :
    (id1 id2 id : Identity) (role1 role2 : DeviceRole) (pc : Connections)
    → (id_eq id1 id ≡ true → has_none (connections_of id1 pc) ≡ true)
    → (id_eq id2 id ≡ true → has_none (connections_of id2 pc) ≡ true)
    → id_eq id1 id2 ≡ false
    → length (connections_of id pc) ≤ 1
    → length (connections_of id (connect id1 role1 id2 role2 pc)) ≤ 1
unfolding connect
length-connect id1 id2 id role1 role2 pc free1 free2 apart before =
    let d1 : ConnectedDevice = record { id = id1; role = role1 } in
    let d2 : ConnectedDevice = record { id = id2; role = role2 } in
    ground (
      arith,
      id_eq_iff id1 id,
      id_eq_iff id2 id,
      connections_of-insert_connection id2 id d1 (insert_connection id1 d2 pc),
      connections_of-insert_connection id1 id d2 pc,
      connections_of-insert_connection id1 id2 d2 pc,
      length-insert_device d1 (connections_of id2 pc),
      length-insert_device d2 (connections_of id1 pc),
    )

pub connect-TopologyOk :
    (role : Identity → DeviceRole) (id1 id2 : Identity) (pc : Connections)
    → TopologyOk role pc
    → can_connect id1 (role id1) id2 (role id2) pc ≡ true
    → TopologyOk role (connect id1 (role id1) id2 (role id2) pc)
unfolding can_connect
connect-TopologyOk role id1 id2 pc v can = record {
  single = λ id one.
      length-connect id1 id2 id (role id1) (role id2) pc
        (λ same. ground (arith, can, one, id_eq_iff id1 id))
        (λ same. ground (arith, can, one, id_eq_iff id2 id)) (ground (arith, can))
        (v.single id one);
  both_ways = λ a b. ground (
    arith,
    linked-connect id1 id2 a b (role id1) (role id2) pc,
    linked-connect id1 id2 b a (role id1) (role id2) pc,
    v.both_ways a b,
  );
  loose = λ a. ground (
    arith,
    can,
    linked-connect id1 id2 a a (role id1) (role id2) pc,
    v.loose a,
    id_eq_iff id1 a,
    id_eq_iff id2 a,
    id_eq_iff id1 id2,
  );
}

-- The devices of a list have their roles.
abbrev pub RolesOk : (Identity → DeviceRole) → List (Identity × DeviceRole) → Type 0
RolesOk role ds = All (λ d. d.1 ≡ role d.0) ds

module _ (wants : Identity → Identity → Bool) (role : Identity → DeviceRole) where
  connect_to-TopologyOk :
      (id1 : Identity) (ds : List (Identity × DeviceRole)) (pc : Connections)
      → RolesOk role ds
      → TopologyOk role pc
      → TopologyOk role (connect_to wants id1 (role id1) ds pc)
  unfolding connect_to
  connect_to-TopologyOk id1 [] pc roles v = v
  connect_to-TopologyOk id1 ((id2, role2) ∷ rest) pc (same, roles) v =
      elim (Bool-cases (can_connect id1 (role id1) id2 role2 pc && wants id1 id2)) [
        | inr kept ↦ rw (kept, connect_to) (connect_to-TopologyOk id1 rest pc roles v)
        | inl wanted ↦
            rw (wanted, connect_to)
              (connect_to-TopologyOk id1 rest (connect id1 (role id1) id2 role2 pc) roles (
                subst (λ r. TopologyOk role (connect id1 (role id1) id2 r pc)) (sym same)
                  (connect-TopologyOk role id1 id2 pc v (
                    ap (λ r. can_connect id1 (role id1) id2 r pc) (sym same)
                    ∙ ground (arith, wanted)))))
      ]

  -- Whatever the user answers, the loops of `connect_power_devices` over devices with their roles
  -- keep a topology in order: a source, a load or a storage has one connection at most, connections
  -- go both ways, and no device is connected to itself.
  pub connect_power_devices-TopologyOk :
      (ds : List (Identity × DeviceRole)) (pc : Connections)
      → RolesOk role ds
      → TopologyOk role pc
      → TopologyOk role (connect_power_devices wants ds pc)
  unfolding connect_power_devices
  connect_power_devices-TopologyOk [] pc roles v = v
  connect_power_devices-TopologyOk ((id1, role1) ∷ rest) pc (same, roles) v =
      connect_power_devices-TopologyOk rest (connect_to wants id1 role1 rest pc) roles (
        subst (λ r. TopologyOk role (connect_to wants id1 r rest pc)) (sym same)
          (connect_to-TopologyOk id1 rest pc roles v))
