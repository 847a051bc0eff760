-- ===== src/Client/Answering.antt =====
-- cli/CLIClient.cpp: `connect_power_devices` with the lines that the user answers its questions with.
--
-- The standard input is not part of this repository: `read` is the line that `getline` puts into an
-- empty string, and the input that is left. At the end of the input the string stays empty.
use developer_resources.Prelude.{
  ℕ, zero, suc, ◌≡◌, refl, sym, subst, Bool, true, false, ◌||◌, Option, none, some, List, [], ◌∷◌,
  if◌then◌else◌, Identity, id_eq, is_empty, codes, Bool-cases, inl, inr, arith,
}
use developer_resources.Data.{DeviceRole}
use developer_resources.Client.{
  Connections, can_connect, connect, connect_to, connect_power_devices,
}
use developer_resources.Client.Topology.{TopologyOk, RolesOk, connect-TopologyOk}

abbrev pub says_yes : Identity → Bool
says_yes line = is_empty line || (id_eq line (codes "y") || id_eq line (codes "Y"))

abbrev pub says_no : Identity → Bool
says_no line = id_eq line (codes "n") || id_eq line (codes "N")

module _ {Input : Type 0} (read : Input → Identity × Input) where
  -- The inner `while (true)`; `none` where the fuel is used up.
  unfoldable pub ask : ℕ → Input → Option (Bool × Input)
  ask zero input = none
  ask (suc fuel) input =
      let again = ask fuel (read input).1 in
      if says_yes (read input).0
      then some (true, (read input).1)
      else (if says_no (read input).0 then some (false, (read input).1) else again)

  -- The loop over `it2`.
  unfoldable pub read_connections_to :
      ℕ
      → Identity
      → DeviceRole
      → List (Identity × DeviceRole)
      → Input
      → Connections
      → Option (Input × Connections)
  unfolding ask can_connect connect
  read_connections_to fuel id1 role1 [] input pc = some (input, pc)
  read_connections_to fuel id1 role1 ((id2, role2) ∷ rest) input pc =
      if can_connect id1 role1 id2 role2 pc
      then elim (ask fuel input) [
        | none ↦ none
        | some (wanted, input') ↦
            read_connections_to fuel id1 role1 rest input'
              (if wanted then connect id1 role1 id2 role2 pc else pc)
      ]
      else read_connections_to fuel id1 role1 rest input pc

  -- The loop over `it1`.
  unfoldable pub read_connections :
      ℕ → List (Identity × DeviceRole) → Input → Connections → Option (Input × Connections)
  unfolding read_connections_to
  read_connections fuel [] input pc = some (input, pc)
  read_connections fuel ((id1, role1) ∷ rest) input pc =
      elim (read_connections_to fuel id1 role1 rest input pc) [
        | none ↦ none
        | some (input', pc') ↦ read_connections fuel rest input' pc'
      ]

  -- One of so many lines is an answer.
  unfoldable pub answers_within : ℕ → Input → Bool
  answers_within zero input = false
  answers_within (suc n) input =
      says_yes (read input).0 || (says_no (read input).0 || answers_within n (read input).1)

  ask_total :
      (n : ℕ) (input : Input)
      → answers_within n input ≡ true
      → (wanted : Bool) × (input' : Input) × (ask n input ≡ some (wanted, input'))
  unfolding ask answers_within
  ask_total zero input answered = ground (arith, answered)
  ask_total (suc n) input answered = elim (Bool-cases (says_yes (read input).0)) [
    | inl said ↦ (true, (read input).1, rw (said, ask) refl)
    | inr not_yes ↦ elim (Bool-cases (says_no (read input).0)) [
      | inl said ↦ (false, (read input).1, rw (not_yes, said, ask) refl)
      | inr not_no ↦
          let (wanted, input', e) =
            ask_total n (read input).1 (rw (not_yes, not_no, answers_within) at answered) in
          (wanted, input', rw (not_yes, not_no, ask) e)
    ]
  ]

  module _ (role : Identity → DeviceRole) (n : ℕ)
      (answered : (input : Input) → answers_within n input ≡ true) where
    read_connections_to-TopologyOk :
        (id1 : Identity) (ds : List (Identity × DeviceRole)) (input : Input) (pc : Connections)
        → RolesOk role ds
        → TopologyOk role pc
        → (input' : Input) × (pc' : Connections) × (read_connections_to n id1 (role id1) ds input pc
            ≡ some (input', pc'))
          × TopologyOk role pc'
    unfolding read_connections_to
    read_connections_to-TopologyOk id1 [] input pc roles v = (input, pc, refl, v)
    read_connections_to-TopologyOk id1 ((id2, role2) ∷ rest) input pc (same, roles) v =
        elim (Bool-cases (can_connect id1 (role id1) id2 role2 pc)) [
          | inr cannot ↦
              let (input', pc', e, v') = read_connections_to-TopologyOk id1 rest input pc roles v in
              (input', pc', rw (cannot, read_connections_to) e, v')
          | inl can ↦
              let (wanted, input₁, asked) = ask_total n input (answered input) in
              let ok : TopologyOk role
                  (if wanted then connect id1 (role id1) id2 role2 pc else pc) =
                kept wanted id1 id2 role2 pc same v can in
              let (input', pc', e, v') =
                read_connections_to-TopologyOk id1 rest input₁
                  (if wanted then connect id1 (role id1) id2 role2 pc else pc) roles ok in
              (input', pc', rw (can, asked, read_connections_to) e, v')
        ]
      where
        kept :
            (wanted : Bool) (id1 id2 : Identity) (role2 : DeviceRole) (pc : Connections)
            → role2 ≡ role id2
            → TopologyOk role pc
            → can_connect id1 (role id1) id2 role2 pc ≡ true
            → TopologyOk role (if wanted then connect id1 (role id1) id2 role2 pc else pc)
        kept false id1 id2 role2 pc same v can = v
        kept true id1 id2 role2 pc same v can =
            subst (λ r. TopologyOk role (connect id1 (role id1) id2 r pc)) (sym same)
              (connect-TopologyOk role id1 id2 pc v
                (subst (λ r. can_connect id1 (role id1) id2 r pc ≡ true) same can))

    -- Where one of the next `n` lines is always an answer, fuel of `n` is enough: the loops of
    -- `connect_power_devices` over devices with their roles end, and keep a topology in order: a
    -- source, a load or a storage has one connection at most, connections go both ways, and no device is
    -- connected to itself.
    pub read_connections-TopologyOk :
        (ds : List (Identity × DeviceRole)) (input : Input) (pc : Connections)
        → RolesOk role ds
        → TopologyOk role pc
        → (input' : Input) × (pc' : Connections) × (read_connections n ds input pc
            ≡ some (input', pc'))
          × TopologyOk role pc'
    unfolding read_connections
    read_connections-TopologyOk [] input pc roles v = (input, pc, refl, v)
    read_connections-TopologyOk ((id1, role1) ∷ rest) input pc (same, roles) v =
        let (input₁, pc₁, e₁, v₁) = read_connections_to-TopologyOk id1 rest input pc roles v in
        let (input', pc', e, v') = read_connections-TopologyOk rest input₁ pc₁ roles v₁ in
        (
          input',
          pc',
          rw
              (
                subst (λ r. read_connections_to n id1 r rest input pc ≡ some (input₁, pc₁))
                    (sym same) e₁,
                read_connections,
              )
              e,
          v',
        )

  -- At the end of the input.
  module _ (input : Input) (ended : read input ≡ ([], input)) where
    read_connections_to-ended :
        (fuel : ℕ) (id1 : Identity) (role1 : DeviceRole) (ds : List (Identity × DeviceRole))
        (pc : Connections)
        → read_connections_to (suc fuel) id1 role1 ds input pc
          ≡ some (input, connect_to (λ a b. true) id1 role1 ds pc)
    unfolding read_connections_to connect_to ask
    read_connections_to-ended fuel id1 role1 [] pc = refl
    read_connections_to-ended fuel id1 role1 ((id2, role2) ∷ rest) pc =
        elim (Bool-cases (can_connect id1 role1 id2 role2 pc)) [
          | inl can ↦
              rw (can, ended, read_connections_to, connect_to)
                (read_connections_to-ended fuel id1 role1 rest (connect id1 role1 id2 role2 pc))
          | inr cannot ↦
              rw (cannot, read_connections_to, connect_to)
                (read_connections_to-ended fuel id1 role1 rest pc)
        ]

    -- When the input has ended, so that `getline` leaves the string empty, no question waits any
    -- more, and each pair of devices that may be connected is: the topology is that of a user who answers
    -- yes each time.
    pub read_connections-ended :
        (fuel : ℕ) (ds : List (Identity × DeviceRole)) (pc : Connections)
        → read_connections (suc fuel) ds input pc
          ≡ some (input, connect_power_devices (λ a b. true) ds pc)
    unfolding read_connections connect_power_devices
    read_connections-ended fuel [] pc = refl
    read_connections-ended fuel ((id1, role1) ∷ rest) pc =
        rw (read_connections_to-ended fuel id1 role1 rest pc, read_connections)
          (read_connections-ended fuel rest (connect_to (λ a b. true) id1 role1 rest pc))
