-- ===== src/Client/Gathered.antt =====
-- cli/CLIClient.cpp: what the client knows of the power devices after it has asked the controllers.
use developer_resources.Prelude.{
  ℕ, ◌+◌, ◌≡◌, refl, sym, ap, ◌∙◌, Bool, true, false, ◌&&◌, ◌||◌, Option, none, some, List, [], ◌∷◌,
  if◌then◌else◌, Identity, id_eq, id_eq_iff, id_eq_refl, find, assign, insert, erase, contains,
  find-assign, find-insert, find-erase, Bool-cases, inl, inr, arith,
}
use developer_resources.Data.{ReturnCode, is_ok}
use developer_resources.Controller.{PowerDeviceInfo, PowerDevices}
use developer_resources.Client.{ControllerInfo, ControllerMap, is_available}
use developer_resources.Client.Gathering.{
  DevicesOf, PowerDevicesReply, Answers, or_no_devices, assign_all, receive_devices,
  receive_replies, send_power_devices_request, collect, collect_power_devices, insert_all,
  insert_each, send_topology,
}

-- The reply lists a device of this identity.
unfoldable pub lists : Identity → List PowerDeviceInfo → Bool
lists id [] = false
lists id (d ∷ ds) = id_eq d.device_info.device_id id || lists id ds

-- The devices of a reply are added to those known, and none is lost.
pub find-assign_all :
    (id : Identity) (ds : List PowerDeviceInfo) (pds : PowerDevices)
    → contains (find id (assign_all ds pds)) ≡ lists id ds || contains (find id pds)
unfolding assign_all lists
find-assign_all id [] pds = refl
find-assign_all id (d ∷ ds) pds = ground (
  arith,
  find-assign_all id ds (assign d.device_info.device_id d pds),
  find-assign d.device_info.device_id id d pds,
)

-- A controller's reply does not touch what the others have told.
find-receive_replies :
    (mc_id id : Identity) (rs : List PowerDevicesReply) (m : DevicesOf)
    → id_eq mc_id id ≡ false
    → find id (receive_replies mc_id rs m) ≡ find id m
unfolding receive_replies receive_devices
find-receive_replies mc_id id [] m other = refl
find-receive_replies mc_id id (r ∷ rs) m other = ground (
  arith,
  other,
  find-receive_replies mc_id id rs m other,
  find-assign mc_id id (assign_all r.devices (or_no_devices (find mc_id m))) m,
  find-erase mc_id id m,
)

find-send_other :
    (mc_id id : Identity) (a : Answers) (m : DevicesOf)
    → id_eq mc_id id ≡ false
    → find id (send_power_devices_request mc_id a m).1 ≡ find id m
unfolding send_power_devices_request
find-send_other mc_id id a m other = ground (arith, find-receive_replies mc_id id a.replies m other)

-- What a controller's entry becomes depends on nothing but this entry.
receive_replies_local :
    (id : Identity) (rs : List PowerDevicesReply) (m m' : DevicesOf)
    → find id m ≡ find id m'
    → find id (receive_replies id rs m) ≡ find id (receive_replies id rs m')
unfolding receive_replies receive_devices
receive_replies_local id [] m m' same = same
receive_replies_local id (r ∷ rs) m m' same = rw (← same) (
    ground (
      arith,
      same,
      id_eq_refl id,
      receive_replies_local id rs m m' same,
      find-assign id id (assign_all r.devices (or_no_devices (find id m))) m,
      find-assign id id (assign_all r.devices (or_no_devices (find id m))) m',
      find-erase id id m,
      find-erase id id m',
    ))

send_local :
    (id : Identity) (a : Answers) (m m' : DevicesOf)
    → find id m ≡ find id m'
    → find id (send_power_devices_request id a m).1 ≡ find id (send_power_devices_request id a m').1
unfolding send_power_devices_request
send_local id a m m' same = ground (arith, same, receive_replies_local id a.replies m m' same)

-- The keys of `controllers_` are distinct.
abbrev pub IsMap {ℓ} : {V : Type ℓ} → List (Identity × V) → Type ℓ
IsMap {V = V} [] = Unit
IsMap ((k, v) ∷ m) = (find k m ≡ none) × IsMap m

-- The entry of one controller after the collection, from what was known before.
abbrev pub entry_after :
    ℕ → (Identity → Answers) → Identity → Option ControllerInfo → DevicesOf → Option PowerDevices
entry_after now answers id none m = find id m
entry_after now answers id (some i) m =
    if is_available now i.last_hb
    then find id (send_power_devices_request id (answers id) m).1
    else none

entry_after_local :
    (now : ℕ) (answers : Identity → Answers) (id : Identity) (known : Option ControllerInfo)
    (m m' : DevicesOf)
    → find id m ≡ find id m'
    → entry_after now answers id known m ≡ entry_after now answers id known m'
entry_after_local now answers id none m m' same = same
entry_after_local now answers id (some i) m m' same =
    ap (λ e. if is_available now i.last_hb then e else none) (send_local id (answers id) m m' same)

find-erase_other :
    (k id : Identity) (m : DevicesOf) → id_eq k id ≡ false → find id (erase k m) ≡ find id m
find-erase_other k id m other = find-erase k id m ∙ ap (λ b. if b then none else find id m) other

find-erase_same : (k id : Identity) (m : DevicesOf) → id_eq k id ≡ true → find id (erase k m) ≡ none
find-erase_same k id m same = find-erase k id m ∙ ap (λ b. if b then none else find id m) same

find-collect :
    (now : ℕ) (answers : Identity → Answers) (controllers : ControllerMap) (ret : Bool)
    (m : DevicesOf) (id : Identity)
    → IsMap controllers
    → find id (collect now answers controllers ret m).1
      ≡ entry_after now answers id (find id controllers) m
unfolding collect find
find-collect now answers [] ret m id distinct = refl
find-collect now answers ((k, i) ∷ rest) ret m id (new, distinct) =
    let asked = send_power_devices_request k (answers k) m in
    elim (Bool-cases (id_eq k id)) [
      | inl same ↦
          let own : k ≡ id = (id_eq_iff k id).0 same in
          let left : find id rest ≡ none = ap (λ j. find j rest) (sym own) ∙ new in
          elim (Bool-cases (is_available now i.last_hb)) [
            | inl on ↦
                rw (on, collect)
                  (rw (same, find)
                    (rw on (
                      find-collect now answers rest (ret && asked.0) asked.1 id distinct
                      ∙ ap (λ o. entry_after now answers id o asked.1) left
                      ∙ ap (λ j. find id (send_power_devices_request j (answers j) m).1) own)))
            | inr off ↦
                rw (off, collect)
                  (rw (same, find)
                    (rw off (
                      find-collect now answers rest ret (erase k m) id distinct
                      ∙ ap (λ o. entry_after now answers id o (erase k m)) left
                      ∙ find-erase_same k id m same)))
          ]
      | inr other ↦ elim (Bool-cases (is_available now i.last_hb)) [
        | inl on ↦
            rw (on, collect)
              (rw (other, find)
                (find-collect now answers rest (ret && asked.0) asked.1 id distinct
                  ∙ entry_after_local now answers id (find id rest) asked.1 m
                      (find-send_other k id (answers k) m other)))
        | inr off ↦
            rw (off, collect)
              (rw (other, find)
                (find-collect now answers rest ret (erase k m) id distinct
                  ∙ entry_after_local now answers id (find id rest) (erase k m) m
                      (find-erase_other k id m other)))
      ]
    ]

-- After a collection the client has, of each controller, what that controller's own entry and answers
-- make of it: of one it knows and takes for available, what the request to it leaves; of one it knows
-- and takes for unavailable, nothing; of any other, what it had. The keys of the controllers it knows
-- are distinct.
pub find-collect_power_devices :
    (now : ℕ) (answers : Identity → Answers) (controllers : ControllerMap) (m : DevicesOf)
    (id : Identity)
    → IsMap controllers
    → find id (collect_power_devices now answers controllers m).1
      ≡ entry_after now answers id (find id controllers) m
unfolding collect_power_devices
find-collect_power_devices now answers controllers m id distinct =
    find-collect now answers controllers true m id distinct

find-insert_all :
    (id : Identity) (pds into : PowerDevices)
    → contains (find id (insert_all pds into)) ≡ contains (find id pds) || contains (find id into)
unfolding insert_all find
find-insert_all id [] into = refl
find-insert_all id ((k, pd) ∷ pds) into =
    ground
      (arith, id_eq_iff k id, find-insert_all id pds (insert k pd into), find-insert k id pd into)

-- Some controller has told of the device.
unfoldable pub told_of : Identity → DevicesOf → Bool
told_of id [] = false
told_of id ((mc_id, pds) ∷ rest) = contains (find id pds) || told_of id rest

-- The devices that the topology is made of are those that some controller has told of, and those
-- known before.
pub find-insert_each :
    (id : Identity) (m : DevicesOf) (into : PowerDevices)
    → contains (find id (insert_each m into)) ≡ told_of id m || contains (find id into)
unfolding insert_each told_of
find-insert_each id [] into = refl
find-insert_each id ((mc_id, pds) ∷ rest) into =
    ground (arith, find-insert_each id rest (insert_all pds into), find-insert_all id pds into)

unfoldable pub one_takes : ℕ → (Identity → ReturnCode) → ControllerMap → Bool
one_takes now written [] = false
one_takes now written ((mc_id, i) ∷ rest) =
    (is_available now i.last_hb && is_ok (written mc_id)) || one_takes now written rest

unfoldable pub count_ok : (Identity → ReturnCode) → List Identity → ℕ
count_ok written [] = 0
count_ok written (id ∷ ids) = (if is_ok (written id) then 1 else 0) + count_ok written ids

-- The topology counts as sent if and only if some available controller takes it, and then it has
-- reached one controller, else none.
pub send_topology_once :
    (now : ℕ) (written : Identity → ReturnCode) (controllers : ControllerMap)
    → ((send_topology now written controllers).1 ≡ one_takes now written controllers)
      × (count_ok written (send_topology now written controllers).0
          ≡ (if one_takes now written controllers then 1 else 0))
unfolding send_topology one_takes count_ok
send_topology_once now written [] = (refl, refl)
send_topology_once now written ((mc_id, i) ∷ rest) =
    ground (arith, send_topology_once now written rest)
