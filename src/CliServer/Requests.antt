-- ===== src/CliServer/Requests.antt =====
-- controller/CLIServer.cpp: `start_stop_device` and `receive_reply`.
use developer_resources.Prelude.{
  ℕ, ◌+◌, ◌<◌, ◌≡◌, ◌≢◌, refl, ◌==◌, Bool, true, false, not, ◌&&◌, inl, inr, Option, none, some, [],
  ◌∷◌, if◌then◌else◌, Identity, id_eq_refl, find, find-update, Bool-cases, Option-cases, In, arith,
}
use developer_resources.Data.{
  EnergyStartStopLevel, essl_unknown, level_eq, OperatorPriorityType, EnergyStartStopRequest, Reply,
  ReturnCode, is_ok,
}
use developer_resources.Controller.{PowerDeviceInfo, update_essl}
use developer_resources.CliServer.{
  CliServer, Pending, find_pending, insert_pending, erase_pending, essl_from_opt, is_not_master,
  request_of, send_request, start_stop_known, start_stop_device, receive_reply,
}

pub find_pending-insert_pending :
    (n m : ℕ) (id : Identity) (p : Pending)
    → find_pending n p ≡ none
    → find_pending m (insert_pending n id p) ≡ (if n == m then some id else find_pending m p)
unfolding find_pending insert_pending
find_pending-insert_pending n m id [] fresh = refl
find_pending-insert_pending n m id ((k, x) ∷ rest) fresh =
    ground (arith, find_pending-insert_pending n m id rest)

pub find_pending-erase_pending :
    (n m : ℕ) (p : Pending)
    → find_pending m (erase_pending n p) ≡ (if n == m then none else find_pending m p)
unfolding find_pending erase_pending
find_pending-erase_pending n m [] = ground arith
find_pending-erase_pending n m ((k, x) ∷ rest) = ground (arith, find_pending-erase_pending n m rest)

-- Whether a request goes out.
abbrev pub sends : Option PowerDeviceInfo → EnergyStartStopLevel → Identity → Bool
sends none level id = false
sends (some pd) level id =
    not (level_eq level essl_unknown)
    && (not (level_eq pd.essl level) && not (is_not_master pd.master_id id))

-- `start_stop_device` hands a request to the writer exactly if the device is known, the operator's
-- type names a level, the device is not at that level as far as is known, and it follows this
-- controller. The request carries the level and the next number.
pub start_stop_device-sends :
    (pd_id : Identity) (opt : OperatorPriorityType) (rc : ReturnCode) (s : CliServer)
    → (start_stop_device pd_id opt rc s).requests ≡ (
        if sends (find pd_id s.controller.power_devices) (essl_from_opt opt) s.controller.device_id
        then request_of s pd_id (essl_from_opt opt) ∷ s.requests
        else s.requests)
unfolding start_stop_device
start_stop_device-sends pd_id opt rc s = ground arith

level_eq-eq : (a b : EnergyStartStopLevel) → level_eq a b ≡ true → a ≡ b
level_eq-eq a b h = ground arith

-- If the device is known and the operator's type names a level, that level is what the controller
-- has noted of the device after `start_stop_device`, unless a request was to be sent and could not
-- be written; then what is noted is as it was.
pub start_stop_device_level :
    (pd_id : Identity) (opt : OperatorPriorityType) (rc : ReturnCode) (s : CliServer)
    (pd : PowerDeviceInfo)
    → find pd_id s.controller.power_devices ≡ some pd
    → essl_from_opt opt ≢ essl_unknown
    → find pd_id (start_stop_device pd_id opt rc s).controller.power_devices ≡ (
        if sends (some pd) (essl_from_opt opt) s.controller.device_id && not (is_ok rc)
        then some pd
        else some (record pd { essl = essl_from_opt opt }))
unfolding start_stop_device update_essl
start_stop_device_level pd_id opt rc s pd known named = ground (
  arith,
  level_eq-eq (essl_from_opt opt) essl_unknown,
  level_eq-eq pd.essl (essl_from_opt opt),
  id_eq_refl pd_id,
  find-update pd_id pd_id (λ d. record d { essl = essl_from_opt opt }) s.controller.power_devices,
)

-- Every pending request has been written, to the device noted for it, and its number is used up.
pub record PendingOk (s : CliServer) : Type 0 where
  pub written :
      (n : ℕ) (id : Identity)
      → find_pending n s.pending_essr ≡ some id
      → (r : EnergyStartStopRequest) × In r s.requests
        × (r.sequence_id ≡ n)
        × (r.target_device_id ≡ id)
  pub below : (n : ℕ) (id : Identity) → find_pending n s.pending_essr ≡ some id → n < s.essr_seqnum

-- No reply is awaited under the number that the next request gets.
pub next_is_free : (s : CliServer) → PendingOk s → find_pending s.essr_seqnum s.pending_essr ≡ none
next_is_free s v = elim (Option-cases (find_pending s.essr_seqnum s.pending_essr)) [
  | inl absent ↦ absent
  | inr (id, there) ↦ absurd (omega (arith, v.below s.essr_seqnum id there))
]

send_request-PendingOk :
    (pd_id : Identity) (level : EnergyStartStopLevel) (rc : ReturnCode) (s : CliServer)
    → PendingOk s
    → s.essr_seqnum + 1 < 18446744073709551616
    → PendingOk (send_request pd_id level rc s)
unfolding send_request
send_request-PendingOk pd_id level rc s v room = elim (Bool-cases (is_ok rc)) [
  | inr failed ↦
      rw (failed, send_request)
        (record {
          written = λ n id there.
              let (r, sent, number, target) = v.written n id there in (r, inr sent, number, target);
          below = λ n id there. ground (arith, v.below n id there);
        })
  | inl sent ↦
      rw (sent, send_request)
        (record {
          written = λ n id there. elim (Bool-cases (s.essr_seqnum == n)) [
            | inl same ↦
                (request_of s pd_id level, inl refl, ground arith, ground (arith, insert n))
            | inr other ↦
                let old : find_pending n s.pending_essr ≡ some id = ground (arith, insert n) in
                let (r, member, number, target) = v.written n id old in
                (r, inr member, number, target)
          ];
          below = λ n id there. ground (arith, insert n, v.below n id);
        })
]
  where
    insert :
        (n : ℕ)
        → find_pending n (insert_pending s.essr_seqnum pd_id s.pending_essr)
          ≡ (if s.essr_seqnum == n then some pd_id else find_pending n s.pending_essr)
    insert n = find_pending-insert_pending s.essr_seqnum n pd_id s.pending_essr (next_is_free s v)

-- `start_stop_device` keeps it that every pending request has been written, to the device noted for
-- it and under a number that is used up, as long as the 64-bit number does not wrap.
pub start_stop_device-PendingOk :
    (pd_id : Identity) (opt : OperatorPriorityType) (rc : ReturnCode) (s : CliServer)
    → PendingOk s
    → s.essr_seqnum + 1 < 18446744073709551616
    → PendingOk (start_stop_device pd_id opt rc s)
unfolding start_stop_device start_stop_known
start_stop_device-PendingOk pd_id opt rc s v room =
    elim (Option-cases (find pd_id s.controller.power_devices)) [
      | inl unknown ↦ rw (unknown, start_stop_device) v
      | inr (pd, known) ↦ elim (Bool-cases (level_eq (essl_from_opt opt) essl_unknown)) [
        | inl unnamed ↦ rw (known, start_stop_device) (rw unnamed v)
        | inr named ↦ elim (Bool-cases (level_eq pd.essl (essl_from_opt opt))) [
          | inl already ↦ rw (known, start_stop_device) (rw named (rw already v))
          | inr change ↦ elim (Bool-cases (is_not_master pd.master_id s.controller.device_id)) [
            | inl foreign ↦
                rw (known, start_stop_device)
                  (rw named
                    (rw change (rw foreign (record { written = v.written; below = v.below }))))
            | inr mine ↦
                rw (known, start_stop_device)
                  (rw named (
                    rw change
                      (rw mine (send_request-PendingOk pd_id (essl_from_opt opt) rc s v room))))
          ]
        ]
      ]
    ]

-- A reply keeps what holds of the pending requests, takes away the one of its number, and no other.
pub receive_reply-PendingOk :
    (reply : Reply) (s : CliServer)
    → PendingOk s
    → PendingOk (receive_reply reply s)
      × ((n : ℕ)
          → find_pending n (receive_reply reply s).pending_essr
            ≡ (if reply.request_sequence_id == n then none else find_pending n s.pending_essr))
unfolding receive_reply
receive_reply-PendingOk reply s v = (
  record {
    written = λ n id there. v.written n id (ground (arith, erased n));
    below = λ n id there. v.below n id (ground (arith, erased n));
  },
  erased,
)
  where
    erased :
        (n : ℕ)
        → find_pending n (erase_pending reply.request_sequence_id s.pending_essr)
          ≡ (if reply.request_sequence_id == n then none else find_pending n s.pending_essr)
    erased n = find_pending-erase_pending reply.request_sequence_id n s.pending_essr
