-- ===== src/PowerDevice/Levels.antt =====
-- power_devices/EnergyStartStopRequestDataReaderListenerImpl.cpp, with the requests and replies of
-- controller/CLIServer.cpp at the other end.
use developer_resources.Prelude.{
  sym, ℕ, ◌≡◌, refl, Bool, true, Option, none, some, List, [], ◌∷◌, if◌then◌else◌, Identity,
  id_eq_refl, arith, find,
}
use developer_resources.Data.{EnergyStartStopRequest, Reply, retcode_ok, OperatorPriorityType}
use developer_resources.Controller.{update_essl}
use developer_resources.PowerDevice.{PowerDevice, reply_to, is_for, apply_requests, on_requests}
use developer_resources.CliServer.{
  CliServer, request_of, start_stop_device, essl_from_opt, on_replies, find_pending, insert_pending,
  erase_pending, Pending,
}
use developer_resources.CliServer.Requests.{
  sends, start_stop_device-sends, PendingOk, next_is_free, find_pending-erase_pending,
  find_pending-insert_pending,
}

-- The first of the requests for this device that the selected controller sent.
abbrev pub first_for :
    PowerDevice → List (Bool × EnergyStartStopRequest) → Option EnergyStartStopRequest
first_for pd [] = none
first_for pd ((valid, essr) ∷ rest) =
    let later = first_for pd rest in if is_for pd valid essr then some essr else later

abbrev pub obey : PowerDevice → Option EnergyStartStopRequest → PowerDevice
obey pd none = pd
obey pd (some essr) = record pd { essl = essr.to_level; replies = reply_to pd essr ∷ pd.replies }

-- If the samples can be taken, the first request for this device from the controller it has
-- selected sets its level and is answered once; the others, later ones for this device included,
-- change nothing and get no reply.
pub on_requests_first :
    (samples : List (Bool × EnergyStartStopRequest)) (pd : PowerDevice)
    → on_requests retcode_ok samples pd ≡ obey pd (first_for pd samples)
unfolding on_requests apply_requests
on_requests_first [] pd = refl
on_requests_first ((valid, essr) ∷ rest) pd = ground (arith, on_requests_first rest pd)

-- What is noted of a request that goes out, and who the controller is.
start_stop_device_pending :
    (pd_id : Identity) (opt : OperatorPriorityType) (s : CliServer)
    → sends (find pd_id s.controller.power_devices) (essl_from_opt opt) s.controller.device_id
      ≡ true
    → ((start_stop_device pd_id opt retcode_ok s).pending_essr
        ≡ insert_pending s.essr_seqnum pd_id s.pending_essr)
      × ((start_stop_device pd_id opt retcode_ok s).controller.device_id ≡ s.controller.device_id)
unfolding start_stop_device update_essl
start_stop_device_pending pd_id opt s sent = ground arith

on_replies_pending :
    (reply : Reply) (s : CliServer)
    → reply.requesting_device_id ≡ s.controller.device_id
    → (on_replies retcode_ok ((true, reply) ∷ []) s).pending_essr
      ≡ erase_pending reply.request_sequence_id s.pending_essr
unfolding on_replies
on_replies_pending reply s same = rw (same, id_eq_refl s.controller.device_id) refl

erase_pending-insert_pending :
    (n m : ℕ) (id : Identity) (p : Pending)
    → find_pending n p ≡ none
    → find_pending m (erase_pending n (insert_pending n id p)) ≡ find_pending m p
erase_pending-insert_pending n m id p fresh = ground (
  arith,
  find_pending-erase_pending n m (insert_pending n id p),
  find_pending-insert_pending n m id p fresh,
)

-- If `start_stop_device` has to send a request to a device that has selected this controller, the
-- pending requests are in order and the writes and takes succeed, then the device takes the level
-- that the operator's type stands for and answers; and when the answer is taken, every number has
-- the pending request that it had before, so that this one has none.
pub start_stop_round_trip :
    (opt : OperatorPriorityType) (s : CliServer) (pd : PowerDevice)
    → sends
        (find pd.device_id s.controller.power_devices)
        (essl_from_opt opt)
        s.controller.device_id
      ≡ true
    → pd.selected ≡ s.controller.device_id
    → PendingOk s
    → (request : EnergyStartStopRequest) × (reply : Reply) × ((start_stop_device pd.device_id opt
          retcode_ok s).requests
        ≡ request ∷ s.requests)
      × ((on_requests retcode_ok ((true, request) ∷ []) pd).essl ≡ essl_from_opt opt)
      × ((on_requests retcode_ok ((true, request) ∷ []) pd).replies ≡ reply ∷ pd.replies)
      × ((n : ℕ)
          → find_pending n
              (on_replies retcode_ok
                ((true, reply) ∷ [])
                (start_stop_device pd.device_id opt retcode_ok s)).pending_essr
            ≡ find_pending n s.pending_essr)
unfolding on_requests
start_stop_round_trip opt s pd sent follows v =
    let request = request_of s pd.device_id (essl_from_opt opt) in
    let (pending, same) = start_stop_device_pending pd.device_id opt s sent in
    let ours : is_for pd true request ≡ true =
      rw (follows, id_eq_refl s.controller.device_id) (id_eq_refl pd.device_id) in
    (
      request,
      reply_to pd request,
      rw (start_stop_device-sends pd.device_id opt retcode_ok s) (rw sent refl),
      rw ours refl,
      rw ours refl,
      λ n.
          rw
            (on_replies_pending (reply_to pd request)
              (start_stop_device pd.device_id opt retcode_ok s) (sym same))
            (rw pending (
              erase_pending-insert_pending s.essr_seqnum n pd.device_id s.pending_essr
                (next_is_free s v))),
    )
