-- ===== src/Client/Controllers.antt =====
-- cli/CLIClient.cpp: the controllers that count as available, and to which of them an operator's
-- intent is written.
use developer_resources.Prelude.{
  ℕ, ◌+◌, ◌≤◌, ◌≡◌, ◌↔◌, refl, ap, sym, ◌∙◌, Bool, true, false, ltb, Option, none, some, List, [],
  ◌∷◌, ◌++◌, Identity, id_eq_refl, find, find-update, In, All, inl, inr, Bool-cases, Option-cases,
  arith,
}
use developer_resources.Data.{Heartbeat, SampleInfo}
use developer_resources.Client.{
  ControllerInfo, ControllerMap, unavail_controller_delay, is_available, process_heartbeat,
  intents_to,
}

-- After a valid heartbeat of a known controller the client goes on knowing it, with the same device
-- information, and takes it for available at all times less than nine seconds later, and at no
-- time after that as long as this is its last heartbeat.
pub process_heartbeat_available :
    (heard : ℕ) (hb : Heartbeat) (si : SampleInfo) (m : ControllerMap) (i : ControllerInfo)
    → si.valid_data ≡ true
    → find hb.device_id m ≡ some i
    → (j : ControllerInfo) × (find hb.device_id (process_heartbeat heard hb si m) ≡ some j)
      × (j.info ≡ i.info)
      × ((now : ℕ)
          → heard ≤ now
          → is_available now j.last_hb ≡ ltb now (heard + unavail_controller_delay))
unfolding process_heartbeat is_available
process_heartbeat_available heard hb si m i valid known = (
  record i { last_hb = heard },
  ground (
    arith,
    valid,
    known,
    id_eq_refl hb.device_id,
    find-update hb.device_id hb.device_id (λ k. record k { last_hb = heard }) m,
  ),
  refl,
  λ now le. ground arith,
)

abbrev pub Known : ControllerMap → Identity → Type 0
Known m id = (i : ControllerInfo) × (find id m ≡ some i)

abbrev pub available_info : ℕ → Option ControllerInfo → Bool
available_info now none = false
available_info now (some i) = is_available now i.last_hb

-- If all controllers asked are known, the intent goes to exactly those that are available.
pub intents_to_iff :
    (now : ℕ) (m : ControllerMap) (mcs : List Identity) (id : Identity)
    → All (Known m) mcs
    → In id (intents_to now m mcs) ↔ (In id mcs × (available_info now (find id m) ≡ true))
unfolding intents_to
intents_to_iff now m [] id all = (λ h. absurd h, λ h. absurd h.0)
intents_to_iff now m (mc ∷ mcs) id ((i, known), all) =
    let same : mc ≡ id → find id m ≡ some i = λ e. ap (λ k. find k m) (sym e) ∙ known in
    elim (Bool-cases (is_available now i.last_hb)) [
      | inl on ↦
          rw (known, intents_to) (rw on (ground (arith, on, same, intents_to_iff now m mcs id all)))
      | inr off ↦
          rw (known, intents_to)
            (rw off (ground (arith, off, same, intents_to_iff now m mcs id all)))
    ]

-- At a controller that is not known the loop ends: those behind it get no intent, available or not.
pub intents_to_unknown :
    (now : ℕ) (m : ControllerMap) (before after : List Identity) (id : Identity)
    → find id m ≡ none
    → intents_to now m (before ++ id ∷ after) ≡ intents_to now m before
unfolding intents_to
intents_to_unknown now m [] after id unknown = rw (unknown, intents_to) refl
intents_to_unknown now m (mc ∷ mcs) after id unknown =
    ground (arith, intents_to_unknown now m mcs after id unknown, Option-cases (find mc m))
