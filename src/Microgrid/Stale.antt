-- ===== src/Microgrid/Stale.antt =====
-- common/ControllerSelector.cpp: the loss of a controller of which the controllers are not told.
use developer_resources.Prelude.{
  ℕ, ◌≡◌, ◌≤◌, refl, ap, subst, ◌∙◌, true, false, some, List, [], ◌∷◌, ok, Identity, id_eq,
  id_eq_iff, id_eq_refl, is_empty, find, arith, Bool-cases, inl, inr, In,
}
use developer_resources.Data.{ReturnCode, retcode_ok, OperatorPriorityType, DeviceRole}
use developer_resources.Timers.{after_fired}
use developer_resources.Timers.Timeout.{handle_timeout_total}
use developer_resources.Controller.{PowerDeviceInfo}
use developer_resources.CliServer.{CliServer, start_stop_device, essl_from_opt, request_of}
use developer_resources.Selector.{
  Selector, lost_controller, PrioritizedController, lost_controller_fired, any_timer_fired,
  time_out, output, lost_controller_callback, with_handler, event_Eq,
}
use developer_resources.Selector.Choice.{OneUnavailable, IsBest}
use developer_resources.Selector.Best.{select_controller_total}
use developer_resources.Selector.Invariant
use developer_resources.Selector.Invariant.{on, after_fired-HandlerOk}
use developer_resources.Selector.Traces.{Inv-later}
use developer_resources.Selector.Announced.{last_written}
use developer_resources.PowerDevice.{on_requests, apply_requests}
use developer_resources.Microgrid.{Device, power_device, Input, fires, step}
use developer_resources.Microgrid.Histories.{Reach, Started, Reach-DeviceOk}
use developer_resources.Microgrid.Told.{Reach-Told, Started-Told}
use developer_resources.Microgrid.Takeover.{takes_state, is_due, sent}

-- No known controller is available.
abbrev pub NoneAvailable : ℕ → Selector → Type 0
NoneAvailable now s =
    (q : PrioritizedController)
    → In q s.prioritized_controllers
    → OneUnavailable now s.all_controllers q

abbrev vacated : Selector → Selector
vacated s =
    record (output s.callbacks.lost_controller_set (lost_controller_callback s.selected) s) {
      selected = [];
    }

lost_controller_fired_alone :
    (now : ℕ) (s : Selector)
    → Invariant.Inv now s
    → on lost_controller s ≡ true
    → NoneAvailable now s
    → lost_controller_fired now s ≡ ok (vacated s)
unfolding lost_controller_fired
lost_controller_fired_alone now s v fires_now alone =
    let (s', run, outcome) =
      select_controller_total now (vacated s) v.handler_ok v.data_ok v.writer
        (ground (arith, v.phase.apart)) in
    elim outcome [
      | inl (same, unavailable) ↦ run ∙ ap (λ (x : Selector). ok x) same
      | inr (p, best, selected) ↦ absurd (alone p (IsBest.listed best) (IsBest.available best))
    ]

time_out_alone :
    (now : ℕ) (s : Selector)
    → Invariant.Inv now s
    → on lost_controller s ≡ true
    → NoneAvailable now s
    → time_out now lost_controller s
      ≡ ok (with_handler (after_fired lost_controller s.handler) (vacated s))
unfolding time_out any_timer_fired
time_out_alone now s v fires_now alone =
    (handle_timeout_total (λ (t : Selector). t.handler) with_handler (any_timer_fired now) s
      (vacated s) lost_controller v.handler_ok.well_formed fires_now
      (lost_controller_fired_alone now s v fires_now alone) v.handler_ok.well_formed).0

last_written-vacated : (s : Selector) → last_written (vacated s).outputs ≡ last_written s.outputs
unfolding last_written
last_written-vacated s = ground arith

lost_named :
    (now : ℕ) (s : Selector)
    → Invariant.Inv now s
    → on lost_controller s ≡ true
    → is_empty s.selected ≡ false
lost_named now s v fires_now = elim (Bool-cases (is_empty s.selected)) [
  | inl vacant ↦ cc ((v.phase.vacant vacant).1, fires_now)
  | inr named ↦ named
]

id_eq_empty : (i : Identity) → is_empty i ≡ false → id_eq i [] ≡ false
id_eq_empty i named = ground (arith, named, id_eq_iff i [])

-- Take a power device whose `init` returned OK, after a history behind which LostController fires
-- when no known controller is available. Then it follows no controller, and yet the last state that
-- it has written names the one it has lost: the server of that controller, which knows the device and has
-- taken this state, still sends it a request when the user asks for a level that is not the one
-- noted, and the device leaves that request as it is.
pub lost_controller_untold :
    (id : Identity) (role : DeviceRole) (d t : Device) (log : List (ℕ × Input)) (now later : ℕ)
    (c : CliServer) (pd : PowerDeviceInfo) (opt : OperatorPriorityType) (rc : ReturnCode)
    → Started id role d
    → Reach d log now t
    → now ≤ later
    → on lost_controller t.selector ≡ true
    → NoneAvailable later t.selector
    → t.selector.selected ≡ c.controller.device_id
    → find id c.controller.power_devices ≡ some pd
    → is_due (essl_from_opt opt) pd ≡ true
    → (u : Device) × (step later (fires lost_controller) t ≡ ok u)
      × (u.selector.selected ≡ [])
      × (last_written u.selector.outputs ≡ some (id, some c.controller.device_id))
      × ((start_stop_device id opt rc (takes_state (last_written u.selector.outputs) c)).requests
          ≡ request_of c id (essl_from_opt opt) ∷ c.requests)
      × (on_requests retcode_ok ((true, request_of c id (essl_from_opt opt)) ∷ []) (power_device u)
          ≡ power_device u)
unfolding step on_requests apply_requests
lost_controller_untold id role d t log now later c pd opt rc started r le fires_now alone leads
      known due =
    let v = Reach-Told id d t log now (Started-Told id role d started) r in
    let o = Inv-later le (Reach-DeviceOk started.in_order r).follows in
    let s = with_handler (after_fired lost_controller t.selector.handler) (vacated t.selector) in
    let named : is_empty t.selector.selected ≡ false = lost_named later t.selector o fires_now in
    let state : last_written s.outputs ≡ some (id, some c.controller.device_id) =
      last_written-vacated t.selector
      ∙ v.announced.told named
      ∙ ap (λ i. some (id, some i)) leads in
    (
      record t { selector = s },
      rw (time_out_alone later t.selector o fires_now alone) refl,
      refl,
      state,
      rw state (
          sent id c.controller.device_id c pd opt rc known
          ∙ rw due (rw (id_eq_refl c.controller.device_id) refl)),
      rw (id_eq_empty c.controller.device_id (subst (λ i. is_empty i ≡ false) leads named)) refl,
    )
