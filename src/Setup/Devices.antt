-- ===== src/Setup/Devices.antt =====
-- power_devices/PowerDevice.cpp: a power device that starts.
use developer_resources.Prelude.{
  ◌≡◌, refl, ◌∙◌, Bool, true, false, List, [], ◌∷◌, ◌++◌, if◌then◌else◌, Result, ok, err, ◌⊎◌,
  ◌>>=◌, arith, Bool-cases, inl, inr,
}
use developer_resources.Data.{DeviceInfo, ReturnCode, retcode_ok, retcode_error, is_ok}
use developer_resources.Timers.{Fault, null_pointer}
use developer_resources.Handshaking.{Handshaking, send_device_info, start_heartbeats}
use developer_resources.Handshaking.Heartbeats.{Inv, running, start_heartbeats-Inv}
use developer_resources.Selector.{Selector, set_writer}
use developer_resources.Setup.{
  DdsCall, handshaking, power_device, narrow, tms, device_info, heartbeat,
  active_microgrid_controller_state, has_made, run_steps,
}
use developer_resources.Setup.Steps.{
  power_device_init, distribution_init, controller_init, server_init_tms, server_init_sim,
  source_init, load_init, client_init,
}
use developer_resources.Setup.Ordered.{
  IsOrdered, run_steps-IsOrdered, is_ordered_from, all_made, all_made-IsOrdered, run_steps_done,
  run_steps_cases, IsMissing,
}

-- The writers of `Handshaking` that exist after the calls.
unfoldable pub with_writers : List DdsCall → Handshaking → Handshaking
with_writers made s = record s {
  di_dw = has_made (narrow handshaking tms device_info) made;
  hb_dw = has_made (narrow handshaking tms heartbeat) made;
}

-- The writer of the selector, which `init` sets once the cast has succeeded.
unfoldable pub with_state_writer : List DdsCall → Selector → Selector
with_state_writer made s =
    if has_made (narrow power_device tms active_microgrid_controller_state) made
    then set_writer s
    else s

module _ (answer : List DdsCall → DdsCall → ReturnCode) where
  -- `PowerDevice::init`. `registered` and `written` are what the library answers to
  -- `send_device_info`.
  unfoldable pub start_power_device :
      DeviceInfo
      → Bool
      → ReturnCode
      → Handshaking
      → Selector
      → Result Fault (Handshaking × Selector × ReturnCode)
  start_power_device di registered written h sel =
      let made = (run_steps answer power_device_init []).0 in
      do
        rc ← (run_steps answer power_device_init []).1
        if is_ok rc
            then (do
              (h', rc') ← send_device_info di registered written (with_writers made h)
              ok (h', with_state_writer made sel, rc'))
            else ok (with_writers made h, with_state_writer made sel, rc)

send_device_info_sent :
    (di : DeviceInfo) (written : ReturnCode) (s : Handshaking)
    → s.di_dw ≡ true
    → is_ok written ≡ true
    → send_device_info di true written s
      ≡ start_heartbeats (record s { device_infos = di ∷ s.device_infos })
unfolding send_device_info
send_device_info_sent di written s writer fine = ground arith

-- A participant whose two writers exist sends its device information without a fault; if that
-- returns OK, the information was handed over and the heartbeats run.
send_device_info_total :
    (di : DeviceInfo) (registered : Bool) (written : ReturnCode) (s : Handshaking)
    → Inv s
    → s.di_dw ≡ true
    → s.hb_dw ≡ true
    → (s' : Handshaking) × (rc : ReturnCode) × (send_device_info di registered written s
        ≡ ok (s', rc))
      × (is_ok rc ≡ true → Inv s' × (running s' ≡ true) × (s'.device_infos ≡ di ∷ s.device_infos))
unfolding send_device_info
send_device_info_total di false written s v writer beats =
    (s, retcode_error, rw writer refl, λ e. cc e)
send_device_info_total di true written s v writer beats = elim (Bool-cases (is_ok written)) [
  | inr failed ↦ (
    record s { device_infos = di ∷ s.device_infos },
    written,
    rw (writer, send_device_info) (rw failed refl),
    λ e. cc (failed, e),
  )
  | inl fine ↦
      let (s', run, kept, on, sent, num, infos) =
        start_heartbeats-Inv (record s { device_infos = di ∷ s.device_infos })
          (record {
            well_formed = v.well_formed;
            valid_ids = v.valid_ids;
            numbered = v.numbered;
            next = v.next;
            writer = v.writer;
            addressed = v.addressed;
          })
          beats in
      (s', retcode_ok, send_device_info_sent di written s writer fine ∙ run, λ e. (kept, on, infos))
]

-- What a power device is once `init` has returned OK.
pub record IsStarted (di : DeviceInfo) (h : Handshaking) (sel : Selector) (h' : Handshaking)
    (sel' : Selector) : Type 0 where
  pub same_selector : sel' ≡ set_writer sel
  pub writer : sel'.amcs_dw ≡ true
  pub inv : Inv h'
  pub runs : running h' ≡ true
  pub told : h'.device_infos ≡ di ∷ h.device_infos

-- A power device whose heartbeats are in order and not running starts without a fault, or follows
-- a null pointer, and that only if the library, asked behind the calls of `init` that succeed, does
-- not give the participant factory or a transport configuration. Where it starts and `init` returns OK, the selector has its writer
-- and is else as it was, the device information was handed over, and the heartbeats run.
pub start_power_device_total :
    (answer : List DdsCall → DdsCall → ReturnCode) (di : DeviceInfo) (registered : Bool)
    (written : ReturnCode) (h : Handshaking) (sel : Selector)
    → Inv h
    → running h ≡ false
    → ((h' : Handshaking) × (sel' : Selector) × (rc : ReturnCode) × (start_power_device answer di
            registered written h sel
          ≡ ok (h', sel', rc))
        × (is_ok rc ≡ true → IsStarted di h sel h' sel'))
      ⊎ ((start_power_device answer di registered written h sel ≡ err null_pointer)
          × IsMissing answer (run_steps answer power_device_init []).0)
unfolding start_power_device with_writers with_state_writer all_made has_made set_writer
start_power_device_total answer di registered written h sel v idle =
    elim (run_steps_cases answer power_device_init []) [
      | inr (null, missing) ↦ inr (rw (null, start_power_device) refl, missing)
      | inl (rc, returns) ↦ inl (elim (Bool-cases (is_ok rc)) [
        | inr failed ↦
            let made = (run_steps answer power_device_init []).0 in
            (
              with_writers made h,
              with_state_writer made sel,
              rc,
              rw (returns, failed, start_power_device) refl,
              λ e. cc (failed, e),
            )
        | inl done ↦
            let all : (run_steps answer power_device_init []).0 ≡ all_made power_device_init [] =
              run_steps_done answer power_device_init [] rc returns done in
            let (h', rc', run, good) =
              send_device_info_total di registered written (record h { di_dw = true; hb_dw = true })
                (record {
                  well_formed = v.well_formed;
                  valid_ids = v.valid_ids;
                  numbered = v.numbered;
                  next = v.next;
                  writer = λ _. refl;
                  addressed = v.addressed;
                })
                refl refl in
            (
              h',
              set_writer sel,
              rc',
              rw (returns, done, start_power_device) (rw all (rw run refl)),
              λ e.
                  let (kept, on, infos) = good e in
                  record {
                    same_selector = refl;
                    writer = refl;
                    inv = kept;
                    runs = on;
                    told = infos;
                  },
            )
      ])
    ]

-- Whatever the library answers, each entity of a distribution, source or load device, which is a
-- power device with more entities, of a controller, and of a client is asked for only when what it
-- needs exists: the participant, the type for a topic, the topic and the subscriber or publisher
-- that the method itself has asked for, for a reader or a writer. So it is with the server of a controller whose own entities exist.
pub start_IsOrdered :
    (answer : List DdsCall → DdsCall → ReturnCode)
    → IsOrdered (run_steps answer (power_device_init ++ distribution_init) []).0
      × IsOrdered (run_steps answer (power_device_init ++ source_init) []).0
      × IsOrdered (run_steps answer (power_device_init ++ load_init) []).0
      × IsOrdered (run_steps answer controller_init []).0
      × IsOrdered
          (run_steps answer (server_init_tms ++ server_init_sim) (all_made controller_init [])).0
      × IsOrdered (run_steps answer client_init []).0
unfolding is_ordered_from has_made all_made
start_IsOrdered answer = (
  run_steps-IsOrdered answer (power_device_init ++ distribution_init) [] refl tt,
  run_steps-IsOrdered answer (power_device_init ++ source_init) [] refl tt,
  run_steps-IsOrdered answer (power_device_init ++ load_init) [] refl tt,
  run_steps-IsOrdered answer controller_init [] refl tt,
  run_steps-IsOrdered answer (server_init_tms ++ server_init_sim) (all_made controller_init []) refl
      (all_made-IsOrdered controller_init [] refl tt),
  run_steps-IsOrdered answer client_init [] refl tt,
)
