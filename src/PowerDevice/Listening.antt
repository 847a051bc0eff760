-- ===== src/PowerDevice/Listening.antt =====
-- power_devices/PowerDevice.cpp: the heartbeats and the device information that a power device hands to
-- its selector, from the readers of common/Handshaking.cpp.
use developer_resources.Prelude.{
  arith, zero, List, [], ◌∷◌, ◌++◌, ◌&&◌, ok_injective, ap, sym, ◌∙◌, err, update, ℕ, suc, ◌≤◌, ◌≡◌,
  refl, true, false, not, ◌||◌, some, if◌then◌else◌, Identity, id_eq, is_empty, Result, ok,
  Bool-cases, inl, inr,
}
use developer_resources.Data.{ReturnCode, Heartbeat, DeviceInfo, SampleInfo}
use developer_resources.Timers.{Fault}
use developer_resources.Handshaking.Readers.{on_data_available, Ends, on_data_available-Ends}
use developer_resources.Selector.{Selector, got_heartbeat, got_device_info}
use developer_resources.Selector.Invariant.{Inv}
use developer_resources.Selector.Received.{got_heartbeat-Inv}
use developer_resources.Selector.Informed.{got_device_info-Inv}
use developer_resources.Selector.Traces.{Inv-later}
use developer_resources.Selector.Failover.{Heard, hear, last_heard, got_heartbeat_noted}

-- `PowerDevice::got_heartbeat` at the time `now`.
unfoldable pub device_got_heartbeat :
    Identity → ℕ → Heartbeat × SampleInfo → Selector → Result Fault Selector
device_got_heartbeat device_id now (hb, si) sel =
    if not si.valid_data || id_eq hb.device_id device_id then ok sel else got_heartbeat now hb sel

pub device_got_heartbeat-Inv :
    (device_id : Identity) (now : ℕ) (sample : Heartbeat × SampleInfo) (s : Selector)
    → Inv now s
    → (s' : Selector) × (device_got_heartbeat device_id now sample s ≡ ok s') × Inv now s'
unfolding device_got_heartbeat
device_got_heartbeat-Inv device_id now (hb, si) s v =
    elim (Bool-cases (not si.valid_data || id_eq hb.device_id device_id)) [
      | inl ignored ↦ (s, rw (ignored, device_got_heartbeat) refl, v)
      | inr heard ↦
          let (s', run, v', reacts) = got_heartbeat-Inv now hb s v in
          (s', rw (heard, device_got_heartbeat) run, v')
    ]

-- `PowerDevice::got_device_info`.
unfoldable pub device_got_device_info :
    Identity → DeviceInfo × SampleInfo → Selector → Result Fault Selector
device_got_device_info device_id (di, si) sel =
    if not si.valid_data || id_eq di.device_id device_id
    then ok sel
    else ok (got_device_info di sel)

pub device_got_device_info-Inv :
    (device_id : Identity) (now : ℕ) (sample : DeviceInfo × SampleInfo) (s : Selector)
    → is_empty sample.0.device_id ≡ false
    → Inv now s
    → (s' : Selector) × (device_got_device_info device_id sample s ≡ ok s') × Inv now s'
unfolding device_got_device_info
device_got_device_info-Inv device_id now (di, si) s named v =
    elim (Bool-cases (not si.valid_data || id_eq di.device_id device_id)) [
      | inl ignored ↦ (s, rw (ignored, device_got_device_info) refl, v)
      | inr heard ↦ (
        got_device_info di s,
        rw (heard, device_got_device_info) refl,
        got_device_info-Inv now di s v named,
      )
    ]

-- What the selector is to hear of the first samples: those with valid data of other devices, in
-- their order, each at its time.
unfoldable pub accepted : Identity → (ℕ → ℕ) → (ℕ → Heartbeat × SampleInfo) → ℕ → Heard
accepted device_id times samples zero = []
accepted device_id times samples (suc n) =
    accepted device_id times samples n
    ++ (if (samples n).1.valid_data && not (id_eq (samples n).0.device_id device_id)
        then (times n, (samples n).0) ∷ []
        else [])

hear-append : (xs ys : Heard) (s t : Selector) → hear xs s ≡ ok t → hear (xs ++ ys) s ≡ hear ys t
unfolding hear
hear-append [] ys s t run = ap (hear ys) (ok_injective refl run)
hear-append ((now, hb) ∷ xs) ys s t run =
    go (λ u rest. hear-append xs ys u t rest) (got_heartbeat now hb s) refl
  where
    go :
        ((u : Selector) → hear xs u ≡ ok t → hear (xs ++ ys) u ≡ hear ys t)
        → (r : Result Fault Selector) → got_heartbeat now hb s ≡ r
        → hear (((now, hb) ∷ xs) ++ ys) s ≡ hear ys t
    go rest (err x) e = cc (rw (e, hear) at run)
    go rest (ok u) e = rw (e, hear) (rest u (rw (e, hear) at run))

last_heard-append :
    (xs ys : Heard) (all : List (Identity × ℕ))
    → last_heard (xs ++ ys) all ≡ last_heard ys (last_heard xs all)
unfolding last_heard
last_heard-append [] ys all = refl
last_heard-append ((now, hb) ∷ xs) ys all =
    last_heard-append xs ys (update hb.device_id (λ _. now) all)

-- After the first samples: what the selector is then.
record Hears (device_id : Identity) (times : ℕ → ℕ) (samples : ℕ → Heartbeat × SampleInfo)
    (sel : Selector) (n : ℕ) (s : Selector) : Type 0 where
  inv : Inv (times n) s
  heard : hear (accepted device_id times samples n) sel ≡ ok s
  noted : s.all_controllers ≡ last_heard (accepted device_id times samples n) sel.all_controllers

device_got_heartbeat-Hears :
    (device_id : Identity) (times : ℕ → ℕ) (samples : ℕ → Heartbeat × SampleInfo) (sel : Selector)
    (n : ℕ) (s : Selector)
    → times n ≤ times (suc n)
    → Hears device_id times samples sel n s
    → (s' : Selector) × (device_got_heartbeat device_id (times n) (samples n) s ≡ ok s')
      × Hears device_id times samples sel (suc n) s'
unfolding device_got_heartbeat accepted hear last_heard
device_got_heartbeat-Hears device_id times samples sel n s le v =
    elim (Bool-cases (si.valid_data && not (id_eq hb.device_id device_id))) [
      | inr off ↦ (
        s,
        ignored off,
        record {
          inv = Inv-later le v.inv;
          heard = rw (off, accepted) (hear-append before [] sel s v.heard);
          noted =
              rw (off, accepted) (v.noted ∙ sym (last_heard-append before [] sel.all_controllers));
        },
      )
      | inl on ↦
          let (s', run, v', reacts) = got_heartbeat-Inv (times n) hb s v.inv in
          (
            s',
            taken on ∙ run,
            record {
              inv = Inv-later le v';
              heard =
                  rw (on, accepted)
                    (hear-append before ((times n, hb) ∷ []) sel s v.heard ∙ rw (run, hear) refl);
              noted =
                  rw (on, accepted)
                    (got_heartbeat_noted (times n) hb s s' v.inv run
                      ∙ ap (update hb.device_id (λ _. times n)) v.noted
                      ∙ sym (last_heard-append before ((times n, hb) ∷ []) sel.all_controllers));
            },
          )
    ]
  where
    hb : Heartbeat
    hb = (samples n).0

    si : SampleInfo
    si = (samples n).1

    ignored :
        si.valid_data && not (id_eq hb.device_id device_id) ≡ false
        → device_got_heartbeat device_id (times n) (hb, si) s ≡ ok s
    ignored off = ground (arith, off)

    taken :
        si.valid_data && not (id_eq hb.device_id device_id) ≡ true
        → device_got_heartbeat device_id (times n) (hb, si) s ≡ got_heartbeat (times n) hb s
    taken on = ground (arith, on)

    before : Heard
    before = accepted device_id times samples n

-- `size` heartbeats that can be taken from the reader of a power device go through the loop of its
-- listener, the n-th at the time `times n`; these times do not go back. Then the loop ends without a
-- fault; the selector has heard exactly those with valid data that are not the device's own, in their
-- order, and knows of each controller the time of the last of them; and the invariant of the selector,
-- which held at the first time, holds again.
pub heartbeats_taken :
    (device_id : Identity) (times : ℕ → ℕ) (rcs : ℕ → ReturnCode)
    (samples : ℕ → Heartbeat × SampleInfo) (size : ℕ) (sel : Selector)
    → ((n : ℕ) → times n ≤ times (suc n))
    → Ends rcs 0 size
    → Inv (times 0) sel
    → (sel' : Selector) × (on_data_available rcs
          (λ n. n)
          true
          (some (λ n. device_got_heartbeat device_id (times n) (samples n)))
          (suc size)
          sel
        ≡ some (ok sel'))
      × Inv (times size) sel'
      × (hear (accepted device_id times samples size) sel ≡ ok sel')
      × (sel'.all_controllers
          ≡ last_heard (accepted device_id times samples size) sel.all_controllers)
unfolding accepted hear last_heard
heartbeats_taken device_id times rcs samples size sel later ends v =
    let (sel', run, x) =
      on_data_available-Ends rcs (λ n. n) (Hears device_id times samples sel)
        (λ n. device_got_heartbeat device_id (times n) (samples n)) size sel
        (λ k s fine kept. device_got_heartbeat-Hears device_id times samples sel k s (later k) kept)
        ends (record { inv = v; heard = refl; noted = refl }) in
    (sel', run, x.inv, x.heard, x.noted)

-- So it is with `size` samples of device information, where each of another device has an identity.
pub device_infos_taken :
    (device_id : Identity) (now : ℕ) (rcs : ℕ → ReturnCode) (samples : ℕ → DeviceInfo × SampleInfo)
    (size : ℕ) (sel : Selector)
    → ((n : ℕ) → is_empty (samples n).0.device_id ≡ false)
    → Ends rcs 0 size
    → Inv now sel
    → (sel' : Selector) × (on_data_available rcs samples true
          (some (device_got_device_info device_id))
          (suc size)
          sel
        ≡ some (ok sel'))
      × Inv now sel'
device_infos_taken device_id now rcs samples size sel named ends v =
    on_data_available-Ends rcs samples (λ n s. Inv now s) (device_got_device_info device_id) size
      sel (λ k s fine kept. device_got_device_info-Inv device_id now (samples k) s (named k) kept)
      ends v
