-- ===== src/Microgrid/Obeyed.antt =====
-- power_devices/EnergyStartStopRequestDataReaderListenerImpl.cpp: whom a power device obeys over its whole
-- life.
use developer_resources.Prelude.{
  ℕ, ◌≡◌, refl, ap, subst, ◌∙◌, Bool, true, List, [], ◌∷◌, ◌++◌, ◌⊎◌, inl, inr, In, ok, Identity,
  id_eq_iff, Bool-cases, arith, ok_same,
}
use developer_resources.Data.{ReturnCode, is_ok, EnergyStartStopRequest}
use developer_resources.PowerDevice.{
  PowerDevice, ConnectedDevice, connected_devices, connect_one, apply_connections,
  on_power_connections, on_requests, apply_requests, is_for, reply_to,
}
use developer_resources.Microgrid.{
  Device, power_device, Input, hears, learns, connections, requests, beats, fires, step,
}
use developer_resources.Microgrid.Histories.{Reach, begin, next}

-- What only the handling of requests changes.
pub record SameLevel (pd pd' : PowerDevice) : Type 0 where
  pub same_essl : pd'.essl ≡ pd.essl
  pub same_replies : pd'.replies ≡ pd.replies

connected_devices-SameLevel :
    (ds : List ConnectedDevice) (pd : PowerDevice) → SameLevel pd (connected_devices ds pd)
unfolding connected_devices connect_one
connected_devices-SameLevel [] pd = record { same_essl = refl; same_replies = refl }
connected_devices-SameLevel (d ∷ ds) pd =
    ground (arith, connected_devices-SameLevel ds (connect_one pd.role d pd))

on_power_connections-SameLevel :
    (rc : ReturnCode) (samples : List (Bool × Identity × List ConnectedDevice)) (pd : PowerDevice)
    → SameLevel pd (on_power_connections rc samples pd)
unfolding on_power_connections apply_connections
on_power_connections-SameLevel rc [] pd = ground arith
on_power_connections-SameLevel rc ((valid, id, ds) ∷ rest) pd =
    ground (arith, connected_devices-SameLevel ds pd, on_power_connections-SameLevel rc rest pd)

-- The request was among valid samples that were taken, it is for the device and from the controller
-- that the device follows, and it alone was obeyed and answered.
pub record Obeys (rc : ReturnCode) (samples : List (Bool × EnergyStartStopRequest))
    (essr : EnergyStartStopRequest) (pd pd' : PowerDevice) : Type 0 where
  pub taken : is_ok rc ≡ true
  pub arrived : In (true, essr) samples
  pub from_selected : essr.requesting_device_id ≡ pd.selected
  pub for_device : essr.target_device_id ≡ pd.device_id
  pub level : pd'.essl ≡ essr.to_level
  pub reply : pd'.replies ≡ reply_to pd essr ∷ pd.replies

-- A batch of requests has at most one that is obeyed.
on_requests-Obeys :
    (rc : ReturnCode) (samples : List (Bool × EnergyStartStopRequest)) (pd : PowerDevice)
    → SameLevel pd (on_requests rc samples pd)
      ⊎ ((essr : EnergyStartStopRequest) × Obeys rc samples essr pd (on_requests rc samples pd))
unfolding on_requests apply_requests
on_requests-Obeys rc [] pd = inl (ground arith)
on_requests-Obeys rc ((valid, essr) ∷ rest) pd = elim (Bool-cases (is_ok rc)) [
  | inr failed ↦ inl (ground arith)
  | inl fine ↦ elim (Bool-cases (is_for pd valid essr)) [
    | inl ours ↦ inr (
      essr,
      record {
        taken = fine;
        arrived = inl (ap (λ v. (v, essr)) (ground arith));
        from_selected = ground (arith, id_eq_iff essr.requesting_device_id pd.selected);
        for_device = ground (arith, id_eq_iff essr.target_device_id pd.device_id);
        level = ground arith;
        reply = ground arith;
      },
    )
    | inr other ↦ elim (on_requests-Obeys rc rest pd) [
      | inl same ↦ inl (ground arith)
      | inr (e, o) ↦ inr (
        e,
        record {
          taken = fine;
          arrived = inr o.arrived;
          from_selected = o.from_selected;
          for_device = o.for_device;
          level = ground (arith, o.level);
          reply = ground (arith, o.reply);
        },
      )
    ]
  ]
]

-- Where the level of a device comes from: it is the one at the start and nothing was answered, or it
-- is that of the last request answered, taken in an earlier state of the same history.
abbrev pub LevelFrom : Device → List (ℕ × Input) → Device → Type 0
LevelFrom d log t =
    SameLevel d.ports t.ports
    ⊎ ((later earlier : List (ℕ × Input)) × (at before : ℕ) × (u : Device) × (rc : ReturnCode)
        × (samples : List (Bool × EnergyStartStopRequest)) × (essr : EnergyStartStopRequest) × (log
            ≡ later ++ (at, requests rc samples) ∷ earlier)
        × Reach d earlier before u
        × Obeys rc samples essr (power_device u) t.ports)

extend :
    (d t u : Device) (log : List (ℕ × Input)) (x : ℕ × Input)
    → SameLevel t.ports u.ports
    → LevelFrom d log t
    → LevelFrom d (x ∷ log) u
extend d t u log x same (inl from_start) = inl (record {
  same_essl = same.same_essl ∙ from_start.same_essl;
  same_replies = same.same_replies ∙ from_start.same_replies;
})
extend d t u log x same (inr (later, earlier, at, before, v, rc, samples, essr, split, r, o)) =
    inr (
      x ∷ later,
      earlier,
      at,
      before,
      v,
      rc,
      samples,
      essr,
      ap (λ l. x ∷ l) split,
      r,
      record {
        taken = o.taken;
        arrived = o.arrived;
        from_selected = o.from_selected;
        for_device = o.for_device;
        level = same.same_essl ∙ o.level;
        reply = same.same_replies ∙ o.reply;
      },
    )

-- An input that is no batch of requests changes no level and answers nothing.
abbrev IsOther : Input → Type 0
IsOther (requests rc samples) = ⊥
IsOther _ = Unit {0}

step-SameLevel :
    (now : ℕ) (i : Input) (t u : Device)
    → IsOther i
    → step now i t ≡ ok u
    → SameLevel t.ports u.ports
unfolding step
step-SameLevel now (hears sample) t u other run = ground arith
step-SameLevel now (learns sample) t u other run = ground arith
step-SameLevel now (connections rc samples) t u other run =
    ground (arith, on_power_connections-SameLevel rc samples (power_device t))
step-SameLevel now (requests rc samples) t u other run = absurd other
step-SameLevel now beats t u other run = ground arith
step-SameLevel now (fires k) t u other run = ground arith

requests-LevelFrom :
    (d t u : Device) (log : List (ℕ × Input)) (now later : ℕ) (rc : ReturnCode)
    (samples : List (Bool × EnergyStartStopRequest))
    → Reach d log now t
    → LevelFrom d log t
    → step later (requests rc samples) t ≡ ok u
    → LevelFrom d ((later, requests rc samples) ∷ log) u
unfolding step
requests-LevelFrom d t u log now later rc samples r before run =
    subst (LevelFrom d ((later, requests rc samples) ∷ log)) (ok_same run)
      (elim (on_requests-Obeys rc samples (power_device t)) [
        | inl same ↦
            extend d t (record t { ports = on_requests rc samples (power_device t) }) log
              (later, requests rc samples)
              (record { same_essl = same.same_essl; same_replies = same.same_replies }) before
        | inr (essr, o) ↦ inr ([], log, later, now, t, rc, samples, essr, refl, r, o)
      ])

step-LevelFrom :
    (d t u : Device) (log : List (ℕ × Input)) (now later : ℕ) (i : Input)
    → Reach d log now t
    → LevelFrom d log t
    → step later i t ≡ ok u
    → LevelFrom d ((later, i) ∷ log) u
step-LevelFrom d t u log now later (requests rc samples) r before run =
    requests-LevelFrom d t u log now later rc samples r before run
step-LevelFrom d t u log now later i r before run =
    extend d t u log (later, i) (step-SameLevel later i t u tt run) before

-- After any history of a power device its level is the one it started with and it has answered
-- nothing new, or its level is that of the last request that it answered: this was a valid sample
-- of a batch that could be taken, for this device, from the controller that its selector followed
-- when the batch was taken.
pub Reach-LevelFrom :
    (d t : Device) (log : List (ℕ × Input)) (now : ℕ) → Reach d log now t → LevelFrom d log t
Reach-LevelFrom d t log now (begin time small) =
    inl (record { same_essl = refl; same_replies = refl })
Reach-LevelFrom d t log now (next {log = old} {now = n} {t = s} later i u r le small e run) =
    step-LevelFrom d s t old n later i r (Reach-LevelFrom d s old n r) run
