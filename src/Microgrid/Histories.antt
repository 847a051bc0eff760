-- ===== src/Microgrid/Histories.antt =====
-- power_devices/PowerDevice.cpp: whole histories of a power device.
use developer_resources.Prelude.{
  inl, inr, ◌∙◌, ℕ, ◌≤◌, ◌<◌, ◌≡◌, ◌≢◌, refl, sym, subst, ap, true, Bool, ok, List, [], ◌∷◌,
  Identity, ok_injective, arith,
}
use developer_resources.Data.{ReturnCode, retcode_ok, is_ok, DeviceRole}
use developer_resources.Handshaking.{init_handshaking}
use developer_resources.Handshaking.Heartbeats
use developer_resources.Handshaking.Heartbeats.{
  running, beat-Inv, init_handshaking-Inv, init_handshaking_idle,
}
use developer_resources.Selector.{Selector, Callbacks, init_selector, set_writer, time_point_min}
use developer_resources.Selector.Invariant
use developer_resources.Selector.Traces.{Inv-later, init_selector-Inv}
use developer_resources.Selector.Fired.{time_out-Inv}
use developer_resources.PowerDevice.{PowerDevice, on_power_connections, on_requests}
use developer_resources.PowerDevice.Connections.{PortsOk}
use developer_resources.PowerDevice.Listening.{device_got_heartbeat-Inv, device_got_device_info-Inv}
use developer_resources.Setup.{DdsCall}
use developer_resources.Setup.Devices.{start_power_device_total}
use developer_resources.Microgrid.{
  Device, power_device, Input, hears, learns, connections, requests, beats, fires, step, start,
  IsEnabled, populate_device_info, init_ports,
}
use developer_resources.PowerDevice.Ports.{
  PortsOk-selected, on_power_connections-PortsOk, on_requests-PortsOk,
}

-- What reached a device and when, the latest first, and the device that it leads to.
pub data Reach (d : Device) : List (ℕ × Input) → ℕ → Device → Type 0 where
  begin : (now : ℕ) → now < time_point_min → Reach d [] now d
  next :
      {log : List (ℕ × Input)} {now : ℕ} {t : Device} (later : ℕ) (i : Input) (u : Device)
      → Reach d log now t
      → now ≤ later
      → later < time_point_min
      → IsEnabled i t
      → step later i t ≡ ok u
      → Reach d ((later, i) ∷ log) later u

-- The parts are in order, and the heartbeats run.
pub record DeviceOk (now : ℕ) (d : Device) : Type 0 where
  pub follows : Invariant.Inv now d.selector
  pub sends : Heartbeats.Inv d.handshaking
  pub beating : running d.handshaking ≡ true
  pub connected : PortsOk d.ports

with_selector :
    (now later : ℕ) (d : Device) (s : Selector)
    → DeviceOk now d
    → Invariant.Inv later s
    → DeviceOk later (record d { selector = s })
with_selector now later d s v w = record {
  follows = w;
  sends = v.sends;
  beating = v.beating;
  connected = v.connected;
}

with_ports :
    (now later : ℕ) (d : Device) (pd : PowerDevice)
    → now ≤ later
    → DeviceOk now d
    → PortsOk pd
    → DeviceOk later (record d { ports = pd })
with_ports now later d pd le v w = record {
  follows = Inv-later le v.follows;
  sends = v.sends;
  beating = v.beating;
  connected = w;
}

step-DeviceOk :
    (now later : ℕ) (i : Input) (d : Device)
    → now ≤ later
    → later < time_point_min
    → DeviceOk now d
    → IsEnabled i d
    → (d' : Device) × (step later i d ≡ ok d') × DeviceOk later d'
unfolding step
step-DeviceOk now later (hears sample) d le small v enabled =
    let (s, run, kept) =
      device_got_heartbeat-Inv d.ports.device_id later sample d.selector (Inv-later le v.follows) in
    (record d { selector = s }, rw run refl, with_selector now later d s v kept)
step-DeviceOk now later (learns (di, si)) d le small v enabled =
    let (s, run, kept) =
      device_got_device_info-Inv d.ports.device_id later (di, si) d.selector enabled
        (Inv-later le v.follows) in
    (record d { selector = s }, rw run refl, with_selector now later d s v kept)
step-DeviceOk now later (connections rc samples) d le small v enabled = (
  record d { ports = on_power_connections rc samples (power_device d) },
  refl,
  with_ports now later d _ le v (
      on_power_connections-PortsOk rc samples (power_device d)
        (PortsOk-selected d.ports d.selector.selected v.connected)),
)
step-DeviceOk now later (requests rc samples) d le small v enabled = (
  record d { ports = on_requests rc samples (power_device d) },
  refl,
  with_ports now later d _ le v (
      on_requests-PortsOk rc samples (power_device d)
        (PortsOk-selected d.ports d.selector.selected v.connected)),
)
step-DeviceOk now later beats d le small v enabled =
    let (h, run, kept, on, more) = beat-Inv d.handshaking v.sends enabled in
    (
      record d { handshaking = h },
      rw run refl,
      record {
        follows = Inv-later le v.follows;
        sends = kept;
        beating = on;
        connected = v.connected;
      },
    )
step-DeviceOk now later (fires k) d le small v enabled =
    let (s, run, kept) = time_out-Inv later k d.selector small (Inv-later le v.follows) enabled in
    (record d { selector = s }, rw run refl, with_selector now later d s v kept)

pub Reach-DeviceOk :
    {d t : Device} {log : List (ℕ × Input)} {now : ℕ}
    → ((now : ℕ) → DeviceOk now d)
    → Reach d log now t
    → DeviceOk now t
Reach-DeviceOk v (begin now small) = v now
Reach-DeviceOk v (next {log} {now} {t} later i u r le small enabled run) =
    let (u', run', v') = step-DeviceOk now later i t le small (Reach-DeviceOk v r) enabled in
    subst (DeviceOk later) (ok_injective run' run) v'

init_ports-PortsOk : (id : Identity) (role : DeviceRole) → PortsOk (init_ports id role)
init_ports-PortsOk id role = record {
  source_out = λ e. omega arith;
  source_in = λ e. refl;
  load_in = λ e. omega arith;
  load_out = λ e. refl;
}

-- Where `init` has returned OK, the parts are in order at any time.
start-DeviceOk :
    (answer : List DdsCall → DdsCall → ReturnCode) (registered : Bool) (written : ReturnCode)
    (ids timer_ids : ℕ → ℕ) (callbacks : Callbacks) (id : Identity) (role : DeviceRole) (d : Device)
    (rc : ReturnCode)
    → ((n : ℕ) → ids n ≢ 0)
    → ((n : ℕ) → timer_ids n ≢ 0)
    → start answer registered written ids timer_ids callbacks id role ≡ ok (d, rc)
    → is_ok rc ≡ true
    → ((now : ℕ) → DeviceOk now d)
      × (d.selector ≡ set_writer (init_selector id timer_ids callbacks))
      × (d.ports ≡ init_ports id role)
unfolding start
start-DeviceOk answer registered written ids timer_ids callbacks id role d rc valid timer_valid
      started fine =
    elim (start_power_device_total answer (populate_device_info id role) registered written
      (init_handshaking id ids) (init_selector id timer_ids callbacks)
      (init_handshaking-Inv id ids valid) (init_handshaking_idle id ids)) [
        | inr (null, missing) ↦ cc (rw (null, start) at started)
        | inl (h, s, rc', run, good) ↦
            let made : Device = record {
              handshaking = h;
              selector = s;
              ports = init_ports id role;
            } in
            let runs : start answer registered written ids timer_ids callbacks id role
                ≡ ok (made, rc') =
              rw run refl in
            let same : ◌≡◌ {A = Device × ReturnCode} (made, rc') (d, rc) =
              ok_injective runs started in
            let x = good (ap (λ (y : Device × ReturnCode). is_ok y.1) same ∙ fine) in
            subst
              (λ (y : Device × ReturnCode).
                ((now : ℕ) → DeviceOk now y.0)
                × (y.0.selector ≡ set_writer (init_selector id timer_ids callbacks))
                × (y.0.ports ≡ init_ports id role))
              same
              (
                λ now. record {
                  follows =
                      subst (Invariant.Inv now) (sym x.same_selector)
                        (init_selector-Inv now id timer_ids callbacks timer_valid);
                  sends = x.inv;
                  beating = x.runs;
                  connected = init_ports-PortsOk id role;
                },
                x.same_selector,
                refl,
              )
      ]

-- A device whose `init` has returned OK.
pub record Started (id : Identity) (role : DeviceRole) (d : Device) : Type 0 where
  pub in_order : (now : ℕ) → DeviceOk now d
  pub vacant : d.selector.selected ≡ []
  pub named : d.selector.device_id ≡ id
  pub fresh : d.ports ≡ init_ports id role

pub start-Started :
    (answer : List DdsCall → DdsCall → ReturnCode) (registered : Bool) (written : ReturnCode)
    (ids timer_ids : ℕ → ℕ) (callbacks : Callbacks) (id : Identity) (role : DeviceRole) (d : Device)
    → ((n : ℕ) → ids n ≢ 0)
    → ((n : ℕ) → timer_ids n ≢ 0)
    → start answer registered written ids timer_ids callbacks id role ≡ ok (d, retcode_ok)
    → Started id role d
unfolding init_selector set_writer
start-Started answer registered written ids timer_ids callbacks id role d valid timer_valid
      started =
    let (in_order, selector, ports) =
      start-DeviceOk answer registered written ids timer_ids callbacks id role d retcode_ok valid
        timer_valid started refl in
    record {
      in_order = in_order;
      vacant = ap (λ s. s.selected) selector;
      named = ap (λ s. s.device_id) selector;
      fresh = ports;
    }

-- A power device over reactors that never return the id 0, whose constructor and `init` have come to
-- their end with OK: after any history of heartbeats, device information with an identity,
-- connections, requests and time-outs of active timers, at times that do not go back and are below
-- 2^63, the next of these is handled without a fault; and the heartbeats run, the timers fit what
-- the selector follows, and the ports fit the role.
pub device_no_fault :
    (answer : List DdsCall → DdsCall → ReturnCode) (registered : Bool) (written : ReturnCode)
    (ids timer_ids : ℕ → ℕ) (callbacks : Callbacks) (id : Identity) (role : DeviceRole) (d : Device)
    (log : List (ℕ × Input)) (now later : ℕ) (t : Device) (i : Input)
    → ((n : ℕ) → ids n ≢ 0)
    → ((n : ℕ) → timer_ids n ≢ 0)
    → start answer registered written ids timer_ids callbacks id role ≡ ok (d, retcode_ok)
    → Reach d log now t
    → now ≤ later
    → later < time_point_min
    → IsEnabled i t
    → DeviceOk now t × ((u : Device) × (step later i t ≡ ok u))
device_no_fault answer registered written ids timer_ids callbacks id role d log now later t i valid
      timer_valid started r le small enabled =
    let s =
      start-Started answer registered written ids timer_ids callbacks id role d valid timer_valid
        started in
    let v = Reach-DeviceOk s.in_order r in
    let (u, next_run, w) = step-DeviceOk now later i t le small v enabled in (v, (u, next_run))
