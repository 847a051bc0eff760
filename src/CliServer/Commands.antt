-- ===== src/CliServer/Commands.antt =====
-- controller/ControllerCommandDataReaderListenerImpl.cpp, Controller::terminate in
-- controller/Controller.cpp, and controller/PowerTopologyDataReaderListenerImpl.cpp.
use developer_resources.Prelude.{
  false, ◌++◌, length, ◌<◌, ap, zero, suc, ◌+◌, ◌⊎◌, inl, inr, Bool-cases, ℕ, ◌≡◌, refl, Bool, true,
  ◌&&◌, Option, none, some, List, [], ◌∷◌, if◌then◌else◌, Identity, id_eq, id_eq_refl, Result, ok,
  ◌>>=◌, ◌∙◌, arith,
}
use developer_resources.Data.{ReturnCode, retcode_ok, is_ok}
use developer_resources.Timers.{Fault, call, end_event_loop}
use developer_resources.Handshaking.{Handshaking, start_heartbeats, stop_heartbeats}
use developer_resources.Handshaking.Heartbeats.{
  Inv, running, start_heartbeats-Inv, stop_heartbeats-Inv,
}

pub data ControllerCmdType : Type 0 where
  cct_stop cct_resume cct_terminate : ControllerCmdType

-- The first valid command for this controller; the others are dropped.
unfoldable pub first_command :
    Identity → List (Bool × Identity × ControllerCmdType) → Option ControllerCmdType
first_command id [] = none
first_command id ((valid, mc_id, cct) ∷ rest) =
    let later = first_command id rest in if valid && id_eq mc_id id then some cct else later

unfoldable pub terminate : Handshaking → Handshaking
terminate s =
    let s' = stop_heartbeats s in
    record s' { handler = record s'.handler { reactor = call end_event_loop s'.handler.reactor } }

unfoldable pub run_command : Option ControllerCmdType → Handshaking → Result Fault Handshaking
unfolding terminate
run_command none s = ok s
run_command (some cct_stop) s = ok (stop_heartbeats s)
run_command (some cct_resume) s = do (s', rc) ← start_heartbeats s; ok s'
run_command (some cct_terminate) s = ok (terminate s)

unfoldable pub on_controller_commands :
    ReturnCode → List (Bool × Identity × ControllerCmdType) → Handshaking → Result Fault Handshaking
unfolding first_command run_command
on_controller_commands rc samples s =
    if is_ok rc then run_command (first_command s.device_id samples) s else ok s

stop_heartbeats_fields :
    (s : Handshaking)
    → ((stop_heartbeats s).hb_dw ≡ s.hb_dw) × ((stop_heartbeats s).device_id ≡ s.device_id)
unfolding stop_heartbeats
stop_heartbeats_fields s = ground arith

-- Where the invariant of the heartbeats holds and their writer exists, a command to stop and then
-- one to resume are run without a fault; the heartbeats run after them, none is sent meanwhile, and
-- the numbering goes on where it was.
pub suspend_resume :
    (s : Handshaking)
    → Inv s
    → s.hb_dw ≡ true
    → (s' : Handshaking) × ((on_controller_commands retcode_ok
            ((true, s.device_id, cct_stop) ∷ [])
            s
          >>= on_controller_commands retcode_ok ((true, s.device_id, cct_resume) ∷ []))
        ≡ ok s')
      × Inv s'
      × (running s' ≡ true)
      × (s'.heartbeats ≡ s.heartbeats)
      × (s'.seq_num ≡ s.seq_num)
unfolding on_controller_commands start_heartbeats stop_heartbeats stop_heartbeats_fields
suspend_resume s v writer =
    let (v₁, off, sent₁, num₁) = stop_heartbeats-Inv s v in
    let (same_writer, same_id) = stop_heartbeats_fields s in
    let (s', run, v', on, sent, num, infos) =
      start_heartbeats-Inv (stop_heartbeats s) v₁ (same_writer ∙ writer) in
    (
      s',
      rw (id_eq_refl s.device_id) (rw same_id (rw (id_eq_refl s.device_id) (rw run))),
      v',
      on,
      sent ∙ sent₁,
      num ∙ num₁,
    )

-- A `powersim::PowerConnection`, with the roles left out that are only passed on.
pub record PowerConnection (D : Type 0) : Type 0 where
  pub pd_id : Identity
  pub connected_devices : List D

-- The loop of `on_data_available` over the connections of a topology. `rcs n` is what the n-th
-- write returns; the first one that fails ends the listener. What has been handed over is given.
unfoldable pub forward :
    {D : Type 0} → (ℕ → ReturnCode) → ℕ → List (PowerConnection D) → List (PowerConnection D)
forward rcs n [] = []
forward rcs n (pc ∷ rest) =
    let later = forward rcs (suc n) rest in pc ∷ (if is_ok (rcs n) then later else [])

shift : (n m : ℕ) → n + suc m ≡ suc n + m
shift n m = omega arith

all_but_last :
    (rcs : ℕ → ReturnCode) (n size : ℕ)
    → is_ok (rcs n) ≡ true
    → ((m : ℕ) → suc m < size → is_ok (rcs (suc n + m)) ≡ true)
    → (m : ℕ) → suc m < suc size
    → is_ok (rcs (n + m)) ≡ true
all_but_last rcs n size fine before zero short = ground (arith, fine)
all_but_last rcs n size fine before (suc m) short =
    ap (λ k. is_ok (rcs k)) (shift n m) ∙ before m (omega (arith, short))

-- The listener hands over the connections of a topology in order, up to and with the first one whose
-- write fails; if none fails, all of them.
pub forward_prefix :
    {D : Type 0} (rcs : ℕ → ReturnCode) (n : ℕ) (pcs : List (PowerConnection D))
    → (left : List (PowerConnection D)) × (forward rcs n pcs ++ left ≡ pcs)
      × ((m : ℕ) → suc m < length (forward rcs n pcs) → is_ok (rcs (n + m)) ≡ true)
      × ((left ≡ [])
          ⊎ ((m : ℕ) × (length (forward rcs n pcs) ≡ suc m) × (is_ok (rcs (n + m)) ≡ false)))
unfolding forward
forward_prefix rcs n [] = ([], refl, λ m short. absurd (omega (arith, short)), inl refl)
forward_prefix rcs n (pc ∷ rest) = elim (Bool-cases (is_ok (rcs n))) [
  | inr failed ↦
      rw (failed, forward)
        (
          rest,
          refl,
          λ m short. absurd (omega (arith, short)),
          inr (0, refl, ground (arith, failed)),
        )
  | inl fine ↦
      let (left, whole, before, last) = forward_prefix rcs (suc n) rest in
      rw (fine, forward)
        (
          left,
          ap (λ l. pc ∷ l) whole,
          all_but_last rcs n (length (forward rcs (suc n) rest)) fine before,
          elim last [
            | inl none_left ↦ inl none_left
            | inr (m, size, failed) ↦
                inr (suc m, ap suc size, ap (λ k. is_ok (rcs k)) (shift n m) ∙ failed)
          ],
        )
]
