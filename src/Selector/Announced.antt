-- ===== src/Selector/Announced.antt =====
-- common/ControllerSelector.cpp: what a selector has told the controllers of whom it follows.
use developer_resources.Prelude.{
  ok_same, ℕ, ◌≡◌, refl, ◌∙◌, ap, sym, subst, false, Option, none, some, List, [], ◌∷◌, Identity,
  is_empty, find, Result, ok, err, ◌>>=◌, arith,
}
use developer_resources.Data.{Heartbeat, DeviceInfo}
use developer_resources.Timers.{Fault, null_pointer, after_fired, handle_timeout, find_key}
use developer_resources.Selector.{
  Selector, Event, new_controller, missed_heartbeat, lost_controller, no_controllers, Output,
  event_Eq, write_controller_state, select, send_controller_state, select_controller,
  first_available, got_heartbeat, heartbeat_timers, got_device_info, output, master, time_out,
  any_timer_fired, with_handler, new_controller_fired, missed_heartbeat_fired,
  lost_controller_fired, no_controllers_fired, lost_controller_callback, select_found,
}

-- The last sample of `ActiveMicrogridControllerState` that was handed to the writer.
unfoldable pub last_written : List Output → Option (Identity × Option Identity)
last_written [] = none
last_written (write_controller_state id m ∷ rest) = some (id, m)
last_written (_ ∷ rest) = last_written rest

-- A selector of this device that follows a controller has told so last.
pub record Announced (id : Identity) (s : Selector) : Type 0 where
  pub same_device : s.device_id ≡ id
  pub told : is_empty s.selected ≡ false → last_written s.outputs ≡ some (id, some s.selected)

-- What is neither followed nor told anew.
record Quiet (s s' : Selector) : Type 0 where
  same_selected : s'.selected ≡ s.selected
  same_outputs : last_written s'.outputs ≡ last_written s.outputs
  same_id : s'.device_id ≡ s.device_id

Quiet-Announced : (id : Identity) (s s' : Selector) → Quiet s s' → Announced id s → Announced id s'
Quiet-Announced id s s' q a = record {
  same_device = q.same_id ∙ a.same_device;
  told = λ named.
      q.same_outputs
      ∙ a.told (ap is_empty (sym q.same_selected) ∙ named)
      ∙ ap (λ i. some (id, some i)) (sym q.same_selected);
}

got_heartbeat-Quiet :
    (now : ℕ) (hb : Heartbeat) (s s' : Selector) → got_heartbeat now hb s ≡ ok s' → Quiet s s'
unfolding got_heartbeat heartbeat_timers
got_heartbeat-Quiet now hb s s' run = ground arith

missed_heartbeat_fired-Quiet :
    (now : ℕ) (s s' : Selector) → missed_heartbeat_fired now s ≡ ok s' → Quiet s s'
unfolding missed_heartbeat_fired last_written
missed_heartbeat_fired-Quiet now s s' run = ground arith

master_named : (i : Identity) → is_empty i ≡ false → master i ≡ some i
master_named [] h = cc h
master_named (c ∷ cs) h = refl

select-Announced :
    (id i : Identity) (hb : ℕ) (s s' : Selector)
    → s.device_id ≡ id
    → select i hb s ≡ ok s'
    → Announced id s'
unfolding select send_controller_state last_written
select-Announced id i hb s s' same run = ground (arith, master_named i)

select_controller-Announced :
    (id : Identity) (now : ℕ) (s s' : Selector)
    → Announced id s
    → select_controller now s ≡ ok s'
    → Announced id s'
unfolding select_controller
select_controller-Announced id now s s' a run =
    found (first_available now s.all_controllers s.prioritized_controllers) run
  where
    found :
        (r : Result Fault (Option (Identity × ℕ)))
        → (r >>= λ x. select_found x s) ≡ ok s'
        → Announced id s'
    found (err e) h = cc h
    found (ok none) h = subst (Announced id) (ok_same h) a
    found (ok (some (i, hb))) h = select-Announced id i hb s s' a.same_device h

new_controller_fired-Announced :
    (id : Identity) (now : ℕ) (s s' : Selector)
    → Announced id s
    → new_controller_fired now s ≡ ok s'
    → Announced id s'
unfolding new_controller_fired
new_controller_fired-Announced id now s s' a run =
    known (find (s.handler.timers new_controller).arg s.all_controllers) run
  where
    known :
        (x : Option ℕ)
        → elim x [ none ↦ ok s | some last ↦ select_controller now s ] ≡ ok s'
        → Announced id s'
    known none h = subst (Announced id) (ok_same h) a
    known (some last) h = select_controller-Announced id now s s' a h

lost_controller_fired-Announced :
    (id : Identity) (now : ℕ) (s s' : Selector)
    → Announced id s
    → lost_controller_fired now s ≡ ok s'
    → Announced id s'
unfolding lost_controller_fired
lost_controller_fired-Announced id now s s' a run =
    select_controller-Announced id now
      (record (output s.callbacks.lost_controller_set (lost_controller_callback s.selected) s) {
        selected = [];
      })
      s' (record { same_device = a.same_device; told = λ e. cc e }) run

no_controllers_fired-Quiet : (s : Selector) → Quiet s (no_controllers_fired s)
unfolding no_controllers_fired last_written
no_controllers_fired-Quiet s = ground arith

any_timer_fired-Announced :
    (id : Identity) (now : ℕ) (k : Event) (s s' : Selector)
    → Announced id s
    → any_timer_fired now k s ≡ ok s'
    → Announced id s'
unfolding any_timer_fired
any_timer_fired-Announced id now new_controller s s' a run =
    new_controller_fired-Announced id now s s' a run
any_timer_fired-Announced id now missed_heartbeat s s' a run =
    Quiet-Announced id s s' (missed_heartbeat_fired-Quiet now s s' run) a
any_timer_fired-Announced id now lost_controller s s' a run =
    lost_controller_fired-Announced id now s s' a run
any_timer_fired-Announced id now no_controllers s s' a run =
    subst (Announced id) (ok_same run)
      (Quiet-Announced id s (no_controllers_fired s) (no_controllers_fired-Quiet s) a)

pub got_heartbeat-Announced :
    (id : Identity) (now : ℕ) (hb : Heartbeat) (s s' : Selector)
    → Announced id s
    → got_heartbeat now hb s ≡ ok s'
    → Announced id s'
got_heartbeat-Announced id now hb s s' a run =
    Quiet-Announced id s s' (got_heartbeat-Quiet now hb s s' run) a

got_device_info-Quiet : (di : DeviceInfo) (s : Selector) → Quiet s (got_device_info di s)
unfolding got_device_info
got_device_info-Quiet di s = ground arith

pub got_device_info-Announced :
    (id : Identity) (di : DeviceInfo) (s : Selector)
    → Announced id s
    → Announced id (got_device_info di s)
got_device_info-Announced id di s a =
    Quiet-Announced id s (got_device_info di s) (got_device_info-Quiet di s) a

pub time_out-Announced :
    (id : Identity) (now : ℕ) (k : Event) (s s' : Selector)
    → Announced id s
    → time_out now k s ≡ ok s'
    → Announced id s'
unfolding time_out handle_timeout
time_out-Announced id now k s s' a run =
    found (find_key (s.handler.timers k).key s.handler.active_timers) run
  where
    fired :
        (r : Result Fault Selector) (j : Event)
        → any_timer_fired now j s ≡ r
        → (r >>= λ t. ok (with_handler (after_fired j t.handler) t)) ≡ ok s'
        → Announced id s'
    fired (err e) j done h = cc h
    fired (ok t) j done h =
        let b = any_timer_fired-Announced id now j s t a done in
        subst (Announced id) (ok_same h) (record { same_device = b.same_device; told = b.told })

    found :
        (x : Option Event)
        → elim x [
          | none ↦ err null_pointer
          | some j ↦
              (any_timer_fired now j s >>= λ t. ok (with_handler (after_fired j t.handler) t))
        ]
          ≡ ok s'
        → Announced id s'
    found none h = cc h
    found (some j) h = fired (any_timer_fired now j s) j refl h
