-- ===== src/Tests/Histories.antt =====
-- common/ControllerSelector.cpp, run from the first device information to a selected controller.
use developer_resources.Prelude.{
  ℕ, suc, ◌+◌, ◌-◌, ◌≤◌, ◌≡◌, ◌≢◌, refl, arith, true, false, [], ◌∷◌, Identity, ok, err, find, some,
  is_empty, ◌⊎◌, inl, inr, In, assign, id_eq, id_lt, update,
}
use developer_resources.Timers.{
  handle_timeout, find_key, assign_key, after_fired, end_loop_if, erase_key, schedule,
  schedule_timer_of, timer_wont_run, to_time_value, already_active, cancel, schedule_once, start,
}
use developer_resources.Selector.{
  missed_heartbeat_fired, no_available, lost_controller_fired, new_controller_fired,
  insert_prioritized, left_of_deadline, precedes, any_timer_fired, first_available, select,
  send_controller_state, Selector, new_controller, missed_heartbeat, lost_controller,
  no_controllers, time_point_min, heartbeat_deadline, init_selector, set_writer, got_device_info,
  got_heartbeat, time_out, select_controller, PrioritizedController, before_deadline, elapsed,
}
use developer_resources.Selector.Invariant.{Inv, on}
use developer_resources.Selector.Traces.{
  heartbeat, device_info, fires, step, Inv-later, Reach, start as begin, next, Reach_no_fault,
  Reach_timers, Reach-Inv, init_selector-Inv,
}
use developer_resources.Selector.Received.{got_heartbeat-Inv, beaten_by}
use developer_resources.Selector.Reactions.{Reacts}
use developer_resources.Selector.Choice.{IsBest, OneUnavailable}
use developer_resources.Selector.Best.{select_controller_total}
use developer_resources.Selector.Failover.{failover, Heard, hear, last_heard}
use developer_resources.Selector.Diagram.{Node, At, Trail, shown}
use developer_resources.Selector.Paths.{Reach-Trail}
use developer_resources.Selector.Deadline.{replacement_deadline, deadline}
use developer_resources.Selector.Unheard.{select_controller_unheard}
use developer_resources.Tests.{
  mc1, mc2, pd1, controller_info, heartbeat_of, fresh_selector, all_callbacks, value_or,
}

abbrev informed : Selector
informed = got_device_info (controller_info mc1 4) fresh_selector

abbrev heard : Selector
heard = value_or (got_heartbeat 2000 (heartbeat_of mc1) informed) informed

Reach-informed : Reach fresh_selector 1000 informed
unfolding step
Reach-informed =
    next 1000 (device_info (controller_info mc1 4)) informed (begin 0 (omega arith)) (omega arith)
      (omega arith) refl refl

Reach-heard : Reach fresh_selector 2000 heard
unfolding step got_heartbeat got_device_info find set_writer init_selector assign id_eq cancel
    schedule_once
Reach-heard =
    next 2000 (heartbeat (heartbeat_of mc1)) heard Reach-informed (omega arith) (omega arith) tt
      refl

ids_valid : (n : ℕ) → suc n ≢ 0
ids_valid n h = omega (arith, h)

heard-Inv : Inv 2000 heard
heard-Inv =
    Reach-Inv (λ n. init_selector-Inv n pd1 (λ n. suc n) all_callbacks ids_valid) Reach-heard

Reach_no_fault_example : step 3000002000 (fires new_controller) heard ≢ err already_active
unfolding got_heartbeat got_device_info find set_writer init_selector assign id_eq cancel
    schedule_once start
Reach_no_fault_example =
    Reach_no_fault pd1 (λ n. suc n) all_callbacks 2000 3000002000 heard (fires new_controller)
      already_active ids_valid Reach-heard (omega arith) (omega arith) refl

Reach_timers_example :
    (is_empty heard.selected ≡ true
      → (on missed_heartbeat heard ≡ false) × (on lost_controller heard ≡ false))
    × (on new_controller heard ≡ true → is_empty heard.selected ≡ true)
    × (on missed_heartbeat heard ≡ true → on lost_controller heard ≡ false)
    × (on no_controllers heard ≡ true
        → (id : Identity) (t : ℕ) → find id heard.all_controllers ≡ some t
        → (t ≡ time_point_min) ⊎ (t + heartbeat_deadline ≤ 2000))
Reach_timers_example = Reach_timers pd1 (λ n. suc n) all_callbacks 2000 heard ids_valid Reach-heard

got_heartbeat-Inv_example :
    (s' : Selector) × (got_heartbeat 2500 (heartbeat_of mc1) heard ≡ ok s')
    × Inv 2500 s'
    × ((t : ℕ) → find mc1 heard.all_controllers ≡ some t → Reacts mc1 (beaten_by 2500 mc1 heard) s')
got_heartbeat-Inv_example =
    got_heartbeat-Inv 2500 (heartbeat_of mc1) heard (Inv-later (omega arith) heard-Inv)

-- The controller heard of 1000 ns ago is the one selected.
select_controller_total_example :
    (s' : Selector) × (select_controller 3000 heard ≡ ok s')
    × (((s' ≡ heard)
          × ((q : PrioritizedController)
              → In q heard.prioritized_controllers
              → OneUnavailable 3000 heard.all_controllers q))
        ⊎ ((p : PrioritizedController) × IsBest 3000 heard.all_controllers
              heard.prioritized_controllers p
            × (s'.selected ≡ p.id)))
unfolding select_controller got_heartbeat got_device_info find set_writer init_selector assign id_eq
    cancel schedule_once update before_deadline elapsed start
select_controller_total_example =
    select_controller_total 3000 heard heard-Inv.handler_ok
      (Inv-later (omega arith) heard-Inv).data_ok heard-Inv.writer refl

select_controller_unheard_example :
    (s' : Selector) × (select_controller 3000 informed ≡ ok s')
    × (s'.selected ≡ mc1)
    × ((s'.handler.timers missed_heartbeat).delay ≡ heartbeat_deadline + (time_point_min - 3000))
unfolding got_device_info find set_writer init_selector assign id_eq
select_controller_unheard_example =
    select_controller_unheard 3000 informed (record { priority = 4; id = mc1 }) [] (omega arith)
      refl refl refl refl

-- A second controller is known too, and the first one is selected.
abbrev mc2_informed : Selector
mc2_informed = got_device_info (controller_info mc2 5) heard

abbrev both_heard : Selector
both_heard = value_or (got_heartbeat 2000 (heartbeat_of mc2) mc2_informed) mc2_informed

abbrev following : Selector
following = value_or (time_out 3000001000 new_controller both_heard) both_heard

Reach-both : Reach fresh_selector 2000 both_heard
unfolding step got_heartbeat find got_device_info set_writer init_selector assign id_eq cancel
    schedule_once update start
Reach-both =
    next 2000 (heartbeat (heartbeat_of mc2)) both_heard
      (next 2000 (device_info (controller_info mc2 5)) mc2_informed Reach-heard (omega arith)
        (omega arith) refl refl)
      (omega arith) (omega arith) tt refl

Reach-following : Reach fresh_selector 3000001000 following
unfolding step got_heartbeat got_device_info find set_writer init_selector assign id_eq cancel
    schedule_once start update before_deadline elapsed time_out handle_timeout find_key assign_key
    new_controller_fired id_lt insert_prioritized left_of_deadline precedes any_timer_fired
    first_available select select_controller send_controller_state after_fired end_loop_if erase_key
    schedule schedule_timer_of timer_wont_run to_time_value
Reach-following =
    next 3000001000 (fires new_controller) following Reach-both (omega arith) (omega arith) refl
      refl

following-Inv : Inv 3000001000 following
following-Inv =
    Reach-Inv (λ n. init_selector-Inv n pd1 (λ n. suc n) all_callbacks ids_valid) Reach-following

abbrev from_mc2 : Heard
from_mc2 = (8000000000, heartbeat_of mc2) ∷ []

-- The first controller is silent, and the second one takes its place.
failover_example :
    (s₁ : Selector) × (time_out 3000002000 missed_heartbeat following ≡ ok s₁)
    × (on lost_controller s₁ ≡ true)
    × ((s₂ : Selector) × (hear from_mc2 s₁ ≡ ok s₂)
        × (on lost_controller s₂ ≡ true)
        × ((s₃ : Selector) × (time_out 9000002000 lost_controller s₂ ≡ ok s₃)
            × Inv 9000002000 s₃
            × ((p : PrioritizedController) × IsBest 9000002000
                  (last_heard from_mc2 following.all_controllers)
                  following.prioritized_controllers
                  p
                × (s₃.selected ≡ p.id))))
unfolding got_heartbeat got_device_info find set_writer init_selector assign id_eq cancel
    schedule_once start update before_deadline elapsed time_out handle_timeout find_key assign_key
    new_controller_fired id_lt insert_prioritized left_of_deadline precedes any_timer_fired
    first_available select select_controller send_controller_state after_fired end_loop_if erase_key
    schedule schedule_timer_of timer_wont_run to_time_value last_heard
failover_example =
    failover 3000002000 9000002000 from_mc2 following (record { priority = 5; id = mc2 })
      (omega arith) (omega arith, refl, omega arith) (Inv-later (omega arith) following-Inv) refl
      (inr (inl refl)) (record { last = 8000000000; found = refl; recent = refl })

Reach-Trail_example : (n : Node) × At n following × Trail 3000001000 (shown n following)
Reach-Trail_example =
    Reach-Trail pd1 (λ n. suc n) all_callbacks 3000001000 following ids_valid Reach-following

-- MissedHeartbeat has fired, and the second controller is heard of.
abbrev missing : Selector
missing = value_or (time_out 3000002000 missed_heartbeat following) following

abbrev silent : Selector
silent = value_or (got_heartbeat 8000000000 (heartbeat_of mc2) missing) missing

abbrev replaced : Selector
replaced = value_or (time_out 9000002000 lost_controller silent) silent

Reach-silent : Reach fresh_selector 8000000000 silent
unfolding step got_heartbeat got_device_info find set_writer init_selector assign id_eq cancel
    schedule_once start update before_deadline elapsed time_out handle_timeout find_key assign_key
    new_controller_fired id_lt insert_prioritized left_of_deadline precedes any_timer_fired
    first_available select select_controller send_controller_state after_fired end_loop_if erase_key
    schedule schedule_timer_of timer_wont_run to_time_value missed_heartbeat_fired no_available
Reach-silent =
    next 8000000000 (heartbeat (heartbeat_of mc2)) silent
      (next 3000002000 (fires missed_heartbeat) missing Reach-following (omega arith) (omega arith)
        refl refl)
      (omega arith) (omega arith) tt refl

silent-Inv : Inv 8000000000 silent
silent-Inv =
    Reach-Inv (λ n. init_selector-Inv n pd1 (λ n. suc n) all_callbacks ids_valid) Reach-silent

replacement_deadline_example :
    (s : Selector) × (hear
        ((9500000000, heartbeat_of mc2) ∷ (10000000000, heartbeat_of mc2) ∷ [])
        replaced
      ≡ ok s)
    × (s.selected ≡ replaced.selected)
    × (on missed_heartbeat s ≡ true)
    × (deadline s ≡ 1999998000)
unfolding got_heartbeat got_device_info find set_writer init_selector assign id_eq cancel
    schedule_once start update before_deadline elapsed time_out handle_timeout find_key assign_key
    new_controller_fired id_lt insert_prioritized left_of_deadline precedes any_timer_fired
    first_available select select_controller send_controller_state after_fired end_loop_if erase_key
    schedule schedule_timer_of timer_wont_run to_time_value missed_heartbeat_fired no_available
    lost_controller_fired
replacement_deadline_example =
    replacement_deadline 9000002000 10000000000 8000000000
      ((9500000000, heartbeat_of mc2) ∷ (10000000000, heartbeat_of mc2) ∷ []) silent replaced
      (omega arith) (Inv-later (omega arith) silent-Inv) refl refl refl
      (omega arith, refl, (omega arith, refl, omega arith))
