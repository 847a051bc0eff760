-- ===== src/Selector/Informed.antt =====
-- common/ControllerSelector.cpp: what `got_device_info` keeps.
use developer_resources.Prelude.{
  ℕ, ◌≡◌, ap, false, inl, inr, none, List, [], Identity, is_empty, id_eq, id_eq_iff, find, assign,
  find-assign, contains, Bool-cases, arith, ◌&&◌, not, if◌then◌else◌,
}
use developer_resources.Data.{DeviceInfo, is_controller}
use developer_resources.Selector.Order.{insert_prioritized-IsSorted, In-insert_prioritized}
use developer_resources.Selector.Invariant.{Inv}
use developer_resources.Selector.{
  event_Eq, Selector, time_point_min, got_device_info, insert_prioritized, prioritized,
}

-- Device information of a device whose identity is not empty keeps the invariant of the selector.
pub got_device_info-Inv :
    (now : ℕ) (di : DeviceInfo) (s : Selector)
    → Inv now s
    → is_empty di.device_id ≡ false
    → Inv now (got_device_info di s)
unfolding got_device_info
got_device_info-Inv now di s v named =
    elim (Bool-cases
      (is_controller di.role && not (contains (find di.device_id s.all_controllers)))) [
        | inr ignored ↦ rw (ignored, got_device_info) v
        | inl new ↦ rw (new, got_device_info) (added (ground arith))
      ]
  where
    all : List (Identity × ℕ)
    all = assign di.device_id time_point_min s.all_controllers

    added :
        find di.device_id s.all_controllers ≡ none
        → Inv now (record s {
          all_controllers = all;
          prioritized_controllers = insert_prioritized (prioritized di) s.prioritized_controllers;
        })
    added absent = record {
      handler_ok = v.handler_ok;
      data_ok = record {
        known = λ q member. elim ((In-insert_prioritized (prioritized di) q _).2 member) [
          | inl same ↦ (
            time_point_min,
            ground (
              arith,
              ap (λ p. p.id) same,
              id_eq_iff di.device_id q.id,
              find-assign di.device_id q.id time_point_min s.all_controllers,
            ),
          )
          | inr old ↦
              let (t, there) = v.data_ok.known q old in
              (
                if id_eq di.device_id q.id then time_point_min else t,
                ground (arith, find-assign di.device_id q.id time_point_min s.all_controllers),
              )
        ];
        named = ground (
          arith,
          id_eq_iff di.device_id [],
          v.data_ok.named,
          find-assign di.device_id [] time_point_min s.all_controllers,
        );
        stamped = λ j t there. ground (
          arith,
          find-assign di.device_id j time_point_min s.all_controllers,
          v.data_ok.stamped j t,
        );
        sorted =
            insert_prioritized-IsSorted (prioritized di) s.prioritized_controllers v.data_ok.sorted;
      };
      writer = v.writer;
      phase = record {
        vacant = v.phase.vacant;
        waiting = v.phase.waiting;
        apart = v.phase.apart;
        silent = λ running j t there. ground (
          arith,
          find-assign di.device_id j time_point_min s.all_controllers,
          v.phase.silent running j t,
        );
        unheard = λ running missed.
            let (j, there) = v.phase.unheard running missed in
            (j, ground (arith, find-assign di.device_id j time_point_min s.all_controllers));
      };
    }
