-- ===== src/Selector/Best.antt =====
-- common/ControllerSelector.cpp: `select_controller` returns, and with the right controller.
use developer_resources.Prelude.{ℕ, ◌≡◌, true, false, ◌⊎◌, ok, In}
use developer_resources.Selector.Choice.{IsBest, OneUnavailable, select_controller-IsBest}
use developer_resources.Selector.Selecting.{select_controller-Selected}
use developer_resources.Selector.Invariant.{HandlerOk, DataOk, on}
use developer_resources.Selector.{
  Selector, missed_heartbeat, PrioritizedController, select_controller,
}

-- If the handler and the data of the selector are in order, its writer is set and MissedHeartbeat is
-- not active, `select_controller` returns without a fault. It has then left the selector alone and
-- no controller is available, or it has selected an available controller that no other available
-- one precedes by priority and identity.
pub select_controller_total :
    (now : ℕ) (s : Selector)
    → HandlerOk s.handler
    → DataOk now s.all_controllers s.prioritized_controllers
    → s.amcs_dw ≡ true
    → on missed_heartbeat s ≡ false
    → (s' : Selector) × (select_controller now s ≡ ok s')
      × (((s' ≡ s)
            × ((q : PrioritizedController)
                → In q s.prioritized_controllers
                → OneUnavailable now s.all_controllers q))
          ⊎ ((p : PrioritizedController) × IsBest now s.all_controllers s.prioritized_controllers p
              × (s'.selected ≡ p.id)))
select_controller_total now s h d writer off =
    let (s', run, selected) = select_controller-Selected now s h d writer off in
    (s', run, select_controller-IsBest now s s' d.sorted run)
