-- ===== src/Tests/Orders.antt =====
-- common/ControllerSelector.h: the order of the controllers and the arithmetic of times.
use developer_resources.Prelude.{◌≡◌, refl, [], ◌∷◌}
use developer_resources.Selector.{PrioritizedController, insert_prioritized}
use developer_resources.Tests.{mc1, mc2}

abbrev first : PrioritizedController
first = record { priority = 2; id = mc2 }

abbrev second : PrioritizedController
second = record { priority = 5; id = mc1 }

-- The lower priority number comes first.
insert_order : insert_prioritized first (second ∷ []) ≡ first ∷ second ∷ []
unfolding insert_prioritized
insert_order = refl
