-- ===== src/Selector/Carried.antt =====
-- common/ControllerSelector.cpp: edges of the pseudo state machine, and what is carried along them.
use developer_resources.Prelude.{
  ℕ, ◌≡◌, ◌∙◌, Bool, true, List, Identity, find, update, find-update, contains, Option-cases, arith,
}
use developer_resources.Selector.Traces.{Input}
use developer_resources.Selector.Diagram.{
  Node, unfollowing, waiting, following, doubting, View, view, Edge, At, Carries, shown,
}
use developer_resources.Selector.{
  new_controller, lost_controller, event_Eq, Selector, PrioritizedController,
}

-- The selector is at some node afterwards, and the step is an edge to it.
abbrev pub Moves : ℕ → Input → Node → Selector → Selector → Type 0
Moves now i n s s' = (n' : Node) × Edge now i (shown n s) (shown n' s') × At n' s'

pub Edge-to :
    {now : ℕ} {i : Input} {v : View} {n : Node} {c c' : Bool} {all all' : List (Identity × ℕ)}
    {ps ps' : List PrioritizedController}
    → c' ≡ c
    → all' ≡ all
    → ps' ≡ ps
    → Edge now i v (view n c all ps)
    → Edge now i v (view n c' all' ps')
Edge-to ec ea ep edge = rw (ec, ea, ep) edge

pub known_beaten :
    (now : ℕ) (id j : Identity) (all : List (Identity × ℕ))
    → contains (find j all) ≡ true
    → contains (find j (update id (λ _. now) all)) ≡ true
known_beaten now id j all known =
    ground (arith, find-update id j (λ _. now) all, Option-cases (find j all))

pub Carries-to :
    (n : Node) (s s' : Selector)
    → (s'.handler.timers new_controller).arg ≡ (s.handler.timers new_controller).arg
    → ((s'.handler.timers new_controller).delay ≡ (s.handler.timers new_controller).delay)
    → ((s'.handler.timers lost_controller).delay ≡ (s.handler.timers lost_controller).delay)
    → ((j : Identity)
        → contains (find j s.all_controllers) ≡ true
        → contains (find j s'.all_controllers) ≡ true)
    → Carries n s
    → Carries n s'
Carries-to unfollowing s s' arg new lost keeps x = tt
Carries-to (waiting j) s s' arg new lost keeps (names, known, delay) =
    (arg ∙ names, keeps j known, new ∙ delay)
Carries-to (following j) s s' arg new lost keeps x = tt
Carries-to (doubting j) s s' arg new lost keeps x = lost ∙ x
