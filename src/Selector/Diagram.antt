-- ===== src/Selector/Diagram.antt =====
-- common/ControllerSelector.h: the pseudo state machine that the comment above `ControllerSelector` draws.
--
-- A node says which controller is followed and which timer stands for that. NoControllers runs
-- beside them. An edge is an arrow of the drawing, by what reaches the selector. The arrow to
-- NoControllers has the code's condition, which the drawing leaves out.
use developer_resources.Prelude.{
  ℕ, ◌≤◌, ◌≡◌, Bool, true, false, none, some, List, [], Identity, id_eq, find, update, assign,
  contains, In, ◌&&◌, not,
}
use developer_resources.Data.{DeviceInfo, Heartbeat, is_controller}
use developer_resources.Selector.Choice.{IsBest, OneUnavailable}
use developer_resources.Selector.Invariant.{on}
use developer_resources.Selector.Traces.{Input, heartbeat, device_info, fires}
use developer_resources.Selector.{
  new_controller, missed_heartbeat, lost_controller, no_controllers, Selector,
  PrioritizedController, time_point_min, new_active_controller_delay, lost_active_controller_delay,
  no_controllers_delay, no_available, insert_prioritized, prioritized,
}

-- No controller is followed and none is about to be; NewController runs for a controller; the
-- heartbeat of the controller that is followed is due; that controller is about to be lost.
pub data Node : Type 0 where
  unfollowing : Node
  waiting following doubting : Identity → Node

abbrev pub selection : Node → Identity
selection unfollowing = []
selection (waiting id) = []
selection (following id) = id
selection (doubting id) = id

abbrev pub is_waiting : Node → Bool
is_waiting (waiting id) = true
is_waiting _ = false

abbrev pub is_following : Node → Bool
is_following (following id) = true
is_following _ = false

abbrev pub is_doubting : Node → Bool
is_doubting (doubting id) = true
is_doubting _ = false

-- A node, whether NoControllers runs, the controllers with the times of their heartbeats, and their order.
pub data View : Type 0 where
  view : Node → Bool → List (Identity × ℕ) → List PrioritizedController → View

abbrev pub NoneUnavailable : ℕ → List (Identity × ℕ) → List PrioritizedController → Type 0
NoneUnavailable now all ps = (q : PrioritizedController) → In q ps → OneUnavailable now all q

-- The arrows out of `got_heartbeat()` for a known sender, by the node. E: NewController is
-- scheduled where no controller is followed. A, C and R: LostController is cancelled and
-- MissedHeartbeat starts anew where the sender is followed.
pub data Hears (id : Identity) : Node → Node → Type 0 where
  seek : Hears id unfollowing (waiting id)
  wait : (j : Identity) → Hears id (waiting j) (waiting j)
  follow : (j : Identity) → id_eq j id ≡ true → Hears id (following j) (following j)
  recover : (j : Identity) → id_eq j id ≡ true → Hears id (doubting j) (following j)
  pass : (j : Identity) → id_eq j id ≡ false → Hears id (following j) (following j)
  doubt : (j : Identity) → id_eq j id ≡ false → Hears id (doubting j) (doubting j)

-- [S]: the best available controller is followed if one is available.
pub data Picks (now : ℕ) (all : List (Identity × ℕ)) (ps : List PrioritizedController)
    : Node → Type 0 where
  picks : (p : PrioritizedController) → IsBest now all ps p → Picks now all ps (following p.id)
  picks_none : NoneUnavailable now all ps → Picks now all ps unfollowing

-- Device information adds a controller that is not known yet.
abbrev pub is_news : DeviceInfo → List (Identity × ℕ) → Bool
is_news di all = is_controller di.role && not (contains (find di.device_id all))

pub data Edge (now : ℕ) : Input → View → View → Type 0 where
  unknown :
      (hb : Heartbeat) (n : Node) (c : Bool) (all : List (Identity × ℕ))
      (ps : List PrioritizedController)
      → find hb.device_id all ≡ none
      → Edge now (heartbeat hb) (view n c all ps) (view n c all ps)
  hears :
      (hb : Heartbeat) (n n' : Node) (c : Bool) (all : List (Identity × ℕ))
      (ps : List PrioritizedController) (t : ℕ)
      → find hb.device_id all ≡ some t
      → Hears hb.device_id n n'
      → Edge now
          (heartbeat hb)
          (view n c all ps)
          (view n' false (update hb.device_id (λ _. now) all) ps)
  joins :
      (di : DeviceInfo) (n : Node) (c : Bool) (all : List (Identity × ℕ))
      (ps : List PrioritizedController)
      → is_news di all ≡ true
      → Edge now (device_info di) (view n c all ps) (
          view n c
            (assign di.device_id time_point_min all)
            (insert_prioritized (prioritized di) ps))
  no_news :
      (di : DeviceInfo) (n : Node) (c : Bool) (all : List (Identity × ℕ))
      (ps : List PrioritizedController)
      → is_news di all ≡ false
      → Edge now (device_info di) (view n c all ps) (view n c all ps)
  selects_new :
      (id : Identity) (n' : Node) (c : Bool) (all : List (Identity × ℕ))
      (ps : List PrioritizedController)
      → Picks now all ps n'
      → Edge now (fires new_controller) (view (waiting id) c all ps) (view n' c all ps)
  misses :
      (id : Identity) (c : Bool) (all : List (Identity × ℕ)) (ps : List PrioritizedController)
      → no_available now all ≡ false
      → Edge now
          (fires missed_heartbeat)
          (view (following id) c all ps)
          (view (doubting id) c all ps)
  misses_all :
      (id : Identity) (all : List (Identity × ℕ)) (ps : List PrioritizedController)
      → no_available now all ≡ true
      → Edge now
          (fires missed_heartbeat)
          (view (following id) false all ps)
          (view (doubting id) true all ps)
  loses :
      (id : Identity) (n' : Node) (c : Bool) (all : List (Identity × ℕ))
      (ps : List PrioritizedController)
      → Picks now all ps n'
      → Edge now (fires lost_controller) (view (doubting id) c all ps) (view n' c all ps)
  alone :
      (n : Node) (all : List (Identity × ℕ)) (ps : List PrioritizedController)
      → Edge now (fires no_controllers) (view n true all ps) (view n false all ps)

-- What the edges reach by a time, from no controller.
pub data Trail : ℕ → View → Type 0 where
  begin : (now : ℕ) → Trail now (view unfollowing false [] [])
  along :
      {now later : ℕ} {v w : View} (i : Input)
      → Trail now v
      → now ≤ later
      → Edge later i v w
      → Trail later w

-- NewController runs for a known controller, which its argument names. It and LostController have
-- the delay that the drawing gives them.
abbrev pub Carries : Node → Selector → Type 0
Carries (waiting id) s =
    ((s.handler.timers new_controller).arg ≡ id)
    × (contains (find id s.all_controllers) ≡ true)
    × ((s.handler.timers new_controller).delay ≡ new_active_controller_delay)
Carries (doubting id) s = (s.handler.timers lost_controller).delay ≡ lost_active_controller_delay
Carries _ s = Unit {0}

-- The selector is at a node: the selected identity and the timers that run are the node's.
pub record At (n : Node) (s : Selector) : Type 0 where
  pub selected : s.selected ≡ selection n
  pub new : on new_controller s ≡ is_waiting n
  pub missed : on missed_heartbeat s ≡ is_following n
  pub lost : on lost_controller s ≡ is_doubting n
  pub carries : Carries n s
  pub comms_loss :
      on no_controllers s ≡ true → (s.handler.timers no_controllers).delay ≡ no_controllers_delay

abbrev pub shown : Node → Selector → View
shown n s = view n (on no_controllers s) s.all_controllers s.prioritized_controllers
