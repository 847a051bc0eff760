-- ===== src/Timers/WellFormed.antt =====
-- common/TimerHandler.h: the map of active timers and the timers themselves stay in step.
use developer_resources.Prelude.{
  ℕ, ◌≡◌, refl, ◌≢◌, ◌↔◌, true, false, none, some, List, [], ◌∷◌, if◌then◌else◌, Bool-cases, Eq,
  arith,
}
use developer_resources.Timers.{
  TimerKey, cleared, key_of, TimerHandler, active, key_eq, find_key, assign_key, erase_key, start,
  timer_wont_run,
}

module _ {K : Type 0} ⦃e : Eq K⦄ where
  pub key_eq_iff : (a b : TimerKey K) → (key_eq a b ≡ true) ↔ (a ≡ b)
  key_eq_iff cleared cleared = (λ _. refl, λ _. refl)
  key_eq_iff cleared (key_of j l) = (λ h. cc, λ h. cc)
  key_eq_iff (key_of i k) cleared = (λ h. cc, λ h. cc)
  key_eq_iff (key_of i k) (key_of j l) =
      (λ h. ground (arith, e.beq_iff k l), λ h. ground (arith, e.beq_iff k l))

  pub find_key-assign_key :
      (a b : TimerKey K) (k : K) (m : List (TimerKey K × K))
      → find_key b (assign_key a k m) ≡ (if key_eq a b then some k else find_key b m)
  unfolding find_key assign_key
  find_key-assign_key a b k [] = refl
  find_key-assign_key a b k ((j, l) ∷ m) =
      ground (arith, key_eq_iff a b, key_eq_iff j a, key_eq_iff j b, find_key-assign_key a b k m)

  pub find_key-erase_key :
      (a b : TimerKey K) (m : List (TimerKey K × K))
      → find_key b (erase_key a m) ≡ (if key_eq a b then none else find_key b m)
  unfolding find_key erase_key
  find_key-erase_key a b [] = ground arith
  find_key-erase_key a b ((j, l) ∷ m) =
      ground (arith, key_eq_iff a b, key_eq_iff j a, key_eq_iff j b, find_key-erase_key a b m)

-- A timer is active exactly if the map holds it, under the key that it has; an inactive timer has
-- no key.
pub record IsWellFormed {K A : Type 0} ⦃e : Eq K⦄ (h : TimerHandler K A) : Type 0 where
  pub keyed : (k : K) → active (h.timers k) ≡ true → (h.timers k).key ≡ key_of (h.timers k).id k
  pub idle : (k : K) → active (h.timers k) ≡ false → (h.timers k).key ≡ cleared
  pub listed :
      (k : K) → active (h.timers k) ≡ true → find_key (h.timers k).key h.active_timers ≡ some k
  pub live :
      (key : TimerKey K) (k : K)
      → find_key key h.active_timers ≡ some k
      → ((h.timers k).key ≡ key) × (active (h.timers k) ≡ true)

module _ {K A : Type 0} ⦃e : Eq K⦄ where
  pub start-IsWellFormed :
      (k : K) (h : TimerHandler K A)
      → IsWellFormed h
      → active (h.timers k) ≡ false
      → h.reactor.ids h.reactor.issued ≢ 0
      → IsWellFormed (start k h)
  unfolding start
  start-IsWellFormed k h w off valid = record {
    keyed = λ j on. ground (arith, e.beq_iff k j, w.keyed j);
    idle = λ j on. ground (arith, e.beq_iff k j, w.idle j);
    listed = λ j on. ground (
      arith,
      e.beq_iff k j,
      w.keyed j,
      w.listed j,
      key_eq_iff (key_of id k) (h.timers j).key,
      key_eq_iff (key_of id k) (key_of id k),
      find_key-assign_key (key_of id k) (h.timers j).key k h.active_timers,
      find_key-assign_key (key_of id k) (key_of id k) k h.active_timers,
    );
    live = λ key j found. ground (
      arith,
      e.beq_iff k j,
      w.live key j,
      key_eq_iff (key_of id k) key,
      find_key-assign_key (key_of id k) key k h.active_timers,
    );
  }
    where
      id : ℕ
      id = h.reactor.ids h.reactor.issued

  pub timer_wont_run-IsWellFormed :
      (k : K) (h : TimerHandler K A) → IsWellFormed h → IsWellFormed (timer_wont_run k h)
  unfolding timer_wont_run
  timer_wont_run-IsWellFormed k h w = record {
    keyed = λ j on. ground (arith, e.beq_iff k j, w.keyed j);
    idle = λ j on. ground (arith, e.beq_iff k j, w.idle j);
    listed = λ j on. ground (
      arith,
      e.beq_iff k j,
      w.keyed j,
      w.listed j,
      w.keyed k,
      w.idle k,
      Bool-cases (active (h.timers k)),
      key_eq_iff (h.timers k).key (h.timers j).key,
      find_key-erase_key (h.timers k).key (h.timers j).key h.active_timers,
    );
    live = λ key j found. ground (
      arith,
      e.beq_iff k j,
      w.live key j,
      key_eq_iff (h.timers k).key key,
      find_key-erase_key (h.timers k).key key h.active_timers,
    );
  }
