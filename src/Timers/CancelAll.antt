-- ===== src/Timers/CancelAll.antt =====
-- common/TimerHandler.h: `cancel_all`, which the destructor calls too.
use developer_resources.Prelude.{
  ◌≡◌, refl, ap, subst, ◌⊎◌, inl, inr, true, false, some, List, [], ◌∷◌, Bool-cases, Eq, arith, In,
}
use developer_resources.Timers.WellFormed.{IsWellFormed}
use developer_resources.Timers.{
  TimerKey, cleared, ReactorCall, TimerHandler, active, find_key, set_timer, deactivate,
  cancel_each, cancel_all, call, cancel_timer,
}

module _ {K : Type 0} ⦃e : Eq K⦄ where
  -- The timer is among the values of a map of active timers.
  abbrev Lists : K → List (TimerKey K × K) → Type 0
  Lists k [] = ⊥
  Lists k ((key, l) ∷ m) = (l ≡ k) ⊎ Lists k m

  Lists-find_key :
      (key : TimerKey K) (k : K) (m : List (TimerKey K × K)) → find_key key m ≡ some k → Lists k m
  unfolding find_key
  Lists-find_key key k [] found = cc
  Lists-find_key key k ((j, l) ∷ m) found = ground (arith, Lists-find_key key k m)

module _ {K A : Type 0} ⦃e : Eq K⦄ where
  cancel_each_off :
      (m : List (TimerKey K × K)) (k : K) (h : TimerHandler K A)
      → active (h.timers k) ≡ false
      → (h.timers k).key ≡ cleared
      → (active ((cancel_each m h).timers k) ≡ false) × (((cancel_each m h).timers k).key ≡ cleared)
  unfolding cancel_each
  cancel_each_off [] k h off none_left = (off, none_left)
  cancel_each_off ((key, l) ∷ m) k h off none_left =
      cancel_each_off m k _ (ground (arith, e.beq_iff l k)) (ground (arith, e.beq_iff l k))

  cancel_each_all :
      (m : List (TimerKey K × K)) (k : K) (h : TimerHandler K A)
      → Lists k m
      → (active ((cancel_each m h).timers k) ≡ false) × (((cancel_each m h).timers k).key ≡ cleared)
  unfolding cancel_each
  cancel_each_all [] k h there = absurd there
  cancel_each_all ((key, l) ∷ m) k h (inl same) =
      cancel_each_off m k _ (ground (arith, e.beq_iff l k)) (ground (arith, e.beq_iff l k))
  cancel_each_all ((key, l) ∷ m) k h (inr there) = cancel_each_all m k _ there

  told-cancel_each :
      (m : List (TimerKey K × K)) (h : TimerHandler K A) (c : ReactorCall K)
      → In c h.reactor.calls
      → In c (cancel_each m h).reactor.calls
  unfolding cancel_each
  told-cancel_each [] h c there = there
  told-cancel_each ((key, l) ∷ m) h c there = told-cancel_each m _ c (inr there)

  cancel_each_told :
      (m : List (TimerKey K × K)) (k : K) (h : TimerHandler K A)
      → Lists k m
      → In (cancel_timer (h.timers k).id) (cancel_each m h).reactor.calls
  unfolding cancel_each
  cancel_each_told [] k h there = absurd there
  cancel_each_told ((key, l) ∷ m) k h (inl same) =
      told-cancel_each m _ _ (inl (ap (λ j. cancel_timer (h.timers j).id) same))
  cancel_each_told ((key, l) ∷ m) k h (inr there) = elim (Bool-cases (e.beq l k)) [
    | inl same ↦
        told-cancel_each m _ _
          (inl (ap (λ j. cancel_timer (h.timers j).id) ((e.beq_iff l k).0 same)))
    | inr other ↦
        subst (λ i. In (cancel_timer i) (cancel_each m (step_of key l)).reactor.calls)
          (ground arith) (cancel_each_told m k (step_of key l) there)
  ]
    where
      step_of : TimerKey K → K → TimerHandler K A
      step_of key l = record h {
        timers = set_timer l (deactivate (h.timers l)) h.timers;
        reactor = call (cancel_timer (h.timers l).id) h.reactor;
      }

  -- After `cancel_all` on a well-formed handler no timer is active, the map is empty, and the
  -- reactor was told to cancel the id of each timer that was active.
  pub cancel_all_told :
      (h : TimerHandler K A)
      → IsWellFormed h
      → ((k : K)
          → (active ((cancel_all h).timers k) ≡ false) × (((cancel_all h).timers k).key ≡ cleared))
        × ((cancel_all h).active_timers ≡ [])
        × ((k : K)
            → active (h.timers k) ≡ true
            → In (cancel_timer (h.timers k).id) (cancel_all h).reactor.calls)
  unfolding cancel_all
  cancel_all_told h w = (
    λ k. elim (Bool-cases (active (h.timers k))) [
      | inl on ↦ cancel_each_all h.active_timers k h (Lists-find_key _ k _ (w.listed k on))
      | inr off ↦ cancel_each_off h.active_timers k h off (w.idle k off)
    ],
    refl,
    λ k on. cancel_each_told h.active_timers k h (Lists-find_key _ k _ (w.listed k on)),
  )
