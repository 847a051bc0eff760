-- ===== src/Selector/Choice.antt =====
-- common/ControllerSelector.cpp: which controller `select_controller` chooses.
use developer_resources.Prelude.{
  ℕ, ◌≡◌, refl, subst, sym, ◌∙◌, true, false, ◌⊎◌, inl, inr, Option, none, some, List, [], ◌∷◌,
  Identity, find, Result, ok, err, Bool-cases, Option-cases, In, All, arith,
}
use developer_resources.Timers.{Fault, null_pointer}
use developer_resources.Selector.{
  Selector, PrioritizedController, precedes, elapsed, before_deadline, first_available, select,
  select_controller,
}
use developer_resources.Selector.Order.{IsSorted, precedes_irrefl, precedes_trans}

-- The controller has an entry whose last heartbeat passes the test of the deadline.
pub record IsAvailable (now : ℕ) (all : List (Identity × ℕ)) (p : PrioritizedController)
    : Type 0 where
  pub last : ℕ
  pub found : find p.id all ≡ some last
  pub recent : before_deadline (elapsed now last) ≡ true

abbrev pub OneUnavailable : ℕ → List (Identity × ℕ) → PrioritizedController → Type 0
OneUnavailable now all p = IsAvailable now all p → ⊥

-- The entry is available, and nothing before it in the order is.
pub record IsBest (now : ℕ) (all : List (Identity × ℕ)) (ps : List PrioritizedController)
    (p : PrioritizedController) : Type 0 where
  pub listed : In p ps
  pub available : IsAvailable now all p
  pub least : (q : PrioritizedController) → In q ps → precedes q p ≡ true → OneUnavailable now all q

module _ (now : ℕ) (all : List (Identity × ℕ)) where
  -- The outcome of the loop.
  abbrev pub Chosen : List PrioritizedController → Option (Identity × ℕ) → Type 0
  Chosen ps none = (q : PrioritizedController) → In q ps → OneUnavailable now all q
  Chosen ps (some (id, last_hb)) =
      (p : PrioritizedController) × (b : IsBest now all ps p) × (id ≡ p.id)
      × (last_hb ≡ elapsed now (IsBest.available b).last)

  All-In :
      (P : PrioritizedController → Type 0) (ps : List PrioritizedController)
      (q : PrioritizedController)
      → All P ps
      → In q ps
      → P q
  All-In P [] q a there = absurd there
  All-In P (p ∷ ps) q a (inl same) = subst P same a.0
  All-In P (p ∷ ps) q a (inr there) = All-In P ps q a.1 there

  unavailable_tail :
      (p : PrioritizedController) (ps : List PrioritizedController)
      → OneUnavailable now all p
      → ((q : PrioritizedController) → In q ps → OneUnavailable now all q)
      → (q : PrioritizedController) → In q (p ∷ ps)
      → OneUnavailable now all q
  unavailable_tail p ps no_head no_tail q (inl same) a =
      no_head (subst (IsAvailable now all) (sym same) a)
  unavailable_tail p ps no_head no_tail q (inr there) a = no_tail q there a

  stale_unavailable :
      (p : PrioritizedController) (last : ℕ)
      → find p.id all ≡ some last
      → before_deadline (elapsed now last) ≡ false
      → OneUnavailable now all p
  stale_unavailable p last there stale a = ground (arith, a.found, a.recent)

  Chosen-cons :
      (p : PrioritizedController) (ps : List PrioritizedController) (r : Option (Identity × ℕ))
      → OneUnavailable now all p
      → Chosen ps r
      → Chosen (p ∷ ps) r
  Chosen-cons p ps none no_head c = unavailable_tail p ps no_head c
  Chosen-cons p ps (some (id, last_hb)) no_head (q, b, same, since) = (
    q,
    record {
      listed = inr b.listed;
      available = b.available;
      least = λ r there before. least r there before;
    },
    same,
    since,
  )
    where
      least :
          (r : PrioritizedController)
          → In r (p ∷ ps)
          → precedes r q ≡ true
          → OneUnavailable now all r
      least r (inl same_head) before a = no_head (subst (IsAvailable now all) (sym same_head) a)
      least r (inr there) before a = b.least r there before a

  Chosen-head :
      (p : PrioritizedController) (ps : List PrioritizedController) (last : ℕ)
      → IsSorted (p ∷ ps)
      → find p.id all ≡ some last
      → before_deadline (elapsed now last) ≡ true
      → Chosen (p ∷ ps) (some (p.id, elapsed now last))
  Chosen-head p ps last sorted there recent = (
    p,
    record {
      listed = inl refl;
      available = record { last = last; found = there; recent = recent };
      least = λ r member before. absurd (least r member before);
    },
    refl,
    refl,
  )
    where
      least : (r : PrioritizedController) → In r (p ∷ ps) → precedes r p ≡ true → ⊥
      least r (inl same) before = ground (arith, precedes_irrefl p)
      least r (inr member) before = ground (
        arith,
        precedes_irrefl p,
        precedes_trans p r p (All-In (λ q. precedes p q ≡ true) ps r sorted.0 member) before,
      )

  pub first_available_missing :
      (p : PrioritizedController) (ps : List PrioritizedController)
      → find p.id all ≡ none
      → first_available now all (p ∷ ps) ≡ err null_pointer
  unfolding first_available
  first_available_missing p ps missing = rw (missing, first_available)

  pub first_available_recent :
      (p : PrioritizedController) (ps : List PrioritizedController) (last : ℕ)
      → find p.id all ≡ some last
      → before_deadline (elapsed now last) ≡ true
      → first_available now all (p ∷ ps) ≡ ok (some (p.id, elapsed now last))
  unfolding first_available
  first_available_recent p ps last there recent = rw (there, first_available) (rw recent)

  pub first_available_stale :
      (p : PrioritizedController) (ps : List PrioritizedController) (last : ℕ)
      → find p.id all ≡ some last
      → before_deadline (elapsed now last) ≡ false
      → first_available now all (p ∷ ps) ≡ first_available now all ps
  unfolding first_available
  first_available_stale p ps last there stale = rw (there, first_available) (rw stale)

  pub first_available-Chosen :
      (ps : List PrioritizedController) (r : Option (Identity × ℕ))
      → IsSorted ps
      → first_available now all ps ≡ ok r
      → Chosen ps r
  unfolding first_available
  first_available-Chosen [] none sorted run = λ q there. absurd there
  first_available-Chosen [] (some x) sorted run = cc
  first_available-Chosen (p ∷ ps) r sorted run = elim (Option-cases (find p.id all)) [
    | inl missing ↦ cc (first_available_missing p ps missing)
    | inr (last, there) ↦ elim (Bool-cases (before_deadline (elapsed now last))) [
      | inl recent ↦
          let found : some (p.id, elapsed now last) ≡ r =
            cc (first_available_recent p ps last there recent) in
          subst (Chosen (p ∷ ps)) found (Chosen-head p ps last sorted there recent)
      | inr stale ↦ Chosen-cons p ps r (stale_unavailable p last there stale) (
          first_available-Chosen ps r sorted.1
            (sym (first_available_stale p ps last there stale) ∙ run))
    ]
  ]

select-selected :
    (id : Identity) (last_hb : ℕ) (s s' : Selector) → select id last_hb s ≡ ok s' → s'.selected ≡ id
unfolding select
select-selected id last_hb s s' run = ground arith

-- If the prioritized controllers are sorted and `select_controller` returns, it has left the
-- selector alone and no controller is available, or it has selected an available one that no other
-- available one precedes by priority and identity.
pub select_controller-IsBest :
    (now : ℕ) (s s' : Selector)
    → IsSorted s.prioritized_controllers
    → select_controller now s ≡ ok s'
    → ((s' ≡ s)
        × ((q : PrioritizedController)
            → In q s.prioritized_controllers
            → OneUnavailable now s.all_controllers q))
      ⊎ ((p : PrioritizedController) × IsBest now s.all_controllers s.prioritized_controllers p
          × (s'.selected ≡ p.id))
unfolding select_controller
select_controller-IsBest now s s' sorted run =
    go (first_available now s.all_controllers s.prioritized_controllers) refl
  where
    go :
        (r : Result Fault (Option (Identity × ℕ)))
        → first_available now s.all_controllers s.prioritized_controllers ≡ r
        → ((s' ≡ s)
            × ((q : PrioritizedController)
                → In q s.prioritized_controllers
                → OneUnavailable now s.all_controllers q))
          ⊎ ((p : PrioritizedController) × IsBest now s.all_controllers s.prioritized_controllers p
              × (s'.selected ≡ p.id))
    go (err x) e = cc (rw (e, select_controller) at run)
    go (ok none) e = inl (
      cc (rw (e, select_controller) at run),
      first_available-Chosen now s.all_controllers _ none sorted e,
    )
    go (ok (some (id, last_hb))) e =
        let (p, best, same, since) =
          first_available-Chosen now s.all_controllers _ (some (id, last_hb)) sorted e in
        inr (p, best, select-selected id last_hb s s' (rw (e, select_controller) at run) ∙ same)
