-- ===== src/Selector/Order.antt =====
-- common/ControllerSelector.h: the order of `PrioritizedController` and the set kept in it.
use developer_resources.Prelude.{
  ◌≡◌, refl, true, false, ◌⊎◌, inl, List, [], ◌∷◌, id_lt_irrefl, id_lt_trans, id_lt_total, In, All,
  arith,
}
use developer_resources.Selector.{PrioritizedController, precedes, insert_prioritized}

pub precedes_irrefl : (a : PrioritizedController) → precedes a a ≡ false
unfolding precedes
precedes_irrefl a = ground (arith, id_lt_irrefl a.id)

pub precedes_trans :
    (a b c : PrioritizedController)
    → precedes a b ≡ true
    → precedes b c ≡ true
    → precedes a c ≡ true
unfolding precedes
precedes_trans a b c h k = ground (arith, id_lt_trans a.id b.id c.id)

pub precedes_total :
    (a b : PrioritizedController) → precedes a b ≡ false → precedes b a ≡ false → a ≡ b
unfolding precedes
precedes_total a b h k = ground (arith, id_lt_total a.id b.id)

-- Each entry precedes all that stand behind it.
abbrev pub IsSorted : List PrioritizedController → Type 0
IsSorted [] = Unit {0}
IsSorted (p ∷ ps) = All (λ q. precedes p q ≡ true) ps × IsSorted ps

precedes-All :
    (p q : PrioritizedController) (qs : List PrioritizedController)
    → precedes p q ≡ true
    → All (λ r. precedes q r ≡ true) qs
    → All (λ r. precedes p r ≡ true) qs
precedes-All p q [] h a = tt
precedes-All p q (r ∷ rs) h a = (precedes_trans p q r h a.0, precedes-All p q rs h a.1)

All-insert_prioritized :
    (p q : PrioritizedController) (qs : List PrioritizedController)
    → precedes q p ≡ true
    → All (λ r. precedes q r ≡ true) qs
    → All (λ r. precedes q r ≡ true) (insert_prioritized p qs)
unfolding insert_prioritized
All-insert_prioritized p q [] h a = (h, tt)
All-insert_prioritized p q (r ∷ rs) h a = ground (arith, All-insert_prioritized p q rs h a.1)

-- `insert` keeps the set sorted: each controller precedes all that stand behind it, by priority and
-- identity, so that none stands twice.
pub insert_prioritized-IsSorted :
    (p : PrioritizedController) (ps : List PrioritizedController)
    → IsSorted ps
    → IsSorted (insert_prioritized p ps)
unfolding insert_prioritized
insert_prioritized-IsSorted p [] s = (tt, tt)
insert_prioritized-IsSorted p (q ∷ qs) s = ground (
  arith,
  precedes-All p q qs,
  All-insert_prioritized p q qs,
  insert_prioritized-IsSorted p qs s.1,
)

-- It holds what it held, and the new entry.
pub In-insert_prioritized :
    (p q : PrioritizedController) (ps : List PrioritizedController)
    → (In q ps → In q (insert_prioritized p ps))
      × In p (insert_prioritized p ps)
      × (In q (insert_prioritized p ps) → (p ≡ q) ⊎ In q ps)
unfolding insert_prioritized
In-insert_prioritized p q [] = (λ h. absurd h, inl refl, λ h. h)
In-insert_prioritized p q (r ∷ rs) =
    ground (arith, precedes_total p r, In-insert_prioritized p q rs)
