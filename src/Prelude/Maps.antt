-- ===== src/Prelude/Maps.antt =====
-- Maps keyed by identities: `std::map` and `std::unordered_map` as association lists, each list
-- in some order of iteration.
use mathlib.Core.Path.{◌≡◌, refl}
use mathlib.Core.Bool.{Bool, true, false}
use mathlib.Core.Option.{Option, none, some}
use mathlib.Core.List.{List, [], ◌∷◌}
use native.Mathlib.Omega.{arith}
use developer_resources.Prelude.Tests.{if◌then◌else◌}
use developer_resources.Prelude.Ids.{Identity, id_eq, id_eq_iff}

module _ {ℓ} {V : Type ℓ} where
  -- `find`; `none` is `end()`.
  unfoldable pub find : Identity → List (Identity × V) → Option V
  find k [] = none
  find k ((j, v) ∷ m) = if id_eq j k then some v else find k m

  -- `m[k] = v`, `insert_or_assign`.
  unfoldable pub assign : Identity → V → List (Identity × V) → List (Identity × V)
  assign k v [] = (k, v) ∷ []
  assign k v ((j, w) ∷ m) = if id_eq j k then (j, v) ∷ m else (j, w) ∷ assign k v m

  -- `insert`: an entry that is there stays.
  unfoldable pub insert : Identity → V → List (Identity × V) → List (Identity × V)
  insert k v [] = (k, v) ∷ []
  insert k v ((j, w) ∷ m) = if id_eq j k then (j, w) ∷ m else (j, w) ∷ insert k v m

  -- `erase(k)`.
  unfoldable pub erase : Identity → List (Identity × V) → List (Identity × V)
  erase k [] = []
  erase k ((j, w) ∷ m) = let rest = erase k m in if id_eq j k then rest else (j, w) ∷ rest

  -- A write through the iterator that `find` returned; nothing changes at `end()`.
  unfoldable pub update : Identity → (V → V) → List (Identity × V) → List (Identity × V)
  update k f [] = []
  update k f ((j, w) ∷ m) = if id_eq j k then (j, f w) ∷ m else (j, w) ∷ update k f m

  abbrev pub contains : Option V → Bool
  contains none = false
  contains (some v) = true

  pub find-assign :
      (k j : Identity) (v : V) (m : List (Identity × V))
      → find j (assign k v m) ≡ (if id_eq k j then some v else find j m)
  unfolding find assign
  find-assign k j v [] = refl
  find-assign k j v ((i, w) ∷ m) =
      ground (arith, id_eq_iff k j, id_eq_iff i k, id_eq_iff i j, find-assign k j v m)

  pub find-insert :
      (k j : Identity) (v : V) (m : List (Identity × V))
      → find j (insert k v m)
        ≡ (if id_eq k j then (if contains (find k m) then find k m else some v) else find j m)
  unfolding find insert
  find-insert k j v [] = ground arith
  find-insert k j v ((i, w) ∷ m) =
      ground (arith, id_eq_iff k j, id_eq_iff i k, id_eq_iff i j, find-insert k j v m)

  pub find-erase :
      (k j : Identity) (m : List (Identity × V))
      → find j (erase k m) ≡ (if id_eq k j then none else find j m)
  unfolding find erase
  find-erase k j [] = ground arith
  find-erase k j ((i, w) ∷ m) =
      ground (arith, id_eq_iff k j, id_eq_iff i k, id_eq_iff i j, find-erase k j m)

  abbrev pub map_option : (V → V) → Option V → Option V
  map_option f none = none
  map_option f (some v) = some (f v)

  pub find-update :
      (k j : Identity) (f : V → V) (m : List (Identity × V))
      → find j (update k f m) ≡ (if id_eq k j then map_option f (find j m) else find j m)
  unfolding find update
  find-update k j f [] = ground arith
  find-update k j f ((i, w) ∷ m) =
      ground (arith, id_eq_iff k j, id_eq_iff i k, id_eq_iff i j, find-update k j f m)
