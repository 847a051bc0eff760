-- ===== src/Prelude/Ids.antt =====
-- `tms::Identity`, a `std::string`: the sequence of its bytes, compared as `operator==` and
-- `operator<` of strings compare them. The empty string is `[]`.
use Prim.Native.Nat.{ℕ}
use Prim.Native.Char.{code}
use Prim.Native.String.{String}
use mathlib.Core.Path.{◌≡◌, refl}
use mathlib.Core.Logic.{◌↔◌}
use mathlib.Core.Bool.{Bool, true, false, ◌&&◌, ◌||◌}
use mathlib.Core.List.{List, [], ◌∷◌}
use native.Mathlib.Omega.{arith}
use developer_resources.Prelude.Tests.{ltb, ◌==◌}

abbrev pub Identity : Type 0
Identity = List ℕ

-- The bytes of an ASCII text, for examples.
abbrev pub codes : String → Identity
codes String.[] = []
codes (String.◌∷◌ c s) = code c ∷ codes s

unfoldable pub id_eq : Identity → Identity → Bool
id_eq [] [] = true
id_eq [] (y ∷ ys) = false
id_eq (x ∷ xs) [] = false
id_eq (x ∷ xs) (y ∷ ys) = x == y && id_eq xs ys

-- `std::string::empty`.
abbrev pub is_empty : Identity → Bool
is_empty [] = true
is_empty (x ∷ xs) = false

-- The lexicographic order.
unfoldable pub id_lt : Identity → Identity → Bool
id_lt xs [] = false
id_lt [] (y ∷ ys) = true
id_lt (x ∷ xs) (y ∷ ys) = ltb x y || (x == y && id_lt xs ys)

id_eq_sound : (a b : Identity) → id_eq a b ≡ true → a ≡ b
unfolding id_eq
id_eq_sound [] [] h = refl
id_eq_sound [] (y ∷ ys) h = cc
id_eq_sound (x ∷ xs) [] h = cc
id_eq_sound (x ∷ xs) (y ∷ ys) h = ground (arith, id_eq_sound xs ys)

pub id_eq_refl : (a : Identity) → id_eq a a ≡ true
unfolding id_eq
id_eq_refl [] = refl
id_eq_refl (x ∷ xs) = ground (arith, id_eq_refl xs)

pub id_eq_iff : (a b : Identity) → (id_eq a b ≡ true) ↔ (a ≡ b)
id_eq_iff a b = (id_eq_sound a b, λ e. rw e (id_eq_refl b))

pub id_lt_irrefl : (a : Identity) → id_lt a a ≡ false
unfolding id_lt
id_lt_irrefl [] = refl
id_lt_irrefl (x ∷ xs) = ground (arith, id_lt_irrefl xs)

pub id_lt_trans : (a b c : Identity) → id_lt a b ≡ true → id_lt b c ≡ true → id_lt a c ≡ true
unfolding id_lt
id_lt_trans a b [] h k = cc
id_lt_trans a [] (z ∷ zs) h k = cc
id_lt_trans [] (y ∷ ys) (z ∷ zs) h k = refl
id_lt_trans (x ∷ xs) (y ∷ ys) (z ∷ zs) h k = ground (arith, id_lt_trans xs ys zs)

-- Two identities that neither precedes are one.
pub id_lt_total : (a b : Identity) → id_lt a b ≡ false → id_lt b a ≡ false → a ≡ b
unfolding id_lt
id_lt_total [] [] h k = refl
id_lt_total [] (y ∷ ys) h k = cc
id_lt_total (x ∷ xs) [] h k = cc
id_lt_total (x ∷ xs) (y ∷ ys) h k = ground (arith, id_lt_total xs ys)
