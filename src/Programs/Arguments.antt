-- ===== src/Programs/Arguments.antt =====
-- The main functions: the last of the options of a kind, and the test of a domain.
use developer_resources.Prelude.{
  ℕ, ◌==◌, ◌≡◌, ◌≢◌, ap, subst, Bool, true, false, ◌||◌, Option, none, some, List, [], ◌∷◌,
  if◌then◌else◌, Identity, Bool-cases, inl, inr, arith,
}
use developer_resources.Utilities.{ℤ, pos, negsuc}
use developer_resources.Programs.{int_eq}

-- The argument of the last option of this character, and whether there is one.
abbrev pub later_or : Option Identity → Option Identity → Option Identity
later_or none first = first
later_or (some arg) first = some arg

abbrev pub last_arg : ℕ → List (ℕ × Identity) → Option Identity
last_arg c [] = none
last_arg c ((k, arg) ∷ rest) = later_or (last_arg c rest) (if k == c then some arg else none)

abbrev pub is_given : ℕ → List (ℕ × Identity) → Bool
is_given c [] = false
is_given c ((k, arg) ∷ rest) = (k == c) || is_given c rest

int_eq_refl : (a : ℤ) → int_eq a a ≡ true
int_eq_refl (pos n) = ground arith
int_eq_refl (negsuc n) = ground arith

int_eq_sound : (a b : ℤ) → int_eq a b ≡ true → a ≡ b
int_eq_sound (pos m) (pos n) same = ap pos (ground (arith, same))
int_eq_sound (negsuc m) (negsuc n) same = ap negsuc (ground (arith, same))
int_eq_sound (pos m) (negsuc n) same = ground (arith, same)
int_eq_sound (negsuc m) (pos n) same = ground (arith, same)

pub int_eq-≢ : (a b : ℤ) → a ≢ b → int_eq a b ≡ false
int_eq-≢ a b differ = elim (Bool-cases (int_eq a b)) [
  | inl same ↦ absurd (differ (int_eq_sound a b same))
  | inr other ↦ other
]

pub int_eq-false : (a b : ℤ) → int_eq a b ≡ false → a ≢ b
int_eq-false a b other same =
    ground (arith, subst (λ z. int_eq a z ≡ true) same (int_eq_refl a), other)
