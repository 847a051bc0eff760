-- ===== src/Client/Searches.antt =====
-- cli/CLIClient.cpp: searches in strings for blanks and for what is none.
use developer_resources.Prelude.{
  ℕ, ◌+◌, Bool, true, false, not, ◌&&◌, none, some, [], ◌∷◌, ◌++◌, Identity, length, ◌≡◌, refl, ap,
  arith, Every, drop, take, first_index, last_index,
}
use developer_resources.Client.Commands.{is_blank, is_not_blank}

pub drop-append : (xs ys : Identity) → drop (length xs) (xs ++ ys) ≡ ys
drop-append [] ys = refl
drop-append (x ∷ xs) ys = drop-append xs ys

pub take-append : (xs ys : Identity) → take (length xs) (xs ++ ys) ≡ xs
take-append [] ys = refl
take-append (x ∷ xs) ys = ap (λ zs. x ∷ zs) (take-append xs ys)

pub append_assoc : (xs ys zs : Identity) → (xs ++ ys) ++ zs ≡ xs ++ (ys ++ zs)
append_assoc [] ys zs = refl
append_assoc (x ∷ xs) ys zs = ap (λ us. x ∷ us) (append_assoc xs ys zs)

pub first_index-append :
    (p : ℕ → Bool) (xs ys : Identity) (y : ℕ)
    → Every (λ c. not (p c)) xs
    → p y ≡ true
    → first_index p (xs ++ y ∷ ys) ≡ some (length xs)
unfolding first_index
first_index-append p [] ys y other this = rw this refl
first_index-append p (x ∷ xs) ys y (one, other) this =
    ground (arith, one, first_index-append p xs ys y other this)

pub first_index-none :
    (p : ℕ → Bool) (xs : Identity) → Every (λ c. not (p c)) xs → first_index p xs ≡ none
unfolding first_index
first_index-none p [] other = refl
first_index-none p (x ∷ xs) (one, other) = ground (arith, one, first_index-none p xs other)

last_index-none :
    (p : ℕ → Bool) (xs : Identity) → Every (λ c. not (p c)) xs → last_index p xs ≡ none
unfolding last_index
last_index-none p [] other = refl
last_index-none p (x ∷ xs) (one, other) = ground (arith, one, last_index-none p xs other)

pub last_index-append :
    (p : ℕ → Bool) (xs ys : Identity) (y : ℕ)
    → p y ≡ true
    → Every (λ c. not (p c)) ys
    → last_index p (xs ++ y ∷ ys) ≡ some (length xs)
unfolding last_index
last_index-append p [] ys y this other = rw (last_index-none p ys other, last_index) (rw this refl)
last_index-append p (x ∷ xs) ys y this other = rw (last_index-append p xs ys y this other) refl

-- The last character of `c ∷ s`.
unfoldable pub final : ℕ → Identity → ℕ
final c [] = c
final c (x ∷ s) = final x s

-- A string that is not empty and has no blank at its ends.
abbrev pub is_trimmed : Identity → Bool
is_trimmed [] = false
is_trimmed (c ∷ s) = is_not_blank c && is_not_blank (final c s)

pub final-append : (c y : ℕ) (xs ys : Identity) → final c (xs ++ y ∷ ys) ≡ final y ys
unfolding final
final-append c y [] ys = refl
final-append c y (x ∷ xs) ys = final-append x y xs ys

pub ends_in : (c : ℕ) (s : Identity) → (before : Identity) × (c ∷ s ≡ before ++ final c s ∷ [])
unfolding final
ends_in c [] = ([], refl)
ends_in c (x ∷ s) = let (before, e) = ends_in x s in (c ∷ before, ap (λ t. c ∷ t) e)

pub final_blank :
    (c : ℕ) (s : Identity) → is_blank c ≡ true → Every is_blank s → is_blank (final c s) ≡ true
unfolding final
final_blank c [] this other = this
final_blank c (x ∷ s) this (one, other) = final_blank x s one other

pub final_not_blank :
    (c : ℕ) (s : Identity) → Every is_not_blank (c ∷ s) → is_not_blank (final c s) ≡ true
unfolding final
final_not_blank c [] all = all.0
final_not_blank c (x ∷ s) all = final_not_blank x s all.1

pub blank_not : (xs : Identity) → Every is_blank xs → Every (λ c. not (is_not_blank c)) xs
blank_not [] all = tt
blank_not (x ∷ xs) (one, all) = (rw one refl, blank_not xs all)

pub zero_add : (n : ℕ) → 0 + n ≡ n
zero_add n = omega arith
