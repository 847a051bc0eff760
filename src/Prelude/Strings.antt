-- ===== src/Prelude/Strings.antt =====
-- `std::string` as a sequence of bytes: searches and parts. Positions are 64-bit `size_t`.
use Prim.Native.Nat.{ℕ, zero, suc, ◌+◌}
use mathlib.Core.Bool.{Bool, true}
use mathlib.Core.Path.{◌≡◌}
use mathlib.Core.Option.{Option, none, some}
use mathlib.Core.List.{List, [], ◌∷◌}
use developer_resources.Prelude.Tests.{ltb, if◌then◌else◌, length, Result, ok, err}
use developer_resources.Prelude.Ids.{Identity}

abbrev pub drop {ℓ} : {A : Type ℓ} → ℕ → List A → List A
drop zero xs = xs
drop (suc n) [] = []
drop (suc n) (x ∷ xs) = drop n xs

abbrev pub take {ℓ} : {A : Type ℓ} → ℕ → List A → List A
take zero xs = []
take (suc n) [] = []
take (suc n) (x ∷ xs) = x ∷ take n xs

-- All elements pass the test.
abbrev pub Every : {A : Type 0} → (A → Bool) → List A → Type 0
Every p [] = Unit {0}
Every p (x ∷ xs) = (p x ≡ true) × Every p xs

abbrev pub shift : ℕ → Option ℕ → Option ℕ
shift n none = none
shift n (some i) = some (n + i)

-- The position of the first and of the last character that passes the test; `none` is `npos`.
unfoldable pub first_index : (ℕ → Bool) → Identity → Option ℕ
first_index p [] = none
first_index p (x ∷ xs) = let later = shift 1 (first_index p xs) in if p x then some 0 else later

unfoldable pub last_index : (ℕ → Bool) → Identity → Option ℕ
last_index p [] = none
last_index p (x ∷ xs) = elim (last_index p xs) [
  | none ↦ if p x then some 0 else none
  | some i ↦ some (suc i)
]

pub data OutOfRange : Type 0 where
  out_of_range : OutOfRange

-- `substr(pos, n)` and `substr(pos)`, which throw behind the end of the string; `npos` is behind it.
abbrev pub substr : Identity → ℕ → ℕ → Result OutOfRange Identity
substr s pos n = if ltb (length s) pos then err out_of_range else ok (take n (drop pos s))

abbrev pub substr_from : Identity → Option ℕ → Result OutOfRange Identity
substr_from s none = err out_of_range
substr_from s (some pos) = if ltb (length s) pos then err out_of_range else ok (drop pos s)
