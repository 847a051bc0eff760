-- ===== src/Client/Parsing.antt =====
-- cli/CLIClient.cpp: searches in strings, and blanks around and between words.
use developer_resources.Prelude.{
  Every, ℕ, suc, ◌+◌, ◌<◌, ◌≤◌, Bool, true, ◌&&◌, none, some, [], ◌∷◌, ◌++◌, Identity, length,
  length-append, ok, ◌>>=◌, ◌≡◌, refl, sym, ap, subst, ◌∙◌, arith, shift, drop, take, first_index,
  last_index, substr, substr_from,
}
use developer_resources.Client.Commands.{
  is_blank, is_not_blank, find_first_not_blank, size_between, split_trimmed, parse,
}
use developer_resources.Client.Searches.{
  drop-append, take-append, append_assoc, first_index-append, first_index-none, last_index-append,
  final, is_trimmed, final-append, ends_in, blank_not, zero_add,
}

parse_found :
    (s : Identity) (first last : ℕ)
    → first_index is_not_blank s ≡ some first
    → last_index is_not_blank s ≡ some last
    → parse s ≡ (substr s first (size_between first (some last)) >>= split_trimmed)
unfolding parse
parse_found s first last f l =
    rw (f, parse)
      (rw l (ap (λ n. substr s n (size_between n (some last)) >>= split_trimmed) (zero_add first)))

size_between_lem :
    (a b : ℕ) → a + suc b < 18446744073709551616 → size_between a (some (a + b)) ≡ suc b
size_between_lem a b small = omega (arith, small)

substr_ok : (s : Identity) (pos n : ℕ) → pos ≤ length s → substr s pos n ≡ ok (take n (drop pos s))
substr_ok s pos n le = ground (arith, le)

substr_middle : (pre t post : Identity) → substr (pre ++ (t ++ post)) (length pre) (length t) ≡ ok t
substr_middle pre t post =
    substr_ok (pre ++ (t ++ post)) (length pre) (length t)
      (omega (arith, length-append pre (t ++ post)))
    ∙ ap (λ s. ok (take (length t) s)) (drop-append pre (t ++ post))
    ∙ ap ok (take-append t post)

append_one : (xs : Identity) (y : ℕ) → length (xs ++ y ∷ []) ≡ suc (length xs)
append_one xs y = omega (arith, length-append xs (y ∷ []))

pub head_ok : (a b : Bool) → a && b ≡ true → a ≡ true
head_ok a b h = ground (arith, h)

pub tail_ok : (a b : Bool) → a && b ≡ true → b ≡ true
tail_ok a b h = ground (arith, h)

-- The last character of a string that ends in no blank, between other strings.
last_index_trimmed :
    (pre before post : Identity) (c : ℕ)
    → is_not_blank c ≡ true
    → Every is_blank post
    → last_index is_not_blank (pre ++ ((before ++ c ∷ []) ++ post))
      ≡ some (length pre + length before)
last_index_trimmed pre before post c this blanks =
    subst (λ t. last_index is_not_blank t ≡ some (length pre + length before))
      (append_assoc pre before (c ∷ post)
        ∙ ap (λ t. pre ++ t) (sym (append_assoc before (c ∷ []) post)))
      (last_index-append is_not_blank (pre ++ before) post c this (blank_not post blanks)
        ∙ ap some (length-append pre before))

-- Blanks around a trimmed string make no difference.
pub parse_trimmed :
    (pre t post : Identity)
    → Every is_blank pre
    → Every is_blank post
    → is_trimmed t ≡ true
    → length (pre ++ (t ++ post)) < 18446744073709551616
    → parse (pre ++ (t ++ post)) ≡ split_trimmed t
parse_trimmed pre [] post blanks blanks' trimmed small = cc trimmed
parse_trimmed pre (c ∷ s) post blanks blanks' trimmed small =
    let (before, ends) = ends_in c s in
    let size : length (c ∷ s) ≡ suc (length before) =
      ap length ends ∙ append_one before (final c s) in
    let last : last_index is_not_blank (pre ++ ((c ∷ s) ++ post))
        ≡ some (length pre + length before) =
      subst (λ t. last_index is_not_blank (pre ++ (t ++ post)) ≡ some (length pre + length before))
        (sym ends)
        (last_index_trimmed pre before post (final c s)
          (tail_ok (is_not_blank c) (is_not_blank (final c s)) trimmed) blanks') in
    parse_found (pre ++ ((c ∷ s) ++ post)) (length pre) (length pre + length before)
      (first_index-append is_not_blank pre (s ++ post) c (blank_not pre blanks)
        (head_ok (is_not_blank c) (is_not_blank (final c s)) trimmed))
      last
    ∙ ap (λ n. substr (pre ++ ((c ∷ s) ++ post)) (length pre) n >>= split_trimmed)
        (size_between_lem (length pre) (length before) (
            subst (λ n. length pre + n < 18446744073709551616) size
              (omega (arith, small, length-append pre ((c ∷ s) ++ post), length-append s post)))
          ∙ sym size)
    ∙ ap (λ r. r >>= split_trimmed) (substr_middle pre (c ∷ s) post)

pub split_word : (s : Identity) → Every is_not_blank s → split_trimmed s ≡ ok (s, none)
unfolding split_trimmed
split_word s all = rw (first_index-none is_blank s all, split_trimmed) refl

drop_behind : (xs ys : Identity) (n : ℕ) → n ≡ length xs → drop n (xs ++ ys) ≡ ys
drop_behind xs ys n e = ap (λ k. drop k (xs ++ ys)) e ∙ drop-append xs ys

substr_from_ok :
    (s : Identity) (pos : ℕ) → pos ≤ length s → substr_from s (some pos) ≡ ok (drop pos s)
substr_from_ok s pos le = ground (arith, le)

-- The position of the argument, and what stands there.
module _ (op mid arg : Identity) (blank c : ℕ) where
  argument_begins :
      Every is_blank mid
      → is_not_blank c ≡ true
      → find_first_not_blank (op ++ (blank ∷ (mid ++ (c ∷ arg)))) (length op + 1)
        ≡ some (length op + 1 + length mid)
  argument_begins blanks this =
      ap (λ t. shift (length op + 1) (first_index is_not_blank t))
        (ap (drop (length op + 1)) (sym (append_assoc op (blank ∷ []) (mid ++ (c ∷ arg))))
          ∙ drop_behind (op ++ (blank ∷ [])) (mid ++ (c ∷ arg)) (length op + 1)
              (omega (arith, length-append op (blank ∷ []))))
      ∙ ap (shift (length op + 1))
          (first_index-append is_not_blank mid arg c (blank_not mid blanks) this)

  argument_taken :
      substr_from (op ++ (blank ∷ (mid ++ (c ∷ arg)))) (some (length op + 1 + length mid))
      ≡ ok (c ∷ arg)
  argument_taken =
      substr_from_ok (op ++ (blank ∷ (mid ++ (c ∷ arg)))) (length op + 1 + length mid)
        (omega (arith, length-append op (blank ∷ (mid ++ (c ∷ arg))), length-append mid (c ∷ arg)))
      ∙ ap (λ t. ok (drop (length op + 1 + length mid) t))
          (sym (append_assoc op (blank ∷ mid) (c ∷ arg)))
      ∙ ap ok (
          drop_behind (op ++ (blank ∷ mid)) (c ∷ arg) (length op + 1 + length mid)
            (omega (arith, length-append op (blank ∷ mid))))

pub split_words :
    (op mid arg : Identity) (blank : ℕ)
    → Every is_not_blank op
    → is_blank blank ≡ true
    → Every is_blank mid
    → is_trimmed arg ≡ true
    → split_trimmed (op ++ (blank ∷ (mid ++ arg))) ≡ ok (op, some arg)
unfolding split_trimmed
split_words op mid [] blank all this blanks trimmed = cc trimmed
split_words op mid (c ∷ arg) blank all this blanks trimmed =
    let s : Identity = op ++ (blank ∷ (mid ++ (c ∷ arg))) in
    let word : substr s 0 (length op) ≡ ok op = substr_middle [] op (blank ∷ (mid ++ (c ∷ arg))) in
    rw (first_index-append is_blank op (mid ++ (c ∷ arg)) blank all this, split_trimmed)
      (rw
        (argument_begins op mid arg blank c blanks
          (head_ok (is_not_blank c) (is_not_blank (final c arg)) trimmed))
        (rw word (rw (argument_taken op mid arg blank c) refl)))

pub both_ok : (a b : Bool) → a ≡ true → b ≡ true → a && b ≡ true
both_ok a b h k = ground (arith, h, k)

pub final_words :
    (c blank : ℕ) (op mid arg : Identity)
    → is_trimmed arg ≡ true
    → is_not_blank (final c (op ++ (blank ∷ (mid ++ arg)))) ≡ true
final_words c blank op mid [] trimmed = cc trimmed
final_words c blank op mid (d ∷ arg) trimmed =
    ap is_not_blank (final-append c blank op (mid ++ (d ∷ arg)) ∙ final-append blank d mid arg)
    ∙ tail_ok (is_not_blank d) (is_not_blank (final d arg)) trimmed
