-- ===== src/Client/Lines.antt =====
-- cli/CLIClient.cpp: what `parse` makes of a line, against a description of the lines.
use developer_resources.Prelude.{
  Every, ℕ, ◌<◌, Bool, true, false, Option, none, some, [], ◌∷◌, ◌++◌, Identity, length, ok, err,
  Result, ◌≡◌, refl, sym, ap, subst, ◌∙◌, Bool-cases, inl, inr, ◌⊎◌, ◌↔◌, arith, OutOfRange,
}
use developer_resources.Client.Commands.{is_blank, is_not_blank, OpArgPair, parse}
use developer_resources.Client.Parsing.{
  parse_trimmed, split_word, split_words, both_ok, final_words,
}
use developer_resources.Client.Searches.{
  final, is_trimmed, final_not_blank, final_blank, final-append, first_index-none, blank_not,
  append_assoc,
}

-- What a line holds: nothing but blanks; one word between blanks; or a word, blanks, and an argument,
-- in which blanks may stand.
pub data Line : Identity → Identity → Option Identity → Type 0 where
  empty : (input : Identity) → Every is_blank input → Line input [] none
  word :
      (input pre op post : Identity) (c : ℕ)
      → input ≡ pre ++ ((c ∷ op) ++ post)
      → Every is_blank pre
      → Every is_blank post
      → Every is_not_blank (c ∷ op)
      → Line input (c ∷ op) none
  word_and_argument :
      (input pre op mid arg post : Identity) (c blank : ℕ)
      → input ≡ pre ++ (((c ∷ op) ++ (blank ∷ (mid ++ arg))) ++ post)
      → Every is_blank pre
      → Every is_blank post
      → Every is_not_blank (c ∷ op)
      → is_blank blank ≡ true
      → Every is_blank mid
      → is_trimmed arg ≡ true
      → Line input (c ∷ op) (some arg)

-- What the description says is what the code makes of the line.
pub Line-parse :
    (input op : Identity) (arg : Option Identity)
    → Line input op arg
    → length input < 18446744073709551616
    → parse input ≡ ok (op, arg)
unfolding parse
Line-parse input op arg (empty _ blanks) small =
    rw (first_index-none is_not_blank input (blank_not input blanks), parse) refl
Line-parse input op arg (word _ pre op' post c e blanks blanks' all) small =
    subst (λ t. parse t ≡ ok (c ∷ op', none)) (sym e)
      (parse_trimmed pre (c ∷ op') post blanks blanks'
          (both_ok _ _ all.0 (final_not_blank c op' all))
          (subst (λ t. length t < 18446744073709551616) e small)
        ∙ split_word (c ∷ op') all)
Line-parse input op arg
      (word_and_argument _ pre op' mid arg' post c blank e blanks blanks' all this mids trimmed)
      small =
    subst (λ t. parse t ≡ ok (c ∷ op', some arg')) (sym e)
      (parse_trimmed pre ((c ∷ op') ++ (blank ∷ (mid ++ arg'))) post blanks blanks'
          (both_ok _ _ all.0 (final_words c blank op' mid arg' trimmed))
          (subst (λ t. length t < 18446744073709551616) e small)
        ∙ split_words (c ∷ op') mid arg' blank all this mids trimmed)

-- The longest start of a string that passes the test.
longest_start :
    (p : ℕ → Bool) (s : Identity)
    → (xs : Identity) × (ys : Identity) × (s ≡ xs ++ ys)
      × Every p xs
      × ((ys ≡ []) ⊎ ((y : ℕ) × (zs : Identity) × (ys ≡ y ∷ zs) × (p y ≡ false)))
longest_start p [] = ([], [], refl, tt, inl refl)
longest_start p (x ∷ s) = elim (Bool-cases (p x)) [
  | inr stop ↦ ([], x ∷ s, refl, tt, inr (x, s, refl, stop))
  | inl go ↦
      let (xs, ys, e, all, rest) = longest_start p s in
      (x ∷ xs, ys, ap (λ t. x ∷ t) e, (go, all), rest)
]

-- A string is blank, or has a last character that is none.
last_not_blank :
    (s : Identity)
    → Every is_blank s
      ⊎ ((us : Identity) × (z : ℕ) × (post : Identity) × (s ≡ us ++ (z ∷ post))
          × (is_not_blank z ≡ true)
          × Every is_blank post)
last_not_blank [] = inl tt
last_not_blank (x ∷ s) = elim (last_not_blank s) [
  | inr (us, z, post, e, this, blanks) ↦ inr (x ∷ us, z, post, ap (λ t. x ∷ t) e, this, blanks)
  | inl blanks ↦ elim (Bool-cases (is_blank x)) [
    | inl blank ↦ inl (blank, blanks)
    | inr other ↦ inr ([], x, s, refl, rw other refl, blanks)
  ]
]

append_nil : (xs : Identity) → xs ++ [] ≡ xs
append_nil [] = refl
append_nil (x ∷ xs) = ap (λ t. x ∷ t) (append_nil xs)

is_blank_of : (c : ℕ) → is_not_blank c ≡ false → is_blank c ≡ true
is_blank_of c h = ground (arith, h)

is_not_blank_of : (c : ℕ) → is_blank c ≡ false → is_not_blank c ≡ true
is_not_blank_of c h = ground (arith, h)

not_both : (c : ℕ) → is_not_blank c ≡ true → is_blank c ≡ true → false ≡ true
not_both c h k = ground (arith, h, k)

-- A word, or a word with an argument, that starts with `c` and ends in no blank, between blanks.
Line-trimmed :
    (input pre s post : Identity) (c : ℕ)
    → input ≡ pre ++ ((c ∷ s) ++ post)
    → Every is_blank pre
    → Every is_blank post
    → is_not_blank c ≡ true
    → is_not_blank (final c s) ≡ true
    → (op : Identity) × (arg : Option Identity) × Line input op arg
unfolding final
Line-trimmed input pre s post c e blanks blanks' this last =
    let (ys, rest, split, all, next) = longest_start is_not_blank s in
    elim next [
      | inl end ↦
          let all' : s ≡ ys = split ∙ ap (λ t. ys ++ t) end ∙ append_nil ys in
          (
            c ∷ s,
            none,
            word input pre s post c e blanks blanks'
                (this, subst (Every is_not_blank) (sym all') all),
          )
      | inr (b, r, begins, stop) ↦
          let (mid, behind, split', mids, next') = longest_start is_blank r in
          let whole : s ≡ ys ++ (b ∷ (mid ++ behind)) =
            split ∙ ap (λ t. ys ++ t) (begins ∙ ap (λ t. b ∷ t) split') in
          elim next' [
            | inl end ↦
                let blank_end : final c s ≡ final b mid =
                  ap (final c) whole
                  ∙ final-append c b ys (mid ++ behind)
                  ∙ ap (final b) (ap (λ t. mid ++ t) end ∙ append_nil mid) in
                cc (
                  not_both (final b mid) (subst (λ z. is_not_blank z ≡ true) blank_end last)
                    (final_blank b mid (is_blank_of b stop) mids))
            | inr (d, ds, begins', stop') ↦
                let same : s ≡ ys ++ (b ∷ (mid ++ (d ∷ ds))) =
                  whole ∙ ap (λ t. ys ++ (b ∷ (mid ++ t))) begins' in
                let ends : final c s ≡ final d ds =
                  ap (final c) same
                  ∙ final-append c b ys (mid ++ (d ∷ ds))
                  ∙ final-append b d mid ds in
                (
                  c ∷ ys,
                  some (d ∷ ds),
                  word_and_argument input pre ys mid (d ∷ ds) post c b
                      (e ∙ ap (λ t. pre ++ ((c ∷ t) ++ post)) same) blanks blanks' (this, all)
                      (is_blank_of b stop) mids
                      (both_ok (is_not_blank d) (is_not_blank (final d ds))
                        (is_not_blank_of d stop') (subst (λ z. is_not_blank z ≡ true) ends last)),
                )
          ]
    ]

-- Each line is one of the three.
Line-of : (input : Identity) → (op : Identity) × (arg : Option Identity) × Line input op arg
unfolding final
Line-of input =
    let (pre, rest, split, blanks, next) = longest_start is_blank input in
    elim next [
      | inl end ↦
          let all : input ≡ pre = split ∙ ap (λ t. pre ++ t) end ∙ append_nil pre in
          ([], none, empty input (subst (Every is_blank) (sym all) blanks))
      | inr (z, zs, begins, stop) ↦ elim (last_not_blank zs) [
        | inl blanks' ↦
            Line-trimmed input pre [] zs z (split ∙ ap (λ t. pre ++ t) begins) blanks blanks'
              (is_not_blank_of z stop) (is_not_blank_of z stop)
        | inr (us, l, post, ends, this, blanks') ↦
            Line-trimmed input pre (us ++ (l ∷ [])) post z
              (split
                ∙ ap (λ t. pre ++ t)
                    (begins ∙ ap (λ t. z ∷ t) (ends ∙ sym (append_assoc us (l ∷ []) post))))
              blanks blanks' (is_not_blank_of z stop)
              (ap is_not_blank (final-append z l us []) ∙ this)
      ]
    ]

abbrev value_or : OpArgPair → Result OutOfRange OpArgPair → OpArgPair
value_or d (ok v) = v
value_or d (err e) = d

-- `parse` throws for no line that a string can hold, and what it makes of the line fits the
-- description: an empty operation of a blank line, a word alone, or a word and the argument behind
-- the blanks that follow it, up to the blanks at the end of the line.
pub parse_total :
    (input : Identity)
    → length input < 18446744073709551616
    → (op : Identity) × (arg : Option Identity) × (parse input ≡ ok (op, arg)) × Line input op arg
parse_total input small =
    let (op, arg, line) = Line-of input in (op, arg, Line-parse input op arg line small, line)

-- For a line that a string can hold, `parse` returns an operation and an argument if and only if they
-- are what the description of lines says.
pub parse_iff :
    (input op : Identity) (arg : Option Identity)
    → length input < 18446744073709551616
    → (parse input ≡ ok (op, arg)) ↔ Line input op arg
parse_iff input op arg small = (
  λ parsed.
      let (op', arg', line) = Line-of input in
      let same : (op', arg') ≡ (op, arg) =
        ap (value_or ([], none)) (sym (Line-parse input op' arg' line small) ∙ parsed) in
      subst (λ (q : OpArgPair). Line input q.0 q.1) same line,
  λ line. Line-parse input op arg line small,
)
