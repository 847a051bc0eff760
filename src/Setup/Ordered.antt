-- ===== src/Setup/Ordered.antt =====
-- What the calls that succeed have in common, whatever the library answers.
use developer_resources.Prelude.{
  ◌≡◌, refl, Bool, true, false, ◌&&◌, List, [], ◌∷◌, arith, Bool-cases, inl, inr, ◌⊎◌, ok, err,
}
use developer_resources.Data.{ReturnCode, retcode_ok, retcode_error, is_ok}
use developer_resources.Timers.{null_pointer}
use developer_resources.Setup.{
  DdsCall, obtain, Pointer, participant_factory, follow, create_participant, create_publisher,
  create_subscriber, register_type, create_topic, create_datawriter, narrow, create_datareader,
  narrow_reader, has_made, Step, perform, require, report, Report, as_error, as_is, run_steps,
}

-- What must exist before a call: the participant; for a topic its type; for a reader or a writer
-- its topic and the subscriber or publisher of the method; for a cast the reader or writer. A
-- participant needs the factory.
abbrev pub is_ready : DdsCall → List DdsCall → Bool
is_ready (obtain p) made = true
is_ready (create_participant d) made = has_made (obtain participant_factory) made
is_ready (create_publisher m d) made = has_made (create_participant d) made
is_ready (create_subscriber m d) made = has_made (create_participant d) made
is_ready (register_type d t) made = has_made (create_participant d) made
is_ready (create_topic d t) made = has_made (register_type d t) made
is_ready (create_datawriter m d t) made =
    has_made (create_topic d t) made && has_made (create_publisher m d) made
is_ready (narrow m d t) made = has_made (create_datawriter m d t) made
is_ready (narrow_reader m d t) made = has_made (create_datareader m d t) made
is_ready (create_datareader m d t) made =
    has_made (create_topic d t) made && has_made (create_subscriber m d) made

-- Each call was made when what it needs existed.
abbrev pub IsOrdered : List DdsCall → Type 0
IsOrdered [] = Unit {0}
IsOrdered (c ∷ made) = (is_ready c made ≡ true) × IsOrdered made

-- The steps are ordered where all of them succeed.
unfoldable pub is_ordered_from : List Step → List DdsCall → Bool
is_ordered_from [] made = true
is_ordered_from (perform how c ∷ rest) made = is_ready c made && is_ordered_from rest (c ∷ made)
is_ordered_from (require c ∷ rest) made = is_ordered_from rest made
is_ordered_from (follow p ∷ rest) made = is_ordered_from rest (obtain p ∷ made)

-- The calls of the steps on top of those made before.
unfoldable pub all_made : List Step → List DdsCall → List DdsCall
all_made [] made = made
all_made (perform how c ∷ rest) made = all_made rest (c ∷ made)
all_made (require c ∷ rest) made = all_made rest made
all_made (follow p ∷ rest) made = all_made rest (obtain p ∷ made)

and_cases : (a b : Bool) → a && b ≡ true → (a ≡ true) × (b ≡ true)
and_cases a b h = ground (arith, h)

pub all_made-IsOrdered :
    (steps : List Step) (made : List DdsCall)
    → is_ordered_from steps made ≡ true
    → IsOrdered made
    → IsOrdered (all_made steps made)
unfolding all_made is_ordered_from
all_made-IsOrdered [] made check ordered = ordered
all_made-IsOrdered (perform how c ∷ rest) made check ordered =
    let (now, later) = and_cases (is_ready c made) (is_ordered_from rest (c ∷ made)) check in
    all_made-IsOrdered rest (c ∷ made) later (now, ordered)
all_made-IsOrdered (require c ∷ rest) made check ordered =
    all_made-IsOrdered rest made check ordered
all_made-IsOrdered (follow p ∷ rest) made check ordered =
    all_made-IsOrdered rest (obtain p ∷ made) check (refl, ordered)

module _ (answer : List DdsCall → DdsCall → ReturnCode) where
  -- Whatever the library answers, no call of ordered steps is made before what it needs exists.
  pub run_steps-IsOrdered :
      (steps : List Step) (made : List DdsCall)
      → is_ordered_from steps made ≡ true
      → IsOrdered made
      → IsOrdered (run_steps answer steps made).0
  unfolding run_steps is_ordered_from
  run_steps-IsOrdered [] made check ordered = ordered
  run_steps-IsOrdered (perform how c ∷ rest) made check ordered =
      elim (Bool-cases (is_ok (answer made c))) [
        | inl fine ↦
            rw (fine, run_steps)
              (run_steps-IsOrdered rest (c ∷ made)
                (and_cases (is_ready c made) (is_ordered_from rest (c ∷ made)) check).1
                ((and_cases (is_ready c made) (is_ordered_from rest (c ∷ made)) check).0, ordered))
        | inr failed ↦ rw (failed, run_steps) ordered
      ]
  run_steps-IsOrdered (require c ∷ rest) made check ordered = elim (Bool-cases (has_made c made)) [
    | inl there ↦ rw (there, run_steps) (run_steps-IsOrdered rest made check ordered)
    | inr absent ↦ rw (absent, run_steps) ordered
  ]
  run_steps-IsOrdered (follow p ∷ rest) made check ordered =
      elim (Bool-cases (is_ok (answer made (obtain p)))) [
        | inl given ↦
            rw (given, run_steps) (run_steps-IsOrdered rest (obtain p ∷ made) check (refl, ordered))
        | inr null ↦ rw (null, run_steps) ordered
      ]

  report_not_ok :
      (how : Report) (rc : ReturnCode) → is_ok rc ≡ false → is_ok (report how rc) ≡ false
  report_not_ok as_error rc h = refl
  report_not_ok as_is rc h = h

  -- After these calls the library does not give a pointer.
  abbrev pub IsMissing : List DdsCall → Type 0
  IsMissing made = (p : Pointer) × (is_ok (answer made (obtain p)) ≡ false)

  -- Steps return, or follow a null pointer that the library has given behind the calls that succeed.
  pub run_steps_cases :
      (steps : List Step) (made : List DdsCall)
      → ((rc : ReturnCode) × ((run_steps answer steps made).1 ≡ ok rc))
        ⊎ (((run_steps answer steps made).1 ≡ err null_pointer)
            × IsMissing (run_steps answer steps made).0)
  unfolding run_steps
  run_steps_cases [] made = inl (retcode_ok, refl)
  run_steps_cases (perform how c ∷ rest) made = elim (Bool-cases (is_ok (answer made c))) [
    | inl fine ↦ rw (fine, run_steps) (run_steps_cases rest (c ∷ made))
    | inr failed ↦ rw (failed, run_steps) (inl (report how (answer made c), refl))
  ]
  run_steps_cases (require c ∷ rest) made = elim (Bool-cases (has_made c made)) [
    | inl there ↦ rw (there, run_steps) (run_steps_cases rest made)
    | inr absent ↦ rw (absent, run_steps) (inl (retcode_error, refl))
  ]
  run_steps_cases (follow p ∷ rest) made = elim (Bool-cases (is_ok (answer made (obtain p)))) [
    | inl given ↦ rw (given, run_steps) (run_steps_cases rest (obtain p ∷ made))
    | inr null ↦ rw (null, run_steps) (inr (refl, (p, null)))
  ]

  -- Steps that return OK have made all their calls.
  pub run_steps_done :
      (steps : List Step) (made : List DdsCall)
      → (rc : ReturnCode) → (run_steps answer steps made).1 ≡ ok rc
      → is_ok rc ≡ true
      → (run_steps answer steps made).0 ≡ all_made steps made
  unfolding run_steps all_made
  run_steps_done [] made rc returns done = refl
  run_steps_done (perform how c ∷ rest) made rc returns done =
      ground
        (arith, returns, done, run_steps_done rest (c ∷ made) rc, report_not_ok how (answer made c))
  run_steps_done (require c ∷ rest) made rc returns done =
      ground (arith, returns, done, run_steps_done rest made rc)
  run_steps_done (follow p ∷ rest) made rc returns done =
      ground (arith, returns, done, run_steps_done rest (obtain p ∷ made) rc)
