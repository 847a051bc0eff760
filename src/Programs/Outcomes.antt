-- ===== src/Programs/Outcomes.antt =====
-- The main functions: with which options each of them comes to run.
use developer_resources.Prelude.{
  ℕ, ◌≡◌, ◌≢◌, ◌↔◌, refl, sym, ap, subst, ◌∙◌, Bool, true, false, ◌||◌, Option, none, some, List,
  [], ◌∷◌, Identity, codes, Bool-cases, inl, inr, arith,
}
use developer_resources.Data.{ReturnCode, retcode_ok, is_ok}
use developer_resources.Utilities.{ℤ}
use developer_resources.Programs.{
  int_eq, Options, ran, device_option, device_options, plain_option, plain_options, no_options,
  start_device, device_main, start_controller, controller_main, client_main,
}
use developer_resources.Programs.Arguments.{later_or, last_arg, is_given, int_eq-≢, int_eq-false}

module _ (atoi : Identity → ℤ) (domain_unknown : ℤ) where
  abbrev pub domain_of : ℤ → Option Identity → ℤ
  domain_of first none = first
  domain_of first (some arg) = atoi arg

  domain_of-later :
      (first : ℤ) (x y : Option Identity)
      → domain_of first (later_or x y) ≡ domain_of (domain_of first y) x
  domain_of-later first none y = refl
  domain_of-later first (some arg) y = refl

  options_same :
      {a b : Options} → a.domain_id ≡ b.domain_id → a.id ≡ b.id → a.verbose ≡ b.verbose → a ≡ b
  options_same domains ids verbosities =
      λ i. record { domain_id = domains i; id = ids i; verbose = verbosities i }

  -- What the options leave, by the last of each kind.
  abbrev pub left_by : List (ℕ × Identity) → Options → Options
  left_by options o = record {
    domain_id = domain_of o.domain_id (last_arg 100 options);
    id = later_or (last_arg 105 options) o.id;
    verbose = o.verbose || is_given 118 options;
  }

  device_options-last :
      (options : List (ℕ × Identity)) (o : Options)
      → device_options atoi domain_unknown options o ≡ left_by options o
  unfolding device_options device_option
  device_options-last [] o = options_same refl refl (ground arith)
  device_options-last ((c, arg) ∷ rest) o =
      device_options-last rest (device_option atoi domain_unknown (c, arg) o)
      ∙ options_same (ground arith) (ground arith) (ground arith)

  -- The controller and the client have no 'v'.
  abbrev pub plain_left_by : List (ℕ × Identity) → Options → Options
  plain_left_by options o = record (left_by options o) { verbose = o.verbose }

  plain_options-last :
      (options : List (ℕ × Identity)) (o : Options)
      → plain_options atoi domain_unknown options o ≡ plain_left_by options o
  unfolding plain_options plain_option
  plain_options-last [] o = refl
  plain_options-last ((c, arg) ∷ rest) o =
      plain_options-last rest (plain_option atoi domain_unknown (c, arg) o)
      ∙ options_same (ground arith) (ground arith) (ground arith)

  ran_fields :
      {id id' : Identity} {domain domain' : ℤ} {verbose verbose' : Bool}
      → ran id domain verbose ≡ ran id' domain' verbose'
      → (id ≡ id') × (domain ≡ domain') × (verbose ≡ verbose')
  ran_fields same = ground (arith, same)

  -- It is started, with these options, in a domain that is given.
  abbrev pub Starts : Options → Identity → ℤ → Bool → Type 0
  Starts o id domain verbose =
      (o.domain_id ≡ domain) × (domain ≢ domain_unknown) × (o.id ≡ some id) × (o.verbose ≡ verbose)

  later_or-none : (x : Option Identity) → later_or x none ≡ x
  later_or-none none = refl
  later_or-none (some arg) = refl

  -- What the options are, from none on.
  abbrev pub given_by : List (ℕ × Identity) → Bool → Options
  given_by options verbose = record {
    domain_id = domain_of domain_unknown (last_arg 100 options);
    id = last_arg 105 options;
    verbose = verbose;
  }

  device_options-given_by :
      (options : List (ℕ × Identity))
      → device_options atoi domain_unknown options (no_options atoi domain_unknown)
        ≡ given_by options (is_given 118 options)
  device_options-given_by options =
      device_options-last options (no_options atoi domain_unknown)
      ∙ options_same refl (later_or-none (last_arg 105 options)) refl

  plain_options-given_by :
      (options : List (ℕ × Identity))
      → plain_options atoi domain_unknown options (no_options atoi domain_unknown)
        ≡ given_by options false
  plain_options-given_by options =
      plain_options-last options (no_options atoi domain_unknown)
      ∙ options_same refl (later_or-none (last_arg 105 options)) refl

  module _ (init : Identity → Bool → ℤ → ReturnCode) where
    ran-Starts :
        (d domain : ℤ) (j id : Identity) (v verbose : Bool)
        → ran j d v ≡ ran id domain verbose
        → int_eq d domain_unknown ≡ false
        → is_ok (init j v d) ≡ true
        → Starts (record { domain_id = d; id = some j; verbose = v }) id domain verbose
          × (is_ok (init id verbose domain) ≡ true)
    ran-Starts d domain j id v verbose same known fine =
        let (ids, domains, verbosities) = ran_fields same in
        (
          (
            domains,
            subst (λ z. z ≢ domain_unknown) domains (int_eq-false d domain_unknown known),
            ap some ids,
            verbosities,
          ),
          cc (ids, domains, verbosities, fine),
        )

    start_device-Starts :
        (d domain : ℤ) (i : Option Identity) (v verbose : Bool) (id : Identity)
        → start_device atoi domain_unknown init (record { domain_id = d; id = i; verbose = v })
          ≡ ran id domain verbose
        → Starts (record { domain_id = d; id = i; verbose = v }) id domain verbose
          × (is_ok (init id verbose domain) ≡ true)
    start_device-Starts d domain none v verbose id run = ground (arith, run)
    start_device-Starts d domain (some j) v verbose id run =
        elim (Bool-cases (int_eq d domain_unknown)) [
          | inl unknown ↦ ground (arith, run, unknown)
          | inr known ↦ elim (Bool-cases (is_ok (init j v d))) [
            | inl fine ↦
                ran-Starts d domain j id v verbose (ground (arith, run, known, fine)) known fine
            | inr failed ↦ ground (arith, run, known, failed)
          ]
        ]

    Starts-start_device :
        (o : Options) (domain : ℤ) (verbose : Bool) (id : Identity)
        → Starts o id domain verbose
        → is_ok (init id verbose domain) ≡ true
        → start_device atoi domain_unknown init o ≡ ran id domain verbose
    Starts-start_device o domain verbose id (domains, known, ids, verbosities) fine =
        ap (start_device atoi domain_unknown init) (
          options_same {b = record { domain_id = domain; id = some id; verbose = verbose }} domains
            ids verbosities)
        ∙ rw (int_eq-≢ domain domain_unknown known, fine) refl

    -- A power device comes to run, in this domain and with this identity and verbosity, if and only if ACE
    -- took the names of the long options, the last -d gives the domain, and not the unknown one, the
    -- last -i gives the identity, a -v is there as the verbosity tells, and init returns OK.
    pub device_main_ran :
        (long_options : Bool) (options : List (ℕ × Identity)) (id : Identity) (domain : ℤ)
        (verbose : Bool)
        → (device_main atoi domain_unknown long_options init options ≡ ran id domain verbose) ↔ (
            (long_options ≡ true)
            × (domain_of domain_unknown (last_arg 100 options) ≡ domain)
            × (domain ≢ domain_unknown)
            × (last_arg 105 options ≡ some id)
            × (is_given 118 options ≡ verbose)
            × (is_ok (init id verbose domain) ≡ true))
    unfolding device_main
    device_main_ran false options id domain verbose =
        (λ run. ground (arith, run), λ h. ground (arith, h.0))
    device_main_ran true options id domain verbose = (
      λ run.
          let ((domains, known, ids, verbosities), fine) =
            start_device-Starts (given_by options (is_given 118 options)).domain_id domain
              (last_arg 105 options) (is_given 118 options) verbose id
              (ap (start_device atoi domain_unknown init) (sym (device_options-given_by options))
                ∙ run) in
          (refl, domains, known, ids, verbosities, fine),
      λ h.
          ap (start_device atoi domain_unknown init) (device_options-given_by options)
          ∙ Starts-start_device (given_by options (is_given 118 options)) domain verbose id
              (h.1, h.2, h.3, h.4) h.5,
    )

  -- The controller comes to run, in this domain and with this identity, if and only if the last -d gives
  -- the domain, and not the unknown one, and the last -i gives the identity: whatever init returns.
  pub controller_main_ran :
      (init : Identity → Bool → ℤ → ReturnCode) (options : List (ℕ × Identity)) (id : Identity)
      (domain : ℤ)
      → (controller_main atoi domain_unknown init options ≡ ran id domain false) ↔ (
          (domain_of domain_unknown (last_arg 100 options) ≡ domain)
          × (domain ≢ domain_unknown)
          × (last_arg 105 options ≡ some id))
  unfolding controller_main
  controller_main_ran init options id domain = (
    λ run.
        let ((domains, known, ids, verbosities), fine) =
          start_device-Starts (λ _ _ _. retcode_ok) (given_by options false).domain_id domain
            (last_arg 105 options) false false id
            (ap (start_controller atoi domain_unknown) (sym (plain_options-given_by options))
              ∙ run) in
        (domains, known, ids),
    λ h.
        ap (start_controller atoi domain_unknown) (plain_options-given_by options)
        ∙ Starts-start_device (λ _ _ _. retcode_ok) (given_by options false) domain false id
            (h.0, h.1, h.2, refl) refl,
  )

  -- The client comes to run if and only if the last -d gives a domain, and not the unknown one, and init
  -- returns OK; its identity is that of the last -i, or "CLI Client".
  pub client_main_ran :
      (init : Identity → Bool → ℤ → ReturnCode) (options : List (ℕ × Identity)) (id : Identity)
      (domain : ℤ)
      → (client_main atoi domain_unknown init options ≡ ran id domain false) ↔ (
          (domain_of domain_unknown (last_arg 100 options) ≡ domain)
          × (domain ≢ domain_unknown)
          × (later_or (last_arg 105 options) (some (codes "CLI Client")) ≡ some id)
          × (is_ok (init id false domain) ≡ true))
  unfolding client_main
  client_main_ran init options id domain =
      let named = record (no_options atoi domain_unknown) { id = some (codes "CLI Client") } in
      let read = plain_options-last options named in
      (
        λ run.
            let ((domains, known, ids, verbosities), fine) =
              start_device-Starts init (plain_left_by options named).domain_id domain
                (plain_left_by options named).id false false id
                (ap (start_device atoi domain_unknown init) (sym read) ∙ run) in
            (domains, known, ids, fine),
        λ h.
            ap (start_device atoi domain_unknown init) read
            ∙ Starts-start_device init (plain_left_by options named) domain false id
                (h.0, h.1, h.2, refl) h.3,
      )
