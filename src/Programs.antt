-- ===== src/Programs.antt =====
-- The main functions: controller/main.cpp, cli/main.cpp and those of power_devices/Source.cpp, Load.cpp and
-- Distribution.cpp, which differ in the class of the device alone.
--
-- ACE is not part of this repository: `options` is what ACE_Get_Opt returns one after the other, the
-- character and the argument, up to -1; `long_options` tells whether it took the names of the long
-- options. `atoi` reads a number. `domain_unknown` is OpenDDS::DOMAIN_UNKNOWN.
pub mod Arguments
pub mod Outcomes
use developer_resources.Prelude.{
  ℕ, ◌==◌, Bool, true, false, Option, none, some, List, [], ◌∷◌, if◌then◌else◌, Identity, codes,
}
use developer_resources.Data.{ReturnCode, is_ok}
use developer_resources.Utilities.{ℤ, pos, negsuc}

abbrev pub int_eq : ℤ → ℤ → Bool
int_eq (pos m) (pos n) = m == n
int_eq (negsuc m) (negsuc n) = m == n
int_eq _ _ = false

-- The local variables of a main function.
pub record Options : Type 0 where
  pub domain_id : ℤ
  pub id : Option Identity
  pub verbose : Bool

-- Whether a main function got so far as to run, and with which identity, domain and verbosity.
pub data Outcome : Type 0 where
  not_started init_failed : Outcome
  ran : Identity → ℤ → Bool → Outcome

-- What main returns, where `run` returns `code`.
abbrev pub exit_code : ℕ → Outcome → ℕ
exit_code code not_started = 1
exit_code code init_failed = 1
exit_code code (ran id domain verbose) = code

module _ (atoi : Identity → ℤ) (domain_unknown : ℤ) where
  -- The switch of a power device, whose cases are 'i', 'd' and 'v'.
  unfoldable pub device_option : ℕ × Identity → Options → Options
  device_option (c, arg) o =
      if c == 105
      then record o { id = some arg }
      else (if c == 100
          then record o { domain_id = atoi arg }
          else (if c == 118 then record o { verbose = true } else o))

  unfoldable pub device_options : List (ℕ × Identity) → Options → Options
  unfolding device_option
  device_options [] o = o
  device_options (x ∷ rest) o = device_options rest (device_option x o)

  -- The switch of the controller and of the client, whose cases are 'i' and 'd'.
  unfoldable pub plain_option : ℕ × Identity → Options → Options
  plain_option (c, arg) o =
      if c == 105
      then record o { id = some arg }
      else (if c == 100 then record o { domain_id = atoi arg } else o)

  unfoldable pub plain_options : List (ℕ × Identity) → Options → Options
  unfolding plain_option
  plain_options [] o = o
  plain_options (x ∷ rest) o = plain_options rest (plain_option x o)

  abbrev pub no_options : Options
  no_options = record { domain_id = domain_unknown; id = none; verbose = false }

  -- `init` is what the method init returns for the object that is made and the domain.
  abbrev pub start_device : (Identity → Bool → ℤ → ReturnCode) → Options → Outcome
  start_device init o = if int_eq o.domain_id domain_unknown then not_started else elim o.id [
    | none ↦ not_started
    | some id ↦
        if is_ok (init id o.verbose o.domain_id) then ran id o.domain_id o.verbose else init_failed
  ]

  unfoldable pub device_main :
      Bool → (Identity → Bool → ℤ → ReturnCode) → List (ℕ × Identity) → Outcome
  unfolding device_options
  device_main long_options init options =
      if long_options then start_device init (device_options options no_options) else not_started

  -- What `Controller::init` returns is not looked at.
  abbrev pub start_controller : Options → Outcome
  start_controller o =
      if int_eq o.domain_id domain_unknown
      then not_started
      else elim o.id [ none ↦ not_started | some id ↦ ran id o.domain_id o.verbose ]

  unfoldable pub controller_main :
      (Identity → Bool → ℤ → ReturnCode) → List (ℕ × Identity) → Outcome
  unfolding plain_options
  controller_main init options = start_controller (plain_options options no_options)

  -- The client has an identity from the start, and main returns 0 once it has run.
  unfoldable pub client_main : (Identity → Bool → ℤ → ReturnCode) → List (ℕ × Identity) → Outcome
  unfolding plain_options
  client_main init options =
      start_device init
        (plain_options options (record no_options { id = some (codes "CLI Client") }))
