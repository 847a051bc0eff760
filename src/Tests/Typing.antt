-- ===== src/Tests/Typing.antt =====
-- The loop of the client on a line of input, and what devices announce.
use developer_resources.Prelude.{
  false, ℕ, Bool, ◌+◌, ◌-◌, if◌then◌else◌, ◌%◌, ◌≡◌, refl, ltb, true, ok, some, List, [], ◌∷◌,
  Identity, codes, length, arith,
}
use developer_resources.Data.{retcode_ok}
use developer_resources.Client.Commands.{
  Call, display_commands, start_device, enter, parse, dispatch, tolower,
}
use developer_resources.Client.Loop.{
  run_cli, rounds, Session, LinesFit, again, run_cli_goes_on, input_ended_repeats,
}
use developer_resources.Utilities.{ℤ, pos, negsuc}
use developer_resources.Programs.{device_main, device_options, device_option, ran}
use developer_resources.Tests.{pd1}

-- A string that is too long is not read.
abbrev bounded : Identity → Identity
bounded s = if ltb (length s) 18446744073709551616 then s else []

abbrev getline : List Identity → Identity → Identity × List Identity
getline [] line = (line, [])
getline (next ∷ input) line = (bounded next, input)

abbrev read_nothing : Call → List Identity → List Identity
read_nothing call input = input

abbrev never : ℕ → Bool
never n = false

getline-LinesFit : LinesFit getline read_nothing never
getline-LinesFit [] line small = small
getline-LinesFit (next ∷ input) line small = ground arith

abbrev typed : List Identity
typed = codes "start pd1" ∷ codes "show" ∷ []

run_cli_goes_on_example :
    (calls : List Call) × (run_cli getline read_nothing never 2 typed
      ≡ ok (display_commands ∷ calls, false))
    × Session getline read_nothing never 2 typed [] calls
run_cli_goes_on_example =
    run_cli_goes_on getline read_nothing never 2 typed getline-LinesFit (λ m. refl)

-- What the two lines call.
run_cli-typed :
    run_cli getline read_nothing never 2 typed
    ≡ ok (display_commands ∷ start_device (some pd1) ∷ display_commands ∷ [], false)
unfolding run_cli rounds enter parse tolower dispatch
run_cli-typed = refl

input_ended_repeats_example :
    (call : Call) × (enter (codes "start pd1") ≡ ok call)
    × ((k : ℕ)
        → rounds getline read_nothing never k 2 [] (codes "start pd1") ≡ ok (again k call, false))
input_ended_repeats_example =
    input_ended_repeats getline read_nothing never 2 [] (codes "start pd1") (omega arith) refl
      (λ call. refl) (λ m. refl)

abbrev drawn : ℕ → ℕ
drawn seed = seed % 10

abbrev clock : ℕ → ℕ
clock n = 1000 + n

-- Numbers of one digit.
abbrev atoi : Identity → ℤ
atoi [] = pos 0
atoi (c ∷ rest) = pos (c - 48)

abbrev entered : List (ℕ × Identity)
entered = (100, codes "3") ∷ (105, pd1) ∷ (118, []) ∷ (100, codes "7") ∷ []

device_main-entered :
    device_main atoi (negsuc 0) true (λ id verbose domain. retcode_ok) entered
    ≡ ran pd1 (pos 7) true
unfolding device_main device_options device_option
device_main-entered = refl
