-- ===== src/Client/Loop.antt =====
-- cli/CLIClient.cpp: `run_cli`, the loop that reads a line and makes a call of it.
--
-- The standard input is not part of this repository: `getline` takes the input and what `line` holds to
-- what `line` holds afterwards and the input that is left. `read_by` is what a call leaves of the
-- input, of which connect_power_devices reads the user's answers. `stopped n` is what `cli_stopped`
-- returns at its call `n`. Only `handle_signal` sets the flag, and no code of the repository registers
-- it or calls it, so that the theorems are on a flag that is never seen.
use developer_resources.Prelude.{
  ℕ, zero, suc, ◌<◌, ◌≡◌, refl, Bool, true, false, Option, List, [], ◌∷◌, if◌then◌else◌, Identity,
  Result, ok, ◌>>=◌, OutOfRange, length, arith,
}
use developer_resources.Client.Commands.{Call, display_commands, enter, parse, dispatch, tolower}
use developer_resources.Client.Lines.{Line, parse_total}

-- The calls made so far, and whether the loop has ended.
abbrev pub Progress : Type 0
Progress = List Call × Bool

abbrev pub add_call : Call → Progress → Progress
add_call call (calls, ended) = (call ∷ calls, ended)

abbrev pub again : ℕ → Call → List Call
again zero call = []
again (suc k) call = call ∷ again k call

module _ {Input : Type 0} (getline : Input → Identity → Identity × Input)
    (read_by : Call → Input → Input) (stopped : ℕ → Bool) where
  -- At most so many rounds of the loop of `run_cli`, from its round `n` on.
  unfoldable pub rounds : ℕ → ℕ → Input → Identity → Result OutOfRange Progress
  unfolding enter
  rounds zero n input line = ok ([], false)
  rounds (suc fuel) n input line = if stopped n then ok ([], true) else (do
    call ← enter (getline input line).0
    outcome ← rounds fuel (suc n) (read_by call (getline input line).1) (getline input line).0
    ok (add_call call outcome))

  -- `run_cli`, up to so many rounds.
  unfoldable pub run_cli : ℕ → Input → Result OutOfRange Progress
  unfolding rounds
  run_cli fuel input = do outcome ← rounds fuel 0 input []; ok (add_call display_commands outcome)

  -- The calls of so many rounds: each is of the line that was read before it, by the description of
  -- lines, and the next line is read behind it.
  pub data Session : ℕ → Input → Identity → List Call → Type 0 where
    over : {input : Input} {line : Identity} → Session 0 input line []
    round :
        {k : ℕ} {input : Input} {line : Identity} {calls : List Call} (op : Identity)
        (arg : Option Identity)
        → Line (getline input line).0 op arg
        → Session k
            (read_by (dispatch (tolower op) arg) (getline input line).1)
            (getline input line).0
            calls
        → Session (suc k) input line (dispatch (tolower op) arg ∷ calls)

  -- Each string is shorter than the greatest size_t, also one that `getline` has read.
  abbrev pub LinesFit : Type 0
  LinesFit =
      (input : Input) (line : Identity)
      → length line < 18446744073709551616
      → length (getline input line).0 < 18446744073709551616

  enter_line :
      (line op : Identity) (arg : Option Identity) (parsed : parse line ≡ ok (op, arg))
      → enter line ≡ ok (dispatch (tolower op) arg)
  unfolding enter
  enter_line line op arg parsed = rw parsed refl

  -- `k` rounds, from round `n` on.
  rounds-Session :
      (k n : ℕ) (input : Input) (line : Identity)
      → LinesFit
      → length line < 18446744073709551616
      → ((m : ℕ) → stopped m ≡ false)
      → (calls : List Call) × (rounds k n input line ≡ ok (calls, false))
        × Session k input line calls
  unfolding rounds
  rounds-Session zero n input line fit small goes = ([], refl, over)
  rounds-Session (suc k) n input line fit small goes =
      let (op, arg, parsed, is_line) = parse_total (getline input line).0 (fit input line small) in
      let call = dispatch (tolower op) arg in
      let (calls, run, session) =
        rounds-Session k (suc n) (read_by call (getline input line).1) (getline input line).0 fit
          (fit input line small) goes in
      (
        call ∷ calls,
        rw (goes n, enter_line (getline input line).0 op arg parsed, run) refl,
        round op arg is_line session,
      )

  -- As the flag is never seen, `run_cli` never ends: for every number of rounds it comes to the end of
  -- these without a throw of substr, after it has displayed the commands and has made one call for each
  -- line that was read, in their order, the one that the description of lines gives, and it goes on.
  pub run_cli_goes_on :
      (k : ℕ) (input : Input)
      → LinesFit
      → ((m : ℕ) → stopped m ≡ false)
      → (calls : List Call) × (run_cli k input ≡ ok (display_commands ∷ calls, false))
        × Session k input [] calls
  unfolding run_cli
  run_cli_goes_on k input fit goes =
      let (calls, run, session) = rounds-Session k 0 input [] fit (omega arith) goes in
      (calls, rw run refl, session)

  rounds-again :
      (k n : ℕ) (input : Input) (line : Identity) (call : Call)
      → getline input line ≡ (line, input)
      → read_by call input ≡ input
      → enter line ≡ ok call
      → ((m : ℕ) → stopped m ≡ false)
      → rounds k n input line ≡ ok (again k call, false)
  unfolding rounds
  rounds-again zero n input line call same still entered goes = refl
  rounds-again (suc k) n input line call same still entered goes =
      rw
        (
          goes n,
          same,
          entered,
          still,
          rounds-again k (suc n) input line call same still entered goes,
        )
        refl

  -- Where the input has ended, so that `getline` leaves the line and the input as they are, and no call
  -- reads more of it, and as the flag is never seen, the loop goes round without an end: there is one
  -- call, that of the line that was read last, and for every number of further rounds each of them
  -- makes this call again and the loop has not ended.
  pub input_ended_repeats :
      (n : ℕ) (input : Input) (line : Identity)
      → length line < 18446744073709551616
      → getline input line ≡ (line, input)
      → ((call : Call) → read_by call input ≡ input)
      → ((m : ℕ) → stopped m ≡ false)
      → (call : Call) × (enter line ≡ ok call)
        × ((k : ℕ) → rounds k n input line ≡ ok (again k call, false))
  input_ended_repeats n input line small same still goes =
      let (op, arg, parsed, is_line) = parse_total line small in
      let call = dispatch (tolower op) arg in
      (
        call,
        enter_line line op arg parsed,
        λ k.
            rounds-again k n input line call same (still call) (enter_line line op arg parsed) goes,
      )
