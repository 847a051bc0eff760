-- ===== src/Client/Commands.antt =====
-- cli/CLIClient.cpp: the commands that the user enters, from a line of input to the call it makes.
-- Strings are sequences of bytes; positions and sizes are 64-bit `size_t`.
use developer_resources.Prelude.{
  ℕ, ◌+◌, ◌-◌, ◌%◌, ◌==◌, leb, Bool, not, ◌&&◌, ◌||◌, Option, none, some, [], ◌∷◌, if◌then◌else◌,
  Identity, id_eq, Result, ok, ◌>>=◌, codes, shift, drop, first_index, last_index, OutOfRange,
  substr, substr_from, find, contains,
}
use developer_resources.CliServer.Commands.{ControllerCmdType, cct_stop, cct_resume, cct_terminate}
use developer_resources.Client.{ControllerMap}

-- The characters of `whitespace`.
abbrev pub is_blank : ℕ → Bool
is_blank c = c == 32 || c == 9

abbrev pub is_not_blank : ℕ → Bool
is_not_blank c = not (is_blank c)

-- `find_first_not_of(whitespace, from)`.
abbrev pub find_first_not_blank : Identity → ℕ → Option ℕ
find_first_not_blank s from = shift from (first_index is_not_blank (drop from s))

-- `last - first + 1`.
abbrev pub size_between : ℕ → Option ℕ → ℕ
size_between first none =
    (18446744073709551615 + 18446744073709551616 - first + 1) % 18446744073709551616
size_between first (some last) = (last + 18446744073709551616 - first + 1) % 18446744073709551616

-- `OpArgPair`.
abbrev pub OpArgPair : Type 0
OpArgPair = Identity × Option Identity

-- `parse`, behind the trimming.
unfoldable pub split_trimmed : Identity → Result OutOfRange OpArgPair
unfolding first_index
split_trimmed s = elim (first_index is_blank s) [
  | none ↦ ok (s, none)
  | some delim ↦ (do
    op ← substr s 0 delim
    arg ← substr_from s (find_first_not_blank s (delim + 1))
    ok (op, some arg))
]

unfoldable pub parse : Identity → Result OutOfRange OpArgPair
unfolding first_index last_index split_trimmed
parse input = elim (find_first_not_blank input 0) [
  | none ↦ ok ([], none)
  | some first ↦ (do
    trimmed ← substr input first (size_between first (last_index is_not_blank input))
    split_trimmed trimmed)
]

-- `std::tolower` of the "C" locale.
abbrev pub lower : ℕ → ℕ
lower c = if leb 65 c && leb c 90 then c + 32 else c

unfoldable pub tolower : Identity → Identity
tolower [] = []
tolower (c ∷ s) = lower c ∷ tolower s

-- The method that a line calls.
pub data Call : Type 0 where
  display_controllers list_power_devices connect_power_devices display_commands unknown_operation :
      Call
  start_device stop_device : Option Identity → Call
  controller_cmd : ControllerCmdType → Option Identity → Call

-- The chain of tests in `run_cli`.
unfoldable pub dispatch : Identity → Option Identity → Call
unfolding id_eq
dispatch op arg =
    if id_eq op (codes "list-mc")
    then display_controllers
    else (if id_eq op (codes "list-pd")
        then list_power_devices
        else (if id_eq op (codes "connect-pd")
            then connect_power_devices
            else (if id_eq op (codes "start")
                then start_device arg
                else (if id_eq op (codes "stop")
                    then stop_device arg
                    else (if id_eq op (codes "suspend")
                        then controller_cmd cct_stop arg
                        else (if id_eq op (codes "resume")
                            then controller_cmd cct_resume arg
                            else (if id_eq op (codes "term")
                                then controller_cmd cct_terminate arg
                                else (if id_eq op (codes "show")
                                    then display_commands
                                    else unknown_operation))))))))

-- One round of the loop of `run_cli`.
unfoldable pub enter : Identity → Result OutOfRange Call
unfolding parse tolower dispatch
enter line = do op_pair ← parse line; ok (dispatch (tolower op_pair.0) op_pair.1)

-- `send_controller_cmd`: the `cli::ControllerCommand` that is written, if one is. What the write
-- returns is only logged.
unfoldable pub send_controller_cmd :
    ControllerCmdType → Option Identity → ControllerMap → Option (Identity × ControllerCmdType)
send_controller_cmd type none m = none
send_controller_cmd type (some mc_id) m =
    if contains (find mc_id m) then some (mc_id, type) else none
