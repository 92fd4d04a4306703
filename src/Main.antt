-- ===== src/Main.antt =====
-- src/main.rs: the command line.
pub mod Arguments
pub mod Process
pub mod Tls
pub mod Startup
pub mod Finish
pub mod Shutdown
use amail_bridge.Common.{
  ℕ, Bool, true, false, ◌||◌, Option, none, some, List, [], ◌∷◌, same, if◌then◌else◌, list_eq,
  nat_eq,
}
use amail_bridge.Std.Text.{Text, str}

pub record CliArgs : Type 0 where
  pub daemon : Bool
  pub pid_file : Option Text
  pub log_file : Option Text
  pub config_path : Option Text

-- `CliArgs::default()`
abbrev pub default_args : CliArgs
default_args = record { daemon = false; pid_file = none; log_file = none; config_path = none }

-- An option that takes the argument behind it.
pub data Slot : Type 0 where
  pid_slot : Slot
  log_slot : Slot
  config_slot : Slot

unfoldable pub slot_of : Text → Option Slot
slot_of arg =
    if same arg (str "--pid-file")
    then some pid_slot
    else if same arg (str "--log-file")
    then some log_slot
    else if same arg (str "--config") || same arg (str "-c")
    then some config_slot
    else none

unfoldable pub store : Slot → Text → CliArgs → CliArgs
store pid_slot value cli = record cli { pid_file = some value }
store log_slot value cli = record cli { log_file = some value }
store config_slot value cli = record cli { config_path = some value }

unfoldable pub set_daemon : Text → CliArgs → CliArgs
set_daemon arg cli =
    if same arg (str "--daemon") || same arg (str "-d") then record cli { daemon = true } else cli

-- How the parsing ends: the process exits with a code, or indexes out of bounds and panics.
pub data ParseResult : Type 0 where
  parsed : CliArgs → ParseResult
  exits : ℕ → ParseResult
  panics : ParseResult

-- The flags that stop the program: `--help`, and any that is unknown.
unfoldable pub exit_code : Text → Option ℕ
exit_code arg =
    if same arg (str "--help") || same arg (str "-h")
    then some 0
    else if same arg (str "--daemon") || same arg (str "-d")
    then none
    else elim (slot_of arg) [ none ↦ some 1 | some slot ↦ none ]

abbrev pub exit_or : Option ℕ → ParseResult → ParseResult
exit_or none result = result
exit_or (some code) result = exits code

-- The loop. A `strict` one stops at a flag that stops the program; the other passes over it. An
-- option that takes a value takes the argument behind it as it is.
unfoldable pub parse_loop : Bool → Option Slot → List Text → CliArgs → ParseResult
parse_loop strict none [] cli = parsed cli
parse_loop strict (some slot) [] cli = panics
parse_loop strict (some slot) (value ∷ args) cli =
    parse_loop strict none args (store slot value cli)
parse_loop strict none (arg ∷ args) cli =
    let rest = parse_loop strict (slot_of arg) args (set_daemon arg cli) in
    exit_or (if strict then exit_code arg else none) rest

-- `parse_args`; the first argument is the program's name.
unfoldable pub parse_args : List Text → ParseResult
parse_args [] = parsed default_args
parse_args (program ∷ args) = parse_loop true none args default_args

-- `parse_args_from`, which the tests call.
unfoldable pub parse_args_from : List Text → ParseResult
parse_args_from [] = parsed default_args
parse_args_from (program ∷ args) = parse_loop false none args default_args
