-- ===== src/Main/Arguments.antt =====
-- src/main.rs: every setting of the command line can be given.
use amail_bridge.Common.{
  ◌≡◌, refl, ◌∙◌, Bool, true, false, Option, none, some, List, [], ◌∷◌, if◌then◌else◌, list_eq,
  nat_eq,
}
use amail_bridge.Std.Text.{Text, str}
use amail_bridge.Main.{
  CliArgs, default_args, slot_of, store, set_daemon, parse_loop, parsed, exit_code, parse_args,
  parse_args_from,
}

-- The arguments for an option that may be given.
abbrev pub with_value : Text → Option Text → List Text → List Text
with_value name none rest = rest
with_value name (some value) rest = name ∷ value ∷ rest

-- The arguments that stand for the settings.
unfoldable pub arguments : CliArgs → List Text
arguments cli =
    let options =
      with_value (str "--pid-file") cli.pid_file
        (with_value (str "--log-file") cli.log_file (with_value (str "-c") cli.config_path [])) in
    if cli.daemon then str "--daemon" ∷ options else options

option_runs : Unit {0}
unfolding exit_code slot_of store set_daemon parse_loop list_eq nat_eq
option_runs = tt

pid_step :
    (o : Option Text) (rest : List Text) (daemon strict : Bool)
    → parse_loop strict none
        (with_value (str "--pid-file") o rest)
        (record default_args { daemon = daemon })
      ≡ parse_loop strict none rest (record default_args { daemon = daemon; pid_file = o })
unfolding option_runs
pid_step none rest daemon strict = refl
pid_step (some value) rest daemon true = refl
pid_step (some value) rest daemon false = refl

log_step :
    (o pid : Option Text) (rest : List Text) (daemon strict : Bool)
    → parse_loop strict none
        (with_value (str "--log-file") o rest)
        (record default_args { daemon = daemon; pid_file = pid })
      ≡ parse_loop strict none rest
          (record default_args { daemon = daemon; pid_file = pid; log_file = o })
unfolding option_runs
log_step none pid rest daemon strict = refl
log_step (some value) pid rest daemon true = refl
log_step (some value) pid rest daemon false = refl

config_step :
    (o pid log : Option Text) (daemon strict : Bool)
    → parse_loop strict none
        (with_value (str "-c") o [])
        (record default_args { daemon = daemon; pid_file = pid; log_file = log })
      ≡ parsed (record { daemon = daemon; pid_file = pid; log_file = log; config_path = o })
unfolding option_runs
config_step none pid log daemon strict = refl
config_step (some value) pid log daemon true = refl
config_step (some value) pid log daemon false = refl

daemon_step :
    (daemon strict : Bool) (rest : List Text)
    → parse_loop strict none (if daemon then str "--daemon" ∷ rest else rest) default_args
      ≡ parse_loop strict none rest (record default_args { daemon = daemon })
unfolding option_runs
daemon_step false strict rest = refl
daemon_step true true rest = refl
daemon_step true false rest = refl

parse_loop-arguments :
    (strict : Bool) (cli : CliArgs)
    → parse_loop strict none (arguments cli) default_args ≡ parsed cli
unfolding arguments
parse_loop-arguments strict cli =
    daemon_step cli.daemon strict _
    ∙ pid_step cli.pid_file _ cli.daemon strict
    ∙ log_step cli.log_file cli.pid_file _ cli.daemon strict
    ∙ config_step cli.config_path cli.pid_file cli.log_file cli.daemon strict

-- Every combination of the settings is read back from its arguments by both parsers, whatever the
-- values are: also a value that is spelled like an option belongs to the option before it.
pub parse_args-arguments :
    (program : Text) (cli : CliArgs)
    → (parse_args (program ∷ arguments cli) ≡ parsed cli)
      × (parse_args_from (program ∷ arguments cli) ≡ parsed cli)
unfolding parse_args parse_args_from
parse_args-arguments program cli = (parse_loop-arguments true cli, parse_loop-arguments false cli)
