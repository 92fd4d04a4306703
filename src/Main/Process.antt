-- ===== src/Main/Process.antt =====
-- src/main.rs: the process that `main` makes: its files, its detachment from the terminal,
-- and where it logs.
use amail_bridge.Common.{
  ℕ, ◌≡◌, ◌↔◌, refl, Bool, true, false, Option, none, some, arith, if◌then◌else◌,
}
use amail_bridge.Std.Text.{Text, str}
use amail_bridge.Std.Files.{join}
use amail_bridge.Router.Route.{unwrap_or}
use amail_bridge.Config.{LoggingConfig}
use amail_bridge.Main.{CliArgs}

pub record Paths : Type 0 where
  pub pid_file : Text
  pub log_file : Text

-- The paths of `main`, from the home directory.
unfoldable pub paths_of : Option Text → CliArgs → Paths
paths_of home_dir cli =
    let hermes_home = join (unwrap_or (str "/tmp") home_dir) (str ".hermes") in
    record {
      pid_file = unwrap_or (join hermes_home (str "aimail-bridge.pid")) cli.pid_file;
      log_file = unwrap_or (join hermes_home (str "aimail-bridge.log")) cli.log_file;
    }

-- What `fork` returns.
pub data Fork : Type 0 where
  refused : Fork
  in_child : Fork
  in_parent : Fork

-- The answers of the system to `daemonize`.
pub record Answers : Type 0 where
  pub first_fork : Fork
  pub setsid_done : Bool
  pub second_fork : Fork
  pub log_opened : Bool
  pub pid_written : Bool

-- A process that goes on, with the file of its standard streams and its pid file.
pub data Process : Type 0 where
  exits : ℕ → Process
  runs : Option Text → Option Text → Process

-- A fork that fails ends the process with 1; the parent ends with 0.
unfoldable pub after_fork : Fork → Process → Process
after_fork refused rest = exits 1
after_fork in_child rest = rest
after_fork in_parent rest = exits 0

abbrev pub or_exit : Bool → Process → Process
or_exit true rest = rest
or_exit false rest = exits 1

-- `daemonize` on Unix.
unfoldable pub daemonize : Answers → Paths → Process
daemonize a p = after_fork a.first_fork (
    or_exit a.setsid_done (
      after_fork a.second_fork
        (or_exit a.log_opened (or_exit a.pid_written (runs (some p.log_file) (some p.pid_file))))))

-- The answers of Windows to `daemonize`: whether the process has no console, whether its pid file
-- could be written, its program found and its copy started.
pub record WindowsAnswers : Type 0 where
  pub detached : Bool
  pub pid_written : Bool
  pub exe_found : Bool
  pub spawned : Bool

-- A panic ends the process with 101.
abbrev or_panic : Bool → Process → Process
or_panic true rest = rest
or_panic false rest = exits 101

-- `daemonize` on Windows: the copy that has no console goes on, with its streams as they are and
-- whether or not the pid file could be written; the process that started it ends.
unfoldable pub daemonize_windows : WindowsAnswers → Paths → Process
daemonize_windows a p =
    if a.detached
    then runs none (if a.pid_written then some p.pid_file else none)
    else or_panic a.exe_found (or_panic a.spawned (exits 0))

-- On Windows the process with the console never goes on, and its copy always does.
pub daemonize_windows-runs :
    (a : WindowsAnswers) (p : Paths)
    → (a.detached ≡ true) ↔ ((pid : Option Text) × (daemonize_windows a p ≡ runs none pid))
unfolding daemonize_windows
daemonize_windows-runs a p = (
  λ h. (if a.pid_written then some p.pid_file else none, rw h refl),
  λ h. let (pid, e) = h in ground (arith, e),
)

-- `main` up to its runtime: without `--daemon` the process stays as it is.
unfoldable pub prepare : Answers → Option Text → CliArgs → Process
prepare a home_dir cli = if cli.daemon then daemonize a (paths_of home_dir cli) else runs none none

-- The destination of the log: a file, or the standard output.
unfoldable pub log_destination : LoggingConfig → Bool → Text → Option Text
log_destination cfg daemon daemon_log = if daemon then some daemon_log else cfg.file

-- A daemon logs to the file that its standard streams go to, whatever the configuration says.
pub prepare-log_destination :
    (a : Answers) (home_dir : Option Text) (cli : CliArgs) (cfg : LoggingConfig)
    (stdio pid : Option Text)
    → cli.daemon ≡ true
    → prepare a home_dir cli ≡ runs stdio pid
    → (stdio ≡ log_destination cfg cli.daemon (paths_of home_dir cli).log_file)
      × (pid ≡ some (paths_of home_dir cli).pid_file)
unfolding prepare daemonize after_fork log_destination
prepare-log_destination a home_dir cli cfg stdio pid e h = ground arith
