-- ===== src/Cli/Main.antt =====
-- `main` of src/ebbflow.rs: the subcommands and the text of an error that ends the process.
pub mod Writes
use Prim.Native.String.{◌++◌ as str_append}
use ebbflow.Prelude.{String, Bool, true, false, List, [], Option, none, some}
use ebbflow.Prelude.Result.{Result, ok, err}
use ebbflow.Config.Files.{
  ConfigError, parsing, file_not_found, file_permissions, empty, unknown, Yaml, Disk,
}
use ebbflow.Runner.Status.{DaemonStatus}
use ebbflow.InfoServer.{Json}
use ebbflow.Cli.{
  CliError, config_error, std_io_error, http, other, exits, dies, AddEndpointArgs, add_endpoint,
  RemoveEndpointArgs, remove_endpoint,
}
use ebbflow.Cli.Settings.{
  EnableDisableArgs, enable_disable, SetupSshArgs, setup_ssh, remove_ssh, setloglevel,
}
use ebbflow.Cli.Status.{Client, show_status}
use ebbflow.Cli.Console.{Input}
use ebbflow.Cli.Init.{Env, init}
use ebbflow.Cli.Blocking.{RunBlockingArgs, Machine, Blocked, fails, panics, runs, run_blocking}
use ebbflow.Cli.Printed.{Format, print_status, printconfignokey}

-- The subcommands of `config` and the others; `log_level none` is the reset.
pub data SubCommand : Type 0 where
  enable disable : EnableDisableArgs → SubCommand
  add : AddEndpointArgs → SubCommand
  remove : RemoveEndpointArgs → SubCommand
  print : SubCommand
  setup : SetupSshArgs → SubCommand
  remove_ssh_configuration : SubCommand
  log_level : Option String → SubCommand
  initialize : Bool → SubCommand
  block : RunBlockingArgs → SubCommand
  get_status : SubCommand

-- What the client finds where it runs.
pub record World (A : Type 0) : Type 0 where
  pub yaml : Yaml
  pub env : Env
  pub ebb_key : Option String
  pub input : Input
  pub machine : Machine
  pub client : Client A
  pub json : Json
  pub format : Format
  pub now : String

-- How the process ends, if it does: well, with a text on the standard error and status 1, or with a
-- panic.
pub data Ending : Type 0 where
  exited_ok running : Ending
  exited_error panicked : String → Ending

unfoldable pub config_error_text : ConfigError → String
config_error_text file_permissions =
    "Permissions issue regarding configuration file, are you running this with elevated privelages?"
config_error_text file_not_found =
    "Expected configuration file not found, has initialization occurred yet?"
config_error_text parsing = "Failed to parse configuration properly, please notify Ebbflow"
config_error_text (unknown s) =
    str_append "Unexpected error: " (str_append s ", Please notify Ebbflow")
config_error_text empty = "The configuration file is empty"

-- The `match` on the result of `main`.
unfoldable pub error_text : CliError → String
unfolding config_error_text
error_text (config_error ce) = config_error_text ce
error_text (std_io_error e) = "Issue reading or writing to/from stdin or out, weird!"
error_text (http e) =
    str_append "Problem making HTTP request to Ebbflow, please try again soon. For debugging: " e
error_text (other e) = str_append "Unexpected error: " e
error_text (exits e) = e
error_text (dies e) = e

unfoldable pub ending : {A : Type 0} → Result CliError A → Ending
unfolding error_text
ending (ok a) = exited_ok
ending (err (dies e)) = exited_error e
ending (err e) = exited_error (str_append "ERROR: " (error_text e))

unfoldable pub ending_or_running : Option (Result CliError (Unit {0})) → Ending
unfolding ending
ending_or_running none = running
ending_or_running (some r) = ending r

unfoldable pub ending_blocked : Blocked → Ending
unfolding ending
ending_blocked (fails e) = ending {A = Unit {0}} (err e)
ending_blocked (panics e) = panicked e
ending_blocked (runs info w) = running

-- What is printed is what the subcommand ends with.
unfoldable pub status_lines : Format → String → Result CliError DaemonStatus → List String
status_lines f now (ok s) = print_status f now s
status_lines f now (err e) = []

unfoldable pub main : {A : Type 0} → World A → SubCommand → Disk → Disk × (List String × Ending)
unfolding ending ending_or_running ending_blocked status_lines
main w (enable args) d = let (d', r) = enable_disable w.yaml true args d in (d', ([], ending r))
main w (disable args) d = let (d', r) = enable_disable w.yaml false args d in (d', ([], ending r))
main w (add args) d = let (d', r) = add_endpoint w.yaml args d in (d', ([], ending r))
main w (remove args) d = let (d', r) = remove_endpoint w.yaml args d in (d', ([], ending r))
main w print d =
    let (lines, r) = printconfignokey w.format w.yaml w.env.hostname d in (d, (lines, ending r))
main w (setup args) d = let (d', r) = setup_ssh w.yaml args d in (d', ([], ending r))
main w remove_ssh_configuration d = let (d', r) = remove_ssh w.yaml d in (d', ([], ending r))
main w (log_level level) d = let (d', r) = setloglevel w.yaml level d in (d', ([], ending r))
main w (initialize non_interactive) d =
    let (d', r) = init w.env w.yaml non_interactive w.ebb_key w.input d in
    (d', ([], ending_or_running r))
main w (block args) d = (d, ([], ending_blocked (run_blocking w.machine w.yaml args d)))
main w get_status d =
    let r = show_status w.env.text.trim w.client w.json d in
    (d, (status_lines w.format w.now r, ending r))
