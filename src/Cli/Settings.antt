-- ===== src/Cli/Settings.antt =====
-- src/ebbflow.rs: the subcommands about SSH and the log level, and `enable` and `disable`.
use Prim.Native.String.{◌++◌ as str_append}
use ebbflow.Prelude.{
  ℕ, min, String, Bool, true, false, not, Option, none, some, unwrap_or, if◌then◌else◌,
}
use ebbflow.Prelude.Result.{Result, ok, err}
use ebbflow.Config.{bool_eq, Ssh}
use ebbflow.Config.Files.{Yaml, Disk}
use ebbflow.Runner.{max_max_idle}
use ebbflow.Cli.{CliError, exits, with_existing, save_and_return, set_endpoint_enabled}

unfoldable pub enable_ssh : Bool → Option Ssh → Option Ssh × (Bool × Bool)
enable_ssh enabled none = (none, (false, false))
enable_ssh enabled (some ssh) =
    if bool_eq ssh.enabled enabled
    then (some ssh, (true, false))
    else (some (record ssh { enabled = enabled }), (true, true))

unfoldable pub set_ssh_enabled : Yaml → Bool → Disk → Disk × Result CliError (Bool × Bool)
unfolding with_existing enable_ssh save_and_return
set_ssh_enabled yaml enabled d = with_existing yaml d (λ existing.
    let (ssh, ret) = enable_ssh enabled existing.ssh in
    save_and_return yaml (record existing { ssh = ssh }) d ret)

pub data EnableDisableTarget : Type 0 where
  ssh all_endpoints : EnableDisableTarget
  endpoint : String → EnableDisableTarget

unfoldable pub enabledisable :
    Yaml → Bool → EnableDisableTarget → Disk → Disk × Result CliError (Bool × Bool)
unfolding set_ssh_enabled set_endpoint_enabled
enabledisable yaml enable ssh d = set_ssh_enabled yaml enable d
enabledisable yaml enable all_endpoints d = set_endpoint_enabled yaml enable none d
enabledisable yaml enable (endpoint dns) d = set_endpoint_enabled yaml enable (some dns) d

-- `Display`
abbrev pub display : EnableDisableTarget → String
display ssh = "Ssh"
display all_endpoints = "All Endpoints"
display (endpoint dns) = dns

pub record EnableDisableArgs : Type 0 where
  pub target : EnableDisableTarget
  pub idempotent : Bool

-- The pair says whether the target was found, and whether something changed.
unfoldable pub handle_enable_disable_ret :
    Bool → EnableDisableArgs → Result CliError (Bool × Bool) → Result CliError (Unit {0})
handle_enable_disable_ret enable args (err e) = err e
handle_enable_disable_ret enable args (ok (true, true)) = ok tt
handle_enable_disable_ret enable args (ok (true, false)) =
    if args.idempotent
    then ok tt
    else err (
        exits (
          str_append "The specified target was not " (
            str_append (if enable then "enabled" else "disabled")
              (str_append ": " (display args.target)))))
handle_enable_disable_ret true args (ok (false, mutated)) = err (
    exits (
      str_append "The specified target was not enabled as it is not configured: "
        (display args.target)))
handle_enable_disable_ret false args (ok (false, mutated)) =
    if args.idempotent
    then ok tt
    else err (
        exits (
          str_append "Unable to disable target "
            (str_append (display args.target) " as it is not configured")))

-- The arms of `main` for `enable` and `disable`.
unfoldable pub enable_disable :
    Yaml → Bool → EnableDisableArgs → Disk → Disk × Result CliError (Unit {0})
unfolding enabledisable handle_enable_disable_ret
enable_disable yaml enable args d =
    let (d', ret) = enabledisable yaml enable args.target d in
    (d', handle_enable_disable_ret enable args ret)

abbrev pub default_ssh_conns : ℕ
default_ssh_conns = 20

abbrev pub default_ssh_idle : ℕ
default_ssh_idle = 3

pub record SetupSshArgs : Type 0 where
  pub port : Option ℕ
  pub hostname : Option String
  pub maxconns : Option ℕ
  pub maxidle : Option ℕ
  pub disabled : Bool

unfoldable pub new_ssh : SetupSshArgs → Ssh
new_ssh args = record {
  maxconns = unwrap_or args.maxconns default_ssh_conns;
  port = unwrap_or args.port 22;
  enabled = not args.disabled;
  maxidle = min (unwrap_or args.maxidle default_ssh_idle) max_max_idle;
  hostname_override = args.hostname;
}

unfoldable pub setup_ssh : Yaml → SetupSshArgs → Disk → Disk × Result CliError (Unit {0})
unfolding with_existing new_ssh save_and_return
setup_ssh yaml args d = with_existing yaml d (λ existing. elim existing.ssh [
  | some old ↦
      (d, err (exits "SSH configuration already set up, please remove it and then recreate it"))
  | none ↦ save_and_return yaml (record existing { ssh = some (new_ssh args) }) d tt
])

unfoldable pub remove_ssh : Yaml → Disk → Disk × Result CliError (Unit {0})
unfolding with_existing save_and_return
remove_ssh yaml d =
    with_existing yaml d (λ existing. save_and_return yaml (record existing { ssh = none }) d tt)

-- `reset` is `none`; a level is its text.
unfoldable pub setloglevel : Yaml → Option String → Disk → Disk × Result CliError (Unit {0})
unfolding with_existing save_and_return
setloglevel yaml level d =
    with_existing yaml d
      (λ existing. save_and_return yaml (record existing { loglevel = level }) d tt)
