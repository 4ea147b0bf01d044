-- ===== src/Cli/Outcomes.antt =====
-- Whether the commands `enable`, `disable` and `setup-ssh` succeed.
use ebbflow.Prelude.{
  ◌≡◌, ◌≤◌, refl, sym, ap, ◌∙◌, Bool, true, false, not, ◌||◌, ◌&&◌, String, Option, none, some,
  arith,
}
use ebbflow.Prelude.Result.{Result, ok, err}
use ebbflow.Config.{EbbflowDaemonConfig, Ssh}
use ebbflow.Config.Files.{Yaml, Disk, load_from_file, load_from_file_or_new}
use ebbflow.Config.SaveLoad.{IsLawfulYaml}
use ebbflow.Runner.{contains}
use ebbflow.Runner.Idempotent.{HasDistinctNames}
use ebbflow.Cli.{CliError, exits, save_and_return, set_endpoint_enabled}
use ebbflow.Cli.Endpoints.{with_existing-ok, save_and_return-eq_ok}
use ebbflow.Cli.Settings.{
  endpoint, EnableDisableArgs, enabledisable, handle_enable_disable_ret, enable_disable,
  SetupSshArgs, new_ssh, setup_ssh,
}
use ebbflow.Cli.Enabling.{differs, differs-absent, set_endpoint_enabled-eq_ok}

unfoldable pub succeeds : {A : Type 0} → Result CliError A → Bool
succeeds (ok a) = true
succeeds (err e) = false

-- What the pair of flags comes to, as a formula.
ret-succeeds :
    (enable : Bool) (args : EnableDisableArgs) (found mutated : Bool)
    → succeeds (handle_enable_disable_ret enable args (ok (found, mutated)))
      ≡ ((found && mutated) || args.idempotent) && (found || not enable)
unfolding succeeds handle_enable_disable_ret
ret-succeeds true args true true = refl
ret-succeeds false args true true = refl
ret-succeeds true args true false = ground arith
ret-succeeds false args true false = ground arith
ret-succeeds true args false mutated = ground arith
ret-succeeds false args false mutated = ground arith

-- `enable` and `disable` of an endpoint, once the configuration was saved, on a file that can be read
-- and with no name twice: the command succeeds exactly if it changed something or was to be
-- idempotent, and the endpoint is configured or was to be disabled.
pub enable_disable-succeeds :
    (yaml : Yaml) (enable idempotent : Bool) (dns : String) (d : Disk)
    (existing : EbbflowDaemonConfig) (flags : Bool × Bool)
    → IsLawfulYaml yaml
    → load_from_file_or_new yaml d ≡ ok existing
    → HasDistinctNames existing.endpoints
    → d.config.read_error ≡ none
    → (set_endpoint_enabled yaml enable (some dns) d).1 ≡ ok flags
    → let args : EnableDisableArgs = record { target = endpoint dns; idempotent = idempotent } in
      succeeds (enable_disable yaml enable args d).1
      ≡ (differs enable dns existing.endpoints || idempotent)
        && (contains dns existing.endpoints || not enable)
unfolding enable_disable enabledisable
enable_disable-succeeds yaml enable idempotent dns d existing flags l loads distinct readable h =
    let args : EnableDisableArgs = record { target = endpoint dns; idempotent = idempotent } in
    let (saved, found, mutated) =
      set_endpoint_enabled-eq_ok yaml enable dns d existing flags l loads distinct readable h in
    ap (λ r. succeeds (handle_enable_disable_ret enable args r)) h
    ∙ ret-succeeds enable args flags.0 flags.1
    ∙ ground (arith, found, mutated, differs-absent enable dns existing.endpoints)

setup_ssh-refused :
    (yaml : Yaml) (args : SetupSshArgs) (d : Disk) (existing : EbbflowDaemonConfig) (old : Ssh)
    → load_from_file_or_new yaml d ≡ ok existing
    → existing.ssh ≡ some old
    → (setup_ssh yaml args d).1
      ≡ err (exits "SSH configuration already set up, please remove it and then recreate it")
unfolding setup_ssh
setup_ssh-refused yaml args d existing old loads h =
    ap (λ (p : Disk × Result CliError (Unit {0})). p.1) (with_existing-ok yaml d _ existing loads)
    ∙ rw h refl

pub setup_ssh-new :
    (yaml : Yaml) (args : SetupSshArgs) (d : Disk) (existing : EbbflowDaemonConfig)
    → load_from_file_or_new yaml d ≡ ok existing
    → existing.ssh ≡ none
    → setup_ssh yaml args d
      ≡ save_and_return yaml (record existing { ssh = some (new_ssh args) }) d tt
unfolding setup_ssh
setup_ssh-new yaml args d existing loads h = with_existing-ok yaml d _ existing loads ∙ simp h refl

new_ssh-maxidle : (args : SetupSshArgs) → (new_ssh args).maxidle ≤ 1000
unfolding new_ssh
new_ssh-maxidle args = omega arith

unset :
    (yaml : Yaml) (args : SetupSshArgs) (d : Disk) (existing : EbbflowDaemonConfig) (o : Option Ssh)
    → load_from_file_or_new yaml d ≡ ok existing
    → existing.ssh ≡ o
    → (setup_ssh yaml args d).1 ≡ ok tt
    → existing.ssh ≡ none
unset yaml args d existing none loads e h = e
unset yaml args d existing (some old) loads e h =
    cc (sym (setup_ssh-refused yaml args d existing old loads e) ∙ h)

-- `setup_ssh`, on a file that can be read, succeeds only if SSH is not configured, and then the
-- configuration that is loaded next has the SSH settings of the arguments, its idle connections at
-- most 1000, and is the old one otherwise.
pub setup_ssh-eq_ok :
    (yaml : Yaml) (args : SetupSshArgs) (d : Disk) (existing : EbbflowDaemonConfig)
    → IsLawfulYaml yaml
    → load_from_file_or_new yaml d ≡ ok existing
    → d.config.read_error ≡ none
    → (setup_ssh yaml args d).1 ≡ ok tt
    → (existing.ssh ≡ none)
      × (load_from_file yaml (setup_ssh yaml args d).0
          ≡ ok (record existing { ssh = some (new_ssh args) }))
      × ((new_ssh args).maxidle ≤ 1000)
setup_ssh-eq_ok yaml args d existing l loads readable h =
    let none_yet = unset yaml args d existing existing.ssh loads refl h in
    let e = setup_ssh-new yaml args d existing loads none_yet in
    (
      none_yet,
      rw e (save_and_return-eq_ok yaml _ d tt tt l readable (rw e at h)).0,
      new_ssh-maxidle args,
    )
