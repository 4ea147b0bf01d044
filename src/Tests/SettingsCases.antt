-- ===== src/Tests/SettingsCases.antt =====
-- The commands `enable`, `disable` and `setup-ssh` on a disk that can be written.
use ebbflow.Prelude.{
  ◌≡◌, refl, true, false, [], ◌∷◌, none, some, Option, List, ap, sym, String, ℕ_discrete,
}
use ebbflow.Prelude.Bytes.{Bytes}
use ebbflow.Config.{EbbflowDaemonConfig, Ssh, Endpoint}
use ebbflow.Config.Files.{Yaml, PossiblyEmptyEbbflowDaemonConfig, ebbflow_daemon_config, no_config}
use ebbflow.Config.SaveLoad.{IsLawfulYaml}
use ebbflow.Runner.{contains}
use ebbflow.Cli.Settings.{SetupSshArgs, EnableDisableArgs, endpoint, enable_disable}
use ebbflow.Cli.Enabling.{differs}
use ebbflow.Cli.Outcomes.{succeeds, enable_disable-succeeds}
use ebbflow.Tests.Fixtures.{String-discrete}
use ebbflow.Tests.CliCases.{
  yaml, yaml-IsLawfulYaml, disk_on, endpoint_on, with_endpoint, loads_on, disables,
}

abbrev target : EnableDisableArgs
target = record { target = endpoint "b.example"; idempotent = false }

enable_disable-succeeds_example : succeeds (enable_disable yaml false target disk_on).1 ≡ true
unfolding differs contains
enable_disable-succeeds_example =
    enable_disable-succeeds yaml false false "b.example" disk_on (with_endpoint endpoint_on)
      (true, true) yaml-IsLawfulYaml loads_on (refl, tt) refl disables

abbrev pub ssh_flags : SetupSshArgs
ssh_flags = record {
  port = none;
  hostname = none;
  maxconns = none;
  maxidle = some 5000;
  disabled = false;
}

-- What `setup-ssh` makes of these arguments, the one configuration that this codec knows.
abbrev ssh_on : Ssh
ssh_on = record {
  maxconns = 20;
  port = 22;
  enabled = true;
  maxidle = 1000;
  hostname_override = none;
}

abbrev pub ssh_config : EbbflowDaemonConfig
ssh_config = record no_config { ssh = some ssh_on }

pub Ssh-discrete : Discrete Ssh
Ssh-discrete = hlevel (String-discrete, ℕ_discrete)

unfoldable text_of : (s : Ssh) → Dec (s ≡ ssh_on) → Option Bytes
text_of s (yes e) = some (9 ∷ [])
text_of s (no e) = none

unfoldable pub encode : List Endpoint → Option Ssh → Option String → Option Bytes
unfolding text_of
encode [] (some s) none = text_of s (Ssh-discrete s ssh_on)
encode _ _ _ = none

abbrev pub ssh_yaml : Yaml
ssh_yaml = record {
  from_slice = λ b. some (ebbflow_daemon_config ssh_config);
  to_string = λ c. encode c.endpoints c.ssh c.loglevel;
}

known :
    (s : Ssh) (d : Dec (s ≡ ssh_on)) (b : Bytes)
    → text_of s d ≡ some b
    → ◌≡◌ {A = Option PossiblyEmptyEbbflowDaemonConfig}
        (some (ebbflow_daemon_config ssh_config))
        (some (ebbflow_daemon_config (record no_config { ssh = some s })))
unfolding text_of
known s (yes e) b h =
    ap (λ x. some (ebbflow_daemon_config (record no_config { ssh = some x }))) (sym e)
known s (no e) b h = cc h

encoded :
    (es : List Endpoint) (o : Option Ssh) (level : Option String) (b : Bytes)
    → encode es o level ≡ some b
    → ◌≡◌ {A = Option PossiblyEmptyEbbflowDaemonConfig}
        (some (ebbflow_daemon_config ssh_config))
        (some (ebbflow_daemon_config (record { endpoints = es; ssh = o; loglevel = level })))
unfolding encode
encoded [] (some s) none b h = known s (Ssh-discrete s ssh_on) b h
encoded [] none level b h = cc h
encoded [] (some s) (some t) b h = cc h
encoded (e ∷ es) o level b h = cc h

pub ssh_yaml-IsLawfulYaml : IsLawfulYaml ssh_yaml
ssh_yaml-IsLawfulYaml = record { reads_back = λ c b h. encoded c.endpoints c.ssh c.loglevel b h }

text_known : (d : Dec (ssh_on ≡ ssh_on)) → text_of ssh_on d ≡ some (9 ∷ [])
unfolding text_of
text_known (yes e) = refl
text_known (no e) = absurd (e refl)

pub writes_on : encode [] (some ssh_on) none ≡ some (9 ∷ [])
unfolding encode
writes_on = text_known (Ssh-discrete ssh_on ssh_on)
