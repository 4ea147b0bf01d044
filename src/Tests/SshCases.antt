-- ===== src/Tests/SshCases.antt =====
-- SSH is set up, and the daemon that reads the files runs the proxy.
use ebbflow.Prelude.{◌≡◌, refl, sym, ap, ◌∙◌, String, false, [], ◌∷◌, some}
use ebbflow.Prelude.Result.{Result, ok}
use ebbflow.Prelude.Map.{lookup}
use ebbflow.Config.Files.{
  Disk, no_config, load_from_file_or_new, load_from_file, load_from_file_path, or_new, read, parsed,
  from_io, getkey, key_or_none, config_or_none, save_to_file, write,
}
use ebbflow.Daemon.{Host}
use ebbflow.Runner.Reconcile.{last_config}
use ebbflow.Runner.Wanted.{serving, asked, ssh_serving}
use ebbflow.Cli.{CliError, save_and_return, returned}
use ebbflow.Cli.Settings.{new_ssh, setup_ssh}
use ebbflow.Cli.Outcomes.{setup_ssh-new}
use ebbflow.Reload.{
  Daemon, waiting, begin, advance, after_config, after_key, applied, Reach, here, next, internal,
  loop,
}
use ebbflow.Reload.Reflects.{pending, any_mutation}
use ebbflow.Served.SshSetup.{ssh_task, Reach-setup_ssh}
use ebbflow.Tests.Fixtures.{sample_host}
use ebbflow.Tests.CliCases.{trim, disk}
use ebbflow.Tests.ReloadCases.{debug}
use ebbflow.Tests.SettingsCases.{ssh_yaml, ssh_yaml-IsLawfulYaml, ssh_flags, ssh_config, writes_on}

abbrev before : Disk
before = record disk { key = record disk.key { content = some " k " } }

abbrev after : Disk
after = record before { config = record before.config { content = some (9 ∷ []) } }

loads : load_from_file_or_new ssh_yaml before ≡ ok no_config
unfolding load_from_file_or_new load_from_file load_from_file_path or_new read from_io
loads = refl

has_key : key_or_none (getkey trim before) ≡ ok (some "k")
unfolding key_or_none getkey read trim
has_key = refl

saves : save_and_return ssh_yaml ssh_config before tt ≡ (after, ok tt)
unfolding save_and_return save_to_file write returned
saves = rw (writes_on, save_and_return, save_to_file) refl

sets_up : setup_ssh ssh_yaml ssh_flags before ≡ (after, ok tt)
unfolding new_ssh
sets_up = setup_ssh-new ssh_yaml ssh_flags before no_config loads refl ∙ saves

abbrev step : Daemon → Daemon
step s = advance ssh_yaml trim debug sample_host s

abbrev booted : Daemon
booted = step (step (step (begin after)))

boots : Reach ssh_yaml trim debug (begin after) booted
unfolding begin advance after_config after_key config_or_none load_from_file load_from_file_path
    read parsed key_or_none getkey trim
boots =
    next
      (next (next here (internal (loop sample_host (λ w. cc w))))
        (internal (loop sample_host (λ w. cc w))))
      (internal (loop sample_host (λ w. cc w)))

rests : (booted.phase ≡ waiting) × (pending booted ≡ false) × (booted.disk ≡ after)
unfolding begin advance pending any_mutation after_config after_key config_or_none load_from_file
    load_from_file_path read parsed key_or_none getkey trim applied
rests = (refl, refl, refl)

Reach-setup_ssh_example :
    ((dns : String)
      → serving booted.runner.world.metas (lookup dns booted.runner.endpoints)
        ≡ asked (last_config dns []))
    × ((host : Host) × (ssh_serving booted.runner.world.metas booted.runner.ssh
          ≡ some (ssh_task host ssh_flags)))
Reach-setup_ssh_example =
    Reach-setup_ssh ssh_yaml trim debug ssh_flags before after no_config "k" ssh_yaml-IsLawfulYaml
      loads refl has_key (ap (λ (p : Disk × Result CliError (Unit {0})). p.1) sets_up) boots rests.0
      rests.1 (rests.2 ∙ ap (λ (p : Disk × Result CliError (Unit {0})). p.0) (sym sets_up))
