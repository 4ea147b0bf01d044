-- ===== src/Served/SshSetup.antt =====
-- What `setup_ssh` makes the daemon serve.
use ebbflow.Prelude.{
  min, ◌≡◌, refl, ◌∙◌, String, false, none, some, unwrap_or, Bool-cases, inl, inr, if◌then◌else◌,
}
use ebbflow.Prelude.Result.{ok}
use ebbflow.Prelude.Map.{lookup}
use ebbflow.Config.{EbbflowDaemonConfig}
use ebbflow.Config.Files.{ConfigError, Yaml, Disk, load_from_file_or_new, getkey, key_or_none}
use ebbflow.Config.SaveLoad.{IsLawfulYaml}
use ebbflow.Daemon.{Host, cap_idle}
use ebbflow.Daemon.Heap
use ebbflow.Daemon.Heap.{EndpointArgs}
use ebbflow.Runner.{ssh_of, ssh_configuration, ssh_args}
use ebbflow.Runner.Reconcile.{last_config}
use ebbflow.Runner.Wanted.{serving, asked, ssh_serving, ssh_asked}
use ebbflow.Reload.{Daemon, waiting, begin, Reach}
use ebbflow.Reload.Reflects.{pending}
use ebbflow.Cli.Settings.{SetupSshArgs, new_ssh, setup_ssh}
use ebbflow.Cli.Outcomes.{setup_ssh-eq_ok}
use ebbflow.Cli.Main.Writes.{setup_ssh-Keeps}
use ebbflow.Served.{Reach-saved}

-- The arguments of the SSH proxy's task, from those of the subcommand: the name of the host, 20
-- connections and 3 idle ones, and port 22, where they do not say otherwise.
abbrev pub ssh_task : Host → SetupSshArgs → EndpointArgs
ssh_task host args = record {
  ctype = Heap.ssh;
  idleconns = min (min (unwrap_or args.maxidle 3) 1000) 1000;
  maxconns = unwrap_or args.maxconns 20;
  endpoint = unwrap_or args.hostname host.hostname;
  port = unwrap_or args.port 22;
  healthcheck = none;
}

asked_ssh :
    (host : Host) (args : SetupSshArgs)
    → ssh_asked (ssh_of host (some (new_ssh args)))
      ≡ (if args.disabled then none else some (ssh_task host args))
unfolding ssh_asked ssh_of ssh_configuration ssh_args new_ssh cap_idle
asked_ssh host args = elim (Bool-cases args.disabled) [
  | inl off ↦ rw off refl
  | inr on ↦ rw on refl
]

-- When `setup_ssh` ended well, on a file that can be read, with a key in its file and with a serde_yaml
-- that reads back what it wrote, then in every interleaving of the daemon's loop, its watcher and
-- those who write the files, when the loop waits with nothing on its way and the files are as the
-- subcommand left them, the SSH proxy runs with the arguments of the subcommand, under some name of
-- the host where they give none, or not at all if it was to be disabled, and every endpoint is served
-- as the configuration asked before.
pub Reach-setup_ssh :
    (yaml : Yaml) (trim : String → String) (debug : ConfigError → String) (args : SetupSshArgs)
    (d d0 : Disk) (existing : EbbflowDaemonConfig) {s : Daemon} (key : String)
    → IsLawfulYaml yaml
    → load_from_file_or_new yaml d ≡ ok existing
    → d.config.read_error ≡ none
    → key_or_none (getkey trim d) ≡ ok (some key)
    → (setup_ssh yaml args d).1 ≡ ok tt
    → Reach yaml trim debug (begin d0) s
    → s.phase ≡ waiting
    → pending s ≡ false
    → s.disk ≡ (setup_ssh yaml args d).0
    → ((dns : String)
        → serving s.runner.world.metas (lookup dns s.runner.endpoints)
          ≡ asked (last_config dns existing.endpoints))
      × ((host : Host) × (ssh_serving s.runner.world.metas s.runner.ssh
            ≡ (if args.disabled then none else some (ssh_task host args))))
Reach-setup_ssh yaml trim debug args d d0 existing key l loads readable has_key h reach waits quiet
      same =
    let (names, proxy) =
      Reach-saved yaml trim debug d0 d (setup_ssh yaml args d).0 key _
        ((setup_ssh-eq_ok yaml args d existing l loads readable h).1)
        ((setup_ssh-Keeps yaml args d).0) has_key reach waits quiet same in
    (names, (proxy.0, proxy.1 ∙ asked_ssh proxy.0 args))
