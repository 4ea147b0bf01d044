-- ===== src/Served.antt =====
-- The client of src/ebbflow.rs and the daemon of src/ebbflowd.rs and src/lib.rs together: what a
-- subcommand that ended well makes the daemon serve.
pub mod Removed
pub mod Switched
pub mod SshSetup
use ebbflow.Prelude.{min, unwrap_or, Option, ◌≡◌, refl, ap, ◌∙◌, String, false, none, some}
use ebbflow.Prelude.Result.{ok}
use ebbflow.Prelude.Map.{lookup}
use ebbflow.Config.{HealthCheck, tcp, EbbflowDaemonConfig}
use ebbflow.Config.Files.{
  ConfigError, Yaml, Disk, load_from_file, getkey, config_or_none, key_or_none, config_reload,
}
use ebbflow.Daemon.Heap
use ebbflow.Daemon.Heap.{EndpointArgs}
use ebbflow.Runner.Reconcile.{last_config}
use ebbflow.Daemon.{Host}
use ebbflow.Runner.{ssh_of}
use ebbflow.Runner.Wanted.{serving, asked, ssh_serving, ssh_asked}
use ebbflow.Reload.{Daemon, waiting, begin, Reach}
use ebbflow.Reload.Reflects.{pending, Reach-served}
use ebbflow.Cli.{AddEndpointArgs}

same_key : (trim : String → String) (d d' : Disk) → d'.key ≡ d.key → getkey trim d' ≡ getkey trim d
unfolding getkey
same_key trim d d' e = rw e refl

-- What is served when the files are as an edit of the configuration left them, the key's file being
-- untouched.
pub Reach-saved :
    (yaml : Yaml) (trim : String → String) (debug : ConfigError → String) (d0 d d' : Disk)
    {s : Daemon} (key : String) (config : EbbflowDaemonConfig)
    → load_from_file yaml d' ≡ ok config
    → d'.key ≡ d.key
    → key_or_none (getkey trim d) ≡ ok (some key)
    → Reach yaml trim debug (begin d0) s
    → s.phase ≡ waiting
    → pending s ≡ false
    → s.disk ≡ d'
    → ((dns : String)
        → serving s.runner.world.metas (lookup dns s.runner.endpoints)
          ≡ asked (last_config dns config.endpoints))
      × ((host : Host) × (ssh_serving s.runner.world.metas s.runner.ssh
            ≡ ssh_asked (ssh_of host config.ssh)))
unfolding config_reload config_or_none
Reach-saved yaml trim debug d0 d d' key config loaded kept has_key reach waits quiet same =
    let files : config_reload yaml trim d' ≡ ok (some config, some key) =
      rw loaded (rw (same_key trim d d' kept) (rw has_key refl)) in
    Reach-served yaml trim debug d0 reach waits quiet (ap (config_reload yaml trim) same ∙ files)

-- The check that the options of the subcommand describe: a connection is tried on their port.
abbrev pub asked_check : AddEndpointArgs → Option HealthCheck
asked_check args = elim args.healthcheck_port [
  | none ↦ none
  | some port ↦ some (record {
    port = some port;
    consider_healthy_threshold = args.healthcheck_consider_healthy;
    consider_unhealthy_threshold = args.healthcheck_consider_unhealthy;
    type = tcp;
    frequency_secs = args.healthcheck_frequency_secs;
  })
]

-- The arguments of the endpoint's task, from those of the subcommand: 5000 connections and 40 idle
-- ones where they do not say otherwise, and at most 1000 idle ones.
abbrev pub endpoint_task : AddEndpointArgs → EndpointArgs
endpoint_task args = record {
  ctype = Heap.tls;
  idleconns = min (unwrap_or args.maxidle 40) 1000;
  maxconns = unwrap_or args.maxconns 5000;
  endpoint = args.dns;
  port = args.port;
  healthcheck = asked_check args;
}
