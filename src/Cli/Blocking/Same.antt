-- ===== src/Cli/Blocking/Same.antt =====
-- `run-blocking` of src/ebbflow.rs with flags and with a configuration file.
use ebbflow.Prelude.{ℕ, String, true, [], ◌∷◌, none, unwrap_or}
use ebbflow.Prelude.Result.{Result}
use ebbflow.Config.{EbbflowDaemonConfig}
use ebbflow.Daemon.Shared
use ebbflow.Runner
use ebbflow.Cli.Blocking.{RunBlockingArgs, blocking_healthcheck}

-- The configuration that says what the flags say.
abbrev pub config_of_args : RunBlockingArgs → String → ℕ → EbbflowDaemonConfig
config_of_args args dns port = record {
  endpoints =
      record {
        port = port;
        dns = dns;
        maxconns = unwrap_or args.maxconns 5000;
        maxidle = unwrap_or args.maxidle 10;
        enabled = true;
        healthcheck = blocking_healthcheck args;
      }
      ∷ [];
  ssh = none;
  loglevel = none;
}
