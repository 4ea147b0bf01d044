-- ===== src/Tests/BlockingCases.antt =====
-- `run-blocking`, the subcommands together, and the log level.
use ebbflow.Prelude.{
  ◌≡◌, refl, sym, ap, ℕ, String, true, unwrap_or, List, [], ◌∷◌, Option, none, some, str_eq, eq_iff,
  Bool-cases, inl, inr, if◌then◌else◌,
}
use ebbflow.Prelude.Result.{ok}
use ebbflow.Prelude.Bytes.{Bytes}
use ebbflow.Config.{Endpoint, Ssh, EbbflowDaemonConfig}
use ebbflow.Config.Files.{
  Yaml, PossiblyEmptyEbbflowDaemonConfig, ebbflow_daemon_config, no_config, load_from_file_path,
  load_from_file, load_from_file_or_new, or_new, save_to_file, write, read, config_reload,
  key_or_none, getkey, from_io,
}
use ebbflow.Config.SaveLoad.{IsLawfulYaml}
use ebbflow.Cli.{save_and_return, with_existing, returned}
use ebbflow.Cli.Settings.{setloglevel}
use ebbflow.Cli.Blocking.{RunBlockingArgs, Machine}
use ebbflow.Cli.Blocking.Same.{config_of_args}
use ebbflow.Cli.Main.{World, initialize, main}
use ebbflow.Cli.Main.Writes.{IsAllowed, main-IsAllowed}
use ebbflow.Ebbflowd.{determine_log_level}
use ebbflow.Ebbflowd.Level.{determine_log_level-setloglevel}
use ebbflow.Tests.Fixtures.{sample_host}
use ebbflow.Tests.CliCases.{yaml, disk}
use ebbflow.Tests.InitCases.{env}
use ebbflow.Tests.ServerCases.{client, json}

abbrev same : String → String
same s = s

abbrev flags : RunBlockingArgs
flags = record {
  config_file = none;
  dns = some "a.example";
  port = some 80;
  maxconns = none;
  maxidle = some 2000;
  ebbflow_dns = none;
  ebbflow_addr = none;
  healthcheck_port = some 81;
  healthcheck_consider_healthy = none;
  healthcheck_consider_unhealthy = none;
  healthcheck_frequency_secs = none;
}

abbrev machine : Machine
machine = record {
  host = sample_host;
  resolver = λ s. ok tt;
  parse = λ s. none;
  file_at = λ path. record { content = some (1 ∷ []); read_error = none; write_error = none };
  debug = λ e. "error";
  trim = same;
  ebb_key = some "k";
}

-- Every file says what the flags say.
abbrev flags_yaml : Yaml
flags_yaml = record {
  from_slice = λ b. some (ebbflow_daemon_config (config_of_args flags "a.example" 80));
  to_string = λ c. none;
}

abbrev world : World (Unit {0})
world = record {
  yaml = yaml;
  env = env;
  ebb_key = some "k";
  input = [];
  machine = machine;
  client = client;
  json = json;
  format = record { pad = λ n s. s; len = λ s. 0; decimal = λ n. "n" };
  now = "now";
}

main-IsAllowed_example : IsAllowed (initialize true) disk (main world (initialize true) disk).0
main-IsAllowed_example = main-IsAllowed world (initialize true) disk

-- The text of one configuration is known.
abbrev with_level : String → EbbflowDaemonConfig
with_level l = record no_config { loglevel = some l }

unfoldable encode : List Endpoint → Option Ssh → Option String → Option Bytes
encode [] none (some l) = if str_eq l "debug" then some (1 ∷ []) else none
encode _ _ _ = none

abbrev level_yaml : Yaml
level_yaml = record {
  from_slice = λ b. some (ebbflow_daemon_config (with_level "debug"));
  to_string = λ c. encode c.endpoints c.ssh c.loglevel;
}

known :
    (es : List Endpoint) (s : Option Ssh) (l : Option String) (b : Bytes)
    → encode es s l ≡ some b
    → ◌≡◌ {A = Option PossiblyEmptyEbbflowDaemonConfig}
        (some (ebbflow_daemon_config (with_level "debug")))
        (some (ebbflow_daemon_config (record { endpoints = es; ssh = s; loglevel = l })))
unfolding encode
known [] none (some l) b h = elim (Bool-cases (str_eq l "debug")) [
  | inl debug ↦
      ap (λ x. some (ebbflow_daemon_config (with_level x))) (sym ((eq_iff l "debug").0 debug))
  | inr not_debug ↦ cc (rw (not_debug, encode) at h)
]
known [] none none b h = cc h
known [] (some s) l b h = cc h
known (e ∷ es) s l b h = cc h

level_yaml-IsLawfulYaml : IsLawfulYaml level_yaml
level_yaml-IsLawfulYaml = record { reads_back = λ c b h. known c.endpoints c.ssh c.loglevel b h }

loads_no_config : load_from_file_or_new level_yaml disk ≡ ok no_config
unfolding load_from_file_or_new load_from_file load_from_file_path or_new read from_io
loads_no_config = refl

no_key_yet : key_or_none (getkey same disk) ≡ ok none
unfolding key_or_none getkey read from_io
no_key_yet = refl

sets_level : (setloglevel level_yaml (some "debug") disk).1 ≡ ok tt
unfolding setloglevel with_existing load_from_file_or_new load_from_file load_from_file_path or_new
    read from_io save_and_return save_to_file write encode returned
sets_level = refl

-- The levels are numbers here.
abbrev from_str : String → Option ℕ
from_str s = if str_eq s "debug" then some 4 else none

determine_log_level-setloglevel_example :
    determine_log_level from_str 2 none
      (config_reload level_yaml same (setloglevel level_yaml (some "debug") disk).0)
    ≡ unwrap_or (from_str "debug") 2
determine_log_level-setloglevel_example =
    determine_log_level-setloglevel level_yaml same from_str 2 (some "debug") disk no_config none
      level_yaml-IsLawfulYaml loads_no_config refl no_key_yet sets_level
