-- ===== src/Cli/Blocking.antt =====
-- `run_blocking` of src/ebbflow.rs: the proxy without the daemon, for one endpoint given by flags or
-- for the endpoints of a configuration file.
pub mod Same
use Prim.Native.String.{◌++◌ as str_append}
use ebbflow.Prelude.{ℕ, String, Bool, List, [], ◌∷◌, Option, none, some, unwrap_or}
use ebbflow.Prelude.Result.{Result, ok, err}
use ebbflow.Prelude.Bytes.{Bytes}
use ebbflow.Config.{HealthCheck, tcp, EbbflowDaemonConfig}
use ebbflow.Config.Files.{ConfigError, Yaml, File, Disk, load_from_file_path, getkey}
use ebbflow.MessageQueue
use ebbflow.Daemon.{World, Host, spawn_endpoint}
use ebbflow.Daemon.Heap.{EndpointArgs}
use ebbflow.Daemon.Heap
use ebbflow.Dns.{ResolverSettings}
use ebbflow.Daemon.Shared.{SocketAddrV4, SharedInfo, new_with_ebbflow_overrides, update_key}
use ebbflow.Daemon.Shared
use ebbflow.Runner.{InnerDaemonRunner, update_config}
use ebbflow.Runner
use ebbflow.Cli.{CliError, config_error, other, exits}

pub record RunBlockingArgs : Type 0 where
  pub config_file : Option String
  pub dns : Option String
  pub port : Option ℕ
  pub maxconns : Option ℕ
  pub maxidle : Option ℕ
  pub ebbflow_dns : Option String
  pub ebbflow_addr : Option String
  pub healthcheck_port : Option ℕ
  pub healthcheck_consider_healthy : Option ℕ
  pub healthcheck_consider_unhealthy : Option ℕ
  pub healthcheck_frequency_secs : Option ℕ

-- What the command finds: the host, whether the resolver can be made, `parse` of an address, the
-- files by their paths, the derived text of an error, `trim`, and `EBB_KEY`.
pub record Machine : Type 0 where
  pub host : Host
  pub resolver : ResolverSettings → Result String (Unit {0})
  pub parse : String → Option SocketAddrV4
  pub file_at : String → File Bytes
  pub debug : ConfigError → String
  pub trim : String → String
  pub ebb_key : Option String

-- The command ends with an error or a panic, or runs what it started for ever.
pub data Blocked : Type 0 where
  fails : CliError → Blocked
  panics : String → Blocked
  runs : SharedInfo → World → Blocked

abbrev not_created : CliError
not_created = other "Unable to create data necessary for "

unfoldable pub with_info : Result (Unit {0}) SharedInfo → (SharedInfo → Blocked) → Blocked
with_info (ok info) k = k info
with_info (err u) k = fails not_created

-- Both overrides are needed.
unfoldable pub shared_info :
    Machine → Option String → Option String → (SharedInfo → Blocked) → Blocked
unfolding with_info
shared_info m (some addr) (some dns) k = elim (m.parse addr) [
  | none ↦ panics "Could not parse the ebbflow addr as ipv4"
  | some a ↦ with_info (new_with_ebbflow_overrides m.resolver a dns) k
]
shared_info m _ _ k = with_info (Shared.new m.resolver) k

unfoldable pub blocking_key : Machine → Disk → Result ConfigError String
blocking_key m d = elim m.ebb_key [ some k ↦ ok (m.trim k) | none ↦ getkey m.trim d ]

unfoldable pub blocking_healthcheck : RunBlockingArgs → Option HealthCheck
blocking_healthcheck args = elim args.healthcheck_port [
  | none ↦ none
  | some p ↦ some (record {
    port = some p;
    consider_healthy_threshold = args.healthcheck_consider_healthy;
    consider_unhealthy_threshold = args.healthcheck_consider_unhealthy;
    type = tcp;
    frequency_secs = args.healthcheck_frequency_secs;
  })
]

abbrev no_argument : String
no_argument = "logic error, please report bug to support@ebbflow.io"

-- The branch of the flags.
unfoldable pub run_endpoint :
    Machine → RunBlockingArgs → Option String → Option ℕ → String → SharedInfo → Blocked
unfolding blocking_healthcheck MessageQueue.new
run_endpoint m args (some dns) (some port) key info =
    let (w, id) =
      spawn_endpoint m.host
        (record {
          ctype = Heap.tls;
          idleconns = unwrap_or args.maxidle 10;
          maxconns = unwrap_or args.maxconns 5000;
          endpoint = dns;
          port = port;
          healthcheck = blocking_healthcheck args;
        })
        (record { metas = Heap.empty; message_queue = MessageQueue.new }) in
    runs (update_key key info) w
run_endpoint m args _ _ key info = panics no_argument

-- The branch of the configuration file; the key is shared with the runner.
unfoldable pub run_config :
    Machine → String → String → SharedInfo → Result ConfigError EbbflowDaemonConfig → Blocked
run_config m path key info (err e) = fails (
    exits (
      str_append "Error loading the config file you provided, path "
        (str_append path (str_append " error: " (m.debug e)))))
run_config m path key info (ok cfg) =
    let r = update_config m.host (some cfg) (some key) Runner.new in
    runs (record info { key = r.key }) r.world

unfoldable pub with_key :
    Machine → Yaml → RunBlockingArgs → SharedInfo → Result ConfigError String → Blocked
unfolding run_endpoint run_config
with_key m yaml args info (err e) = fails (config_error e)
with_key m yaml args info (ok key) = elim args.config_file [
  | some cfgfile ↦
      let path = m.trim cfgfile in
      run_config m path key info (load_from_file_path yaml (m.file_at path))
  | none ↦ run_endpoint m args args.dns args.port key info
]

unfoldable pub run_blocking : Machine → Yaml → RunBlockingArgs → Disk → Blocked
unfolding shared_info blocking_key with_key
run_blocking m yaml args d =
    shared_info m args.ebbflow_addr args.ebbflow_dns
      (λ info. with_key m yaml args info (blocking_key m d))
