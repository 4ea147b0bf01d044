-- ===== src/Runner.antt =====
-- src/lib.rs: the daemon's runner, which reconciles what runs with a new configuration. The key of
-- `SharedInfo` and the endpoints' tasks, which the source shares by `Arc`, are fields here. The
-- mutex of `DaemonRunner` makes each call atomic.
pub mod Status
pub mod Tasks
pub mod Inv
pub mod Reachable
pub mod Reconcile
pub mod Keeps
pub mod Idempotent
pub mod Wanted
pub mod Refines
pub mod Listed
pub mod Pools
pub mod Bounded
use Prim.Native.String.{◌++◌ as str_append}
use ebbflow.Prelude.{
  ℕ, String, Bool, true, false, ◌||◌, List, [], ◌∷◌, Option, none, some, min, str_eq, map, is_some,
  unwrap_or, if◌then◌else◌,
}
use ebbflow.Prelude.Map.{HashMap, lookup, insert}
use ebbflow.Config.{
  Endpoint, EbbflowDaemonConfig, Ssh, SshConfiguration, endpoint_eq, ssh_configuration_eq,
}
use ebbflow.MessageQueue
use ebbflow.MessageQueue.{add_message, get_messages}
use ebbflow.Daemon.{World, Host, HealthOverall, spawn_endpoint, health}
use ebbflow.Daemon.Heap.{EndpointArgs, EndpointMeta, Spawned, MetaHeap, stop}
use ebbflow.Daemon.Heap

pub data DaemonStatusMeta : Type 0 where
  uninitialized good : DaemonStatusMeta

-- An enabled instance holds the address of its task.
pub data EnabledDisabled : Type 0 where
  enabled : ℕ → EnabledDisabled
  disabled : EnabledDisabled

pub record EndpointInstance : Type 0 where
  pub enabledisable : EnabledDisabled
  pub existing_config : Endpoint

pub record SshInstance : Type 0 where
  pub existing_config : SshConfiguration
  pub enabledisable : EnabledDisabled

pub record InnerDaemonRunner : Type 0 where
  pub endpoints : HashMap EndpointInstance
  pub statusmeta : DaemonStatusMeta
  pub ssh : Option SshInstance
  pub key : Option String
  pub world : World

unfoldable pub new : InnerDaemonRunner
unfolding MessageQueue.new
new = record {
  endpoints = [];
  statusmeta = uninitialized;
  ssh = none;
  key = none;
  world = record { metas = Heap.empty; message_queue = MessageQueue.new };
}

abbrev pub max_max_idle : ℕ
max_max_idle = 1000

-- `spawn_endpointasdfsfa`: the arguments of an endpoint's task
unfoldable pub endpoint_args : Endpoint → EndpointArgs
endpoint_args e = record {
  ctype = Heap.tls;
  idleconns = min e.maxidle max_max_idle;
  maxconns = e.maxconns;
  endpoint = e.dns;
  port = e.port;
  healthcheck = e.healthcheck;
}

-- The arguments of the SSH proxy's task.
unfoldable pub ssh_args : SshConfiguration → EndpointArgs
ssh_args c = record {
  ctype = Heap.ssh;
  idleconns = c.maxidle;
  maxconns = c.max;
  endpoint = c.hostname;
  port = c.port;
  healthcheck = none;
}

-- `EnabledDisabled::stop`, as far as the task is concerned; the instance becomes disabled.
unfoldable pub stop_task : EnabledDisabled → World → World
stop_task (enabled id) w = record w { metas = stop id w.metas }
stop_task disabled w = w

-- A task is started only for what is enabled.
unfoldable pub start_task : Host → Bool → EndpointArgs → World → World × EnabledDisabled
start_task host true args w = let (w', id) = spawn_endpoint host args w in (w', enabled id)
start_task host false args w = (w, disabled)

unfoldable pub contains : String → List Endpoint → Bool
contains dns [] = false
contains dns (e ∷ es) = str_eq e.dns dns || contains dns es

-- `self.endpoints.retain`: what the configuration no longer names is stopped and dropped.
unfoldable pub retain_endpoints :
    List Endpoint → HashMap EndpointInstance → World → HashMap EndpointInstance × World
retain_endpoints es [] w = ([], w)
retain_endpoints es ((dns, inst) ∷ rest) w =
    let (rest', w') =
      retain_endpoints es rest (if contains dns es then w else stop_task inst.enabledisable w) in
    (if contains dns es then (dns, inst) ∷ rest' else rest', w')

unfoldable pub start_endpoint :
    Host → Endpoint → HashMap EndpointInstance → World → HashMap EndpointInstance × World
unfolding start_task
start_endpoint host e m w =
    let (w', ed) = start_task host e.enabled (endpoint_args e) w in
    (insert e.dns (record { enabledisable = ed; existing_config = e }) m, w')

-- One round of the loop over the new configuration's endpoints.
unfoldable pub apply_entry :
    Host
    → Endpoint
    → Option EndpointInstance
    → HashMap EndpointInstance
    → World
    → HashMap EndpointInstance × World
unfolding start_endpoint
apply_entry host e none m w = start_endpoint host e m w
apply_entry host e (some current) m w =
    if endpoint_eq current.existing_config e
    then (m, w)
    else start_endpoint host e m (stop_task current.enabledisable w)

unfoldable pub apply_endpoints :
    Host → List Endpoint → HashMap EndpointInstance → World → HashMap EndpointInstance × World
unfolding apply_entry
apply_endpoints host [] m w = (m, w)
apply_endpoints host (e ∷ es) m w =
    let (m', w') = apply_entry host e (lookup e.dns m) m w in apply_endpoints host es m' w'

unfoldable pub ssh_configuration : Host → Ssh → SshConfiguration
ssh_configuration host s = record {
  port = s.port;
  max = s.maxconns;
  hostname = unwrap_or s.hostname_override host.hostname;
  enabled = s.enabled;
  maxidle = s.maxidle;
}

unfoldable pub start_ssh : Host → SshConfiguration → World → Option SshInstance × World
unfolding start_task
start_ssh host c w =
    let (w', ed) = start_task host c.enabled (ssh_args c) w in
    (some (record { existing_config = c; enabledisable = ed }), w')

-- The last `match` of `update_config`.
unfoldable pub apply_ssh :
    Host → Option SshConfiguration → Option SshInstance → World → Option SshInstance × World
unfolding start_ssh
apply_ssh host (some c) none w = start_ssh host c w
apply_ssh host (some c) (some old) w =
    if ssh_configuration_eq c old.existing_config
    then (some old, w)
    else start_ssh host c (stop_task old.enabledisable w)
apply_ssh host none (some old) w = (none, stop_task old.enabledisable w)
apply_ssh host none none w = (none, w)

unfoldable pub submit_error_message : Host → String → InnerDaemonRunner → InnerDaemonRunner
submit_error_message host m r = record r {
  world = record r.world { message_queue = add_message host.now m r.world.message_queue };
}

bool_text : Bool → String
bool_text true = "true"
bool_text false = "false"

unfoldable pub ssh_of : Host → Option Ssh → Option SshConfiguration
unfolding ssh_configuration
ssh_of host none = none
ssh_of host (some s) = some (ssh_configuration host s)

-- `update_config` once a key and a configuration are there.
unfoldable pub apply_config : Host → EbbflowDaemonConfig → InnerDaemonRunner → InnerDaemonRunner
unfolding ssh_of
apply_config host config r =
    let (m1, w1) = retain_endpoints config.endpoints r.endpoints r.world in
    let (m2, w2) = apply_endpoints host config.endpoints m1 w1 in
    let (ssh', w3) = apply_ssh host (ssh_of host config.ssh) r.ssh w2 in
    record r { endpoints = m2; ssh = ssh'; world = w3 }

unfoldable pub with_config :
    Host → Option EbbflowDaemonConfig → InnerDaemonRunner → InnerDaemonRunner
unfolding apply_config
with_config host none r = r
with_config host (some config) r = apply_config host config r

-- `SharedInfo::update_key`, when a key was read.
unfoldable pub update_key : Option String → InnerDaemonRunner → InnerDaemonRunner
update_key none r = r
update_key (some k) r = record r { key = some k }

-- `update_config` after the key, which is looked at again.
unfoldable pub update_keyed :
    Host → Option EbbflowDaemonConfig → Option String → InnerDaemonRunner → InnerDaemonRunner
unfolding submit_error_message with_config bool_text
update_keyed host config none r =
    submit_error_message host
      (str_append "INFO: Key not set, doing nothing (cfg present "
        (str_append (bool_text (is_some config)) ")"))
      (record r { statusmeta = uninitialized })
update_keyed host config (some k) r = with_config host config (record r { statusmeta = good })

unfoldable pub update_config :
    Host → Option EbbflowDaemonConfig → Option String → InnerDaemonRunner → InnerDaemonRunner
unfolding update_key update_keyed
update_config host config key r = let r' = update_key key r in update_keyed host config r'.key r'
