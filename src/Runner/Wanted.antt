-- ===== src/Runner/Wanted.antt =====
-- An abstract view of the runner: what is wanted is a key and, for each name, the arguments of a task
-- or none. A new configuration replaces all that is wanted.
use ebbflow.Prelude.{String, List, [], ◌∷◌, Option, none, some, ◌==◌, if◌then◌else◌}
use ebbflow.Config.{Endpoint, EbbflowDaemonConfig, SshConfiguration}
use ebbflow.Daemon.{Host, cap_idle}
use ebbflow.Daemon.Heap.{EndpointArgs, MetaHeap, running, args_at}
use ebbflow.Runner.{
  EnabledDisabled, enabled, disabled, EndpointInstance, SshInstance, endpoint_args, ssh_args,
  ssh_of,
}
use ebbflow.Runner.Reachable.{Call, updates, fails}
use ebbflow.Runner.Reconcile.{last_config}

-- The arguments of the task that an instance runs, if its task runs.
unfoldable pub served : MetaHeap → EnabledDisabled → Option EndpointArgs
served h disabled = none
served h (enabled id) = if running h id == 1 then args_at h id else none

unfoldable pub serving : MetaHeap → Option EndpointInstance → Option EndpointArgs
unfolding served
serving h none = none
serving h (some inst) = served h inst.enabledisable

unfoldable pub ssh_serving : MetaHeap → Option SshInstance → Option EndpointArgs
unfolding served
ssh_serving h none = none
ssh_serving h (some inst) = served h inst.enabledisable

-- What an entry of a configuration asks for.
unfoldable pub asked : Option Endpoint → Option EndpointArgs
asked none = none
asked (some e) = if e.enabled then some (cap_idle (endpoint_args e)) else none

unfoldable pub ssh_asked : Option SshConfiguration → Option EndpointArgs
ssh_asked none = none
ssh_asked (some c) = if c.enabled then some (cap_idle (ssh_args c)) else none

-- The abstract runner.
pub record Wanted : Type 0 where
  pub key : Option String
  pub tasks : String → Option EndpointArgs
  pub ssh : Option EndpointArgs

abbrev pub nothing : Wanted
nothing = record { key = none; tasks = λ dns. none; ssh = none }

unfoldable pub take_config : Host → Option EbbflowDaemonConfig → Wanted → Wanted
unfolding asked ssh_asked
take_config host none w = w
take_config host (some config) w = record w {
  tasks = λ dns. asked (last_config dns config.endpoints);
  ssh = ssh_asked (ssh_of host config.ssh);
}

-- A key that was read replaces the old one; without a key nothing changes.
unfoldable pub take_call : Call → Wanted → Wanted
unfolding take_config
take_call (updates host config (some k)) w = take_config host config (record w { key = some k })
take_call (updates host config none) w = elim w.key [
  | none ↦ w
  | some k ↦ take_config host config w
]
take_call (fails host m) w = w

unfoldable pub take_calls : List Call → Wanted → Wanted
unfolding take_call
take_calls [] w = w
take_calls (c ∷ cs) w = take_calls cs (take_call c w)
