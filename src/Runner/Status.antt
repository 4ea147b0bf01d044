-- ===== src/Runner/Status.antt =====
-- `InnerDaemonRunner::status` of src/lib.rs: what the runner shows of itself.
use ebbflow.Prelude.{ℕ, String, List, Option, none, some, map}
use ebbflow.MessageQueue.{get_messages}
use ebbflow.Daemon.{World, HealthOverall, health}
use ebbflow.Runner.{
  DaemonStatusMeta, EnabledDisabled, enabled, disabled, EndpointInstance, SshInstance,
  InnerDaemonRunner,
}

pub data DaemonEndpointStatus : Type 0 where
  disabled_status : DaemonEndpointStatus
  enabled_status : ℕ → ℕ → Option HealthOverall → DaemonEndpointStatus

pub record DaemonStatus : Type 0 where
  pub meta : DaemonStatusMeta
  pub endpoints : List (String × DaemonEndpointStatus)
  pub ssh : Option (String × DaemonEndpointStatus)
  pub messages : List (String × String)

-- `DaemonEndpointStatus::from_ref`. A dangling address does not occur (Runner/Inv).
unfoldable pub from_ref : World → EnabledDisabled → DaemonEndpointStatus
unfolding health
from_ref w disabled = disabled_status
from_ref w (enabled id) = elim (w.metas.cell id) [
  | none ↦ disabled_status
  | some s ↦ enabled_status s.meta.active s.meta.idle (some (health s.meta))
]

unfoldable pub ssh_status : World → Option SshInstance → Option (String × DaemonEndpointStatus)
unfolding from_ref
ssh_status w none = none
ssh_status w (some i) = some (i.existing_config.hostname, from_ref w i.enabledisable)

unfoldable pub status : InnerDaemonRunner → DaemonStatus
unfolding from_ref ssh_status get_messages
status r = record {
  meta = r.statusmeta;
  endpoints =
      map (λ (e : String × EndpointInstance). (e.0, from_ref r.world e.1.enabledisable))
        r.endpoints;
  ssh = ssh_status r.world r.ssh;
  messages = get_messages r.world.message_queue;
}
