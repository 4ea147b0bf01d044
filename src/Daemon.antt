-- ===== src/Daemon.antt =====
-- src/daemon/mod.rs: what one endpoint is started with, what it keeps, and `spawn_endpoint` up to
-- the task that it starts. The tasks stand in a heap of spawned endpoints: an `Arc<EndpointMeta>`
-- is an address of that heap.
pub mod Addrs
pub mod AddrOrder
pub mod Heap
pub mod Shared
use ebbflow.Prelude.{ℕ, min, String, Bool, true, false, List, Option, none, some}
use ebbflow.Prelude.Result.{Result, ok, err}
use Prim.Native.String.{◌++◌}
use ebbflow.Config.{HealthCheck, ConcreteHealthCheck, to_concrete}
use ebbflow.Health
use ebbflow.Health.{HealthMasterInner, Check}
use ebbflow.MessageQueue.{MessageQueue, add_message}
use Addrs.{SocketAddr, Lookup, get_addrs}
use Heap.{
  EndpointConnectionType, EndpointArgs, HealthMaster, EndpointMeta, Spawned, MetaHeap, alloc,
}

abbrev pub max_idle : ℕ
max_idle = 1000

-- What the host answers during one call: its name, the time, and the lookups of localhost.
pub record Host : Type 0 where
  pub hostname : String
  pub now : String
  pub localhost : ℕ → Lookup

-- `hostname_or_die` of src/lib.rs: what the operating system answers, with the name as text if it is
-- one; `none` ends the process. The name of a `Host` is what it returns.
unfoldable hostname_or_die : Result String (Option String) → Option String
hostname_or_die (ok (some name)) = some name
hostname_or_die (ok none) = none
hostname_or_die (err e) = none

-- What the daemon's tasks share.
pub record World : Type 0 where
  pub metas : MetaHeap
  pub message_queue : MessageQueue

pub data HealthOverall : Type 0 where
  not_configured : HealthOverall
  healthy unhealthy : List Check → HealthOverall

-- `EndpointMeta::health`
unfoldable pub health : EndpointMeta → HealthOverall
unfolding Health.data_of
health m = elim m.healthdata [
  | none ↦ not_configured
  | some hm ↦ elim (Health.data_of hm.inner).0 [
    | true ↦ healthy (Health.data_of hm.inner).1
    | false ↦ unhealthy (Health.data_of hm.inner).1
  ]
]

-- `HealthMaster::new`
unfoldable pub health_master : ConcreteHealthCheck → HealthMaster
unfolding Health.new
health_master cfg = record { inner = Health.new; cfg = cfg }

-- `EndpointMeta::new`, with a signal that was not sent
unfoldable pub endpoint_meta : Option HealthMaster → EndpointMeta
endpoint_meta hm = record { idle = 0; active = 0; stopped = false; healthdata = hm }

unfoldable pub maybe_health : EndpointArgs → Option HealthMaster
unfolding health_master to_concrete
maybe_health args = elim args.healthcheck [
  | none ↦ none
  | some hc ↦ some (health_master (to_concrete args.port hc))
]

-- The idle connections that the endpoint may keep are capped.
unfoldable pub cap_idle : EndpointArgs → EndpointArgs
cap_idle args = record args { idleconns = min args.idleconns max_idle }

-- The addresses of the health check's port are looked up too, if there is a health check.
unfoldable pub health_addrs :
    Host → Option HealthMaster → MessageQueue → Option (List SocketAddr) × MessageQueue
health_addrs host none q = (none, q)
health_addrs host (some hm) q =
    let (addrs, q') = get_addrs host.now (host.localhost hm.cfg.port) q in (some addrs, q')

unfoldable pub spawn_endpoint : Host → EndpointArgs → World → World × ℕ
unfolding cap_idle maybe_health endpoint_meta health_addrs
spawn_endpoint host args w =
    let hm = maybe_health args in
    let q1 = add_message host.now ("Endpoint " ++ args.endpoint ++ " is enabled") w.message_queue in
    let (conn_addrs, q2) = get_addrs host.now (host.localhost args.port) q1 in
    let (hc_addrs, q3) = health_addrs host hm q2 in
    let (heap, id) =
      alloc
        (record {
          meta = endpoint_meta hm;
          args = cap_idle args;
          conn_addrs = conn_addrs;
          hc_addrs = hc_addrs;
        })
        w.metas in
    (record { metas = heap; message_queue = q3 }, id)
