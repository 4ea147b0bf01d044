-- ===== src/Tests/TaskCases.antt =====
-- A runner whose endpoint has no health check, and the task that serves it.
use ebbflow.Prelude.{◌≡◌, ◌≤◌, ◌+◌, ◌⊎◌, refl, ℕ, String, true, List, [], ◌∷◌, some, arith, is_some}
use ebbflow.Prelude.Map.{lookup, insert}
use ebbflow.MessageQueue
use ebbflow.Daemon.{spawn_endpoint, endpoint_meta}
use ebbflow.Daemon.Heap.{Spawned, alloc, tls}
use ebbflow.Daemon.Shared.{create_args}
use ebbflow.Connection.Run.{add_idle, connection_task, run_connection}
use ebbflow.Pool.{start, perform, next_args, take_max, spawn, run_effect}
use ebbflow.Pool.Siblings
use ebbflow.Pool.Siblings.{Siblings, Turns, born, turns, opens, goes}
use ebbflow.Runner.Bounded.{IsWithin, run-IsWithin}
use ebbflow.Tests.PoolCases.{found, lost, target}
use ebbflow.Runner.{
  EndpointInstance, enabled, endpoint_args, new, update_config, update_key, update_keyed,
  with_config, apply_config, retain_endpoints, apply_endpoints, apply_entry, start_endpoint,
  start_task, apply_ssh, ssh_of,
}
use ebbflow.Runner.Inv.{owned, ssh_owned}
use ebbflow.Runner.Reachable.{Call, updates, run}
use ebbflow.Runner.Pools.{told, supervisor_of, IsDelivered, run-running_pools}
use ebbflow.Supervisor.{Event}
use ebbflow.Supervisor.Rounds.{running_pools}
use ebbflow.Tests.Fixtures.{cbor, sample_host}
use ebbflow.Tests.SupervisorCases.{latest_only, latest_only-IsHistory}
use ebbflow.Tests.CliCases.{endpoint_on, with_endpoint}

abbrev calls : List Call
calls = updates sample_host (some (with_endpoint endpoint_on)) (some "k") ∷ []

abbrev no_events : ℕ → List (String × Event)
no_events id = []

task : (s : Spawned) × ((run calls new).world.metas.cell 0 ≡ some s)
unfolding run update_config update_key update_keyed with_config apply_config retain_endpoints
    apply_endpoints apply_entry start_endpoint start_task spawn_endpoint alloc apply_ssh ssh_of new
    lookup
task = (_, refl)

delivered : IsDelivered (run calls new).world.metas no_events
unfolding run update_config update_key update_keyed with_config apply_config retain_endpoints
    apply_endpoints apply_entry start_endpoint start_task spawn_endpoint alloc apply_ssh ssh_of new
    lookup told endpoint_meta
delivered = record { arrives = λ id s e. ground (arith, e) }

run-running_pools_example :
    let pools = running_pools latest_only (supervisor_of "t0" MessageQueue.new task.0 []).pools in
    let held = owned (run calls new).endpoints 0 + ssh_owned (run calls new).ssh 0 in
    (pools ≤ held) × (held ≤ 1) × ((is_some task.0.meta.healthdata ≡ true) ⊎ (pools ≡ held))
run-running_pools_example =
    run-running_pools latest_only calls no_events "t0" MessageQueue.new 0 task.0
      latest_only-IsHistory delivered task.1

abbrev instance_b : EndpointInstance
instance_b = record { enabledisable = enabled 0; existing_config = endpoint_on }

holds_b : lookup endpoint_on.dns (run calls new).endpoints ≡ some instance_b
unfolding run update_config update_key update_keyed with_config apply_config retain_endpoints
    apply_endpoints apply_entry start_endpoint start_task spawn_endpoint alloc apply_ssh ssh_of new
    lookup insert
holds_b = refl

-- A connection was started and counted as idle, and another pool opened.
counted : (s : Siblings) × Turns task.0.args task.0.conn_addrs s
unfolding task spawn_endpoint Siblings.new start next_args create_args connection_task
    run_connection perform endpoint_args
counted =
    let takes = turns (turns born opens) (goes [] [] _ refl (take_max refl (omega arith))) in
    let spawns = turns takes (
      goes [] [] _ refl (
        spawn cbor found
          (record {
            endpoint = endpoint_on.dns;
            key = "unset";
            addrs = task.0.conn_addrs;
            ctype = tls;
          })
          target lost refl (omega arith) refl)) in
    (_, turns (turns spawns (goes [] [] _ refl (run_effect [] [] add_idle _ refl))) opens)

run-IsWithin_example : IsWithin endpoint_on counted.0
unfolding counted
run-IsWithin_example =
    run-IsWithin calls endpoint_on.dns instance_b 0 task.0 holds_b refl task.1 (omega arith)
      (omega arith) counted.1
