-- ===== src/Runner/Bounded.antt =====
-- The runner's tasks together with the pools that open their connections.
use native.Mathlib.Nat.{le_trans, mul-le-mul_left}
use ebbflow.Prelude.{ℕ, ◌+◌, ◌*◌, length, ◌^◌, ◌≤◌, ◌<◌, ◌≡◌, ap, subst, String, List, some, arith}
use ebbflow.Prelude.Map.{lookup}
use ebbflow.Config.{Endpoint}
use ebbflow.Daemon.{cap_idle}
use ebbflow.Daemon.Addrs.{SocketAddr}
use ebbflow.Daemon.Heap.{EndpointArgs, Spawned, args_at-some}
use ebbflow.Runner.{enabled, EndpointInstance, endpoint_args, new}
use ebbflow.Runner.Tasks.{Runs}
use ebbflow.Runner.Reachable.{Call, run, run-new-Inv}
use ebbflow.Runner.Refines.{Matches-lookup}
use ebbflow.Pool.Siblings.{Siblings, Turns}
use ebbflow.Pool.Siblings.Sums.{live}
use ebbflow.Pool.Siblings.Counters.{Turns-bounded}

-- What a configuration allows the pools of its endpoint.
pub record IsWithin (e : Endpoint) (s : Siblings) : Type 0 where
  pub few_idle : s.idle ≤ live s.pools * e.maxidle
  pub capped : s.idle ≤ live s.pools * 1000
  pub few : s.idle + s.active ≤ live s.pools * e.maxconns

Turns-IsWithin :
    (e : Endpoint) (args : EndpointArgs) (addrs : List SocketAddr) {s : Siblings}
    → args ≡ cap_idle (endpoint_args e)
    → e.maxconns < 2 ^ 16
    → length s.pools < 2 ^ 32
    → Turns args addrs s
    → IsWithin e s
unfolding cap_idle endpoint_args
Turns-IsWithin e args addrs {s} same small short r =
    let idle = ap (λ (a : EndpointArgs). a.idleconns) same in
    let most = ap (λ (a : EndpointArgs). a.maxconns) same in
    let bounded = Turns-bounded args addrs short (omega (arith, most, small)) r in
    record {
      few_idle = le_trans bounded.0 (mul-le-mul_left (live s.pools) (omega (arith, idle)));
      capped = le_trans bounded.0 (mul-le-mul_left (live s.pools) (omega (arith, idle)));
      few = le_trans bounded.1 (mul-le-mul_left (live s.pools) (omega (arith, most)));
    }

-- After any history of calls on a new runner, and in every interleaving of the pools of a task that
-- an enabled instance holds, fewer than 2 ^ 32: for each pool that still has a connection, at most
-- as many connections are counted idle as the instance's configuration says, and at most a thousand;
-- and idle and active ones together are at most the connections that it says, which is a u16.
pub run-IsWithin :
    (cs : List Call) (dns : String) (inst : EndpointInstance) (id : ℕ) (s : Spawned) {t : Siblings}
    → lookup dns (run cs new).endpoints ≡ some inst
    → inst.enabledisable ≡ enabled id
    → (run cs new).world.metas.cell id ≡ some s
    → inst.existing_config.maxconns < 2 ^ 16
    → length t.pools < 2 ^ 32
    → Turns s.args s.conn_addrs t
    → IsWithin inst.existing_config t
run-IsWithin cs dns inst id s found holds spawned small short r =
    let h = (run cs new).world.metas in
    let matches =
      Matches-lookup h dns (run cs new).endpoints inst (run-new-Inv cs).holds.matching found in
    let runs =
      subst (Runs h inst.existing_config.enabled (cap_idle (endpoint_args inst.existing_config)))
        holds matches.1 in
    Turns-IsWithin inst.existing_config s.args s.conn_addrs
      (cc (args_at-some h id s spawned, runs.1)) small short r
