-- ===== src/Pool.antt =====
-- `inner_run_endpoint` of src/daemon/mod.rs: the loop that takes a permit of each semaphore and
-- spawns a connection, with the spawned connections running beside it in any interleaving. A
-- connection is the list of effects that it still has before it (Connection/Run).
pub mod Shape
pub mod Permits
pub mod Progress
pub mod Panics
pub mod Siblings
use ebbflow.Prelude.{
  ℕ, ◌+◌, ◌-◌, ◌%◌, ◌^◌, ◌<◌, ◌≡◌, String, Bool, List, [], ◌∷◌, ◌++◌, Option, none, some,
}
use ebbflow.Messaging.{Cbor}
use ebbflow.Dns.{Ipv4Addr, Answer}
use ebbflow.Daemon.Addrs.{SocketAddr}
use ebbflow.Daemon.Heap.{EndpointArgs}
use ebbflow.Daemon.Shared.{SharedInfo, Target, create_args}
use ebbflow.Connection.Establish.{EndpointConnectionArgs}
use ebbflow.Connection.Run.{
  Effect, add_idle, remove_idle, drop_idle_permit, add_active, remove_active, drop_max_permit,
  Session, connection_task,
}

-- Where the spawning loop stands. A panic of `create_args` ends it, and so does the signal that the
-- endpoint is unhealthy or disabled, by which its task drops it while it waits.
pub data Phase : Type 0 where
  wants_max wants_idle panicked stopped : Phase

-- `idle` and `active` are the counters of `EndpointMeta`, which the pools of an endpoint share.
pub record Pool : Type 0 where
  pub args : EndpointArgs
  pub addrs : List SocketAddr
  pub idle_permits : ℕ
  pub max_permits : ℕ
  pub idle : ℕ
  pub active : ℕ
  pub phase : Phase
  pub conns : List (List Effect)

-- Two new semaphores; the counters stand where the endpoint's earlier pools left them.
unfoldable pub start : EndpointArgs → List SocketAddr → ℕ → ℕ → Pool
start args addrs idle active = record {
  args = args;
  addrs = addrs;
  idle_permits = args.idleconns;
  max_permits = args.maxconns;
  idle = idle;
  active = active;
  phase = wants_max;
  conns = [];
}

-- `fetch_add(1)` and `fetch_sub(1)` on a usize wrap.
abbrev pub fetch_add : ℕ → ℕ
fetch_add n = (n + 1) % 2 ^ 64

abbrev pub fetch_sub : ℕ → ℕ
fetch_sub n = (n + 2 ^ 64 - 1) % 2 ^ 64

unfoldable pub perform : Effect → Pool → Pool
perform add_idle p = record p { idle = fetch_add p.idle }
perform remove_idle p = record p { idle = fetch_sub p.idle }
perform drop_idle_permit p = record p { idle_permits = p.idle_permits + 1 }
perform add_active p = record p { active = fetch_add p.active }
perform remove_active p = record p { active = fetch_sub p.active }
perform drop_max_permit p = record p { max_permits = p.max_permits + 1 }
perform _ p = p

-- What `create_args` finds when a connection is to be started: the random choice, the test of a name,
-- the answer of the resolver, and what the tasks share by then.
pub record Found : Type 0 where
  pub choose : List Ipv4Addr → Option Ipv4Addr
  pub is_dns_name : String → Bool
  pub answer : Answer
  pub info : SharedInfo

unfoldable pub next_args : Found → Pool → Option (EndpointConnectionArgs × Target)
next_args l p = create_args l.choose l.is_dns_name l.answer l.info p.args p.addrs

-- A loop that ends drops the permits that it holds.
pub data Step (p : Pool) : Pool → Type 0 where
  take_max :
      p.phase ≡ wants_max
      → 0 < p.max_permits
      → Step p (record p { max_permits = p.max_permits - 1; phase = wants_idle })
  spawn :
      (cbor : Cbor) (l : Found) (args : EndpointConnectionArgs) (target : Target) (n : Session)
      → p.phase ≡ wants_idle
      → 0 < p.idle_permits
      → next_args l p ≡ some (args, target)
      → Step p (record p {
        idle_permits = p.idle_permits - 1;
        phase = wants_max;
        conns = connection_task cbor args n ∷ p.conns;
      })
  panic :
      (l : Found)
      → p.phase ≡ wants_idle
      → 0 < p.idle_permits
      → next_args l p ≡ none
      → Step p (record p { max_permits = p.max_permits + 1; phase = panicked })
  stop_bare : p.phase ≡ wants_max → Step p (record p { phase = stopped })
  stop_holding :
      p.phase ≡ wants_idle → Step p (record p { max_permits = p.max_permits + 1; phase = stopped })
  run_effect :
      (before after : List (List Effect)) (e : Effect) (rest : List Effect)
      → p.conns ≡ before ++ ((e ∷ rest) ∷ after)
      → Step p (perform e (record p { conns = before ++ (rest ∷ after) }))

-- The connections of the endpoint's other pools change the counters at any time.
pub data Reach (p : Pool) : Pool → Type 0 where
  here : Reach p p
  shared :
      {q : Pool}
      → Reach p q
      → (idle active : ℕ) → Reach p (record q { idle = idle; active = active })
  next : {q r : Pool} → Reach p q → Step q r → Reach p r
