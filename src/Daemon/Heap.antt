-- ===== src/Daemon/Heap.antt =====
-- The spawned endpoints, by address. The stop signal of an endpoint is its flag `stopped`: it is
-- only ever sent once and never taken back (src/signal.rs).
use ebbflow.Prelude.{
  refl, ℕ, suc, ◌+◌, ◌≤◌, ◌≡◌, String, Bool, true, false, List, Option, none, some, arith, ◌==◌,
  if◌then◌else◌,
}
use ebbflow.Config.{HealthCheck, ConcreteHealthCheck}
use ebbflow.Health.{HealthMasterInner}
use ebbflow.Daemon.Addrs.{SocketAddr}

pub data EndpointConnectionType : Type 0 where
  ssh tls : EndpointConnectionType

-- `EndpointArgs`, without the message queue, which all endpoints of a daemon share.
pub record EndpointArgs : Type 0 where
  pub ctype : EndpointConnectionType
  pub idleconns : ℕ
  pub maxconns : ℕ
  pub endpoint : String
  pub port : ℕ
  pub healthcheck : Option HealthCheck

pub record HealthMaster : Type 0 where
  pub inner : HealthMasterInner
  pub cfg : ConcreteHealthCheck

pub record EndpointMeta : Type 0 where
  pub idle : ℕ
  pub active : ℕ
  pub stopped : Bool
  pub healthdata : Option HealthMaster

-- A spawned endpoint: what the daemon reads, and what its task was given.
pub record Spawned : Type 0 where
  pub meta : EndpointMeta
  pub args : EndpointArgs
  pub conn_addrs : List SocketAddr
  pub hc_addrs : Option (List SocketAddr)

pub record MetaHeap : Type 0 where
  pub cell : ℕ → Option Spawned
  pub next : ℕ

abbrev pub empty : MetaHeap
empty = record { cell = λ _. none; next = 0 }

unfoldable pub alloc : Spawned → MetaHeap → MetaHeap × ℕ
alloc s h =
    (record { cell = λ i. if i == h.next then some s else h.cell i; next = suc h.next }, h.next)

stopped_of : Spawned → Spawned
stopped_of s = record s { meta = record s.meta { stopped = true } }

stop_cell : Option Spawned → Option Spawned
stop_cell none = none
stop_cell (some s) = some (stopped_of s)

-- `EndpointMeta::stop`
unfoldable pub stop : ℕ → MetaHeap → MetaHeap
unfolding stop_cell stopped_of
stop id h = record h { cell = λ i. if i == id then stop_cell (h.cell i) else h.cell i }

is_running : Option Spawned → ℕ
is_running none = 0
is_running (some s) = if s.meta.stopped then 0 else 1

-- How many tasks run at an address: one until it is told to stop.
pub running : MetaHeap → ℕ → ℕ
unfolding is_running
running h i = is_running (h.cell i)

-- A task runs until it is told to stop.
pub running-cell :
    (h : MetaHeap) (i : ℕ) (s : Spawned)
    → h.cell i ≡ some s
    → running h i ≡ (if s.meta.stopped then 0 else 1)
unfolding running is_running
running-cell h i s e = rw e refl

args_of : Option Spawned → Option EndpointArgs
args_of none = none
args_of (some s) = some s.args

-- What the task at an address was started with.
pub args_at : MetaHeap → ℕ → Option EndpointArgs
unfolding args_of
args_at h i = args_of (h.cell i)

pub args_at-none : (h : MetaHeap) (i : ℕ) → h.cell i ≡ none → args_at h i ≡ none
unfolding args_at args_of
args_at-none h i e = rw e refl

pub args_at-some :
    (h : MetaHeap) (i : ℕ) (s : Spawned) → h.cell i ≡ some s → args_at h i ≡ some s.args
unfolding args_at args_of
args_at-some h i s e = rw e refl

pub record IsFresh (h : MetaHeap) : Type 0 where
  pub above : (i : ℕ) → h.next ≤ i → h.cell i ≡ none

module _ (h : MetaHeap) where
  pub running-stop : (id i : ℕ) → running (stop id h) i ≡ (if i == id then 0 else running h i)
  unfolding running stop
  running-stop id i = ground arith

  pub args_at-stop : (id i : ℕ) → args_at (stop id h) i ≡ args_at h i
  unfolding args_at stop
  args_at-stop id i = ground arith

  pub stop-IsFresh : (id : ℕ) → IsFresh h → IsFresh (stop id h)
  unfolding stop
  stop-IsFresh id f = record { above = λ i le. ground (arith, f.above i le) }

  pub running-alloc :
      (s : Spawned) (i : ℕ)
      → IsFresh h
      → s.meta.stopped ≡ false
      → running (alloc s h).0 i ≡ (if i == (alloc s h).1 then 1 else 0) + running h i
  unfolding running alloc
  running-alloc s i f e = ground (arith, f.above i)

  pub args_at-alloc_self : (s : Spawned) → args_at (alloc s h).0 (alloc s h).1 ≡ some s.args
  unfolding args_at alloc
  args_at-alloc_self s = ground arith

  pub args_at-alloc :
      (s : Spawned) (i : ℕ) (a : EndpointArgs)
      → IsFresh h
      → args_at h i ≡ some a
      → args_at (alloc s h).0 i ≡ some a
  unfolding args_at alloc
  args_at-alloc s i a f e = ground (arith, f.above i)

  pub alloc-IsFresh : (s : Spawned) → IsFresh h → IsFresh (alloc s h).0
  unfolding alloc
  alloc-IsFresh s f = record { above = λ i le. ground (arith, f.above i) }

  pub running-le : (i : ℕ) → running h i ≤ 1
  unfolding running
  running-le i = ground arith

pub running-empty : (i : ℕ) → 0 ≡ running empty i
unfolding running
running-empty i = refl
