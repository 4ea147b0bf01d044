-- ===== src/Pool/Siblings.antt =====
-- The pools of an endpoint, one for each turn to healthy, which `spawn_endpoint` of src/daemon/mod.rs
-- runs with the same `EndpointMeta`: the connections of an earlier pool may go on beside the newest.
pub mod Sums
pub mod Counters
use ebbflow.Prelude.{ℕ, ◌≡◌, List, [], ◌∷◌, ◌++◌}
use ebbflow.Daemon.Addrs.{SocketAddr}
use ebbflow.Daemon.Heap.{EndpointArgs}
use ebbflow.Pool
use ebbflow.Pool.{Pool, start}

-- The newest pool first.
pub record Siblings : Type 0 where
  pub idle : ℕ
  pub active : ℕ
  pub pools : List Pool

unfoldable pub new : Siblings
new = record { idle = 0; active = 0; pools = [] }

-- A pool opens, at any time; or one of the pools does a step, on the counters of them all.
pub data Turn (args : EndpointArgs) (addrs : List SocketAddr) (s : Siblings)
    : Siblings → Type 0 where
  opens : Turn args addrs s (record s { pools = start args addrs s.idle s.active ∷ s.pools })
  goes :
      (before after : List Pool) (p : Pool) {q : Pool}
      → s.pools ≡ before ++ (p ∷ after)
      → Pool.Step (record p { idle = s.idle; active = s.active }) q
      → Turn args addrs s
          (record { idle = q.idle; active = q.active; pools = before ++ (q ∷ after) })

pub data Turns (args : EndpointArgs) (addrs : List SocketAddr) : Siblings → Type 0 where
  born : Turns args addrs new
  turns : {s t : Siblings} → Turns args addrs s → Turn args addrs s t → Turns args addrs t
