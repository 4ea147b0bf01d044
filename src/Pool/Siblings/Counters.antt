-- ===== src/Pool/Siblings/Counters.antt =====
-- The permits of each pool of an endpoint, and the counters that the pools share.
use native.Mathlib.Nat.{mul-le-mul_left}
use ebbflow.Prelude.{ℕ, ◌+◌, ◌*◌, ◌%◌, ◌^◌, ◌≤◌, ◌<◌, ◌≡◌, subst, ap, List, [], arith, All, length}
use ebbflow.Daemon.Addrs.{SocketAddr}
use ebbflow.Daemon.Heap.{EndpointArgs}
use ebbflow.Pool.{Pool, start}
use ebbflow.Pool.Shape.{Kind, ups_idle, downs_idle, ups_active, downs_active}
use ebbflow.Pool.Permits.{held, Inv, start-Inv, Step-Inv, Step-Counted}
use ebbflow.Pool.Siblings.{Siblings, new, Turn, opens, goes, Turns, born, turns}
use ebbflow.Pool.Siblings.Sums.{
  sum, sum-split, All-at, All-put, live, live-length, ended_sum, restored, All-Fits,
}

record IsShared (idleconns maxconns : ℕ) (s : Siblings) : Type 0 where
  permits : All (Inv idleconns maxconns) s.pools
  idle_counted : (s.idle + sum ups_idle s.pools) % 2 ^ 64 ≡ sum downs_idle s.pools % 2 ^ 64
  active_counted : (s.active + sum ups_active s.pools) % 2 ^ 64 ≡ sum downs_active s.pools % 2 ^ 64
  idle_fits : s.idle < 2 ^ 64
  active_fits : s.active < 2 ^ 64

module _ (args : EndpointArgs) (addrs : List SocketAddr) where
  Turn-IsShared :
      {s t : Siblings}
      → Turn args addrs s t
      → IsShared args.idleconns args.maxconns s
      → IsShared args.idleconns args.maxconns t
  unfolding start
  Turn-IsShared {s} opens v = record {
    permits = (start-Inv args addrs s.idle s.active, v.permits);
    idle_counted = omega (arith, v.idle_counted);
    active_counted = omega (arith, v.active_counted);
    idle_fits = v.idle_fits;
    active_fits = v.active_fits;
  }
  Turn-IsShared {s} (goes before after p {q} c step) v =
      let all = subst (All (Inv args.idleconns args.maxconns)) c v.permits in
      let at = All-at (Inv args.idleconns args.maxconns) before p after all in
      let lent : Inv args.idleconns args.maxconns (record p { idle = s.idle; active = s.active }) =
        record {
          idle_permits_kept = at.idle_permits_kept;
          max_permits_kept = at.max_permits_kept;
          orderly = at.orderly;
        } in
      let counts = Step-Counted step at.orderly in
      let was = λ (k : Kind). ap (sum k) c in
      let old = λ (k : Kind). sum-split k before p after in
      let now = λ (k : Kind). sum-split k before q after in
      record {
        permits =
            All-put (Inv args.idleconns args.maxconns) before p q after
              (Step-Inv args.idleconns args.maxconns step lent) all;
        idle_counted = omega (
          arith,
          v.idle_counted,
          counts.idle_counted,
          was ups_idle,
          was downs_idle,
          old ups_idle,
          old downs_idle,
          now ups_idle,
          now downs_idle,
        );
        active_counted = omega (
          arith,
          v.active_counted,
          counts.active_counted,
          was ups_active,
          was downs_active,
          old ups_active,
          old downs_active,
          now ups_active,
          now downs_active,
        );
        idle_fits = counts.idle_fits v.idle_fits;
        active_fits = counts.active_fits v.active_fits;
      }

  Turns-IsShared : {s : Siblings} → Turns args addrs s → IsShared args.idleconns args.maxconns s
  unfolding new
  Turns-IsShared born = omega arith
  Turns-IsShared (turns r t) = Turn-IsShared t (Turns-IsShared r)

  -- No permit leaks, and no count: when every connection of the endpoint's pools has run to its end,
  -- in any interleaving, each pool has all its idle permits back, and all others too but the one
  -- that its loop may hold; and both counters of the endpoint are zero.
  pub Turns-restored :
      {s : Siblings}
      → Turns args addrs s
      → All (λ (p : Pool). All (λ es. es ≡ []) p.conns) s.pools
      → All
          (λ (p : Pool).
            (p.idle_permits ≡ args.idleconns) × (p.max_permits + held p.phase ≡ args.maxconns))
          s.pools
        × (s.idle ≡ 0)
        × (s.active ≡ 0)
  Turns-restored {s} r ended =
      let v = Turns-IsShared r in
      (
        restored args.idleconns args.maxconns s.pools v.permits ended,
        omega (
          arith,
          v.idle_counted,
          v.idle_fits,
          ended_sum ups_idle s.pools ended,
          ended_sum downs_idle s.pools ended,
        ),
        omega (
          arith,
          v.active_counted,
          v.active_fits,
          ended_sum ups_active s.pools ended,
          ended_sum downs_active s.pools ended,
        ),
      )

  -- In every interleaving, for fewer than 2 ^ 32 pools and a size that is a u16.
  pub Turns-bounded :
      {s : Siblings}
      → length s.pools < 2 ^ 32
      → args.maxconns < 2 ^ 16
      → Turns args addrs s
      → (s.idle ≤ live s.pools * args.idleconns)
        × (s.idle + s.active ≤ live s.pools * args.maxconns)
  Turns-bounded {s} few small r =
      let v = Turns-IsShared r in
      let f = All-Fits args.idleconns args.maxconns s.pools v.permits in
      let narrow : live s.pools * args.maxconns ≤ live s.pools * 2 ^ 16 =
        mul-le-mul_left (live s.pools) (omega (arith, small)) in
      let whole = live-length s.pools in
      let idle : s.idle + sum ups_idle s.pools ≡ sum downs_idle s.pools =
        omega (arith, v.idle_counted, v.idle_fits, f, narrow, whole, few) in
      let active : s.active + sum ups_active s.pools ≡ sum downs_active s.pools =
        omega (arith, v.active_counted, v.active_fits, f, narrow, whole, few) in
      omega (arith, idle, active, f)
