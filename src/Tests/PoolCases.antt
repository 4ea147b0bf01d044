-- ===== src/Tests/PoolCases.antt =====
-- A pool with one permit of each kind, and one connection that starts in it and runs to its end.
use ebbflow.Prelude.{
  ℕ, List, Option, length, inl, sym, true, ◌+◌, ◌≡◌, ◌≢◌, refl, [], ◌∷◌, none, some, arith, All,
}
use ebbflow.Dns.{Ipv4Addr, no_records_found, ips}
use ebbflow.Daemon.Shared.Chosen.{IsChoice}
use ebbflow.Pool.Panics.{stranded-panics}
use ebbflow.Daemon.Heap.{EndpointArgs, tls}
use ebbflow.Daemon.Shared.{Target, create_args}
use ebbflow.Connection.Establish.{EndpointConnectionArgs}
use ebbflow.Connection.Run.{
  add_idle, remove_idle, drop_idle_permit, drop_max_permit, Session, connection_task,
  run_connection,
}
use ebbflow.Pool.{
  Pool, Step, wants_max, wants_idle, panicked, stopped, Phase, start, Found, next_args, perform,
  Reach, here, next, take_max, spawn, run_effect,
}
use ebbflow.Pool.Progress.{Reach-goes_on}
use ebbflow.Pool.Permits.{held}
use ebbflow.Pool.Siblings
use ebbflow.Pool.Siblings.{Siblings, Turns, born, turns, opens, goes}
use ebbflow.Pool.Siblings.Counters.{Turns-restored}
use ebbflow.Tests.Fixtures.{cbor, sample_session}

-- The session of a connection that Ebbflow does not answer in time.
abbrev pub lost : Session
lost = record (sample_session []) { idle_timeout = true }

-- One permit of each kind, and a lookup that finds an address.
abbrev one : EndpointArgs
one = record {
  ctype = tls;
  idleconns = 1;
  maxconns = 1;
  endpoint = "a.example";
  port = 80;
  healthcheck = none;
}

abbrev pub found : Found
found = record {
  choose = λ ips. none;
  is_dns_name = λ name. true;
  answer = no_records_found;
  info = record {
    key = none;
    hardcoded_ebbflow_addr = some (record { ip = record { octets = [] }; port = 443 });
    hardcoded_ebbflow_dns = none;
  };
}

abbrev made : EndpointConnectionArgs
made = record { endpoint = "a.example"; key = "unset"; addrs = []; ctype = tls }

abbrev pub target : Target
target = record {
  ebbflow_addr = record { ip = record { octets = [] }; port = 443 };
  ebbflow_dns = "s.ebbflow.io";
}

spawned : Pool
spawned = record {
  args = one;
  addrs = [];
  idle_permits = 0;
  max_permits = 0;
  idle = 0;
  active = 0;
  phase = wants_max;
  conns = connection_task cbor made lost ∷ [];
}

spawned-Reach : Reach (start one [] 0 0) spawned
unfolding start spawned next_args create_args
spawned-Reach =
    next (next here (take_max refl (omega arith)))
      (spawn cbor found made target lost refl (omega arith) refl)

-- A second pool opens before the connection of the first has run to its end.
abbrev opened : Pool
opened = start one [] 0 0

abbrev rest : Pool
rest = record opened { conns = [] ∷ [] }

ended : (s : Siblings) × Turns one [] s
unfolding Siblings.new start next_args create_args connection_task run_connection perform
ended =
    let first_opens = turns born opens in
    let takes = turns first_opens (goes [] [] _ refl (take_max refl (omega arith))) in
    let spawns =
      turns takes (goes [] [] _ refl (spawn cbor found made target lost refl (omega arith) refl)) in
    let counts = turns spawns (goes [] [] _ refl (run_effect [] [] add_idle _ refl)) in
    let two = turns counts opens in
    let counts_down = turns two (goes (_ ∷ []) [] _ refl (run_effect [] [] remove_idle _ refl)) in
    let gives =
      turns counts_down (goes (_ ∷ []) [] _ refl (run_effect [] [] drop_idle_permit _ refl)) in
    (_, turns gives (goes (_ ∷ []) [] _ refl (run_effect [] [] drop_max_permit [] refl)))

Turns-restored_example :
    All (λ (p : Pool). (p.idle_permits ≡ 1) × (p.max_permits + held p.phase ≡ 1)) ended.0.pools
    × (ended.0.idle ≡ 0)
    × (ended.0.active ≡ 0)
unfolding ended
Turns-restored_example = Turns-restored one [] ended.1 (tt, ((refl, tt), tt))

spawned_waits : (phase : Phase) → phase ≢ wants_max → spawned.phase ≢ phase
unfolding spawned
spawned_waits phase other at = other (sym at)

Reach-goes_on_example : (q : Pool) × Step spawned q × (q.phase ≢ stopped)
Reach-goes_on_example =
    Reach-goes_on one [] cbor found lost 0 0 (omega arith) (omega arith) spawned-Reach
      (spawned_waits panicked λ e. cc e) (spawned_waits stopped λ e. cc e)

unfoldable first : List Ipv4Addr → Option Ipv4Addr
first [] = none
first (r ∷ rs) = some r

first-IsChoice : IsChoice first
unfolding first
first-IsChoice = record { of_empty = refl; of_cons = λ r rs. (0, r, refl, refl) }

-- No address is hardcoded, and the resolver reports no records.
abbrev missed : Found
missed = record {
  choose = first;
  is_dns_name = λ name. true;
  answer = no_records_found;
  info = record { key = none; hardcoded_ebbflow_addr = none; hardcoded_ebbflow_dns = none };
}

abbrev waiting : Pool
waiting = record (start one [] 0 0) {
  idle_permits = 1;
  max_permits = 0;
  phase = wants_idle;
  conns = [];
}

stranded-panics_example :
    (q : Pool) × Step waiting q
    × ((r : Pool) → Reach q r → (r.phase ≡ panicked) × (◌≡◌ {A = ℕ} (length r.conns) 0))
unfolding ips
stranded-panics_example =
    stranded-panics missed waiting first-IsChoice refl (omega arith) (inl (refl, refl))
