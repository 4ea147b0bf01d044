-- ===== src/Connection/Proxy.antt =====
-- `proxy` and `proxy_data`: the two directions of a connection, in any interleaving, against the
-- stop signal and the delay after it.
pub mod Every
pub mod Carried
pub mod Ends
pub mod Delivers
pub mod Told
use ebbflow.Prelude.{Bool, true, false, ◌||◌, List, [], ◌∷◌, Option, none, some, if◌then◌else◌}
use ebbflow.Prelude.Result.{ok}
use ebbflow.Prelude.Bytes.{Bytes}
use ebbflow.Connection.Stream.{TlsStream}
use ebbflow.Connection.Copy.{Copy, reading, CopyEvent, copy_step, has_ended}
use ebbflow.Connection.Run.{Proxied, stopped, finished}

-- Racing with the stop signal; spawned on after it, while the delay runs; over.
pub data Stage : Type 0 where
  racing spawned : Stage
  over : Proxied → Stage

pub record Proxy : Type 0 where
  pub to_ebbflow : Copy
  pub to_local : Copy
  pub stage : Stage

pub data ProxyEvent : Type 0 where
  local2ebb ebb2local : CopyEvent → ProxyEvent
  stop delay_over : ProxyEvent

-- From the stream after the handshake and the bytes that the local service sends.
unfoldable pub start : TlsStream → Bytes → Proxy
start s local = record {
  to_ebbflow = record { incoming = local; written = s.sent; phase = reading };
  to_local = record { incoming = s.incoming; written = []; phase = reading };
  stage = racing;
}

unfoldable pub either_ended : Proxy → Bool
unfolding has_ended
either_ended p = has_ended p.to_ebbflow || has_ended p.to_local

-- `proxy` returns as soon as one direction ends, without an error whatever its result; that ends
-- the race too.
unfoldable pub settle : Stage → Proxy → Proxy
unfolding either_ended
settle racing p = if either_ended p then record p { stage = over (finished (ok tt)) } else p
settle stage p = p

unfoldable pub settled : Proxy → Proxy
unfolding settle
settled p = settle p.stage p

unfoldable pub with_to_ebbflow : Proxy → Option Copy → Option Proxy
unfolding settled
with_to_ebbflow p none = none
with_to_ebbflow p (some c) = some (settled (record p { to_ebbflow = c }))

unfoldable pub with_to_local : Proxy → Option Copy → Option Proxy
unfolding settled
with_to_local p none = none
with_to_local p (some c) = some (settled (record p { to_local = c }))

-- One event while the proxied data flows.
unfoldable pub carry : ProxyEvent → Proxy → Option Proxy
unfolding with_to_ebbflow with_to_local copy_step
carry (local2ebb e) p = with_to_ebbflow p (copy_step e p.to_ebbflow)
carry (ebb2local e) p = with_to_local p (copy_step e p.to_local)
carry _ p = none

-- After the stop signal the data flows on until the delay is over and the proxy is aborted.
unfoldable pub proxy_at : Stage → ProxyEvent → Proxy → Option Proxy
unfolding carry either_ended
proxy_at racing stop p = some (record p { stage = spawned })
proxy_at racing e p = carry e p
proxy_at spawned delay_over p = some (record p { stage = over stopped })
proxy_at spawned e p = if either_ended p then none else carry e p
proxy_at (over r) e p = none

unfoldable pub proxy_step : ProxyEvent → Proxy → Option Proxy
unfolding proxy_at
proxy_step e p = proxy_at p.stage e p

unfoldable pub run_on : List ProxyEvent → Option Proxy → Option Proxy
unfolding proxy_step
run_on es none = none
run_on [] (some p) = some p
run_on (e ∷ es) (some p) = run_on es (proxy_step e p)

unfoldable pub run_proxy : List ProxyEvent → Proxy → Option Proxy
unfolding run_on
run_proxy es p = run_on es (some p)
