-- ===== src/Connection/Run.antt =====
-- `run_connection`, `proxy_data` and `jittersleep1p5`: what one connection does to the counters,
-- permits and messages that it shares with the others, as the sequence of its effects.
use Prim.Native.String.{◌++◌ as str_append}
use ebbflow.Prelude.{
  ℕ, ◌*◌, ◌/◌, ◌≤◌, ◌<◌, String, Bool, true, false, List, [], ◌∷◌, ◌++◌, map, if◌then◌else◌,
}
use ebbflow.Prelude.Result.{Result, ok, err}
use ebbflow.Messaging.{Cbor}
use ebbflow.Daemon.Addrs.{SocketAddr}
use ebbflow.Connection.Stream.{ConnectionError, forbidden, not_found, bad_request, TlsStream}
use ebbflow.Connection.Establish.{EndpointConnectionArgs, Dial, establish}
use ebbflow.Connection.Local.{Attempt, LocalOutcome, connect_local_with_ebbflow_communication}

-- Milliseconds.
abbrev pub kill_active_delay : ℕ
kill_active_delay = 60_000

abbrev pub bad_error_delay : ℕ
bad_error_delay = 55_000

abbrev pub min_ebbflow_error_delay : ℕ
min_ebbflow_error_delay = 5_000

pub data Effect : Type 0 where
  add_idle remove_idle drop_idle_permit add_active remove_active drop_max_permit : Effect
  post : String → Effect
  sleep : ℕ → Effect
  abort_proxy : Effect

-- How the race between the stop signal and the proxied data ends.
pub data Proxied : Type 0 where
  stopped : Proxied
  finished : Result ConnectionError (Unit {0}) → Proxied

-- What the outside does during one connection. `gen_range` is the random generator's.
pub record Session : Type 0 where
  pub dial : Dial
  pub idle_timeout : Bool
  pub attempt : SocketAddr → Attempt
  pub written : Result String (Unit {0})
  pub proxied : Proxied
  pub debug : ConnectionError → String
  pub gen_range : ℕ → ℕ → ℕ

-- `gen_range(low, high)` returns a number that is at least `low` and below `high`.
pub record IsInRange (gen_range : ℕ → ℕ → ℕ) : Type 0 where
  pub lower : (low high : ℕ) → low < high → low ≤ gen_range low high
  pub upper : (low high : ℕ) → low < high → gen_range low high < high

-- Between 1 and 1.5 times the duration; the durations in use are even numbers of milliseconds.
unfoldable pub jittersleep1p5 : Session → ℕ → Effect
jittersleep1p5 n dur = sleep (n.gen_range dur (dur * 3 / 2))

unfoldable pub proxy_data : Session → List Effect
unfolding jittersleep1p5
proxy_data n = elim n.proxied [
  | stopped ↦ jittersleep1p5 n kill_active_delay ∷ abort_proxy ∷ []
  | finished r ↦ []
]

unfoldable pub is_refusal : ConnectionError → Bool
is_refusal forbidden = true
is_refusal not_found = true
is_refusal bad_request = true
is_refusal _ = false

-- The permit is dropped when the function returns, after the sleeps.
unfoldable pub report_failure : Session → EndpointConnectionArgs → ConnectionError → List Effect
unfolding jittersleep1p5 is_refusal
report_failure n args e =
    (if is_refusal e
      then post (
          str_append "A connection for endpoint "
            (str_append args.endpoint (str_append " failed due to " (n.debug e))))
        ∷ jittersleep1p5 n bad_error_delay
        ∷ []
      else post (
          str_append "Failed to connect to Ebbflow for endpoint "
            (str_append args.endpoint (str_append " failed due to " (n.debug e))))
        ∷ [])
    ++ (jittersleep1p5 n min_ebbflow_error_delay ∷ drop_idle_permit ∷ [])

unfoldable pub serve_local : Session → LocalOutcome → List Effect
unfolding proxy_data jittersleep1p5
serve_local n o = map post o.posted ++ elim o.result [
  | err e ↦ jittersleep1p5 n min_ebbflow_error_delay ∷ []
  | ok addr ↦ add_active ∷ (proxy_data n ++ remove_active ∷ [])
]

unfoldable pub after_idle :
    Cbor → EndpointConnectionArgs → Session → Result ConnectionError TlsStream → List Effect
unfolding report_failure serve_local
after_idle cbor args n (err e) = report_failure n args e
after_idle cbor args n (ok s) =
    drop_idle_permit
    ∷ serve_local n
        (connect_local_with_ebbflow_communication cbor n.debug args n.attempt n.written s)

unfoldable pub run_connection : Cbor → EndpointConnectionArgs → Session → List Effect
unfolding after_idle
run_connection cbor args n =
    add_idle
    ∷ remove_idle
    ∷ (if n.idle_timeout
        then drop_idle_permit ∷ []
        else after_idle cbor args n (establish cbor args n.dial))

-- The task of `inner_run_endpoint` around it, which gives the other permit back.
unfoldable pub connection_task : Cbor → EndpointConnectionArgs → Session → List Effect
unfolding run_connection
connection_task cbor args n = run_connection cbor args n ++ drop_max_permit ∷ []
