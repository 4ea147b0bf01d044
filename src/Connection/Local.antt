-- ===== src/Connection/Local.antt =====
-- `connect_local` and `connect_local_with_ebbflow_communication`: the connection to the local
-- service, and what Ebbflow is told of it.
use Prim.Native.String.{◌++◌ as str_append}
use ebbflow.Prelude.{String, Bool, true, false, List, [], ◌∷◌, ◌++◌, map}
use ebbflow.Prelude.Result.{Result, ok, err, ◌>>◌, map_err}
use ebbflow.Prelude.Bytes.{Bytes}
use ebbflow.Messaging.{start_traffic_response_v0, Cbor, to_wire_message}
use ebbflow.Daemon.Addrs.{SocketAddr}
use ebbflow.Connection.Stream.{
  ConnectionError, io, timeout, messaging, multiple, Timed, in_time, elapsed, io_result, TlsStream,
  write_all,
}
use ebbflow.Connection.Establish.{EndpointConnectionArgs}

-- What an attempt to connect to one address comes to.
pub record Attempt : Type 0 where
  pub tcp : Timed (Result String (Unit {0}))
  pub keepalive : Result String (Unit {0})
  pub nodelay : Result String (Unit {0})

-- The derived `Debug` text of an error is an argument, `debug`.
unfoldable pub join : String → List String → String
join sep [] = ""
join sep (s ∷ []) = s
join sep (s ∷ t ∷ rest) = str_append s (str_append sep (join sep (t ∷ rest)))

unfoldable pub failures_text :
    (ConnectionError → String) → List (SocketAddr × ConnectionError) → String
unfolding join
failures_text debug errors = str_append "multiple " (
    join ", " (
      map (λ (p : SocketAddr × ConnectionError). str_append p.0.text (str_append " - " (debug p.1)))
        errors))

-- The options of a connected socket; an error here ends the loop too.
unfoldable pub configured : Attempt → SocketAddr → Result ConnectionError SocketAddr
configured a addr = do io_result a.keepalive; io_result a.nodelay; ok addr

-- The loop over the addresses, with the errors so far.
unfoldable pub connect_from :
    (ConnectionError → String)
    → (SocketAddr → Attempt)
    → List (SocketAddr × ConnectionError)
    → List SocketAddr
    → Result ConnectionError SocketAddr
unfolding failures_text configured
connect_from debug attempt errors [] = err (multiple (failures_text debug errors))
connect_from debug attempt errors (a ∷ rest) = elim (attempt a).tcp [
  | in_time (ok _) ↦ configured (attempt a) a
  | in_time (err e) ↦ connect_from debug attempt (errors ++ (a, io e) ∷ []) rest
  | elapsed ↦
      connect_from debug attempt (errors ++ (a, timeout "connecting to local host") ∷ []) rest
]

unfoldable pub connect_local :
    (ConnectionError → String)
    → (SocketAddr → Attempt)
    → List SocketAddr
    → Result ConnectionError SocketAddr
connect_local debug attempt addrs = connect_from debug attempt [] addrs

unfoldable pub starttrafficresponse : Cbor → Bool → Result ConnectionError Bytes
starttrafficresponse cbor good =
    map_err messaging (
      to_wire_message cbor (start_traffic_response_v0 (record { open_local_success_ready = good })))

-- The stream, the messages posted, and the local address or the error.
pub record LocalOutcome : Type 0 where
  pub stream : TlsStream
  pub posted : List String
  pub result : Result ConnectionError SocketAddr

-- `starttrafficresponse(good)?` and `write_all(..).await?`, then `result`.
unfoldable pub answer :
    Cbor
    → Bool
    → Result String (Unit {0})
    → TlsStream
    → List String
    → Result ConnectionError SocketAddr
    → LocalOutcome
unfolding write_all starttrafficresponse
answer cbor good written s posted result = elim (starttrafficresponse cbor good) [
  | err e ↦ record { stream = s; posted = posted; result = err e }
  | ok w ↦ elim written [
    | err e ↦ record { stream = s; posted = posted; result = err (io e) }
    | ok _ ↦ record { stream = write_all w s; posted = posted; result = result }
  ]
]

unfoldable pub local_failure :
    (ConnectionError → String) → EndpointConnectionArgs → ConnectionError → String
unfolding join
local_failure debug args e =
    str_append "ERROR: Received traffic but could not connect to local host addr [" (
      str_append (join ", " (map (λ (a : SocketAddr). a.text) args.addrs))
        (str_append "] for " (str_append args.endpoint (str_append " " (debug e)))))

unfoldable pub connect_local_with_ebbflow_communication :
    Cbor
    → (ConnectionError → String)
    → EndpointConnectionArgs
    → (SocketAddr → Attempt)
    → Result String (Unit {0})
    → TlsStream
    → LocalOutcome
unfolding answer local_failure
connect_local_with_ebbflow_communication cbor debug args attempt written s =
    elim (connect_local debug attempt args.addrs) [
      | ok addr ↦ answer cbor true written s [] (ok addr)
      | err e ↦ answer cbor false written s (local_failure debug args e ∷ []) (err e)
    ]
