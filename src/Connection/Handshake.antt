-- ===== src/Connection/Handshake.antt =====
-- The dialogue of `establish` with Ebbflow: the hello, its response, and the start of the traffic.
use ebbflow.Prelude.{
  ◌+◌, ◌≤◌, ◌≡◌, refl, ap, ◌∙◌, ◌++◌, Bool, true, false, [], ◌∷◌, Option, none, some, length,
  if◌then◌else◌,
}
use ebbflow.Prelude.Result.{Result, ok, err, ◌>>◌, map_err}
use ebbflow.Prelude.Bytes.{Bytes}
use ebbflow.Daemon.Heap
use ebbflow.Daemon.Heap.{EndpointConnectionType}
use ebbflow.Messaging.{
  Cbor, EndpointType, HelloV0, HelloResponseIssue, HelloResponseV0, hello_v0, hello_response_v0,
  start_traffic_v0, hello_new, version, to_wire_message,
}
use ebbflow.Messaging.RoundTrip.{IsLawful}
use ebbflow.Connection.Stream.{
  ConnectionError, messaging, bad_request, forbidden, not_found, shutdown, in_time, max_message,
  TlsStream, write_all,
}
use ebbflow.Connection.Framing.{await-to_wire_message}
use ebbflow.Connection.Establish.{
  EndpointConnectionArgs, Dial, connect_ebbflow, endpoint_type, hello_of, create_hello, refusal,
  check_issue, check_start, check_hello, await_hello_response, await_traffic_start, establish,
}

-- The network connects, the hello goes out, and an answer to it comes in time.
pub record IsConnected (d : Dial) : Type 0 where
  pub connects : d.tcp ≡ in_time (ok tt)
  pub keeps_alive : d.keepalive ≡ ok tt
  pub has_nodelay : d.nodelay ≡ ok tt
  pub shakes_hands : d.handshake ≡ ok tt
  pub writes : d.write_hello ≡ ok tt
  pub flushes : d.flush_hello ≡ ok tt
  pub answers : d.hello_in_time ≡ true

-- After a response of Ebbflow's.
pub establish-hello_response :
    (cbor : Cbor) (args : EndpointConnectionArgs) (d : Dial) (hr : HelloResponseV0)
    (hello w rest : Bytes)
    → IsLawful cbor
    → IsConnected d
    → create_hello cbor args ≡ ok hello
    → to_wire_message cbor (hello_response_v0 hr) ≡ ok w
    → length w ≤ 4 + max_message
    → d.incoming ≡ w ++ rest
    → establish cbor args d ≡ (
        check_issue hr.issue
        >> (if d.stopped_first
            then err shutdown
            else await_traffic_start cbor (record { incoming = rest; sent = hello })))
unfolding establish connect_ebbflow await_hello_response check_hello write_all
establish-hello_response cbor args d hr hello w rest l c eh ew small e =
    let read = await-to_wire_message cbor (hello_response_v0 hr) w rest hello l ew small in
    rw (c.connects, c.keeps_alive, c.has_nodelay, c.shakes_hands)
      (rw (eh, c.writes, c.flushes, c.answers, e) (rw read refl))

-- The end of the dialogue, by the issue of the response and whether the stop signal came first.
abbrev pub answered :
    Option HelloResponseIssue → Bool → TlsStream → Result ConnectionError TlsStream
answered (some HelloResponseIssue.forbidden) stopped s = err forbidden
answered (some HelloResponseIssue.not_found) stopped s = err not_found
answered (some HelloResponseIssue.bad_request) stopped s = err bad_request
answered none true s = err shutdown
answered none false s = ok s

-- What Ebbflow sends after the response: a start of the traffic, where that is waited for.
abbrev pub IsFollowed : Cbor → Option HelloResponseIssue → Bool → Bytes → Bytes → Type 0
IsFollowed cbor none false after rest =
    (v : Bytes) × (to_wire_message cbor start_traffic_v0 ≡ ok v)
    × (length v ≤ 4 + max_message)
    × (after ≡ v ++ rest)
IsFollowed cbor _ _ after rest = Unit {0}

-- The hello of an endpoint's connection.
abbrev pub greeting : EndpointConnectionArgs → HelloV0
greeting args = record {
  key = args.key;
  endpoint_type = elim args.ctype [ Heap.ssh ↦ EndpointType.ssh | Heap.tls ↦ EndpointType.tls ];
  endpoint_value = args.endpoint;
  meta = ("version", version) ∷ [];
}

greeting-create_hello :
    (cbor : Cbor) (args : EndpointConnectionArgs) (t : EndpointConnectionType)
    → args.ctype ≡ t
    → create_hello cbor args ≡ map_err messaging (to_wire_message cbor (hello_v0 (greeting args)))
unfolding create_hello hello_of hello_new endpoint_type
greeting-create_hello cbor args Heap.ssh e = rw e refl
greeting-create_hello cbor args Heap.tls e = rw e refl

await_traffic_start-start :
    (cbor : Cbor) (after rest hello : Bytes)
    → IsLawful cbor
    → IsFollowed cbor none false after rest
    → await_traffic_start cbor (record { incoming = after; sent = hello })
      ≡ ok (record { incoming = rest; sent = hello })
unfolding await_traffic_start check_start
await_traffic_start-start cbor after rest hello l (v, e, small, same) =
    rw same (rw (await-to_wire_message cbor start_traffic_v0 v rest hello l e small) refl)

ended_so :
    (cbor : Cbor) (issue : Option HelloResponseIssue) (stopped : Bool) (after rest hello : Bytes)
    → IsLawful cbor
    → IsFollowed cbor issue stopped after rest
    → (check_issue issue
        >> (if stopped
            then err shutdown
            else await_traffic_start cbor (record { incoming = after; sent = hello })))
      ≡ answered issue stopped (record { incoming = rest; sent = hello })
unfolding check_issue refusal
ended_so cbor (some HelloResponseIssue.forbidden) stopped after rest hello l f = refl
ended_so cbor (some HelloResponseIssue.not_found) stopped after rest hello l f = refl
ended_so cbor (some HelloResponseIssue.bad_request) stopped after rest hello l f = refl
ended_so cbor none true after rest hello l f = refl
ended_so cbor none false after rest hello l f = await_traffic_start-start cbor after rest hello l f

-- On a working network, with a codec that reads back what it wrote, when the hello of the
-- connection's arguments can be encoded and Ebbflow answers it with a response within the
-- safeguard: the outcome is the error that the response's issue names; without an issue it is a
-- shutdown if the stop signal came first; and otherwise, if a start of the traffic within the
-- safeguard follows, it is the stream with what comes after that, and exactly the hello sent.
pub establish-to_wire_message :
    (cbor : Cbor) (args : EndpointConnectionArgs) (d : Dial) (hr : HelloResponseV0)
    (hello w after rest : Bytes)
    → IsLawful cbor
    → IsConnected d
    → to_wire_message cbor (hello_v0 (greeting args)) ≡ ok hello
    → to_wire_message cbor (hello_response_v0 hr) ≡ ok w
    → length w ≤ 4 + max_message
    → d.incoming ≡ w ++ after
    → IsFollowed cbor hr.issue d.stopped_first after rest
    → establish cbor args d
      ≡ answered hr.issue d.stopped_first (record { incoming = rest; sent = hello })
establish-to_wire_message cbor args d hr hello w after rest l c eh ew small e f =
    let says : create_hello cbor args ≡ ok hello =
      greeting-create_hello cbor args args.ctype refl ∙ ap (map_err messaging) eh in
    establish-hello_response cbor args d hr hello w after l c says ew small e
    ∙ ended_so cbor hr.issue d.stopped_first after rest hello l f
