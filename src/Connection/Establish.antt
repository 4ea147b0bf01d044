-- ===== src/Connection/Establish.antt =====
-- `establish_ebbflow_connection_and_await_traffic_signal`: dialling Ebbflow, the hello and its
-- response, and the wait for traffic.
use ebbflow.Prelude.{String, Bool, List, [], Option, none, some, if◌then◌else◌}
use ebbflow.Prelude.Result.{Result, ok, err, ◌>>=◌, ◌>>◌, map_err}
use ebbflow.Prelude.Bytes.{Bytes}
use ebbflow.Messaging.{
  EndpointType, ssh, tls, Message, hello_v0, hello_response_v0, start_traffic_v0,
  HelloResponseIssue, Cbor, hello_new, to_wire_message,
}
use ebbflow.Daemon.Addrs.{SocketAddr}
use ebbflow.Daemon.Heap.{EndpointConnectionType}
use ebbflow.Daemon.Heap
use ebbflow.Connection.Stream.{
  ConnectionError, messaging, bad_request, unexpected_message, forbidden, not_found, shutdown,
  timeout, Timed, timed, io_result, TlsStream, write_all, await_message,
}

-- `EndpointConnectionArgs`, without the connector and the name and address of Ebbflow, which only
-- the TLS and TCP libraries read.
pub record EndpointConnectionArgs : Type 0 where
  pub endpoint : String
  pub key : String
  pub addrs : List SocketAddr
  pub ctype : EndpointConnectionType

-- What the network and the stop signal do while a connection is established.
pub record Dial : Type 0 where
  pub tcp : Timed (Result String (Unit {0}))
  pub keepalive : Result String (Unit {0})
  pub nodelay : Result String (Unit {0})
  pub handshake : Result String (Unit {0})
  pub write_hello : Result String (Unit {0})
  pub flush_hello : Result String (Unit {0})
  pub incoming : Bytes
  pub hello_in_time : Bool
  pub stopped_first : Bool

unfoldable pub connect_ebbflow : Dial → Result ConnectionError TlsStream
connect_ebbflow d = do
  connected ← timed d.tcp "connecting to ebbflow"
  io_result connected
  io_result d.keepalive
  io_result d.nodelay
  io_result d.handshake
  ok (record { incoming = d.incoming; sent = [] })

unfoldable pub endpoint_type : EndpointConnectionType → EndpointType
endpoint_type Heap.ssh = ssh
endpoint_type Heap.tls = tls

unfoldable pub hello_of : EndpointConnectionArgs → Message
unfolding endpoint_type hello_new
hello_of args = hello_v0 (hello_new args.key (endpoint_type args.ctype) args.endpoint)

unfoldable pub create_hello : Cbor → EndpointConnectionArgs → Result ConnectionError Bytes
unfolding hello_of
create_hello cbor args = map_err messaging (to_wire_message cbor (hello_of args))

unfoldable pub refusal : HelloResponseIssue → ConnectionError
refusal HelloResponseIssue.forbidden = forbidden
refusal HelloResponseIssue.not_found = not_found
refusal HelloResponseIssue.bad_request = bad_request

unfoldable pub check_issue : Option HelloResponseIssue → Result ConnectionError (Unit {0})
unfolding refusal
check_issue none = ok tt
check_issue (some i) = err (refusal i)

-- Anything but a hello response is unexpected.
unfoldable pub check_hello : Message → Result ConnectionError (Unit {0})
unfolding check_issue
check_hello (hello_response_v0 hr) = check_issue hr.issue
check_hello _ = err unexpected_message

unfoldable pub check_start : Message → Result ConnectionError (Unit {0})
check_start start_traffic_v0 = ok tt
check_start _ = err unexpected_message

unfoldable pub await_traffic_start : Cbor → TlsStream → Result ConnectionError TlsStream
unfolding check_start
await_traffic_start cbor s = do (m, s') ← await_message cbor s; check_start m; ok s'

-- The reply to the hello has a short timeout.
unfoldable pub await_hello_response :
    Cbor → Dial → TlsStream → Result ConnectionError (Message × TlsStream)
await_hello_response cbor d s =
    if d.hello_in_time
    then await_message cbor s
    else err (timeout "error waiting for hello response")

-- The stop signal and the wait for traffic race; the signal is polled first.
unfoldable pub establish : Cbor → EndpointConnectionArgs → Dial → Result ConnectionError TlsStream
unfolding connect_ebbflow create_hello write_all await_hello_response check_hello
establish cbor args d = do
  s ← connect_ebbflow d
  hello ← create_hello cbor args
  io_result d.write_hello
  io_result d.flush_hello
  (m, s') ← await_hello_response cbor d (write_all hello s)
  check_hello m
  if d.stopped_first then err shutdown else await_traffic_start cbor s'
