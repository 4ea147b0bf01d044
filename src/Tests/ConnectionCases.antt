-- ===== src/Tests/ConnectionCases.antt =====
-- Connections, their dialogue with Ebbflow and the local addresses on concrete inputs.
use ebbflow.Prelude.{◌≡◌, refl, ◌≤◌, true, false, [], ◌∷◌, some, arith, String}
use ebbflow.Prelude.Result.{ok, err}
use ebbflow.Prelude.Bytes.{Bytes, to_be_bytes}
use ebbflow.Messaging.{
  HelloResponseIssue, HelloResponseV0, hello_response_v0, message_id, payload, to_wire_message,
  hello_new,
}
use ebbflow.Daemon.Addrs.{SocketAddr}
use ebbflow.Connection.Stream.{ConnectionError, forbidden, in_time}
use ebbflow.Connection.Establish.{
  create_hello, hello_of, endpoint_type, check_issue, establish, refusal,
}
use ebbflow.Connection.Handshake.{IsConnected, establish-hello_response}
use ebbflow.Connection.Local.{Attempt, connect_local}
use ebbflow.Connection.LocalCases.{connect_local-settle, first_accepting, refusal_of}
use ebbflow.Connection.Run.{connection_task}
use ebbflow.Connection.Backoff.{slept, idle_held, max_held, connection_task-backs_off}
use ebbflow.Pool.Shape.{IsTask, connection_task-IsTask}
use ebbflow.Tests.Fixtures.{
  cbor, cbor-IsLawful, sample_args, sample_dial, sample_session, hello_to_vec_sample, success,
  response_to_vec, low-IsInRange, localhost,
}

abbrev localhost6 : SocketAddr
localhost6 = record { is_ipv4 = false; text = "[::1]:80" }

connection_task-IsTask_example : IsTask (connection_task cbor sample_args (sample_session []))
connection_task-IsTask_example = connection_task-IsTask cbor sample_args (sample_session [])

-- Ebbflow forbids the endpoint.
abbrev forbids : HelloResponseV0
forbids = record { issue = some HelloResponseIssue.forbidden }

abbrev forbids_wire : Bytes
forbids_wire = 0 ∷ 0 ∷ 0 ∷ 5 ∷ 0 ∷ 0 ∷ 0 ∷ 6 ∷ 2 ∷ []

abbrev hello_wire : Bytes
hello_wire = 0 ∷ 0 ∷ 0 ∷ 5 ∷ 0 ∷ 0 ∷ 0 ∷ 1 ∷ 1 ∷ []

creates_hello : create_hello cbor sample_args ≡ ok hello_wire
unfolding create_hello hello_of endpoint_type hello_new to_wire_message payload message_id
    to_be_bytes
creates_hello = rw hello_to_vec_sample refl

writes_forbids : to_wire_message cbor (hello_response_v0 forbids) ≡ ok forbids_wire
unfolding to_wire_message payload message_id to_be_bytes response_to_vec
writes_forbids = refl

dial-IsConnected : IsConnected (sample_dial forbids_wire)
dial-IsConnected = record {
  connects = refl;
  keeps_alive = refl;
  has_nodelay = refl;
  shakes_hands = refl;
  writes = refl;
  flushes = refl;
  answers = refl;
}

refuses : establish cbor sample_args (sample_dial forbids_wire) ≡ err forbidden
unfolding check_issue refusal
refuses =
    establish-hello_response cbor sample_args (sample_dial forbids_wire) forbids hello_wire
      forbids_wire [] cbor-IsLawful dial-IsConnected creates_hello writes_forbids (omega arith) refl

connection_task-backs_off_example :
    let task = connection_task cbor sample_args (sample_session forbids_wire) in
    (slept task ≤ 90_000) × (60_000 ≤ idle_held task) × (60_000 ≤ max_held task)
connection_task-backs_off_example =
    connection_task-backs_off cbor sample_args (sample_session forbids_wire) low-IsInRange forbidden
      refl refuses

-- Only the IPv6 address accepts.
accepts_v6 : SocketAddr → Attempt
accepts_v6 a = record {
  tcp = elim a.is_ipv4 [ true ↦ in_time (err "refused") | false ↦ in_time success ];
  keepalive = success;
  nodelay = success;
}

abbrev text_of : ConnectionError → String
text_of e = "error"

connect_local-settle_example :
    connect_local text_of accepts_v6 (localhost ∷ localhost6 ∷ []) ≡ ok localhost6
unfolding accepts_v6 first_accepting refusal_of
connect_local-settle_example = connect_local-settle text_of accepts_v6 (localhost ∷ localhost6 ∷ [])

abbrev ready_wire : Bytes
ready_wire = 0 ∷ 0 ∷ 0 ∷ 5 ∷ 0 ∷ 0 ∷ 0 ∷ 8 ∷ 1 ∷ []
