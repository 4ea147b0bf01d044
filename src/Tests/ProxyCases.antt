-- ===== src/Tests/ProxyCases.antt =====
-- The proxied data of a connection on concrete schedules.
use ebbflow.Prelude.{
  true, ◌≡◌, ◌∙◌, refl, ◌≤◌, ◌+◌, ◌*◌, ◌++◌, ◌⊎◌, [], ◌∷◌, some, none, length, arith, List,
}
use ebbflow.Prelude.Result.{Result, ok, err}
use ebbflow.Prelude.Bytes.{Bytes, to_be_bytes, from_be_bytes}
use ebbflow.Messaging.{
  hello_v0, start_traffic_v0, HelloResponseV0, hello_response_v0, message_id, payload,
  to_wire_message, hello_new, from_wire_without_the_length_prefix, from_payload,
}
use ebbflow.Connection.Stream.{ConnectionError, TlsStream, await_message, read_exact, write_all, io}
use ebbflow.Connection.Establish.{
  EndpointConnectionArgs, create_hello, hello_of, endpoint_type, check_issue, establish,
  check_start, await_traffic_start,
}
use ebbflow.Connection.Handshake.{
  IsConnected, greeting, establish-hello_response, establish-to_wire_message,
}
use ebbflow.Connection.Local.{
  connect_local, connect_from, configured, starttrafficresponse, answer,
  connect_local_with_ebbflow_communication,
}
use ebbflow.Connection.Copy.{
  reading, writing, read, write, write_error, flush, ended, copy_step, advance, received, sent_part,
  left_to_write, has_ended,
}
use ebbflow.Connection.Run.{
  add_idle, remove_idle, drop_idle_permit, add_active, remove_active, drop_max_permit, abort_proxy,
  Session, finished, stopped, jittersleep1p5, kill_active_delay, connection_task,
}
use ebbflow.Connection.Serves.{connection_task-was_stopped}
use ebbflow.Connection.Proxy.{
  Proxy, ProxyEvent, local2ebb, ebb2local, stop, delay_over, over, start, run_proxy, run_on,
  proxy_step, proxy_at, carry, with_to_ebbflow, with_to_local, settled, settle, either_ended,
}
use ebbflow.Connection.Proxy.Carried.{run_proxy-finished}
use ebbflow.Connection.Proxy.Ends.{run_proxy-ends}
use ebbflow.Connection.Delivers.{connected-delivers}
use ebbflow.Connection.Dialogue.{Dialogue}
use ebbflow.Connection.Whole.{IsProxied, run_proxy-IsProxied}
use ebbflow.Tests.Fixtures.{
  cbor, cbor-IsLawful, sample_args, sample_session, hello_to_vec_sample, response_to_vec, localhost,
  ready_to_vec,
}

-- The local service sends 7 8 9; Ebbflow sends 1 2 after the dialogue.
abbrev traffic : TlsStream
traffic = record { incoming = 1 ∷ 2 ∷ []; sent = 5 ∷ [] }

abbrev sends : Bytes
sends = 7 ∷ 8 ∷ 9 ∷ []

-- Ebbflow's bytes reach the local service while the local service's are still on their way; then
-- the local service stops reading.
abbrev schedule : List ProxyEvent
schedule =
    local2ebb (read 2)
    ∷ ebb2local (read 1)
    ∷ ebb2local (write 1)
    ∷ local2ebb (write 1)
    ∷ ebb2local flush
    ∷ ebb2local (read 1)
    ∷ ebb2local (write_error "reset")
    ∷ []

abbrev last : Proxy
last = record {
  to_ebbflow = record { incoming = 9 ∷ []; written = 5 ∷ 7 ∷ []; phase = writing (8 ∷ []) };
  to_local = record { incoming = []; written = 1 ∷ []; phase = ended (err (io "reset")) };
  stage = over (finished (ok tt));
}

runs : run_proxy schedule (start traffic sends) ≡ some last
unfolding run_proxy run_on proxy_step proxy_at carry with_to_ebbflow with_to_local settled settle
    either_ended has_ended copy_step advance received sent_part left_to_write start
runs = refl

abbrev no_error : Result ConnectionError (Unit {0})
no_error = ok tt

run_proxy-finished_example :
    (no_error ≡ ok tt)
    × ((last.to_ebbflow.written ≡ (5 ∷ []) ++ sends)
        ⊎ ((e : ConnectionError) × (last.to_ebbflow.phase ≡ ended (err e)))
        ⊎ (last.to_local.written ≡ 1 ∷ 2 ∷ [])
        ⊎ ((e : ConnectionError) × (last.to_local.phase ≡ ended (err e))))
run_proxy-finished_example = run_proxy-finished traffic sends schedule last no_error runs refl

run_proxy-ends_example : length schedule ≤ 3 * (length sends + 2) + 4
run_proxy-ends_example = run_proxy-ends traffic sends schedule last runs

-- A whole connection: Ebbflow welcomes it, starts the traffic and sends 1 2.
abbrev welcomes : HelloResponseV0
welcomes = record { issue = none }

abbrev welcome_wire : Bytes
welcome_wire = 0 ∷ 0 ∷ 0 ∷ 5 ∷ 0 ∷ 0 ∷ 0 ∷ 6 ∷ 0 ∷ []

abbrev begin_wire : Bytes
begin_wire = 0 ∷ 0 ∷ 0 ∷ 4 ∷ 0 ∷ 0 ∷ 0 ∷ 7 ∷ 1 ∷ 2 ∷ []

abbrev args : EndpointConnectionArgs
args = record sample_args { addrs = localhost ∷ [] }

abbrev session : Session
session = sample_session (welcome_wire ++ begin_wire)

abbrev hello_wire : Bytes
hello_wire = 0 ∷ 0 ∷ 0 ∷ 5 ∷ 0 ∷ 0 ∷ 0 ∷ 1 ∷ 1 ∷ []

says_hello : create_hello cbor args ≡ ok hello_wire
unfolding create_hello hello_of endpoint_type hello_new to_wire_message payload message_id
    to_be_bytes
says_hello = rw hello_to_vec_sample refl

writes_welcome : to_wire_message cbor (hello_response_v0 welcomes) ≡ ok welcome_wire
unfolding to_wire_message payload message_id to_be_bytes response_to_vec
writes_welcome = refl

abbrev opened : TlsStream
opened = record { incoming = 1 ∷ 2 ∷ []; sent = hello_wire }

begins : await_traffic_start cbor (record { incoming = begin_wire; sent = hello_wire }) ≡ ok opened
unfolding await_traffic_start await_message read_exact from_be_bytes
    from_wire_without_the_length_prefix from_payload check_start
begins = refl

greets : to_wire_message cbor (hello_v0 (greeting args)) ≡ ok hello_wire
unfolding to_wire_message payload message_id to_be_bytes
greets = rw hello_to_vec_sample refl

starts : to_wire_message cbor start_traffic_v0 ≡ ok (0 ∷ 0 ∷ 0 ∷ 4 ∷ 0 ∷ 0 ∷ 0 ∷ 7 ∷ [])
unfolding to_wire_message payload message_id to_be_bytes
starts = refl

dial-IsConnected : IsConnected session.dial
dial-IsConnected = record {
  connects = refl;
  keeps_alive = refl;
  has_nodelay = refl;
  shakes_hands = refl;
  writes = refl;
  flushes = refl;
  answers = refl;
}

establish-to_wire_message_example : establish cbor args session.dial ≡ ok opened
establish-to_wire_message_example =
    establish-to_wire_message cbor args session.dial welcomes hello_wire welcome_wire begin_wire
      (1 ∷ 2 ∷ []) cbor-IsLawful dial-IsConnected greets writes_welcome (omega arith) refl
      (_, starts, omega arith, refl)

establishes : establish cbor args session.dial ≡ ok opened
unfolding check_issue
establishes =
    establish-hello_response cbor args session.dial welcomes hello_wire welcome_wire begin_wire
      cbor-IsLawful dial-IsConnected says_hello writes_welcome (omega arith) refl
    ∙ begins

abbrev ready_wire : Bytes
ready_wire = 0 ∷ 0 ∷ 0 ∷ 5 ∷ 0 ∷ 0 ∷ 0 ∷ 8 ∷ 1 ∷ []

abbrev final : Proxy
final = record last {
  to_ebbflow = record last.to_ebbflow { written = hello_wire ++ (ready_wire ++ (7 ∷ [])) };
}

run_proxy-IsProxied_example : IsProxied cbor args session.dial sends final
unfolding connect_local_with_ebbflow_communication connect_local connect_from configured answer
    starttrafficresponse to_wire_message payload message_id to_be_bytes ready_to_vec write_all
    run_proxy run_on proxy_step proxy_at carry with_to_ebbflow with_to_local settled settle
    either_ended has_ended copy_step advance received sent_part left_to_write start
run_proxy-IsProxied_example =
    run_proxy-IsProxied cbor args session opened localhost sends schedule final establishes refl
      refl

connected-delivers_example :
    (es : List ProxyEvent) × (p : Proxy) × (run_proxy es (
        start
          (connect_local_with_ebbflow_communication cbor session.debug args session.attempt
            session.written opened).stream
          sends)
      ≡ some p)
    × (p.stage ≡ over (finished (ok tt)))
    × (d : Dialogue cbor args session.dial opened) × (ready : Bytes) × (starttrafficresponse cbor
          true
        ≡ ok ready)
    × (p.to_ebbflow.written ≡ d.hello ++ (ready ++ sends))
unfolding connect_local_with_ebbflow_communication connect_local connect_from configured answer
    starttrafficresponse to_wire_message payload message_id to_be_bytes ready_to_vec write_all
connected-delivers_example =
    connected-delivers cbor args session opened localhost sends establishes refl

-- The stop signal comes while the local service's bytes are on their way; the delay runs out.
abbrev told : Session
told = record session { proxied = stopped }

abbrev stops : List ProxyEvent
stops = local2ebb (read 2) ∷ stop ∷ local2ebb (write 1) ∷ delay_over ∷ []

abbrev cut : Proxy
cut = record {
  to_ebbflow = record {
    incoming = 9 ∷ [];
    written = hello_wire ++ (ready_wire ++ (7 ∷ []));
    phase = writing (8 ∷ []);
  };
  to_local = record { incoming = 1 ∷ 2 ∷ []; written = []; phase = reading };
  stage = over stopped;
}

connection_task-was_stopped_example :
    connection_task cbor args told
    ≡ add_idle
      ∷ remove_idle
      ∷ drop_idle_permit
      ∷ add_active
      ∷ jittersleep1p5 told kill_active_delay
      ∷ abort_proxy
      ∷ remove_active
      ∷ drop_max_permit
      ∷ []
unfolding connect_local_with_ebbflow_communication connect_local connect_from configured answer
    starttrafficresponse to_wire_message payload message_id to_be_bytes ready_to_vec write_all
    run_proxy run_on proxy_step proxy_at carry with_to_ebbflow with_to_local settled settle
    either_ended has_ended copy_step advance received sent_part left_to_write start
connection_task-was_stopped_example =
    connection_task-was_stopped cbor args told opened localhost sends stops cut refl establishes
      refl refl refl
