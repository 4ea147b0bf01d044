-- ===== src/Connection/Dialogue.antt =====
-- What was said and heard when `establish` comes to traffic.
use ebbflow.Prelude.{◌≡◌, sym, ap, ◌∙◌, [], none, if◌then◌else◌, arith}
use ebbflow.Prelude.Result.{ok, err, >>=-eq-ok}
use ebbflow.Prelude.Bytes.{Bytes}
use ebbflow.Messaging.{Message, HelloResponseV0, hello_response_v0, start_traffic_v0, Cbor}
use ebbflow.Connection.Stream.{shutdown, TlsStream, await_message, write_all, io_result}
use ebbflow.Connection.Framing.{await_message_bounded}
use ebbflow.Connection.Establish.{
  EndpointConnectionArgs, Dial, connect_ebbflow, create_hello, await_hello_response, check_hello,
  check_issue, check_start, await_traffic_start, establish,
}

-- The dialogue that precedes the proxied data, read from what Ebbflow sends.
pub record Dialogue (cbor : Cbor) (args : EndpointConnectionArgs) (d : Dial) (s : TlsStream)
    : Type 0 where
  pub hello : Bytes
  pub response : HelloResponseV0
  pub answered : TlsStream
  pub says : create_hello cbor args ≡ ok hello
  pub hears :
      await_message cbor (record { incoming = d.incoming; sent = hello })
      ≡ ok (hello_response_v0 response, answered)
  pub is_welcome : response.issue ≡ none
  pub begins : await_message cbor answered ≡ ok (start_traffic_v0, s)
  pub keeps : s.sent ≡ hello

check_hello-eq_ok :
    (m : Message)
    → check_hello m ≡ ok tt
    → (hr : HelloResponseV0) × (m ≡ hello_response_v0 hr) × (hr.issue ≡ none)
unfolding check_hello check_issue
check_hello-eq_ok m h = ground (arith, h)

check_start-eq_ok : (m : Message) → check_start m ≡ ok tt → m ≡ start_traffic_v0
unfolding check_start
check_start-eq_ok m h = ground (arith, h)

connect_ebbflow-eq_ok :
    (d : Dial) (s : TlsStream)
    → connect_ebbflow d ≡ ok s
    → s ≡ record { incoming = d.incoming; sent = [] }
unfolding connect_ebbflow
connect_ebbflow-eq_ok d s h = ground (arith, h)

await_hello_response-eq_ok :
    (cbor : Cbor) (d : Dial) (s s' : TlsStream) (m : Message)
    → await_hello_response cbor d s ≡ ok (m, s')
    → await_message cbor s ≡ ok (m, s')
unfolding await_hello_response
await_hello_response-eq_ok cbor d s s' m h = ground (arith, h)

await_traffic_start-eq_ok :
    (cbor : Cbor) (s s' : TlsStream)
    → await_traffic_start cbor s ≡ ok s'
    → await_message cbor s ≡ ok (start_traffic_v0, s')
unfolding await_traffic_start
await_traffic_start-eq_ok cbor s s' h =
    let (r, read, e) = >>=-eq-ok (await_message cbor s) _ h in
    let (u, checked, same) = >>=-eq-ok (check_start r.0) _ e in
    let begins : r.0 ≡ start_traffic_v0 = check_start-eq_ok r.0 checked in
    let last : r.1 ≡ s' = cc same in
    read ∙ ap (λ m. ok (m, r.1)) begins ∙ ap (λ t. ok (start_traffic_v0, t)) last

-- The dialogue from the values that its steps returned.
dialogue_of :
    (cbor : Cbor) (args : EndpointConnectionArgs) (d : Dial) (s s0 answered : TlsStream)
    (hello : Bytes) (m : Message)
    → s0 ≡ record { incoming = d.incoming; sent = [] }
    → create_hello cbor args ≡ ok hello
    → await_hello_response cbor d (write_all hello s0) ≡ ok (m, answered)
    → check_hello m ≡ ok tt
    → (if d.stopped_first then err shutdown else await_traffic_start cbor answered) ≡ ok s
    → Dialogue cbor args d s
unfolding write_all
dialogue_of cbor args d s s0 answered hello m fresh says hears checks goes_on =
    let (hr, is_response, welcome) = check_hello-eq_ok m checks in
    let asked : write_all hello s0 ≡ record { incoming = d.incoming; sent = hello } =
      ap (write_all hello) fresh in
    let heard =
      ap (await_message cbor) (sym asked)
      ∙ await_hello_response-eq_ok cbor d (write_all hello s0) answered m hears in
    let started : await_traffic_start cbor answered ≡ ok s = ground (arith, goes_on) in
    let begins = await_traffic_start-eq_ok cbor answered s started in
    record {
      hello = hello;
      response = hr;
      answered = answered;
      says = says;
      hears = heard ∙ ap (λ k. ok (k, answered)) is_response;
      is_welcome = welcome;
      begins = begins;
      keeps =
          (await_message_bounded cbor answered s start_traffic_v0 begins).2
          ∙ (await_message_bounded cbor _ answered m heard).2;
    }

-- A dialogue that comes to the proxied data was as it should be.
pub establish-eq_ok :
    (cbor : Cbor) (args : EndpointConnectionArgs) (d : Dial) (s : TlsStream)
    → establish cbor args d ≡ ok s
    → Dialogue cbor args d s
unfolding establish write_all
establish-eq_ok cbor args d s h =
    let (s0, connects, e1) = >>=-eq-ok (connect_ebbflow d) _ h in
    let (hello, says, e2) = >>=-eq-ok (create_hello cbor args) _ e1 in
    let (u1, writes, e3) = >>=-eq-ok (io_result d.write_hello) _ e2 in
    let (u2, flushes, e4) = >>=-eq-ok (io_result d.flush_hello) _ e3 in
    let (r, reads, e5) = >>=-eq-ok (await_hello_response cbor d _) _ e4 in
    let (u3, checks, e6) = >>=-eq-ok (check_hello r.0) _ e5 in
    dialogue_of cbor args d s s0 r.1 hello r.0 (connect_ebbflow-eq_ok d s0 connects) says reads
      checks e6
