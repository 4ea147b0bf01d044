-- ===== src/Tests/WireCases.antt =====
-- The wire format and the frames of a stream on concrete messages.
use ebbflow.Prelude.{◌≡◌, refl, true, [], ◌∷◌, ◌++◌, arith}
use ebbflow.Prelude.Result.{ok}
use ebbflow.Prelude.Bytes.{Bytes, to_be_bytes}
use ebbflow.Messaging.{Message, start_traffic_response_v0, message_id, payload, to_wire_message}
use ebbflow.Connection.Stream.{TlsStream, await_message}
use ebbflow.Connection.Framing.{await-to_wire_message}
use ebbflow.Tests.Fixtures.{cbor, cbor-IsLawful, ready_to_vec}

abbrev ready : Message
ready = start_traffic_response_v0 (record { open_local_success_ready = true })

abbrev ready_wire : Bytes
ready_wire = 0 ∷ 0 ∷ 0 ∷ 5 ∷ 0 ∷ 0 ∷ 0 ∷ 8 ∷ 1 ∷ []

writes_ready : to_wire_message cbor ready ≡ ok ready_wire
unfolding to_wire_message payload message_id to_be_bytes ready_to_vec
writes_ready = refl

abbrev followed : TlsStream
followed = record { incoming = ready_wire ++ (7 ∷ []); sent = [] }

await-to_wire_message_example :
    await_message cbor followed ≡ ok (ready, record { incoming = 7 ∷ []; sent = [] })
await-to_wire_message_example =
    await-to_wire_message cbor ready ready_wire (7 ∷ []) [] cbor-IsLawful writes_ready (omega arith)
