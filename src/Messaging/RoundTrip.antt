-- ===== src/Messaging/RoundTrip.antt =====
-- What `to_wire_message` wrote, the decoder reads back.
use ebbflow.Prelude.{
  ℕ, ◌+◌, ◌%◌, ◌^◌, ◌<◌, ◌≡◌, refl, ap, ◌∙◌, ◌++◌, some, arith, ltb, length, drop, false,
}
use ebbflow.Prelude.Result.{ok, ok_or, ok_or-eq_ok}
use ebbflow.Prelude.Bytes.{
  Bytes, to_be_bytes, from-to_be_bytes, take-to_be_bytes, drop-to_be_bytes, length-to_be_bytes,
}
use ebbflow.Messaging.{
  Message, parse, Cbor, Codec, hello_v0, status_request_v0, status_response_v0,
  enable_disable_request_v0, enable_disable_response_v0, hello_response_v0, start_traffic_v0,
  start_traffic_response_v0, message_id, payload, to_wire_message, from_payload,
  from_wire_without_the_length_prefix,
}
use ebbflow.Messaging.Wire.{message_id-lt, to_wire_message-eq_ok}

-- Serde's promise for derived instances: what was serialised deserialises to the same value.
pub record IsLawfulCodec {A : Type 0} (c : Codec A) : Type 0 where
  pub reads_back : (x : A) (b : Bytes) → c.to_vec x ≡ some b → c.from_slice b ≡ some x

pub record IsLawful (cbor : Cbor) : Type 0 where
  pub hello : IsLawfulCodec cbor.hello
  pub status_response : IsLawfulCodec cbor.status_response
  pub enable_disable_request : IsLawfulCodec cbor.enable_disable_request
  pub hello_response : IsLawfulCodec cbor.hello_response
  pub start_traffic_response : IsLawfulCodec cbor.start_traffic_response

from_slice-to_vec :
    {A : Type 0} (c : Codec A) (x : A) (b : Bytes)
    → IsLawfulCodec c
    → ok_or (c.to_vec x) parse ≡ ok b
    → c.from_slice b ≡ some x
from_slice-to_vec c x b l h = l.reads_back x b (ok_or-eq_ok (c.to_vec x) parse b h)

from_payload-payload :
    (cbor : Cbor) (m : Message) (body : Bytes)
    → IsLawful cbor
    → payload cbor m ≡ ok body
    → from_payload cbor (message_id m) body ≡ ok m
unfolding from_payload message_id payload
from_payload-payload cbor (hello_v0 x) body l h = rw (from_slice-to_vec cbor.hello x body l.hello h)
from_payload-payload cbor status_request_v0 body l h = refl
from_payload-payload cbor (status_response_v0 x) body l h =
    rw (from_slice-to_vec cbor.status_response x body l.status_response h)
from_payload-payload cbor (enable_disable_request_v0 x) body l h =
    rw (from_slice-to_vec cbor.enable_disable_request x body l.enable_disable_request h)
from_payload-payload cbor enable_disable_response_v0 body l h = refl
from_payload-payload cbor (hello_response_v0 x) body l h =
    rw (from_slice-to_vec cbor.hello_response x body l.hello_response h)
from_payload-payload cbor start_traffic_v0 body l h = refl
from_payload-payload cbor (start_traffic_response_v0 x) body l h =
    rw (from_slice-to_vec cbor.start_traffic_response x body l.start_traffic_response h)

from_wire-append :
    (cbor : Cbor) (id : ℕ) (body : Bytes)
    → id < 2 ^ 32
    → from_wire_without_the_length_prefix cbor (to_be_bytes id ++ body) ≡ from_payload cbor id body
unfolding from_wire_without_the_length_prefix
from_wire-append cbor id body h =
    let long : ltb (length (to_be_bytes id ++ body)) 4 ≡ false =
      ground (arith, length-to_be_bytes id body) in
    rw long (rw (take-to_be_bytes id body, drop-to_be_bytes id body, from-to_be_bytes id h))

-- With a codec that reads back what it wrote, the bytes after the length prefix decode to the
-- message that was encoded.
pub from-to_wire_message :
    (cbor : Cbor) (m : Message) (w : Bytes)
    → IsLawful cbor
    → to_wire_message cbor m ≡ ok w
    → from_wire_without_the_length_prefix cbor (drop 4 w) ≡ ok m
from-to_wire_message cbor m w l h =
    let (body, p, q) = to_wire_message-eq_ok cbor m w h in
    let n = (4 + length body % 2 ^ 32) % 2 ^ 32 in
    let rest = to_be_bytes (message_id m) ++ body in
    ap (λ b. from_wire_without_the_length_prefix cbor (drop 4 b)) q
    ∙ ap (from_wire_without_the_length_prefix cbor) (drop-to_be_bytes n rest)
    ∙ from_wire-append cbor (message_id m) body (message_id-lt m)
    ∙ from_payload-payload cbor m body l p
