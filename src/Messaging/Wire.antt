-- ===== src/Messaging/Wire.antt =====
-- The wire format: what `to_wire_message` writes, and what the decoder makes of any buffer.
use ebbflow.Prelude.{
  ℕ, ◌+◌, ◌%◌, ◌^◌, ◌<◌, ◌≡◌, ap, ◌++◌, arith, ltb, length, take, Bool-cases, inl, inr,
}
use ebbflow.Prelude.Result.{ok, >>=-eq-ok}
use ebbflow.Prelude.Bytes.{Bytes, to_be_bytes, from_be_bytes, length_of_to_be_bytes}
use ebbflow.Messaging.{
  Message, Cbor, message_id, payload, to_wire_message, from_payload,
  from_wire_without_the_length_prefix,
}

pub message_id-lt : (m : Message) → message_id m < 2 ^ 32
unfolding message_id
message_id-lt m = ground arith

-- A message on the wire is its length, its id and its payload; the length counts what follows it.
pub to_wire_message-eq_ok :
    (cbor : Cbor) (m : Message) (w : Bytes)
    → to_wire_message cbor m ≡ ok w
    → (body : Bytes) × (payload cbor m ≡ ok body)
      × (w
          ≡ to_be_bytes ((4 + length body % 2 ^ 32) % 2 ^ 32)
            ++ (to_be_bytes (message_id m) ++ body))
unfolding to_wire_message
to_wire_message-eq_ok cbor m w h =
    let (body, p, q) = >>=-eq-ok (payload cbor m) _ h in
    let n = (length (to_be_bytes (message_id m)) % 2 ^ 32 + length body % 2 ^ 32) % 2 ^ 32 in
    let size : n ≡ (4 + length body % 2 ^ 32) % 2 ^ 32 =
      omega (arith, length_of_to_be_bytes (message_id m)) in
    (body, p, cc (ap (λ k. to_be_bytes k ++ (to_be_bytes (message_id m) ++ body)) size))

message_id-from_payload :
    (cbor : Cbor) (id : ℕ) (body : Bytes) (m : Message)
    → from_payload cbor id body ≡ ok m
    → message_id m ≡ id
unfolding from_payload message_id
message_id-from_payload cbor id body m h = ground arith

-- Whatever the buffer, a message that the decoder returns has the id that the buffer names.
message_id-from_wire :
    (cbor : Cbor) (buf : Bytes) (m : Message)
    → from_wire_without_the_length_prefix cbor buf ≡ ok m
    → message_id m ≡ from_be_bytes (take 4 buf)
unfolding from_wire_without_the_length_prefix
message_id-from_wire cbor buf m h = elim (Bool-cases (ltb (length buf) 4)) [
  | inl short ↦ cc (rw short at h)
  | inr long ↦ message_id-from_payload cbor _ _ m (rw long at h)
]
