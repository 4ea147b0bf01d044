-- ===== src/Connection/Framing.antt =====
-- `await_message` on a stream: it reads one frame and leaves what follows, and never reads a frame
-- above the safeguard.
use mathlib.Core.List.{append_assoc}
use ebbflow.Prelude.{
  ℕ, ◌+◌, ◌%◌, ◌^◌, ◌≤◌, ◌≡◌, sym, ap, ◌∙◌, ◌++◌, arith, ltb, false, length, drop, length-append,
  length-drop, take-length-append, drop-length-append, Bool-cases, inl, inr,
}
use ebbflow.Prelude.Result.{ok, >>=-eq-ok, map_err}
use ebbflow.Prelude.Bytes.{
  Bytes, to_be_bytes, from_be_bytes, from-to_be_bytes, length_of_to_be_bytes, length-to_be_bytes,
  drop-to_be_bytes,
}
use ebbflow.Messaging.{
  Message, Cbor, message_id, to_wire_message, from_wire_without_the_length_prefix,
}
use ebbflow.Messaging.Wire.{to_wire_message-eq_ok}
use ebbflow.Messaging.RoundTrip.{IsLawful, from-to_wire_message}
use ebbflow.Connection.Stream.{messaging, TlsStream, read_exact, await_message, max_message}

abbrev stream : Bytes → Bytes → TlsStream
stream incoming sent = record { incoming = incoming; sent = sent }

read_exact-append :
    (b rest sent : Bytes)
    → read_exact (length b) (stream (b ++ rest) sent) ≡ ok (b, stream rest sent)
unfolding read_exact
read_exact-append b rest sent =
    let long : ltb (length (b ++ rest)) (length b) ≡ false = ground (arith, length-append b rest) in
    rw long (rw (take-length-append b rest, drop-length-append b rest))

read_exact-eq_ok :
    (n : ℕ) (s : TlsStream) (b : Bytes) (s' : TlsStream)
    → read_exact n s ≡ ok (b, s')
    → (length s.incoming ≡ n + length s'.incoming) × (s'.sent ≡ s.sent)
unfolding read_exact
read_exact-eq_ok n s b s' h = ground (arith, length-drop n s.incoming)

frame-read :
    (cbor : Cbor) (n : ℕ) (body rest sent : Bytes) (m : Message)
    → n ≡ length body
    → n ≤ max_message
    → from_wire_without_the_length_prefix cbor body ≡ ok m
    → await_message cbor (stream (to_be_bytes n ++ (body ++ rest)) sent) ≡ ok (m, stream rest sent)
unfolding await_message
frame-read cbor n body rest sent m e le d =
    let head : read_exact 4 (stream (to_be_bytes n ++ (body ++ rest)) sent)
        ≡ ok (to_be_bytes n, stream (body ++ rest) sent) =
      ap (λ k. read_exact k (stream (to_be_bytes n ++ (body ++ rest)) sent))
        (sym (length_of_to_be_bytes n))
      ∙ read_exact-append (to_be_bytes n) (body ++ rest) sent in
    let small : ltb max_message n ≡ false = ground arith in
    rw head (
      rw (from-to_be_bytes n (omega arith))
        (rw small (rw (e, read_exact-append body rest sent) (rw d))))

-- With a codec that reads back what it wrote, what `to_wire_message` wrote, if it is within the
-- safeguard, is read back from the front of any stream, and what follows it is left for the next
-- read.
pub await-to_wire_message :
    (cbor : Cbor) (m : Message) (w rest sent : Bytes)
    → IsLawful cbor
    → to_wire_message cbor m ≡ ok w
    → length w ≤ 4 + max_message
    → await_message cbor (stream (w ++ rest) sent) ≡ ok (m, stream rest sent)
await-to_wire_message cbor m w rest sent l h le =
    let (body, p, q) = to_wire_message-eq_ok cbor m w h in
    let id = to_be_bytes (message_id m) in
    let sizes : length (id ++ body) ≡ 4 + length body = length-to_be_bytes (message_id m) body in
    let n = (4 + length body % 2 ^ 32) % 2 ^ 32 in
    let total : length w ≡ 4 + length (id ++ body) =
      ap length q ∙ length-to_be_bytes n (id ++ body) in
    let decoded : from_wire_without_the_length_prefix cbor (id ++ body) ≡ ok m =
      sym (
        ap (from_wire_without_the_length_prefix cbor)
          (ap (drop 4) q ∙ drop-to_be_bytes n (id ++ body)))
      ∙ from-to_wire_message cbor m w l h in
    ap (λ b. await_message cbor (stream (b ++ rest) sent)) q
    ∙ ap (λ b. await_message cbor (stream b sent)) (append_assoc (to_be_bytes n) (id ++ body) rest)
    ∙ frame-read cbor n (id ++ body) rest sent m (omega arith) (omega arith) decoded

-- A message that `await_message` returns took a frame of at most the safeguard off the stream, and
-- nothing was written.
pub await_message_bounded :
    (cbor : Cbor) (s s' : TlsStream) (m : Message)
    → await_message cbor s ≡ ok (m, s')
    → (length s'.incoming + 4 ≤ length s.incoming)
      × (length s.incoming ≤ length s'.incoming + 4 + max_message)
      × (s'.sent ≡ s.sent)
unfolding await_message
await_message_bounded cbor s s' m h =
    let (r1, p1, q1) = >>=-eq-ok (read_exact 4 s) _ h in
    elim (Bool-cases (ltb max_message (from_be_bytes r1.0))) [
      | inl big ↦ cc (rw big at q1)
      | inr fits ↦
          let (r2, p2, q2) = >>=-eq-ok (read_exact (from_be_bytes r1.0) r1.1) _ (rw fits at q1) in
          let (m', p3, q3) =
            >>=-eq-ok (map_err messaging (from_wire_without_the_length_prefix cbor r2.0)) _ q2 in
          let f1 = read_exact-eq_ok 4 s r1.0 r1.1 p1 in
          let f2 = read_exact-eq_ok (from_be_bytes r1.0) r1.1 r2.0 r2.1 p2 in
          let last : r2.1 ≡ s' = cc q3 in
          let rest = ap (λ (t : TlsStream). length t.incoming) last in
          (
            omega (arith, f1.0, f2.0, rest),
            ground (arith, f1.0, f2.0, rest, fits),
            sym (ap (λ (t : TlsStream). t.sent) last) ∙ f2.1 ∙ f1.1,
          )
    ]
