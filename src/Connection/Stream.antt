-- ===== src/Connection/Stream.antt =====
-- The errors of a connection, the byte stream from and to Ebbflow, and `await_message`.
use ebbflow.Prelude.{ℕ, ◌*◌, String, ◌++◌, ltb, length, take, drop, if◌then◌else◌}
use ebbflow.Prelude.Result.{Result, ok, err, ◌>>=◌, map_err}
use ebbflow.Prelude.Bytes.{Bytes, from_be_bytes}
use ebbflow.Messaging.{MessageError, internal, Message, Cbor, from_wire_without_the_length_prefix}

-- An I/O error is known by its text.
pub data ConnectionError : Type 0 where
  io : String → ConnectionError
  timeout : String → ConnectionError
  messaging : MessageError → ConnectionError
  bad_request unexpected_message forbidden not_found shutdown : ConnectionError
  multiple : String → ConnectionError

-- What a future under a timeout comes to.
pub data Timed (A : Type 0) : Type 0 where
  in_time : A → Timed A
  elapsed : Timed A

-- `tol`, `tos`, `toss`: they differ in the time that they allow.
abbrev pub timed : {A : Type 0} → Timed A → String → Result ConnectionError A
timed (in_time a) msg = ok a
timed elapsed msg = err (timeout msg)

abbrev pub io_result : {A : Type 0} → Result String A → Result ConnectionError A
io_result = map_err io

-- A stream: the bytes that still arrive before it ends, and those that were written to it.
pub record TlsStream : Type 0 where
  pub incoming : Bytes
  pub sent : Bytes

-- `read_exact`: the stream ends early if fewer bytes arrive.
unfoldable pub read_exact : ℕ → TlsStream → Result ConnectionError (Bytes × TlsStream)
read_exact n s =
    if ltb (length s.incoming) n
    then err (io "early eof")
    else ok (take n s.incoming, record s { incoming = drop n s.incoming })

-- `write_all`, when it succeeds
unfoldable pub write_all : Bytes → TlsStream → TlsStream
write_all b s = record s { sent = s.sent ++ b }

abbrev pub max_message : ℕ
max_message = 200 * 1024

unfoldable pub await_message : Cbor → TlsStream → Result ConnectionError (Message × TlsStream)
await_message cbor s = do
  (lenbuf, s1) ← read_exact 4 s
  let len = from_be_bytes lenbuf
  if ltb max_message len then err (messaging (internal "message too big safeguard")) else do
    (msgbuf, s2) ← read_exact len s1
    m ← map_err messaging (from_wire_without_the_length_prefix cbor msgbuf)
    ok (m, s2)
