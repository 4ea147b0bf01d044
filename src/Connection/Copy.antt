-- ===== src/Connection/Copy.antt =====
-- `copy_bytes_ez`: the loop that copies one direction of a connection, as the events of its reader
-- and writer move it, one at a time.
pub mod Carried
pub mod Measure
pub mod Progress
use ebbflow.Prelude.{
  ℕ, zero, suc, ◌*◌, String, Bool, true, false, ◌&&◌, List, [], ◌∷◌, ◌++◌, Option, none, some, leb,
  length, take, drop, if◌then◌else◌,
}
use ebbflow.Prelude.Result.{Result, ok, err}
use ebbflow.Prelude.Bytes.{Bytes}
use ebbflow.Connection.Stream.{ConnectionError, io}

abbrev pub buffer_size : ℕ
buffer_size = 10 * 1024

-- Where the loop waits: for `read`, in `write_all` with the bytes it has left, for `flush`.
pub data Phase : Type 0 where
  reading : Phase
  writing : Bytes → Phase
  flushing : Phase
  ended : Result ConnectionError (Unit {0}) → Phase

-- The bytes that the reader still gets before its end, those written, and where the loop waits.
pub record Copy : Type 0 where
  pub incoming : Bytes
  pub written : Bytes
  pub phase : Phase

-- What the reader or the writer answers: `read` and one write of `write_all` say how many bytes.
pub data CopyEvent : Type 0 where
  read : ℕ → CopyEvent
  read_error : String → CopyEvent
  write : ℕ → CopyEvent
  write_error : String → CopyEvent
  flush : CopyEvent
  flush_error : String → CopyEvent

-- A read of no bytes is the end of the stream; another is at most what the buffer holds.
unfoldable pub received : Copy → ℕ → Option Copy
received c zero = elim c.incoming [
  | [] ↦ some (record c { phase = ended (ok tt) })
  | b ∷ rest ↦ none
]
received c (suc n) =
    if leb (suc n) buffer_size && leb (suc n) (length c.incoming)
    then some
        (record c { incoming = drop (suc n) c.incoming; phase = writing (take (suc n) c.incoming) })
    else none

unfoldable pub left_to_write : Bytes → Phase
left_to_write [] = flushing
left_to_write (b ∷ rest) = writing (b ∷ rest)

unfoldable pub sent_part : Copy → Bytes → ℕ → Option Copy
unfolding left_to_write
sent_part c buf zero = none
sent_part c buf (suc n) =
    if leb (suc n) (length buf)
    then some (record c {
      written = c.written ++ take (suc n) buf;
      phase = left_to_write (drop (suc n) buf);
    })
    else none

-- Nothing for an event that cannot occur where the loop waits.
unfoldable pub advance : Phase → CopyEvent → Copy → Option Copy
unfolding received sent_part
advance reading (read n) c = received c n
advance reading (read_error e) c = some (record c { phase = ended (err (io e)) })
advance (writing buf) (write n) c = sent_part c buf n
advance (writing buf) (write_error e) c = some (record c { phase = ended (err (io e)) })
advance flushing flush c = some (record c { phase = reading })
advance flushing (flush_error e) c = some (record c { phase = ended (err (io e)) })
advance phase event c = none

unfoldable pub copy_step : CopyEvent → Copy → Option Copy
unfolding advance
copy_step event c = advance c.phase event c

unfoldable pub has_ended : Copy → Bool
has_ended c = elim c.phase [ ended r ↦ true | _ ↦ false ]
