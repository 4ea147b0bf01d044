-- ===== src/Connection/Copy/Progress.antt =====
-- Until a direction ends, the reader or the writer can go on without an error.
use ebbflow.Prelude.{
  ℕ, suc, ◌<◌, ◌≡◌, refl, arith, true, leb, [], ◌∷◌, Option, none, some, length, inl, inr, ◌⊎◌,
}
use ebbflow.Prelude.Result
use ebbflow.Prelude.Bytes.{Bytes}
use ebbflow.Connection.Copy.{
  Copy, Phase, reading, writing, flushing, ended, CopyEvent, read, write, flush, received,
  left_to_write, sent_part, advance, copy_step,
}
use ebbflow.Connection.Copy.Measure.{measure, IsLess, copy_step-IsLess}

-- The event by which the direction goes on, a byte at a time.
next_read_size : Bytes → ℕ
next_read_size [] = 0
next_read_size (b ∷ rest) = 1

abbrev pub next_event : Phase → Bytes → CopyEvent
unfolding next_read_size
next_event reading incoming = read (next_read_size incoming)
next_event (writing buf) incoming = write 1
next_event flushing incoming = flush
next_event (ended r) incoming = flush

-- Not on an error, with something to write when writing.
abbrev pub IsFine : Phase → Type 0
IsFine (writing buf) = 0 < length buf
IsFine (ended (Result.err e)) = ⊥
IsFine _ = Unit

abbrev pub GoesOn : Option Copy → Type 0
GoesOn none = ⊥
GoesOn (some c) = IsFine c.phase

IsFine-left_to_write : (buf : Bytes) → IsFine (left_to_write buf)
unfolding left_to_write
IsFine-left_to_write [] = tt
IsFine-left_to_write (b ∷ rest) = omega arith

long : (rest : Bytes) → leb 1 (suc (length rest)) ≡ true
long rest = ground arith

read-GoesOn :
    (c : Copy) (incoming : Bytes)
    → c.incoming ≡ incoming
    → GoesOn (received c (next_read_size incoming))
unfolding received next_read_size
read-GoesOn c [] e = rw e tt
read-GoesOn c (b ∷ rest) e = rw e (rw (long rest) (omega arith))

write-GoesOn : (c : Copy) (buf : Bytes) → 0 < length buf → GoesOn (sent_part c buf 1)
unfolding sent_part
write-GoesOn c [] h = absurd (omega arith)
write-GoesOn c (b ∷ rest) h = rw (long rest) (IsFine-left_to_write rest)

advance-GoesOn :
    (phase : Phase) (c : Copy)
    → IsFine phase
    → (phase ≡ ended (Result.ok tt)) ⊎ GoesOn (advance phase (next_event phase c.incoming) c)
unfolding advance next_event next_read_size
advance-GoesOn reading c f = inr (read-GoesOn c c.incoming refl)
advance-GoesOn (writing buf) c f = inr (write-GoesOn c buf f)
advance-GoesOn flushing c f = inr tt
advance-GoesOn (ended (Result.ok u)) c f = inl refl
advance-GoesOn (ended (Result.err e)) c f = elim f [ ]

GoesOn-some :
    (o : Option Copy) (bound : ℕ)
    → GoesOn o
    → IsLess bound o
    → (c : Copy) × (o ≡ some c) × IsFine c.phase × (measure c < bound)
GoesOn-some none bound g l = elim g [ ]
GoesOn-some (some c) bound g l = (c, refl, g, l)

-- A direction that has not ended has an event that occurs without an error.
pub copy_step-goes_on :
    (c : Copy)
    → IsFine c.phase
    → (c.phase ≡ ended (Result.ok tt))
      ⊎ ((c' : Copy) × (copy_step (next_event c.phase c.incoming) c ≡ some c')
          × IsFine c'.phase
          × (measure c' < measure c))
unfolding copy_step
copy_step-goes_on c f = elim (advance-GoesOn c.phase c f) [
  | inl e ↦ inl e
  | inr g ↦ inr (GoesOn-some _ (measure c) g (copy_step-IsLess (next_event c.phase c.incoming) c))
]
