-- ===== src/Connection/Copy/Measure.antt =====
-- Every event of a direction brings it closer to its end.
use ebbflow.Prelude.{
  ℕ, zero, suc, ◌+◌, ◌*◌, ◌≤◌, ◌<◌, arith, ◌&&◌, [], ◌∷◌, Option, none, some, leb, length, drop,
  length-take, length-drop, Bool-cases, inl, inr,
}
use ebbflow.Prelude.Result
use ebbflow.Prelude.Bytes.{Bytes}
use ebbflow.Connection.Copy.{
  Copy, Phase, reading, writing, flushing, ended, CopyEvent, read, read_error, write, write_error,
  flush, flush_error, buffer_size, received, left_to_write, sent_part, advance, copy_step,
}

abbrev pub weight : Phase → ℕ
weight reading = 1
weight (writing buf) = 2 + length buf
weight flushing = 2
weight (ended r) = 0

abbrev pub measure : Copy → ℕ
measure c = 3 * length c.incoming + weight c.phase

abbrev pub IsLess : ℕ → Option Copy → Type 0
IsLess bound none = Unit
IsLess bound (some c) = measure c < bound

weight-left_to_write : (buf : Bytes) → weight (left_to_write buf) ≤ 2 + length buf
unfolding left_to_write
weight-left_to_write [] = omega arith
weight-left_to_write (b ∷ rest) = omega arith

end-IsLess :
    (c : Copy) (incoming : Bytes)
    → IsLess
        (3 * length c.incoming + 1)
        (elim incoming [ [] ↦ some (record c { phase = ended (Result.ok tt) }) | b ∷ rest ↦ none ])
end-IsLess c [] = omega arith
end-IsLess c (b ∷ rest) = tt

received-IsLess : (c : Copy) (n : ℕ) → IsLess (3 * length c.incoming + 1) (received c n)
unfolding received
received-IsLess c zero = end-IsLess c c.incoming
received-IsLess c (suc n) =
    elim (Bool-cases (leb (suc n) buffer_size && leb (suc n) (length c.incoming))) [
      | inl fits ↦
          rw fits (ground (arith, length-take (suc n) c.incoming, length-drop (suc n) c.incoming))
      | inr short ↦ rw short tt
    ]

sent_part-IsLess :
    (c : Copy) (buf : Bytes) (n : ℕ)
    → IsLess (3 * length c.incoming + (2 + length buf)) (sent_part c buf n)
unfolding sent_part
sent_part-IsLess c buf zero = tt
sent_part-IsLess c buf (suc n) = elim (Bool-cases (leb (suc n) (length buf))) [
  | inl fits ↦
      rw fits (ground (arith, weight-left_to_write (drop (suc n) buf), length-drop (suc n) buf))
  | inr short ↦ rw short tt
]

advance-IsLess :
    (phase : Phase) (event : CopyEvent) (c : Copy)
    → IsLess (3 * length c.incoming + weight phase) (advance phase event c)
unfolding advance
advance-IsLess reading (read n) c = received-IsLess c n
advance-IsLess reading (read_error e) c = omega arith
advance-IsLess (writing buf) (write n) c = sent_part-IsLess c buf n
advance-IsLess (writing buf) (write_error e) c = omega arith
advance-IsLess flushing flush c = omega arith
advance-IsLess flushing (flush_error e) c = omega arith
advance-IsLess reading (write n) c = tt
advance-IsLess reading (write_error e) c = tt
advance-IsLess reading flush c = tt
advance-IsLess reading (flush_error e) c = tt
advance-IsLess (writing buf) (read n) c = tt
advance-IsLess (writing buf) (read_error e) c = tt
advance-IsLess (writing buf) flush c = tt
advance-IsLess (writing buf) (flush_error e) c = tt
advance-IsLess flushing (read n) c = tt
advance-IsLess flushing (read_error e) c = tt
advance-IsLess flushing (write n) c = tt
advance-IsLess flushing (write_error e) c = tt
advance-IsLess (ended r) event c = tt

-- An event that occurs lowers the measure.
pub copy_step-IsLess : (event : CopyEvent) (c : Copy) → IsLess (measure c) (copy_step event c)
unfolding copy_step
copy_step-IsLess event c = advance-IsLess c.phase event c
