-- ===== src/Connection/Copy/Carried.antt =====
-- What a direction wrote is what it read, in order, but for what it holds in its buffer.
use mathlib.Core.List.{append_assoc}
use ebbflow.Prelude.{
  ℕ, zero, suc, ◌≤◌, ◌<◌, ◌≡◌, refl, sym, ap, ◌∙◌, subst, arith, [], ◌∷◌, ◌++◌, Option, none, some,
  leb, length, take, drop, length-take, length-drop, take-append-drop, Bool-cases, inl, inr, ◌&&◌,
}
use ebbflow.Prelude.Result.{ok, err}
use ebbflow.Prelude.Bytes.{Bytes}
use ebbflow.Connection.Stream.{ConnectionError, io}
use ebbflow.Connection.Copy.{
  Copy, Phase, reading, writing, flushing, ended, CopyEvent, read, read_error, write, write_error,
  flush, flush_error, buffer_size, received, left_to_write, sent_part, advance, copy_step,
}

-- What the buffer holds in each phase; after an end of the stream, nothing is left at all.
abbrev pub IsHeld : Phase → Bytes → Bytes → Type 0
IsHeld reading held incoming = held ≡ []
IsHeld (writing buf) held incoming = (held ≡ buf) × (0 < length buf)
IsHeld flushing held incoming = held ≡ []
IsHeld (ended (ok u)) held incoming = (held ≡ []) × (incoming ≡ [])
IsHeld (ended (err e)) held incoming = Unit

pub record Carries (all : Bytes) (c : Copy) : Type 0 where
  pub held : Bytes
  pub whole : c.written ++ (held ++ c.incoming) ≡ all
  pub small : length held ≤ buffer_size
  pub accurate : IsHeld c.phase held c.incoming

abbrev pub Kept : Bytes → Option Copy → Type 0
Kept all none = Unit
Kept all (some c) = Carries all c

module _ (all : Bytes) where
  IsHeld-left_to_write : (buf incoming : Bytes) → IsHeld (left_to_write buf) buf incoming
  unfolding left_to_write
  IsHeld-left_to_write [] incoming = refl
  IsHeld-left_to_write (b ∷ rest) incoming = (refl, omega arith)

  end-Kept :
      (c : Copy) (incoming : Bytes)
      → c.incoming ≡ incoming
      → c.written ++ c.incoming ≡ all
      → Kept all
          (elim incoming [ [] ↦ some (record c { phase = ended (ok tt) }) | b ∷ rest ↦ none ])
  end-Kept c [] e whole = record {
    held = [];
    whole = whole;
    small = omega arith;
    accurate = (refl, e);
  }
  end-Kept c (b ∷ rest) e whole = tt

  received-Kept : (c : Copy) (n : ℕ) → c.written ++ c.incoming ≡ all → Kept all (received c n)
  unfolding received
  received-Kept c zero whole = end-Kept c c.incoming refl whole
  received-Kept c (suc n) whole =
      elim (Bool-cases (leb (suc n) buffer_size && leb (suc n) (length c.incoming))) [
        | inl fits ↦ rw fits (record {
          held = take (suc n) c.incoming;
          whole = ap (λ b. c.written ++ b) (take-append-drop (suc n) c.incoming) ∙ whole;
          small = ground (arith, length-take (suc n) c.incoming);
          accurate = (refl, ground (arith, length-take (suc n) c.incoming));
        })
        | inr short ↦ rw short tt
      ]

  sent_part-Kept :
      (c : Copy) (buf : Bytes) (n : ℕ)
      → c.written ++ (buf ++ c.incoming) ≡ all
      → length buf ≤ buffer_size
      → Kept all (sent_part c buf n)
  unfolding sent_part
  sent_part-Kept c buf zero whole small = tt
  sent_part-Kept c buf (suc n) whole small = elim (Bool-cases (leb (suc n) (length buf))) [
    | inl fits ↦ rw fits (record {
      held = drop (suc n) buf;
      whole =
          append_assoc c.written (take (suc n) buf) (drop (suc n) buf ++ c.incoming)
          ∙ ap (λ b. c.written ++ b)
              (sym (append_assoc (take (suc n) buf) (drop (suc n) buf) c.incoming)
                ∙ ap (λ b. b ++ c.incoming) (take-append-drop (suc n) buf))
          ∙ whole;
      small = omega (arith, length-drop (suc n) buf);
      accurate = IsHeld-left_to_write (drop (suc n) buf) c.incoming;
    })
    | inr short ↦ rw short tt
  ]

  failed-Carries :
      (c : Copy) (e : ConnectionError) (held : Bytes)
      → c.written ++ (held ++ c.incoming) ≡ all
      → length held ≤ buffer_size
      → Carries all (record c { phase = ended (err e) })
  failed-Carries c e held whole small = record {
    held = held;
    whole = whole;
    small = small;
    accurate = tt;
  }

  advance-Kept :
      (phase : Phase) (event : CopyEvent) (c : Copy) (held : Bytes)
      → c.written ++ (held ++ c.incoming) ≡ all
      → length held ≤ buffer_size
      → IsHeld phase held c.incoming
      → Kept all (advance phase event c)
  unfolding advance
  advance-Kept reading (read n) c held whole small h =
      received-Kept c n (ap (λ b. c.written ++ (b ++ c.incoming)) (sym h) ∙ whole)
  advance-Kept reading (read_error e) c held whole small h =
      failed-Carries c (io e) held whole small
  advance-Kept (writing buf) (write n) c held whole small h =
      sent_part-Kept c buf n (ap (λ b. c.written ++ (b ++ c.incoming)) (sym h.0) ∙ whole)
        (subst (λ b. length b ≤ buffer_size) h.0 small)
  advance-Kept (writing buf) (write_error e) c held whole small h =
      failed-Carries c (io e) held whole small
  advance-Kept flushing flush c held whole small h = record {
    held = held;
    whole = whole;
    small = small;
    accurate = h;
  }
  advance-Kept flushing (flush_error e) c held whole small h =
      failed-Carries c (io e) held whole small
  advance-Kept reading (write n) c held whole small h = tt
  advance-Kept reading (write_error e) c held whole small h = tt
  advance-Kept reading flush c held whole small h = tt
  advance-Kept reading (flush_error e) c held whole small h = tt
  advance-Kept (writing buf) (read n) c held whole small h = tt
  advance-Kept (writing buf) (read_error e) c held whole small h = tt
  advance-Kept (writing buf) flush c held whole small h = tt
  advance-Kept (writing buf) (flush_error e) c held whole small h = tt
  advance-Kept flushing (read n) c held whole small h = tt
  advance-Kept flushing (read_error e) c held whole small h = tt
  advance-Kept flushing (write n) c held whole small h = tt
  advance-Kept flushing (write_error e) c held whole small h = tt
  advance-Kept (ended r) event c held whole small h = tt

  -- An event keeps what a direction carries.
  pub copy_step-Kept : (event : CopyEvent) (c : Copy) → Carries all c → Kept all (copy_step event c)
  unfolding copy_step
  copy_step-Kept event c h = advance-Kept c.phase event c h.held h.whole h.small h.accurate
