-- ===== src/Signal.antt =====
-- src/signal.rs: the stop signal, a watch channel that starts with `false` and is only ever sent
-- `true`. Which earlier values a receiver still sees is the channel's choice, `earlier`.
use ebbflow.Prelude.{
  ◌≡◌, refl, Bool, true, false, ◌||◌, List, [], ◌∷◌, ◌++◌, map, Option, none, some, All,
  if◌then◌else◌,
}

pub record SignalSender : Type 0 where
  pub value : Bool
  pub dropped : Bool

unfoldable pub new : SignalSender
new = record { value = false; dropped = false }

unfoldable pub send_signal : SignalSender → SignalSender
send_signal s = record s { value = true }

-- The end of the sender's scope.
unfoldable pub drop_sender : SignalSender → SignalSender
drop_sender s = record s { dropped = true }

-- A receiver is given some earlier values, the latest one, and nothing more once the sender is gone.
unfoldable pub received : (SignalSender → List Bool) → SignalSender → List (Option Bool)
received earlier s = map some (earlier s) ++ (some s.value ∷ (if s.dropped then none ∷ [] else []))

-- The loop of `wait`: whether it has ended, on what `recv` returned so far.
unfoldable pub wait : List (Option Bool) → Bool
wait [] = false
wait (none ∷ rest) = true
wait (some true ∷ rest) = true
wait (some false ∷ rest) = wait rest

-- Only values that were sent are seen: before the signal, `false`.
pub record IsHistory (earlier : SignalSender → List Bool) : Type 0 where
  pub unsent : (s : SignalSender) → s.value ≡ false → All (λ b. b ≡ false) (earlier s)

wait-sent :
    (l : List Bool) (rest : List (Option Bool)) → wait (map some l ++ (some true ∷ rest)) ≡ true
unfolding wait
wait-sent [] rest = refl
wait-sent (true ∷ l) rest = refl
wait-sent (false ∷ l) rest = wait-sent l rest

wait-unsent :
    (l : List Bool) (rest : List (Option Bool))
    → All (λ b. b ≡ false) l
    → wait (map some l ++ rest) ≡ wait rest
unfolding wait
wait-unsent [] rest h = refl
wait-unsent (true ∷ l) rest h = cc h.0
wait-unsent (false ∷ l) rest h = wait-unsent l rest h.1

over :
    (earlier : SignalSender → List Bool) (s : SignalSender) (value dropped : Bool)
    → s.value ≡ value
    → s.dropped ≡ dropped
    → IsHistory earlier
    → wait (received earlier s) ≡ (value || dropped)
unfolding received wait
over earlier s true dropped e e' h = simp (e, received) (wait-sent (earlier s) _)
over earlier s false true e e' h = simp (e, e', received) (wait-unsent (earlier s) _ (h.unsent s e))
over earlier s false false e e' h =
    simp (e, e', received) (wait-unsent (earlier s) _ (h.unsent s e))

-- If the channel only shows values that were sent, a receiver's wait is over exactly if the signal
-- was sent or its sender is gone.
pub wait-received :
    (earlier : SignalSender → List Bool) (s : SignalSender)
    → IsHistory earlier
    → wait (received earlier s) ≡ (s.value || s.dropped)
wait-received earlier s h = over earlier s s.value s.dropped refl refl h
