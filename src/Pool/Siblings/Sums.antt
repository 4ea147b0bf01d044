-- ===== src/Pool/Siblings/Sums.antt =====
-- Sums over the connections of some pools, and how many of the pools still have one.
use ebbflow.Prelude.{
  ℕ, Bool, true, false, if◌then◌else◌, Bool-cases, inl, inr, ◌+◌, ◌*◌, ◌≤◌, ◌≡◌, refl, List, [],
  ◌∷◌, ◌++◌, arith, All, length,
}
use ebbflow.Connection.Run.{Effect}
use ebbflow.Pool.{Pool}
use ebbflow.Pool.Shape.{Kind, ups_idle, downs_idle, idle_drops, ups_active, downs_active, max_drops}
use ebbflow.Pool.Permits.{total, held, Inv, All-IsOrderlyTotal, ended_total}

-- Over the connections of all pools.
abbrev pub sum : Kind → List Pool → ℕ
sum k [] = 0
sum k (p ∷ ps) = total k p.conns + sum k ps

pub sum-split :
    (k : Kind) (before : List Pool) (p : Pool) (after : List Pool)
    → sum k (before ++ (p ∷ after)) ≡ sum k before + total k p.conns + sum k after
sum-split k [] p after = omega arith
sum-split k (b ∷ before) p after = omega (arith, sum-split k before p after)

pub All-at :
    (P : Pool → Type 0) (before : List Pool) (p : Pool) (after : List Pool)
    → All P (before ++ (p ∷ after))
    → P p
All-at P [] p after a = a.0
All-at P (b ∷ before) p after a = All-at P before p after a.1

pub All-put :
    (P : Pool → Type 0) (before : List Pool) (p q : Pool) (after : List Pool)
    → P q
    → All P (before ++ (p ∷ after))
    → All P (before ++ (q ∷ after))
All-put P [] p q after h a = (h, a.1)
All-put P (b ∷ before) p q after h a = (a.0, All-put P before p q after h a.1)

-- Whether a connection has not run to its end.
abbrev pub unfinished : List (List Effect) → Bool
unfinished [] = false
unfinished ([] ∷ conns) = unfinished conns
unfinished ((e ∷ es) ∷ conns) = true

-- The pools that still have such a connection.
abbrev pub live : List Pool → ℕ
live [] = 0
live (p ∷ ps) = (if unfinished p.conns then 1 else 0) + live ps

pub live-length : (ps : List Pool) → live ps ≤ length ps
live-length [] = omega arith
live-length (p ∷ ps) = ground (arith, live-length ps)

finished_total :
    (k : Kind) (conns : List (List Effect)) → unfinished conns ≡ false → total k conns ≡ 0
finished_total k [] h = refl
finished_total k ([] ∷ conns) h = omega (arith, finished_total k conns h)
finished_total k ((e ∷ es) ∷ conns) h = cc h

pub ended_sum :
    (k : Kind) (ps : List Pool) → All (λ (p : Pool). All (λ es. es ≡ []) p.conns) ps → sum k ps ≡ 0
ended_sum k [] a = refl
ended_sum k (p ∷ ps) a = omega (arith, ended_total k p.conns a.0, ended_sum k ps a.1)

pub restored :
    (idleconns maxconns : ℕ) (ps : List Pool)
    → All (Inv idleconns maxconns) ps
    → All (λ (p : Pool). All (λ es. es ≡ []) p.conns) ps
    → All
        (λ (p : Pool). (p.idle_permits ≡ idleconns) × (p.max_permits + held p.phase ≡ maxconns))
        ps
restored i m [] v a = tt
restored i m (p ∷ ps) v a = (
  (
    omega (arith, v.0.idle_permits_kept, ended_total idle_drops p.conns a.0),
    omega (arith, v.0.max_permits_kept, ended_total max_drops p.conns a.0),
  ),
  restored i m ps v.1 a.1,
)

-- How far the connections of some pools can be counted, for `n` pools that have some.
pub record Fits (idleconns maxconns n : ℕ) (ups_i downs_i ups_a downs_a : ℕ) : Type 0 where
  pub idle_open : ups_i ≤ downs_i
  pub active_open : ups_a ≤ downs_a
  pub few_idle : downs_i ≤ ups_i + n * idleconns
  pub few : downs_i + downs_a ≤ ups_i + ups_a + n * maxconns

Pool-Fits :
    (i m : ℕ) (p : Pool)
    → Inv i m p
    → Fits i m
        (if unfinished p.conns then 1 else 0)
        (total ups_idle p.conns)
        (total downs_idle p.conns)
        (total ups_active p.conns)
        (total downs_active p.conns)
Pool-Fits i m p v = elim (Bool-cases (unfinished p.conns)) [
  | inl some_left ↦
      rw some_left (
        omega
          (arith, v.idle_permits_kept, v.max_permits_kept, All-IsOrderlyTotal p.conns v.orderly))
  | inr ended ↦
      let none_left = λ (k : Kind). finished_total k p.conns ended in
      rw ended (
        omega (
          arith,
          none_left ups_idle,
          none_left downs_idle,
          none_left ups_active,
          none_left downs_active,
        ))
]

pub All-Fits :
    (i m : ℕ) (ps : List Pool)
    → All (Inv i m) ps
    → Fits i m
        (live ps)
        (sum ups_idle ps)
        (sum downs_idle ps)
        (sum ups_active ps)
        (sum downs_active ps)
All-Fits i m [] v = omega arith
All-Fits i m (p ∷ ps) v = omega (arith, Pool-Fits i m p v.0, All-Fits i m ps v.1)
