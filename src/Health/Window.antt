-- ===== src/Health/Window.antt =====
-- The window of `status`: the trimming loop and the run at its front.
use ebbflow.Prelude.{
  ℕ, zero, suc, ◌≤◌, ◌<◌, ◌≡◌, refl, sym, ap, ◌∙◌, List, [], ◌∷◌, arith, ltb, length, take,
  take_all, Bool-cases, inl, inr,
}
use ebbflow.Health.{Check, pop_back, trim_recent}

length-pop_back : (x : Check) (r : List Check) → length (pop_back (x ∷ r)) ≡ length r
unfolding pop_back
length-pop_back x [] = refl
length-pop_back x (y ∷ r) = ap suc (length-pop_back y r)

take-pop_back : (n : ℕ) (l : List Check) → n < length l → take n (pop_back l) ≡ take n l
unfolding pop_back
take-pop_back zero l h = refl
take-pop_back (suc n) [] h = absurd (omega arith)
take-pop_back (suc n) (x ∷ []) h = absurd (omega arith)
take-pop_back (suc n) (x ∷ y ∷ r) h = ap (◌∷◌ x) (take-pop_back n (y ∷ r) (omega arith))

trim_recent-take_aux :
    (fuel n : ℕ) (l : List Check) → length l ≤ fuel → trim_recent fuel n l ≡ take n l
unfolding trim_recent
trim_recent-take_aux zero n [] h = sym (take_all n [] (omega arith))
trim_recent-take_aux zero n (x ∷ l) h = absurd (omega arith)
trim_recent-take_aux (suc fuel) n [] h = ground (arith, take_all {A = Check} n [])
trim_recent-take_aux (suc fuel) n (x ∷ l) h = elim (Bool-cases (ltb n (length (x ∷ l)))) [
  | inl more ↦ rw more (
      trim_recent-take_aux fuel n (pop_back (x ∷ l)) (omega (arith, length-pop_back x l))
      ∙ take-pop_back n (x ∷ l) (ground arith))
  | inr done ↦ rw (done, take_all n (x ∷ l) (ground arith))
]

-- The trimming loop ends within the window's length, and keeps the newest `n` checks.
pub trim_recent-take : (n : ℕ) (l : List Check) → trim_recent (length l) n l ≡ take n l
trim_recent-take n l = trim_recent-take_aux (length l) n l (omega arith)
