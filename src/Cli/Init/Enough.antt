-- ===== src/Cli/Init/Enough.antt =====
-- The loop of `init_interactive` of src/ebbflow.rs that asks for a name has enough fuel.
use ebbflow.Prelude.{
  ℕ, suc, zero, ◌-◌, ◌≤◌, ◌<◌, dec_lt, ◌≡◌, refl, sym, ap, ◌∙◌, String, [], ◌∷◌, Option, none, some,
  length, arith, Bool-cases, inl, inr,
}
use ebbflow.Prelude.Result.{ok, err}
use ebbflow.Cli.Console.{Input, Outcome, done, endless, then_ask, get_string, get_yn}
use ebbflow.Cli.Console.Ends.{Leaves, get_string-Leaves, get_yn-Leaves}
use ebbflow.Cli.Init.{Env, confirm_hostname, ask_round, ask_hostname, hostname_loop}

then-Leaves :
    {A B : Type 0} (n m : ℕ) (o : Outcome A) (f : A → Input → Outcome B)
    → m ≤ n
    → Leaves m o
    → ((a : A) (is : Input) → length is ≤ m → Leaves n (f a is))
    → Leaves n (then_ask o f)
then-Leaves n m (done (ok a) is) f le l h = h a is l
then-Leaves n m (done (err e) is) f le l h = omega arith
then-Leaves n m endless f le l h = tt

module _ (env : Env) where
  ask_round-Leaves : (is : Input) → Leaves (length is - 1) (ask_round env is)
  unfolding ask_round confirm_hostname
  ask_round-Leaves is =
      then-Leaves (length is - 1) (length is - 1) (get_string env.text is) _ (omega arith)
        (get_string-Leaves env.text is)
        (λ name is' le. elim (Bool-cases (env.is_hostname name)) [
          | inl matches ↦ rw matches (
              then-Leaves (length is - 1) (length is' - 1) (get_yn env.text is') _ (omega arith)
                (get_yn-Leaves env.text is') (λ b is'' le'. omega arith))
          | inr not_matches ↦ rw not_matches (omega arith)
        ])

  -- At the end of the input each round is the same.
  stuck : (fuel : ℕ) → ask_round env [] ≡ done (ok none) [] → ask_hostname env fuel [] ≡ endless
  unfolding ask_hostname
  stuck zero e = refl
  stuck (suc fuel) e = rw (e, ask_hostname) (stuck fuel e)

  after_round :
      (fuel : ℕ) (is : Input) (o : Outcome (Option String))
      → ask_round env is ≡ o
      → Leaves (length is - 1) o
      → length is ≤ fuel
      → ((is' : Input)
          → suc (length is') ≤ fuel
          → ask_hostname env (suc fuel) is' ≡ ask_hostname env fuel is')
      → ask_hostname env (suc (suc fuel)) is ≡ ask_hostname env (suc fuel) is
  unfolding ask_hostname
  after_round fuel is endless e l h rest = rw (e, ask_hostname) refl
  after_round fuel is (done (err x) is') e l h rest = rw (e, ask_hostname) refl
  after_round fuel is (done (ok (some n)) is') e l h rest = rw (e, ask_hostname) refl
  after_round fuel [] (done (ok none) []) e l h rest =
      rw (e, ask_hostname) (stuck (suc fuel) e ∙ sym (stuck fuel e))
  after_round fuel [] (done (ok none) (x ∷ is')) e l h rest = absurd (omega arith)
  after_round fuel (x ∷ is) (done (ok none) is') e l h rest =
      rw (e, ask_hostname) (rest is' (omega arith))

  one_more :
      (fuel : ℕ) (is : Input)
      → length is ≤ fuel
      → ask_hostname env (suc (suc fuel)) is ≡ ask_hostname env (suc fuel) is
  one_more zero is h =
      after_round zero is (ask_round env is) refl (ask_round-Leaves is) h
        (λ is' h'. absurd (omega arith))
  one_more (suc fuel) is h =
      after_round (suc fuel) is (ask_round env is) refl (ask_round-Leaves is) h
        (λ is' h'. one_more fuel is' (omega arith))

  enough :
      (fuel : ℕ) (is : Input)
      → length is ≤ fuel
      → ask_hostname env (suc fuel) is ≡ ask_hostname env (suc (length is)) is
  enough zero is h =
      let none_left : zero ≡ length is = omega arith in
      ap (λ n. ask_hostname env (suc n) is) none_left
  enough (suc fuel) is h = elim (dec_lt (length is) (suc fuel)) [
    | yes lt ↦ one_more fuel is (omega arith) ∙ enough fuel is (omega arith)
    | no ge ↦
        let same : suc fuel ≡ length is = omega arith in ap (λ n. ask_hostname env (suc n) is) same
  ]

  -- With more fuel than the lines of the input the loop does what it does with one more than them.
  pub ask_hostname-fuel :
      (fuel : ℕ) (is : Input) → length is < fuel → ask_hostname env fuel is ≡ hostname_loop env is
  unfolding hostname_loop
  ask_hostname-fuel zero is h = absurd (omega arith)
  ask_hostname-fuel (suc fuel) is h = enough fuel is (omega arith)
