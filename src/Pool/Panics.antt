-- ===== src/Pool/Panics.antt =====
-- What becomes of a pool whose loop panics on starting a connection.
use ebbflow.Prelude.{
  ℕ, ◌<◌, ◌≡◌, refl, sym, ◌∙◌, ap, false, List, [], ◌∷◌, ◌++◌, arith, length, ◌⊎◌,
}
use ebbflow.Daemon.Shared.Chosen.{IsChoice, IsStranded, dns_of, create_args-eq_none}
use ebbflow.Connection.Run.{Effect, add_idle}
use ebbflow.Pool.{
  wants_idle, panicked, Pool, perform, Found, next_args, Step, take_max, spawn, panic, stop_bare,
  stop_holding, run_effect, Reach, here, next, shared,
}

-- The loop is gone, and as many connections were started as then.
abbrev IsOver : ℕ → Pool → Type 0
IsOver n p = (p.phase ≡ panicked) × (length p.conns ≡ n)

-- The effects of a connection change neither.
perform-IsOver : (n : ℕ) (e : Effect) (p : Pool) → IsOver n p → IsOver n (perform e p)
unfolding perform
perform-IsOver n add_idle p o = o
perform-IsOver n _ p o = o

length-replace :
    (before after : List (List Effect)) (e : Effect) (rest : List Effect)
    → length (before ++ (rest ∷ after)) ≡ length (before ++ ((e ∷ rest) ∷ after))
length-replace [] after e rest = refl
length-replace (b ∷ before) after e rest = omega (arith, length-replace before after e rest)

Step-IsOver : (n : ℕ) {p q : Pool} → Step p q → IsOver n p → IsOver n q
Step-IsOver n (take_max e h) o = cc (e, o.0)
Step-IsOver n (spawn cbor l args t s e h m) o = cc (e, o.0)
Step-IsOver n (panic l e h m) o = cc (e, o.0)
Step-IsOver n (stop_bare e) o = cc (e, o.0)
Step-IsOver n (stop_holding e) o = cc (e, o.0)
Step-IsOver n {p} (run_effect before after e rest c) o =
    perform-IsOver n e (record p { conns = before ++ (rest ∷ after) })
      (o.0, length-replace before after e rest ∙ ap length (sym c) ∙ o.1)

Reach-IsOver : (n : ℕ) {p q : Pool} → IsOver n p → Reach p q → IsOver n q
Reach-IsOver n o here = o
Reach-IsOver n o (shared r idle active) = Reach-IsOver n o r
Reach-IsOver n o (next r s) = Step-IsOver n s (Reach-IsOver n o r)

-- If the random choice fails only on no records, then when Ebbflow's address is not hardcoded and
-- the lookup found no records, or the name of Ebbflow is not a name of the DNS, a pool that holds
-- one permit and can take the other panics, and in every interleaving after that no connection is
-- ever started in it again.
pub stranded-panics :
    (l : Found) (p : Pool)
    → IsChoice l.choose
    → p.phase ≡ wants_idle
    → 0 < p.idle_permits
    → IsStranded l.info l.answer ⊎ (l.is_dns_name (dns_of l.info) ≡ false)
    → (q : Pool) × Step p q
      × ((r : Pool) → Reach q r → (r.phase ≡ panicked) × (length r.conns ≡ length p.conns))
unfolding next_args
stranded-panics l p choice at free lost = (
  _,
  panic l at free
      ((create_args-eq_none l.choose choice l.is_dns_name l.answer l.info p.args p.addrs).1 lost),
  λ r reach. Reach-IsOver (length p.conns) (refl, refl) reach,
)
