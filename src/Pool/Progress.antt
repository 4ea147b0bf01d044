-- ===== src/Pool/Progress.antt =====
-- The pool never comes to a stop, unless one of its sizes is zero.
use ebbflow.Prelude.{
  ℕ, ◌<◌, ◌≡◌, refl, sym, ◌∙◌, ap, List, [], ◌∷◌, ◌++◌, Option, none, some, arith, inl, inr, dec_lt,
  ◌⊎◌, ◌≢◌,
}
use ebbflow.Messaging.{Cbor}
use ebbflow.Daemon.Addrs.{SocketAddr}
use ebbflow.Daemon.Heap.{EndpointArgs}
use ebbflow.Daemon.Shared.{Target}
use ebbflow.Connection.Establish.{EndpointConnectionArgs}
use ebbflow.Connection.Run.{Effect, add_idle, Session}
use ebbflow.Pool.{
  Phase, wants_max, wants_idle, panicked, stopped, Pool, start, perform, Found, next_args, Step,
  take_max, spawn, panic, stop_bare, stop_holding, run_effect, Reach, here, next, shared,
}
use ebbflow.Pool.Shape.{Kind, idle_drops, max_drops}
use ebbflow.Pool.Permits.{total, held, Inv, Reach-Inv}

-- A connection that still has something to do.
record IsRunning (conns : List (List Effect)) : Type 0 where
  before : List (List Effect)
  effect : Effect
  rest : List Effect
  after : List (List Effect)
  stands : conns ≡ before ++ ((effect ∷ rest) ∷ after)

IsRunning-cons :
    (es : List Effect) (conns : List (List Effect)) → IsRunning conns → IsRunning (es ∷ conns)
IsRunning-cons es conns r = record {
  before = es ∷ r.before;
  effect = r.effect;
  rest = r.rest;
  after = r.after;
  stands = ap (λ l. es ∷ l) r.stands;
}

-- Where permits are still to be dropped, a connection runs.
total-IsRunning : (k : Kind) (conns : List (List Effect)) → 0 < total k conns → IsRunning conns
total-IsRunning k [] h = absurd (omega arith)
total-IsRunning k ([] ∷ conns) h = IsRunning-cons [] conns (total-IsRunning k conns (omega arith))
total-IsRunning k ((e ∷ rest) ∷ conns) h = record {
  before = [];
  effect = e;
  rest = rest;
  after = conns;
  stands = refl;
}

-- A step after which the loop has not been stopped.
abbrev GoesOn : Pool → Type 0
GoesOn p = (q : Pool) × Step p q × (q.phase ≢ stopped)

perform-phase : (e : Effect) (p : Pool) → (perform e p).phase ≡ p.phase
unfolding perform
perform-phase add_idle p = refl
perform-phase _ p = refl

IsRunning-GoesOn : (p : Pool) → IsRunning p.conns → p.phase ≢ stopped → GoesOn p
IsRunning-GoesOn p r on = (
  _,
  run_effect r.before r.after r.effect r.rest r.stands,
  λ off.
      on (sym (perform-phase r.effect (record p { conns = r.before ++ (r.rest ∷ r.after) })) ∙ off),
)

-- With an outcome of the lookup the loop spawns a connection, or panics.
spawn-GoesOn :
    (cbor : Cbor) (l : Found) (n : Session) (p : Pool)
    (made : Option (EndpointConnectionArgs × Target))
    → next_args l p ≡ made
    → p.phase ≡ wants_idle
    → 0 < p.idle_permits
    → GoesOn p
spawn-GoesOn cbor l n p (some (args, target)) m e h =
    (_, spawn cbor l args target n e h m, λ off. cc off)
spawn-GoesOn cbor l n p none m e h = (_, panic l e h m, λ off. cc off)

module _ (args : EndpointArgs) (addrs : List SocketAddr) where
  loop-GoesOn :
      (cbor : Cbor) (l : Found) (n : Session) (p : Pool) (phase : Phase)
      → p.phase ≡ phase
      → phase ≢ panicked
      → phase ≢ stopped
      → 0 < args.idleconns
      → 0 < args.maxconns
      → Inv args.idleconns args.maxconns p
      → GoesOn p
  loop-GoesOn cbor l n p wants_max e on off hi hm v = elim (dec_lt 0 p.max_permits) [
    | yes free ↦ (_, take_max e free, λ off. cc off)
    | no taken ↦
        IsRunning-GoesOn p
          (total-IsRunning max_drops p.conns (omega (arith, v.max_permits_kept, ap held e)))
          (λ off. cc (e, off))
  ]
  loop-GoesOn cbor l n p wants_idle e on off hi hm v = elim (dec_lt 0 p.idle_permits) [
    | yes free ↦ spawn-GoesOn cbor l n p (next_args l p) refl e free
    | no taken ↦
        IsRunning-GoesOn p (total-IsRunning idle_drops p.conns (omega (arith, v.idle_permits_kept)))
          (λ off. cc (e, off))
  ]
  loop-GoesOn cbor l n p panicked e on off hi hm v = absurd (on refl)
  loop-GoesOn cbor l n p stopped e on off hi hm v = absurd (off refl)

  -- In every interleaving, for sizes that are not zero, the pool can go on until it
  -- panics or is stopped: without being stopped, the loop takes a permit, spawns a connection or
  -- panics, or a connection that holds a permit goes on.
  pub Reach-goes_on :
      (cbor : Cbor) (l : Found) (n : Session) (idle active : ℕ) {p : Pool}
      → 0 < args.idleconns
      → 0 < args.maxconns
      → Reach (start args addrs idle active) p
      → p.phase ≢ panicked
      → p.phase ≢ stopped
      → (q : Pool) × Step p q × (q.phase ≢ stopped)
  Reach-goes_on cbor l n idle active {p} hi hm r on off =
      loop-GoesOn cbor l n p p.phase refl on off hi hm (Reach-Inv args addrs idle active r)

-- Nothing was ever spawned, and nothing can be.
abbrev IsStarved : Pool → Type 0
IsStarved p =
    (p.conns ≡ []) × ((p.idle_permits ≡ 0) ⊎ ((p.max_permits ≡ 0) × (p.phase ≢ wants_idle)))

not_running :
    (before after : List (List Effect)) (es : List Effect) (conns : List (List Effect))
    → conns ≡ []
    → conns ≢ before ++ (es ∷ after)
not_running [] after es conns e h = cc (e, h)
not_running (b ∷ before) after es conns e h = cc (e, h)

Step-IsStarved : {p q : Pool} → Step p q → IsStarved p → IsStarved q
Step-IsStarved (take_max e h) (nobody, inl idle) = (nobody, inl idle)
Step-IsStarved (take_max e h) (nobody, inr most) = absurd (omega (arith, h, most.0))
Step-IsStarved (spawn cbor l args t n e h m) (nobody, inl idle) = absurd (omega (arith, h, idle))
Step-IsStarved (spawn cbor l args t n e h m) (nobody, inr most) = absurd (most.1 e)
Step-IsStarved (panic l e h m) (nobody, inl idle) = absurd (omega (arith, h, idle))
Step-IsStarved (panic l e h m) (nobody, inr most) = absurd (most.1 e)
Step-IsStarved (stop_bare e) (nobody, inl idle) = (nobody, inl idle)
Step-IsStarved (stop_bare e) (nobody, inr most) = (nobody, inr (most.0, λ off. cc off))
Step-IsStarved (stop_holding e) (nobody, inl idle) = (nobody, inl idle)
Step-IsStarved (stop_holding e) (nobody, inr most) = absurd (most.1 e)
Step-IsStarved {p} (run_effect before after e rest c) (nobody, why) =
    absurd (not_running before after (e ∷ rest) p.conns nobody c)

-- A pool with a size of zero, in every interleaving, never starts a connection.
pub Reach-starved :
    (args : EndpointArgs) (addrs : List SocketAddr) (idle active : ℕ) {p : Pool}
    → (args.idleconns ≡ 0) ⊎ (args.maxconns ≡ 0)
    → Reach (start args addrs idle active) p
    → p.conns ≡ []
unfolding start
Reach-starved args addrs idle active zeros r = (starved zeros r).0
  where
    starved :
        {p : Pool}
        → (args.idleconns ≡ 0) ⊎ (args.maxconns ≡ 0)
        → Reach (start args addrs idle active) p
        → IsStarved p
    starved (inl none_idle) here = (refl, inl none_idle)
    starved (inr most) here = (refl, inr (most, λ at. cc at))
    starved zeros (shared r i a) = starved zeros r
    starved zeros (next r s) = Step-IsStarved s (starved zeros r)
