-- ===== src/Pool/Permits.antt =====
-- Permits and counters of the pool, in every interleaving.
use ebbflow.Prelude.{
  ℕ, ◌+◌, ◌-◌, ◌%◌, ◌^◌, ◌≤◌, ◌<◌, ◌≡◌, refl, subst, ap, List, [], ◌∷◌, ◌++◌, arith, All,
}
use ebbflow.Daemon.Addrs.{SocketAddr}
use ebbflow.Daemon.Heap.{EndpointArgs}
use ebbflow.Connection.Run.{Effect, add_idle}
use ebbflow.Pool.{
  Phase, wants_max, wants_idle, panicked, stopped, Pool, start, perform, Step, take_max, spawn,
  panic, stop_bare, stop_holding, run_effect, Reach, here, next, shared,
}
use ebbflow.Pool.Shape.{
  Kind, ups_idle, downs_idle, idle_drops, ups_active, downs_active, max_drops, count, hits,
  StaysOrderly, StaysOrderly-head, connection_task-IsTask,
}

-- Over all connections.
abbrev pub total : Kind → List (List Effect) → ℕ
total k [] = 0
total k (es ∷ conns) = count k es + total k conns

-- The permit that the loop holds while it waits for the other.
abbrev pub held : Phase → ℕ
held wants_max = 0
held wants_idle = 1
held panicked = 0
held stopped = 0

pub record Inv (idleconns maxconns : ℕ) (p : Pool) : Type 0 where
  pub idle_permits_kept : p.idle_permits + total idle_drops p.conns ≡ idleconns
  pub max_permits_kept : p.max_permits + held p.phase + total max_drops p.conns ≡ maxconns
  pub orderly : All StaysOrderly p.conns

total-split :
    (k : Kind) (before : List (List Effect)) (es : List Effect) (after : List (List Effect))
    → total k (before ++ (es ∷ after)) ≡ total k before + count k es + total k after
total-split k [] es after = omega arith
total-split k (b ∷ before) es after = omega (arith, total-split k before es after)

-- The orderliness of the connections, summed up.
pub record IsOrderlyTotal (conns : List (List Effect)) : Type 0 where
  pub idle_open : total ups_idle conns ≤ total downs_idle conns
  pub idle_permitted : total downs_idle conns ≤ total ups_idle conns + total idle_drops conns
  pub active_open : total ups_active conns ≤ total downs_active conns
  pub active_permitted :
      total downs_active conns + total idle_drops conns
      ≤ total ups_active conns + total max_drops conns

pub All-IsOrderlyTotal :
    (conns : List (List Effect)) → All StaysOrderly conns → IsOrderlyTotal conns
All-IsOrderlyTotal [] a = omega arith
All-IsOrderlyTotal (es ∷ conns) a =
    omega (arith, StaysOrderly-head es a.0, All-IsOrderlyTotal conns a.1)

All-replace :
    (before : List (List Effect)) (e : Effect) (rest : List Effect) (after : List (List Effect))
    → All StaysOrderly (before ++ ((e ∷ rest) ∷ after))
    → All StaysOrderly (before ++ (rest ∷ after))
All-replace [] e rest after a = (a.0.1, a.1)
All-replace (b ∷ before) e rest after a = (a.0, All-replace before e rest after a.1)

pub ended_total :
    (k : Kind) (conns : List (List Effect)) → All (λ es. es ≡ []) conns → total k conns ≡ 0
ended_total k [] a = refl
ended_total k (es ∷ conns) a = omega (arith, ap (count k) a.0, ended_total k conns a.1)

-- One connection has done its next effect, which is still to change the permits and counters.
record Moved (e : Effect) (p q : Pool) : Type 0 where
  idle_permits : q.idle_permits ≡ p.idle_permits
  max_permits : q.max_permits ≡ p.max_permits
  idle : q.idle ≡ p.idle
  active : q.active ≡ p.active
  phase : held q.phase ≡ held p.phase
  of_ups_idle : total ups_idle p.conns ≡ hits ups_idle e + total ups_idle q.conns
  of_downs_idle : total downs_idle p.conns ≡ hits downs_idle e + total downs_idle q.conns
  of_idle_drops : total idle_drops p.conns ≡ hits idle_drops e + total idle_drops q.conns
  of_ups_active : total ups_active p.conns ≡ hits ups_active e + total ups_active q.conns
  of_downs_active : total downs_active p.conns ≡ hits downs_active e + total downs_active q.conns
  of_max_drops : total max_drops p.conns ≡ hits max_drops e + total max_drops q.conns
  orderly : All StaysOrderly q.conns
  in_total : IsOrderlyTotal q.conns

total-replace :
    (k : Kind) (before : List (List Effect)) (e : Effect) (rest : List Effect)
    (after : List (List Effect)) {conns : List (List Effect)}
    → conns ≡ before ++ ((e ∷ rest) ∷ after)
    → total k conns ≡ hits k e + total k (before ++ (rest ∷ after))
total-replace k before e rest after c =
    omega (
      arith,
      ap (total k) c,
      total-split k before (e ∷ rest) after,
      total-split k before rest after,
    )

-- What a step does to the counters, up to the width of a usize.
pub record Counted (p q : Pool) : Type 0 where
  pub idle_counted :
      (q.idle + total ups_idle q.conns + total downs_idle p.conns) % 2 ^ 64
      ≡ (p.idle + total ups_idle p.conns + total downs_idle q.conns) % 2 ^ 64
  pub active_counted :
      (q.active + total ups_active q.conns + total downs_active p.conns) % 2 ^ 64
      ≡ (p.active + total ups_active p.conns + total downs_active q.conns) % 2 ^ 64
  pub idle_fits : p.idle < 2 ^ 64 → q.idle < 2 ^ 64
  pub active_fits : p.active < 2 ^ 64 → q.active < 2 ^ 64

kept-Counted :
    {p q : Pool} → q.idle ≡ p.idle → q.active ≡ p.active → q.conns ≡ p.conns → Counted p q
kept-Counted i a c = record {
  idle_counted = cc (i, c);
  active_counted = cc (a, c);
  idle_fits = λ h. omega (arith, h, i);
  active_fits = λ h. omega (arith, h, a);
}

perform-Counted : (e : Effect) (p q : Pool) → Moved e p q → Counted p (perform e q)
unfolding perform
perform-Counted add_idle p q m = record {
  idle_counted = omega (arith, m.idle, m.of_ups_idle, m.of_downs_idle);
  active_counted = omega (arith, m.active, m.of_ups_active, m.of_downs_active);
  idle_fits = λ h. omega arith;
  active_fits = λ h. omega (arith, h, m.active);
}
perform-Counted e p q m = record {
  idle_counted = omega (arith, m.idle, m.of_ups_idle, m.of_downs_idle);
  active_counted = omega (arith, m.active, m.of_ups_active, m.of_downs_active);
  idle_fits = λ h. omega (arith, h, m.idle);
  active_fits = λ h. omega (arith, h, m.active);
}

run-Moved :
    (p : Pool) (before after : List (List Effect)) (e : Effect) (rest : List Effect)
    → p.conns ≡ before ++ ((e ∷ rest) ∷ after)
    → All StaysOrderly p.conns
    → Moved e p (record p { conns = before ++ (rest ∷ after) })
run-Moved p before after e rest c orderly =
    let kept = All-replace before e rest after (subst (All StaysOrderly) c orderly) in
    let hit = λ (k : Kind). total-replace k before e rest after c in
    record {
      idle_permits = refl;
      max_permits = refl;
      idle = refl;
      active = refl;
      phase = refl;
      of_ups_idle = hit ups_idle;
      of_downs_idle = hit downs_idle;
      of_idle_drops = hit idle_drops;
      of_ups_active = hit ups_active;
      of_downs_active = hit downs_active;
      of_max_drops = hit max_drops;
      orderly = kept;
      in_total = All-IsOrderlyTotal (before ++ (rest ∷ after)) kept;
    }

pub Step-Counted : {p q : Pool} → Step p q → All StaysOrderly p.conns → Counted p q
Step-Counted (take_max e h) o = kept-Counted refl refl refl
Step-Counted (panic l e h lost) o = kept-Counted refl refl refl
Step-Counted (stop_bare e) o = kept-Counted refl refl refl
Step-Counted (stop_holding e) o = kept-Counted refl refl refl
Step-Counted (spawn cbor l args target n e h made) o =
    let task = connection_task-IsTask cbor args n in
    record {
      idle_counted = omega (arith, task.idle_balance);
      active_counted = omega (arith, task.active_balance);
      idle_fits = λ h. h;
      active_fits = λ h. h;
    }
Step-Counted {p} (run_effect before after e rest c) o =
    perform-Counted e p (record p { conns = before ++ (rest ∷ after) })
      (run-Moved p before after e rest c o)

module _ (idleconns maxconns : ℕ) where
  perform-Inv :
      (e : Effect) (p q : Pool)
      → Inv idleconns maxconns p
      → Moved e p q
      → Inv idleconns maxconns (perform e q)
  unfolding perform
  perform-Inv add_idle p q v m = record {
    idle_permits_kept = omega (arith, v.idle_permits_kept, m);
    max_permits_kept = omega (arith, v.max_permits_kept, m);
    orderly = m.orderly;
  }
  perform-Inv e p q v m = record {
    idle_permits_kept = omega (arith, v.idle_permits_kept, m);
    max_permits_kept = omega (arith, v.max_permits_kept, m);
    orderly = m.orderly;
  }

  -- The loop takes a permit or gives it back.
  held-Inv :
      (p : Pool) (max_permits : ℕ) (phase : Phase)
      → max_permits + held phase ≡ p.max_permits + held p.phase
      → Inv idleconns maxconns p
      → Inv idleconns maxconns (record p { max_permits = max_permits; phase = phase })
  held-Inv p max_permits phase same v = record {
    idle_permits_kept = v.idle_permits_kept;
    max_permits_kept = omega (arith, v.max_permits_kept, same);
    orderly = v.orderly;
  }

  pub Step-Inv : {p q : Pool} → Step p q → Inv idleconns maxconns p → Inv idleconns maxconns q
  Step-Inv {p} (take_max e h) v =
      held-Inv p (p.max_permits - 1) wants_idle (omega (arith, h, ap held e)) v
  Step-Inv {p} (panic l e h lost) v =
      held-Inv p (p.max_permits + 1) panicked (omega (arith, ap held e)) v
  Step-Inv {p} (stop_bare e) v = held-Inv p p.max_permits stopped (omega (arith, ap held e)) v
  Step-Inv {p} (stop_holding e) v =
      held-Inv p (p.max_permits + 1) stopped (omega (arith, ap held e)) v
  Step-Inv {p} (spawn cbor l args target n e h made) v =
      let task = connection_task-IsTask cbor args n in
      record {
        idle_permits_kept = omega (arith, v.idle_permits_kept, task.one_idle_drop);
        max_permits_kept = omega (arith, v.max_permits_kept, task.one_max_drop, ap held e);
        orderly = (task.orderly, v.orderly);
      }
  Step-Inv {p} (run_effect before after e rest c) v =
      perform-Inv e p (record p { conns = before ++ (rest ∷ after) }) v
        (run-Moved p before after e rest c v.orderly)

module _ (args : EndpointArgs) (addrs : List SocketAddr) (idle active : ℕ) where
  pub start-Inv : Inv args.idleconns args.maxconns (start args addrs idle active)
  unfolding start
  start-Inv = omega arith

  pub Reach-Inv :
      {p : Pool} → Reach (start args addrs idle active) p → Inv args.idleconns args.maxconns p
  Reach-Inv here = start-Inv
  Reach-Inv (shared r i a) =
      let v = Reach-Inv r in
      record {
        idle_permits_kept = v.idle_permits_kept;
        max_permits_kept = v.max_permits_kept;
        orderly = v.orderly;
      }
  Reach-Inv (next r s) = Step-Inv args.idleconns args.maxconns s (Reach-Inv r)
