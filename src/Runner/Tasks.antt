-- ===== src/Runner/Tasks.antt =====
-- What starting and stopping a task does to the heap: which tasks run, and what they were given.
use ebbflow.Prelude.{ℕ, ◌+◌, ◌≡◌, refl, Bool, true, false, some, arith, ◌==◌, if◌then◌else◌}
use ebbflow.Daemon.{World, Host, spawn_endpoint, cap_idle, endpoint_meta}
use ebbflow.Daemon.Heap.{
  EndpointArgs, MetaHeap, IsFresh, running, args_at, running-stop, running-le, args_at-stop,
  stop-IsFresh, running-alloc, args_at-alloc_self, args_at-alloc, alloc-IsFresh,
}
use ebbflow.Runner.{EnabledDisabled, enabled, disabled, stop_task, start_task}

-- How often an instance holds an address.
abbrev pub owns : EnabledDisabled → ℕ → ℕ
owns (enabled id) i = if i == id then 1 else 0
owns disabled i = 0

-- An instance is enabled exactly if its configuration is, and then its task was started with the
-- arguments that the configuration asks for.
abbrev pub Runs : MetaHeap → Bool → EndpointArgs → EnabledDisabled → Type 0
Runs h en args (enabled id) = (en ≡ true) × (args_at h id ≡ some args)
Runs h en args disabled = en ≡ false

-- Tasks keep the arguments that they were started with.
pub record Extends (h h' : MetaHeap) : Type 0 where
  pub args_kept : (i : ℕ) (a : EndpointArgs) → args_at h i ≡ some a → args_at h' i ≡ some a

pub Extends-refl : (h : MetaHeap) → Extends h h
Extends-refl h = record { args_kept = λ i a e. e }

pub Extends-trans : {g h k : MetaHeap} → Extends g h → Extends h k → Extends g k
Extends-trans p q = record { args_kept = λ i a e. q.args_kept i a (p.args_kept i a e) }

pub Runs-Extends :
    {h h' : MetaHeap} (en : Bool) (args : EndpointArgs) (ed : EnabledDisabled)
    → Extends h h'
    → Runs h en args ed
    → Runs h' en args ed
Runs-Extends en args (enabled id) x r = (r.0, x.args_kept id args r.1)
Runs-Extends en args disabled x r = r

module _ (ed : EnabledDisabled) (w : World) where
  pub stop_task-Extends : Extends w.metas (stop_task ed w).metas
  unfolding stop_task
  stop_task-Extends = elim ed as (λ d. Extends w.metas (stop_task d w).metas) [
    | enabled id ↦ record { args_kept = λ i a e. ground (arith, args_at-stop w.metas id i) }
    | disabled ↦ Extends-refl w.metas
  ]

  pub stop_task-IsFresh : IsFresh w.metas → IsFresh (stop_task ed w).metas
  unfolding stop_task
  stop_task-IsFresh f = elim ed as (λ d. IsFresh (stop_task d w).metas) [
    | enabled id ↦ stop-IsFresh w.metas id f
    | disabled ↦ f
  ]

-- Stopping takes the task of an instance away, if that instance alone held it.
pub running-stop_task :
    (ed : EnabledDisabled) (w : World) (i rest : ℕ)
    → owns ed i + rest ≡ running w.metas i
    → rest ≡ running (stop_task ed w).metas i
unfolding stop_task
running-stop_task (enabled id) w i rest e =
    ground (arith, running-stop w.metas id i, running-le w.metas i)
running-stop_task disabled w i rest e = omega (arith, e)

-- What a start gives, for an enabled configuration and for a disabled one.
pub record Started (h h' : MetaHeap) (en : Bool) (args : EndpointArgs) (ed : EnabledDisabled)
    : Type 0 where
  pub fresh : IsFresh h'
  pub extends : Extends h h'
  pub runs : Runs h' en (cap_idle args) ed
  pub one_more : (i : ℕ) → running h' i ≡ owns ed i + running h i

pub start_task-Started :
    (host : Host) (en : Bool) (args : EndpointArgs) (w : World)
    → IsFresh w.metas
    → Started w.metas (start_task host en args w).0.metas en args (start_task host en args w).1
unfolding start_task
start_task-Started host false args w f = record {
  fresh = f;
  extends = Extends-refl w.metas;
  runs = refl;
  one_more = λ i. omega arith;
}
start_task-Started host true args w f =
    unfold spawn_endpoint in
    record {
      fresh = alloc-IsFresh w.metas _ f;
      extends = record { args_kept = λ i a e. args_at-alloc w.metas _ i a f e };
      runs = (refl, args_at-alloc_self w.metas _);
      one_more = λ i. running-alloc w.metas _ i f (unfold endpoint_meta in refl);
    }
