-- ===== src/Runner/Inv/Retained.antt =====
-- `retain` of `update_config` keeps the invariant.
use ebbflow.Prelude.{
  ℕ, ◌+◌, ◌≡◌, refl, String, List, [], ◌∷◌, none, arith, if◌then◌else◌, Bool-cases, inl, inr,
}
use ebbflow.Prelude.Map.{HashMap, lookup}
use ebbflow.Config.{Endpoint}
use ebbflow.Daemon.{World}
use ebbflow.Runner.{EndpointInstance, stop_task, contains, retain_endpoints}
use ebbflow.Runner.Tasks.{
  owns, Extends, Extends-refl, Extends-trans, Runs-Extends, stop_task-Extends, stop_task-IsFresh,
  running-stop_task,
}
use ebbflow.Runner.Inv.{Holds, Matches-Extends}

lookup-retain_none :
    (k : String) (es : List Endpoint) (m : HashMap EndpointInstance) (w : World)
    → lookup k m ≡ none
    → lookup k (retain_endpoints es m w).0 ≡ none
unfolding lookup retain_endpoints
lookup-retain_none k es [] w e = refl
lookup-retain_none k es ((j, v) ∷ m) w e =
    ground
      (arith, lookup-retain_none k es m (if contains j es then w else stop_task v.enabledisable w))

pub retain_endpoints-Extends :
    (es : List Endpoint) (m : HashMap EndpointInstance) (w : World)
    → Extends w.metas (retain_endpoints es m w).1.metas
unfolding retain_endpoints
retain_endpoints-Extends es [] w = Extends-refl w.metas
retain_endpoints-Extends es ((dns, inst) ∷ m) w = elim (Bool-cases (contains dns es)) [
  | inl named ↦ rw named (retain_endpoints-Extends es m w)
  | inr gone ↦ rw gone (
      Extends-trans (stop_task-Extends inst.enabledisable w)
        (retain_endpoints-Extends es m (stop_task inst.enabledisable w)))
]

-- Dropping what the configuration no longer names keeps the invariant.
pub retain_endpoints-Holds :
    (others : ℕ → ℕ) (es : List Endpoint) (m : HashMap EndpointInstance) (w : World)
    → Holds others m w.metas
    → Holds others (retain_endpoints es m w).0 (retain_endpoints es m w).1.metas
unfolding retain_endpoints
retain_endpoints-Holds others es [] w h = h
retain_endpoints-Holds others es ((dns, inst) ∷ m) w h = elim (Bool-cases (contains dns es)) [
  | inl named ↦
      let rest =
        retain_endpoints-Holds (λ i. owns inst.enabledisable i + others i) es m w
          (record {
            fresh = h.fresh;
            distinct = h.distinct.1;
            matching = h.matching.1;
            balanced = λ i. omega (arith, h.balanced i);
          }) in
      rw named (record {
        fresh = rest.fresh;
        distinct = (lookup-retain_none dns es m w h.distinct.0, rest.distinct);
        matching = (
          (
            h.matching.0.0,
            Runs-Extends _ _ inst.enabledisable (retain_endpoints-Extends es m w) h.matching.0.1,
          ),
          rest.matching,
        );
        balanced = λ i. omega (arith, rest.balanced i);
      })
  | inr gone ↦ rw gone (
      retain_endpoints-Holds others es m (stop_task inst.enabledisable w) (record {
        fresh = stop_task-IsFresh inst.enabledisable w h.fresh;
        distinct = h.distinct.1;
        matching = Matches-Extends m (stop_task-Extends inst.enabledisable w) h.matching.1;
        balanced = λ i. running-stop_task inst.enabledisable w i _ (omega (arith, h.balanced i));
      }))
]
