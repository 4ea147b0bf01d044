-- ===== src/Runner/Inv/Entries.antt =====
-- The loop of `update_config` over the new configuration keeps the invariant.
use ebbflow.Prelude.{
  ℕ, ◌+◌, ◌-◌, ◌≡◌, refl, String, List, [], ◌∷◌, Option, none, some, arith, All, Bool-cases, inl,
  inr,
}
use ebbflow.Prelude.Map.{HashMap, lookup, HasDistinctKeys, insert-HasDistinctKeys}
use ebbflow.Config.{Endpoint, endpoint_eq}
use ebbflow.Daemon.{World, Host}
use ebbflow.Daemon.Heap.{MetaHeap, IsFresh, running}
use ebbflow.Runner.{
  EndpointInstance, stop_task, endpoint_args, start_endpoint, apply_entry, apply_endpoints,
}
use ebbflow.Runner.Tasks.{
  owns, Extends, Extends-refl, Extends-trans, stop_task-Extends, stop_task-IsFresh,
  running-stop_task, start_task-Started,
}
use ebbflow.Runner.Inv.{
  owned, Matches, Holds, Matches-Extends, held_by, owned-insert, insert-Matches, held_by-le,
}

-- The instance that is about to be replaced has been stopped, and the others hold what runs.
record Vacated (others : ℕ → ℕ) (k : String) (m : HashMap EndpointInstance) (h : MetaHeap)
    : Type 0 where
  fresh : IsFresh h
  distinct : HasDistinctKeys m
  matching : All (Matches h) m
  balanced : (i : ℕ) → owned m i + others i ≡ held_by (lookup k m) i + running h i

-- A start puts the new instance in the vacated place.
start_endpoint-Holds :
    (others : ℕ → ℕ) (host : Host) (e : Endpoint) (m : HashMap EndpointInstance) (w : World)
    → Vacated others e.dns m w.metas
    → Holds others (start_endpoint host e m w).0 (start_endpoint host e m w).1.metas
unfolding start_endpoint
start_endpoint-Holds others host e m w v =
    let st = start_task-Started host e.enabled (endpoint_args e) w v.fresh in
    record {
      fresh = st.fresh;
      distinct = insert-HasDistinctKeys e.dns _ m v.distinct;
      matching =
          insert-Matches _ e.dns _ m (refl, st.runs) (Matches-Extends m st.extends v.matching);
      balanced = λ i. omega (arith, owned-insert e.dns _ m i, st.one_more i, v.balanced i);
    }

apply_entry-Holds :
    (others : ℕ → ℕ) (host : Host) (e : Endpoint) (found : Option EndpointInstance)
    (m : HashMap EndpointInstance) (w : World)
    → lookup e.dns m ≡ found
    → Holds others m w.metas
    → Holds others (apply_entry host e found m w).0 (apply_entry host e found m w).1.metas
unfolding apply_entry
apply_entry-Holds others host e none m w f h = start_endpoint-Holds others host e m w (record {
  fresh = h.fresh;
  distinct = h.distinct;
  matching = h.matching;
  balanced = λ i. rw f (omega (arith, h.balanced i));
})
apply_entry-Holds others host e (some cur) m w f h =
    elim (Bool-cases (endpoint_eq cur.existing_config e)) [
      | inl same ↦ rw same h
      | inr changed ↦ rw changed (start_endpoint-Holds others host e m stopped vacated)
    ]
  where
    stopped : World
    stopped = stop_task cur.enabledisable w

    rest_runs : (i : ℕ) → owned m i + others i - owns cur.enabledisable i ≡ running stopped.metas i
    rest_runs i =
        running-stop_task cur.enabledisable w i _
          (omega (arith, h.balanced i, rw f at (held_by-le e.dns m i)))

    vacated : Vacated others e.dns m stopped.metas
    vacated = record {
      fresh = stop_task-IsFresh cur.enabledisable w h.fresh;
      distinct = h.distinct;
      matching = Matches-Extends m (stop_task-Extends cur.enabledisable w) h.matching;
      balanced = λ i. rw f (omega (arith, rest_runs i, rw f at (held_by-le e.dns m i)));
    }

apply_entry-Extends :
    (host : Host) (e : Endpoint) (found : Option EndpointInstance) (m : HashMap EndpointInstance)
    (w : World)
    → IsFresh w.metas
    → Extends w.metas (apply_entry host e found m w).1.metas
unfolding apply_entry start_endpoint
apply_entry-Extends host e none m w f =
    (start_task-Started host e.enabled (endpoint_args e) w f).extends
apply_entry-Extends host e (some cur) m w f =
    elim (Bool-cases (endpoint_eq cur.existing_config e)) [
      | inl same ↦ rw same (Extends-refl w.metas)
      | inr changed ↦ rw changed (
          Extends-trans (stop_task-Extends cur.enabledisable w)
            (start_task-Started host e.enabled (endpoint_args e) (stop_task cur.enabledisable w)
              (stop_task-IsFresh cur.enabledisable w f)).extends)
    ]

-- The loop over the new configuration keeps the invariant.
pub apply_endpoints-Holds :
    (others : ℕ → ℕ) (host : Host) (es : List Endpoint) (m : HashMap EndpointInstance) (w : World)
    → Holds others m w.metas
    → Holds others (apply_endpoints host es m w).0 (apply_endpoints host es m w).1.metas
      × Extends w.metas (apply_endpoints host es m w).1.metas
unfolding apply_endpoints
apply_endpoints-Holds others host [] m w h = (h, Extends-refl w.metas)
apply_endpoints-Holds others host (e ∷ es) m w h =
    let (m', w') = apply_entry host e (lookup e.dns m) m w in
    let rest =
      apply_endpoints-Holds others host es m' w'
        (apply_entry-Holds others host e (lookup e.dns m) m w refl h) in
    (rest.0, Extends-trans (apply_entry-Extends host e (lookup e.dns m) m w h.fresh) rest.1)
