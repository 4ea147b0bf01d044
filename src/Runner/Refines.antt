-- ===== src/Runner/Refines.antt =====
-- The runner against its abstract view.
use ebbflow.Prelude.{
  ℕ, ◌≡◌, refl, sym, ap, ◌∙◌, String, Bool, List, [], ◌∷◌, Option, none, some, arith, All,
  if◌then◌else◌, str_eq, eq_iff, subst, Bool-cases, inl, inr,
}
use ebbflow.Prelude.Map.{HashMap, lookup}
use ebbflow.Config.{EbbflowDaemonConfig}
use ebbflow.Daemon.{Host}
use ebbflow.Daemon.Heap.{EndpointArgs, MetaHeap, running, running-le}
use ebbflow.Runner.{
  EnabledDisabled, enabled, disabled, EndpointInstance, SshInstance, InnerDaemonRunner, good, new,
  update_key, with_config, apply_config, update_keyed, update_config, submit_error_message,
}
use ebbflow.Runner.Tasks.{owns, Runs}
use ebbflow.Runner.Inv.{ssh_owned, Matches, SshMatches}
use ebbflow.Runner.Reachable.{Inv, Call, updates, fails, run, run-new-Inv}
use ebbflow.Runner.Reconcile.{config_of, config_at, ssh_config_of, reconciles}
use ebbflow.Runner.Keeps.{owns-le-owned, owns_self}
use ebbflow.Runner.Wanted.{
  served, serving, ssh_serving, asked, ssh_asked, Wanted, nothing, take_config, take_call,
  take_calls,
}

Runs-served :
    (h : MetaHeap) (en : Bool) (args : EndpointArgs) (ed : EnabledDisabled)
    → Runs h en args ed
    → ((id : ℕ) → ed ≡ enabled id → running h id ≡ 1)
    → served h ed ≡ (if en then some args else none)
unfolding served
Runs-served h en args disabled v one = ground (arith, v)
Runs-served h en args (enabled id) v one = ground (arith, v, one id refl)

pub Matches-lookup :
    (h : MetaHeap) (dns : String) (m : HashMap EndpointInstance) (inst : EndpointInstance)
    → All (Matches h) m
    → lookup dns m ≡ some inst
    → Matches h (dns, inst)
unfolding lookup
Matches-lookup h dns [] inst a e = cc e
Matches-lookup h dns ((k, v) ∷ m) inst a e = elim (Bool-cases (str_eq k dns)) [
  | inl hit ↦
      let same : v ≡ inst = cc (rw (hit, lookup) at e) in
      subst (Matches h) (λ i. ((eq_iff k dns).0 hit i, same i)) a.0
  | inr miss ↦ Matches-lookup h dns m inst a.1 (rw (miss, lookup) at e)
]

-- In a runner that keeps the invariant, each name is served as the configuration that the runner
-- keeps for it asks.
pub serving-asked :
    (r : InnerDaemonRunner) (dns : String) (o : Option EndpointInstance)
    → Inv r
    → lookup dns r.endpoints ≡ o
    → serving r.world.metas o ≡ asked (config_of o)
unfolding serving asked
serving-asked r dns none v e = refl
serving-asked r dns (some inst) v e =
    let matches = Matches-lookup r.world.metas dns r.endpoints inst v.holds.matching e in
    Runs-served r.world.metas _ _ inst.enabledisable matches.1 (λ id held. omega (
      arith,
      owns-le-owned dns r.endpoints inst id e,
      ap (λ (ed : EnabledDisabled). owns ed id) held,
      owns_self id,
      v.holds.balanced id,
      running-le r.world.metas id,
    ))

pub ssh_serving-asked :
    (r : InnerDaemonRunner) (o : Option SshInstance)
    → Inv r
    → r.ssh ≡ o
    → ssh_serving r.world.metas o ≡ ssh_asked (ssh_config_of o)
unfolding ssh_serving ssh_asked
ssh_serving-asked r none v e = refl
ssh_serving-asked r (some inst) v e =
    let matches = subst (SshMatches r.world.metas) e v.ssh_matches in
    Runs-served r.world.metas _ _ inst.enabledisable matches (λ id held. omega (
      arith,
      ap (λ (s : Option SshInstance). ssh_owned s id) e,
      ap (λ (ed : EnabledDisabled). owns ed id) held,
      owns_self id,
      v.holds.balanced id,
      running-le r.world.metas id,
    ))

-- The runner keeps the configurations of what is wanted.
record Keeps (r : InnerDaemonRunner) (w : Wanted) : Type 0 where
  same_key : r.key ≡ w.key
  same_tasks : (dns : String) → asked (config_at dns r.endpoints) ≡ w.tasks dns
  same_ssh : ssh_asked (ssh_config_of r.ssh) ≡ w.ssh

with_config-Keeps :
    (host : Host) (config : Option EbbflowDaemonConfig) (r : InnerDaemonRunner) (w : Wanted)
    → Keeps r w
    → Keeps (with_config host config (record r { statusmeta = good })) (take_config host config w)
unfolding with_config take_config
with_config-Keeps host none r w v = record {
  same_key = v.same_key;
  same_tasks = v.same_tasks;
  same_ssh = v.same_ssh;
}
with_config-Keeps host (some config) r w v =
    let facts = reconciles host config (record r { statusmeta = good }) in
    record {
      same_key = unfold apply_config in v.same_key;
      same_tasks = λ dns. ap asked (facts.0 dns);
      same_ssh = ap ssh_asked facts.1;
    }

unkeyed-Keeps :
    (host : Host) (config : Option EbbflowDaemonConfig) (r : InnerDaemonRunner) (w : Wanted)
    → Keeps r w
    → Keeps (update_keyed host config none r) w
unfolding update_keyed submit_error_message
unkeyed-Keeps host config r w v = record {
  same_key = v.same_key;
  same_tasks = v.same_tasks;
  same_ssh = v.same_ssh;
}

take_call-unkeyed :
    (host : Host) (config : Option EbbflowDaemonConfig) (w : Wanted)
    → w.key ≡ none
    → take_call (updates host config none) w ≡ w
unfolding take_call
take_call-unkeyed host config w e = simp (e, take_call) refl

take_call-keyed :
    (host : Host) (config : Option EbbflowDaemonConfig) (w : Wanted) (k : String)
    → w.key ≡ some k
    → take_call (updates host config none) w ≡ take_config host config w
unfolding take_call
take_call-keyed host config w k e = simp (e, take_call) refl

update_config-Keeps :
    (host : Host) (config : Option EbbflowDaemonConfig) (key old : Option String)
    (r : InnerDaemonRunner) (w : Wanted)
    → r.key ≡ old
    → Keeps r w
    → Keeps (update_config host config key r) (take_call (updates host config key) w)
unfolding update_config update_key update_keyed take_call
update_config-Keeps host config (some k) old r w e v =
    with_config-Keeps host config (record r { key = some k }) (record w { key = some k })
      (record { same_key = refl; same_tasks = v.same_tasks; same_ssh = v.same_ssh })
update_config-Keeps host config none none r w e v =
    subst (Keeps (update_config host config none r))
      (sym (take_call-unkeyed host config w (sym v.same_key ∙ e)))
      (subst (λ k. Keeps (update_keyed host config k r) w) (sym e)
        (unkeyed-Keeps host config r w v))
update_config-Keeps host config none (some k) r w e v =
    subst (Keeps (update_config host config none r))
      (sym (take_call-keyed host config w k (sym v.same_key ∙ e)))
      (subst (λ l. Keeps (update_keyed host config l r) (take_config host config w)) (sym e)
        (with_config-Keeps host config r w v))

run-Keeps :
    (cs : List Call) (r : InnerDaemonRunner) (w : Wanted)
    → Keeps r w
    → Keeps (run cs r) (take_calls cs w)
unfolding run take_calls take_call submit_error_message
run-Keeps [] r w v = v
run-Keeps (updates host config key ∷ cs) r w v =
    run-Keeps cs (update_config host config key r) (take_call (updates host config key) w)
      (update_config-Keeps host config key r.key r w refl v)
run-Keeps (fails host m ∷ cs) r w v =
    run-Keeps cs (submit_error_message host m r) w
      (record { same_key = v.same_key; same_tasks = v.same_tasks; same_ssh = v.same_ssh })

new-Keeps : Keeps new nothing
unfolding new asked ssh_asked lookup
new-Keeps = record { same_key = refl; same_tasks = λ dns. refl; same_ssh = refl }

-- The runner refines its abstract view: after any history of calls on a new runner, its key, the
-- arguments of the running task under each name, and those of the SSH proxy's are what the same
-- calls make of the view, in which the last configuration that came with a key, then or before,
-- replaces all that was wanted.
pub run-take_calls :
    (cs : List Call)
    → let r = run cs new in
      let w = take_calls cs nothing in
      (r.key ≡ w.key)
      × ((dns : String) → serving r.world.metas (lookup dns r.endpoints) ≡ w.tasks dns)
      × (ssh_serving r.world.metas r.ssh ≡ w.ssh)
run-take_calls cs =
    let r = run cs new in
    let v = run-Keeps cs new nothing new-Keeps in
    (
      v.same_key,
      (λ dns.
          serving-asked r dns (lookup dns r.endpoints) (run-new-Inv cs) refl ∙ v.same_tasks dns),
      ssh_serving-asked r r.ssh (run-new-Inv cs) refl ∙ v.same_ssh,
    )
