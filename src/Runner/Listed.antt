-- ===== src/Runner/Listed.antt =====
-- What the status of the runner lists, against the abstract view.
use ebbflow.Prelude.{
  ℕ, ◌≡◌, refl, sym, ap, ◌∙◌, subst, String, Bool, true, false, List, [], ◌∷◌, map, Option, none,
  some, is_some, if◌then◌else◌, str_eq, Bool-cases, inl, inr,
}
use ebbflow.Prelude.Map.{HashMap, lookup}
use ebbflow.Config.{Endpoint, SshConfiguration}
use ebbflow.Daemon.{World}
use ebbflow.Daemon.Heap.{EndpointArgs, Spawned, args_at, args_at-none}
use ebbflow.Runner.{
  EnabledDisabled, enabled, disabled, EndpointInstance, SshInstance, InnerDaemonRunner, new,
}
use ebbflow.Runner.Status.{
  DaemonEndpointStatus, disabled_status, enabled_status, from_ref, ssh_status, status,
}
use ebbflow.Runner.Tasks.{Runs}
use ebbflow.Runner.Inv.{SshMatches}
use ebbflow.Runner.Reachable.{Inv, Call, run, run-new-Inv}
use ebbflow.Runner.Reconcile.{config_of, ssh_config_of}
use ebbflow.Runner.Wanted.{asked, ssh_asked, take_calls, nothing}
use ebbflow.Runner.Refines.{run-take_calls, serving-asked, ssh_serving-asked, Matches-lookup}

abbrev pub is_enabled : DaemonEndpointStatus → Bool
is_enabled disabled_status = false
is_enabled (enabled_status active idle health) = true

-- Whether a status lists a name as enabled.
unfoldable pub lists_enabled : String → List (String × DaemonEndpointStatus) → Bool
lists_enabled dns [] = false
lists_enabled dns (e ∷ es) = if str_eq e.0 dns then is_enabled e.1 else lists_enabled dns es

abbrev pub ssh_enabled : Option (String × DaemonEndpointStatus) → Bool
ssh_enabled none = false
ssh_enabled (some e) = is_enabled e.1

cell-from_ref :
    (w : World) (id : ℕ) (args : EndpointArgs) (o : Option Spawned)
    → w.metas.cell id ≡ o
    → args_at w.metas id ≡ some args
    → is_enabled (from_ref w (enabled id)) ≡ true
unfolding from_ref
cell-from_ref w id args none e h = cc (sym (args_at-none w.metas id e) ∙ h)
cell-from_ref w id args (some s) e h = rw (e, from_ref) refl

Runs-from_ref :
    (w : World) (en : Bool) (args : EndpointArgs) (ed : EnabledDisabled)
    → Runs w.metas en args ed
    → is_enabled (from_ref w ed) ≡ en
unfolding from_ref
Runs-from_ref w en args (enabled id) r =
    cell-from_ref w id args (w.metas.cell id) refl r.1 ∙ sym r.0
Runs-from_ref w en args disabled r = sym r

-- The state of the instance under a name.
abbrev listed : World → Option EndpointInstance → Bool
listed w none = false
listed w (some inst) = is_enabled (from_ref w inst.enabledisable)

lists-lookup :
    (w : World) (dns : String) (m : HashMap EndpointInstance)
    → lists_enabled dns
        (map (λ (e : String × EndpointInstance). (e.0, from_ref w e.1.enabledisable)) m)
      ≡ listed w (lookup dns m)
unfolding lists_enabled lookup
lists-lookup w dns [] = refl
lists-lookup w dns ((k, v) ∷ m) = elim (Bool-cases (str_eq k dns)) [
  | inl hit ↦ rw (hit, lookup) refl
  | inr miss ↦ rw (miss, lookup) (lists-lookup w dns m)
]

asked-is_some : (e : Endpoint) → is_some (asked (some e)) ≡ e.enabled
unfolding asked
asked-is_some e = elim (Bool-cases e.enabled) [ inl on ↦ rw on refl | inr off ↦ rw off refl ]

ssh_asked-is_some : (c : SshConfiguration) → is_some (ssh_asked (some c)) ≡ c.enabled
unfolding ssh_asked
ssh_asked-is_some c = elim (Bool-cases c.enabled) [ inl on ↦ rw on refl | inr off ↦ rw off refl ]

listed-asked :
    (r : InnerDaemonRunner) (dns : String) (o : Option EndpointInstance)
    → Inv r
    → lookup dns r.endpoints ≡ o
    → listed r.world o ≡ is_some (asked (config_of o))
unfolding asked
listed-asked r dns none v e = refl
listed-asked r dns (some inst) v e =
    Runs-from_ref r.world _ _ inst.enabledisable
      (Matches-lookup r.world.metas dns r.endpoints inst v.holds.matching e).1
    ∙ sym (asked-is_some inst.existing_config)

ssh_listed-asked :
    (r : InnerDaemonRunner) (o : Option SshInstance)
    → Inv r
    → r.ssh ≡ o
    → ssh_enabled (ssh_status r.world o) ≡ is_some (ssh_asked (ssh_config_of o))
unfolding ssh_status ssh_asked
ssh_listed-asked r none v e = refl
ssh_listed-asked r (some inst) v e =
    Runs-from_ref r.world _ _ inst.enabledisable (subst (SshMatches r.world.metas) e v.ssh_matches)
    ∙ sym (ssh_asked-is_some inst.existing_config)

-- After any history of calls on a new runner, its status lists as enabled exactly the names under
-- which the abstract view wants a task, and the SSH proxy exactly if one is wanted.
pub run-status :
    (cs : List Call) (dns : String)
    → let s = status (run cs new) in
      let w = take_calls cs nothing in
      (lists_enabled dns s.endpoints ≡ is_some (w.tasks dns)) × (ssh_enabled s.ssh ≡ is_some w.ssh)
unfolding status
run-status cs dns =
    let r = run cs new in
    let v = run-new-Inv cs in
    let wanted = run-take_calls cs in
    (
      lists-lookup r.world dns r.endpoints
          ∙ listed-asked r dns (lookup dns r.endpoints) v refl
          ∙ ap is_some (sym (serving-asked r dns (lookup dns r.endpoints) v refl) ∙ wanted.1 dns),
      ssh_listed-asked r r.ssh v refl
          ∙ ap is_some (sym (ssh_serving-asked r r.ssh v refl) ∙ wanted.2),
    )
