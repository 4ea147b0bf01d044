-- ===== src/Runner/Keeps.antt =====
-- An endpoint whose settings a new configuration does not change keeps its task.
use ebbflow.Prelude.{
  ℕ, ◌≤◌, ◌≡◌, refl, ap, ◌∙◌, String, true, List, [], ◌∷◌, Option, none, some, arith, All,
  Bool-cases, inl, inr, str_eq, eq_iff, if◌then◌else◌,
}
use ebbflow.Prelude.Map.{HashMap, lookup, lookup-insert}
use ebbflow.Config.{Endpoint, EbbflowDaemonConfig, endpoint_eq, Endpoint-eq_iff}
use ebbflow.Daemon.{World, Host}
use ebbflow.Daemon.Heap.{running, running-le}
use ebbflow.Runner.{
  EnabledDisabled, enabled, EndpointInstance, InnerDaemonRunner, good, stop_task, contains,
  retain_endpoints, start_endpoint, apply_entry, apply_endpoints, apply_config, update_key,
  update_config,
}
use ebbflow.Runner.Tasks.{owns}
use ebbflow.Runner.Inv.{owned, held_by}
use ebbflow.Runner.Reachable.{Inv, update_config-Inv}
use ebbflow.Runner.Reconcile.{update_config_keyed}

-- Configurations of that name are all the one given.
abbrev pub AllAre : Endpoint → List Endpoint → Type 0
AllAre e = All (λ e'. e'.dns ≡ e.dns → e' ≡ e)

keeps-apply_entry :
    (host : Host) (inst : EndpointInstance) (e : Endpoint) (found : Option EndpointInstance)
    (m : HashMap EndpointInstance) (w : World)
    → lookup e.dns m ≡ found
    → (e.dns ≡ inst.existing_config.dns → e ≡ inst.existing_config)
    → lookup inst.existing_config.dns m ≡ some inst
    → lookup inst.existing_config.dns (apply_entry host e found m w).0 ≡ some inst
unfolding apply_entry start_endpoint
keeps-apply_entry host inst e none m w f a h =
    let d = inst.existing_config.dns in
    elim (Bool-cases (str_eq e.dns d)) [
      | inl hit ↦ cc ((eq_iff e.dns d).0 hit)
      | inr miss ↦ rw (lookup-insert e.dns d _ m) (rw miss h)
    ]
keeps-apply_entry host inst e (some cur) m w f a h =
    elim (Bool-cases (endpoint_eq cur.existing_config e)) [
      | inl same ↦ rw same h
      | inr changed ↦ rw changed (elim (Bool-cases (str_eq e.dns inst.existing_config.dns)) [
        | inl hit ↦
            let p = (eq_iff e.dns inst.existing_config.dns).0 hit in
            let q : cur.existing_config ≡ e = cc (a p, p) in
            cc (changed, (Endpoint-eq_iff cur.existing_config e).1 q)
        | inr miss ↦ rw (lookup-insert e.dns inst.existing_config.dns _ m) (rw miss h)
      ])
    ]

keeps-apply_endpoints :
    (host : Host) (inst : EndpointInstance) (es : List Endpoint) (m : HashMap EndpointInstance)
    (w : World)
    → AllAre inst.existing_config es
    → lookup inst.existing_config.dns m ≡ some inst
    → lookup inst.existing_config.dns (apply_endpoints host es m w).0 ≡ some inst
unfolding apply_endpoints
keeps-apply_endpoints host inst [] m w a h = h
keeps-apply_endpoints host inst (e ∷ es) m w a h =
    let (m', w') = apply_entry host e (lookup e.dns m) m w in
    keeps-apply_endpoints host inst es m' w' a.1
      (keeps-apply_entry host inst e (lookup e.dns m) m w refl a.0 h)

keeps-retain :
    (inst : EndpointInstance) (es : List Endpoint) (m : HashMap EndpointInstance) (w : World)
    → contains inst.existing_config.dns es ≡ true
    → lookup inst.existing_config.dns m ≡ some inst
    → lookup inst.existing_config.dns (retain_endpoints es m w).0 ≡ some inst
unfolding retain_endpoints lookup
keeps-retain inst es [] w c h = h
keeps-retain inst es ((k, v) ∷ m) w c h = ground (
  arith,
  eq_iff k inst.existing_config.dns,
  keeps-retain inst es m (if contains k es then w else stop_task v.enabledisable w),
)

pub owns-le-owned :
    (k : String) (m : HashMap EndpointInstance) (inst : EndpointInstance) (i : ℕ)
    → lookup k m ≡ some inst
    → owns inst.enabledisable i ≤ owned m i
unfolding lookup
owns-le-owned k [] inst i h = cc
owns-le-owned k ((j, v) ∷ m) inst i h = elim (Bool-cases (str_eq j k)) [
  | inl e ↦ omega (arith, ap (λ (o : Option EndpointInstance). held_by o i) (rw e at h))
  | inr e ↦ omega (arith, owns-le-owned k m inst i (rw e at h))
]

pub owns_self : (id : ℕ) → owns (enabled id) id ≡ 1
owns_self id = ground arith

endpoints-update_key :
    (key : Option String) (r : InnerDaemonRunner) → (update_key key r).endpoints ≡ r.endpoints
unfolding update_key
endpoints-update_key key r = ground arith

keeps-apply_config :
    (host : Host) (config : EbbflowDaemonConfig) (r : InnerDaemonRunner) (inst : EndpointInstance)
    → lookup inst.existing_config.dns r.endpoints ≡ some inst
    → contains inst.existing_config.dns config.endpoints ≡ true
    → AllAre inst.existing_config config.endpoints
    → lookup inst.existing_config.dns (apply_config host config r).endpoints ≡ some inst
unfolding apply_config
keeps-apply_config host config r inst l c a =
    let (m1, w1) = retain_endpoints config.endpoints r.endpoints r.world in
    keeps-apply_endpoints host inst config.endpoints m1 w1 a
      (keeps-retain inst config.endpoints r.endpoints r.world c l)

-- With a key, in a runner that keeps the invariant, an endpoint that the new configuration names,
-- each time with the settings it has, keeps its instance, so its task's address, and the task, if
-- it was enabled, goes on running.
pub update_config-keeps :
    (host : Host) (config : EbbflowDaemonConfig) (key : Option String) (k : String)
    (r : InnerDaemonRunner) (inst : EndpointInstance)
    → Inv r
    → (update_key key r).key ≡ some k
    → lookup inst.existing_config.dns r.endpoints ≡ some inst
    → contains inst.existing_config.dns config.endpoints ≡ true
    → AllAre inst.existing_config config.endpoints
    → let r' = update_config host (some config) key r in
      (lookup inst.existing_config.dns r'.endpoints ≡ some inst)
      × ((id : ℕ) → inst.enabledisable ≡ enabled id → running r'.world.metas id ≡ 1)
update_config-keeps host config key k r inst v e l c a = (
  stays,
  λ id held. omega (
    arith,
    owns-le-owned inst.existing_config.dns r'.endpoints inst id stays,
    ap (λ (ed : EnabledDisabled). owns ed id) held,
    owns_self id,
    (update_config-Inv host (some config) key r v).holds.balanced id,
    running-le r'.world.metas id,
  ),
)
  where
    r' : InnerDaemonRunner
    r' = update_config host (some config) key r

    stays : lookup inst.existing_config.dns r'.endpoints ≡ some inst
    stays = rw (update_config_keyed host config key k r e) (
        keeps-apply_config host config (record (update_key key r) { statusmeta = good }) inst
          (ap (lookup inst.existing_config.dns) (endpoints-update_key key r) ∙ l) c a)
