-- ===== src/Runner/Idempotent.antt =====
-- Applying a configuration again changes nothing: no task is stopped or started.
use ebbflow.Prelude.{
  ◌≡◌, refl, ap, ◌∙◌, String, true, false, List, [], ◌∷◌, Option, none, some, arith, All, All-map,
  Bool-cases, inl, inr, str_eq, eq_refl,
}
use ebbflow.Prelude.Map.{HashMap, lookup, insert}
use ebbflow.Config.{
  Endpoint, EbbflowDaemonConfig, SshConfiguration, endpoint_eq, Endpoint-eq_iff,
  SshConfiguration-eq_iff,
}
use ebbflow.Daemon.{World, Host}
use ebbflow.Runner.{
  EndpointInstance, SshInstance, InnerDaemonRunner, good, stop_task, contains, retain_endpoints,
  start_endpoint, apply_entry, apply_endpoints, ssh_of, apply_ssh, apply_config, update_key,
  update_config,
}
use ebbflow.Runner.Reconcile.{
  last_config, config_at, ssh_config_of, contains-last_config, update_config_keyed, reconciles,
}

-- No name stands twice in a configuration.
abbrev pub HasDistinctNames : List Endpoint → Type 0
HasDistinctNames [] = Unit {0}
HasDistinctNames (e ∷ es) = (contains e.dns es ≡ false) × HasDistinctNames es

abbrev IsNamed : List Endpoint → String × EndpointInstance → Type 0
IsNamed es (dns, inst) = contains dns es ≡ true

last_config-distinct :
    (es : List Endpoint) → HasDistinctNames es → All (λ e. last_config e.dns es ≡ some e) es
unfolding last_config
last_config-distinct [] d = tt
last_config-distinct (e ∷ es) d = (
  ground (arith, contains-last_config e.dns es, eq_refl e.dns),
  All-map (λ e' h. ground (arith, h)) es (last_config-distinct es d.1),
)

retain-named :
    (es : List Endpoint) (m : HashMap EndpointInstance) (w : World)
    → All (IsNamed es) m
    → retain_endpoints es m w ≡ (m, w)
unfolding retain_endpoints
retain-named es [] w a = refl
retain-named es ((dns, inst) ∷ m) w a = ground (arith, a.0, retain-named es m w a.1)

retain-IsNamed :
    (es : List Endpoint) (m : HashMap EndpointInstance) (w : World)
    → All (IsNamed es) (retain_endpoints es m w).0
unfolding retain_endpoints
retain-IsNamed es [] w = tt
retain-IsNamed es ((dns, inst) ∷ m) w = elim (Bool-cases (contains dns es)) [
  | inl named ↦ rw named (named, retain-IsNamed es m w)
  | inr gone ↦ rw gone (retain-IsNamed es m (stop_task inst.enabledisable w))
]

insert-IsNamed :
    (es : List Endpoint) (k : String) (v : EndpointInstance) (m : HashMap EndpointInstance)
    → contains k es ≡ true
    → All (IsNamed es) m
    → All (IsNamed es) (insert k v m)
unfolding insert
insert-IsNamed es k v [] c a = (c, tt)
insert-IsNamed es k v ((j, w) ∷ m) c a = elim (Bool-cases (str_eq j k)) [
  | inl e ↦ rw e (c, a.1)
  | inr e ↦ rw e (a.0, insert-IsNamed es k v m c a.1)
]

apply_entry-IsNamed :
    (host : Host) (es : List Endpoint) (e : Endpoint) (found : Option EndpointInstance)
    (m : HashMap EndpointInstance) (w : World)
    → contains e.dns es ≡ true
    → All (IsNamed es) m
    → All (IsNamed es) (apply_entry host e found m w).0
unfolding apply_entry start_endpoint
apply_entry-IsNamed host es e none m w c a = insert-IsNamed es e.dns _ m c a
apply_entry-IsNamed host es e (some cur) m w c a =
    elim (Bool-cases (endpoint_eq cur.existing_config e)) [
      | inl same ↦ rw same a
      | inr changed ↦ rw changed (insert-IsNamed es e.dns _ m c a)
    ]

apply_endpoints-IsNamed :
    (host : Host) (all es : List Endpoint) (m : HashMap EndpointInstance) (w : World)
    → All (λ e. contains e.dns all ≡ true) es
    → All (IsNamed all) m
    → All (IsNamed all) (apply_endpoints host es m w).0
unfolding apply_endpoints
apply_endpoints-IsNamed host all [] m w c a = a
apply_endpoints-IsNamed host all (e ∷ es) m w c a =
    let (m', w') = apply_entry host e (lookup e.dns m) m w in
    apply_endpoints-IsNamed host all es m' w' c.1
      (apply_entry-IsNamed host all e (lookup e.dns m) m w c.0 a)

contains_own : (es : List Endpoint) → All (λ e. contains e.dns es ≡ true) es
unfolding contains
contains_own [] = tt
contains_own (e ∷ es) =
    (ground (arith, eq_refl e.dns), All-map (λ e' h. ground (arith, h)) es (contains_own es))

apply_entry-present :
    (host : Host) (e : Endpoint) (found : Option EndpointInstance) (m : HashMap EndpointInstance)
    (w : World)
    → lookup e.dns m ≡ found
    → config_at e.dns m ≡ some e
    → apply_entry host e found m w ≡ (m, w)
unfolding apply_entry
apply_entry-present host e none m w f c = cc (rw f at c)
apply_entry-present host e (some cur) m w f c =
    ground (arith, Endpoint-eq_iff cur.existing_config e, rw f at c)

apply_endpoints-present :
    (host : Host) (es : List Endpoint) (m : HashMap EndpointInstance) (w : World)
    → All (λ e. config_at e.dns m ≡ some e) es
    → apply_endpoints host es m w ≡ (m, w)
unfolding apply_endpoints
apply_endpoints-present host [] m w a = refl
apply_endpoints-present host (e ∷ es) m w a =
    rw (apply_entry-present host e (lookup e.dns m) m w refl a.0)
      (apply_endpoints-present host es m w a.1)

apply_ssh-present :
    (host : Host) (c : Option SshConfiguration) (s : Option SshInstance) (w : World)
    → ssh_config_of s ≡ c
    → apply_ssh host c s w ≡ (s, w)
unfolding apply_ssh
apply_ssh-present host none none w e = refl
apply_ssh-present host none (some old) w e = cc
apply_ssh-present host (some c) none w e = cc
apply_ssh-present host (some c) (some old) w e =
    ground (arith, SshConfiguration-eq_iff c old.existing_config)

-- A runner that already holds a configuration is not changed by it.
apply_config-present :
    (host : Host) (config : EbbflowDaemonConfig) (r : InnerDaemonRunner)
    → All (IsNamed config.endpoints) r.endpoints
    → All (λ e. config_at e.dns r.endpoints ≡ some e) config.endpoints
    → ssh_config_of r.ssh ≡ ssh_of host config.ssh
    → apply_config host config r ≡ r
unfolding apply_config
apply_config-present host config r named present same = rw (
  retain-named config.endpoints r.endpoints r.world named,
  apply_endpoints-present host config.endpoints r.endpoints r.world present,
  apply_ssh-present host (ssh_of host config.ssh) r.ssh r.world same,
)

apply_config-IsNamed :
    (host : Host) (config : EbbflowDaemonConfig) (r : InnerDaemonRunner)
    → All (IsNamed config.endpoints) (apply_config host config r).endpoints
unfolding apply_config
apply_config-IsNamed host config r =
    apply_endpoints-IsNamed host config.endpoints config.endpoints _ _
      (contains_own config.endpoints) (retain-IsNamed config.endpoints r.endpoints r.world)

restored :
    (host : Host) (config : EbbflowDaemonConfig) (key : Option String) (r : InnerDaemonRunner)
    → let r' = apply_config host config (record (update_key key r) { statusmeta = good }) in
      record (update_key key r') { statusmeta = good } ≡ r'
unfolding apply_config update_key
restored host config none r = refl
restored host config (some k) r = refl

key-kept :
    (host : Host) (config : EbbflowDaemonConfig) (key : Option String) (k : String)
    (r : InnerDaemonRunner)
    → (update_key key r).key ≡ some k
    → (update_key key
        (apply_config host config (record (update_key key r) { statusmeta = good }))).key
      ≡ some k
unfolding apply_config update_key
key-kept host config none k r e = e
key-kept host config (some k') k r e = e

apply_config_twice :
    (host : Host) (config : EbbflowDaemonConfig) (r : InnerDaemonRunner)
    → HasDistinctNames config.endpoints
    → apply_config host config (apply_config host config r) ≡ apply_config host config r
apply_config_twice host config r d =
    let facts = reconciles host config r in
    apply_config-present host config (apply_config host config r)
      (apply_config-IsNamed host config r)
      (All-map (λ e h. facts.0 e.dns ∙ h) config.endpoints
        (last_config-distinct config.endpoints d))
      facts.1

-- With a key and a configuration in which no name stands twice, applying the configuration a second
-- time leaves the whole runner as the first time left it: the instances, the tasks, the messages.
pub update_config_twice :
    (host : Host) (config : EbbflowDaemonConfig) (key : Option String) (k : String)
    (r : InnerDaemonRunner)
    → HasDistinctNames config.endpoints
    → (update_key key r).key ≡ some k
    → update_config host (some config) key (update_config host (some config) key r)
      ≡ update_config host (some config) key r
update_config_twice host config key k r d e =
    let r1 = apply_config host config (record (update_key key r) { statusmeta = good }) in
    rw (update_config_keyed host config key k r e) (
      update_config_keyed host config key k r1 (key-kept host config key k r e)
      ∙ ap (apply_config host config) (restored host config key r)
      ∙ apply_config_twice host config _ d)
