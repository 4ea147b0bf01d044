-- ===== src/Runner/Reconcile.antt =====
-- What a new configuration leaves behind: the instances are those of the configuration.
use ebbflow.Prelude.{
  ◌≡◌, refl, sym, ap, ◌∙◌, String, List, [], ◌∷◌, Option, none, some, arith, Bool-cases, inl, inr,
  str_eq, eq_iff, is_some, if◌then◌else◌,
}
use ebbflow.Prelude.Map.{HashMap, lookup, insert, lookup-insert}
use ebbflow.Config.{
  Endpoint, EbbflowDaemonConfig, SshConfiguration, endpoint_eq, Endpoint-eq_iff,
  ssh_configuration_eq, SshConfiguration-eq_iff,
}
use ebbflow.Daemon.{World, Host}
use ebbflow.Runner.{
  EndpointInstance, SshInstance, InnerDaemonRunner, good, stop_task, contains, retain_endpoints,
  start_endpoint, apply_entry, apply_endpoints, ssh_of, start_ssh, apply_ssh, apply_config,
  with_config, update_key, update_keyed, update_config,
}

-- The entry that the last endpoint of that name has in a configuration.
unfoldable pub last_config : String → List Endpoint → Option Endpoint
last_config dns [] = none
last_config dns (e ∷ es) = elim (last_config dns es) [
  | none ↦ if str_eq e.dns dns then some e else none
  | some e' ↦ some e'
]

abbrev pub config_of : Option EndpointInstance → Option Endpoint
config_of none = none
config_of (some inst) = some inst.existing_config

-- The configuration that the runner keeps under a name.
abbrev pub config_at : String → HashMap EndpointInstance → Option Endpoint
config_at dns m = config_of (lookup dns m)

abbrev pub ssh_config_of : Option SshInstance → Option SshConfiguration
ssh_config_of none = none
ssh_config_of (some inst) = some inst.existing_config

pub contains-last_config :
    (dns : String) (es : List Endpoint) → contains dns es ≡ is_some (last_config dns es)
unfolding contains last_config
contains-last_config dns [] = refl
contains-last_config dns (e ∷ es) = ground (arith, contains-last_config dns es)

config_at-retain :
    (dns : String) (es : List Endpoint) (m : HashMap EndpointInstance) (w : World)
    → config_at dns (retain_endpoints es m w).0
      ≡ (if contains dns es then config_at dns m else none)
unfolding retain_endpoints lookup
config_at-retain dns es [] w = ground arith
config_at-retain dns es ((k, inst) ∷ m) w = ground (
  arith,
  eq_iff k dns,
  config_at-retain dns es m (if contains k es then w else stop_task inst.enabledisable w),
)

config_at-insert :
    (dns k : String) (v : EndpointInstance) (m : HashMap EndpointInstance)
    → config_at dns (insert k v m)
      ≡ (if str_eq k dns then some v.existing_config else config_at dns m)
config_at-insert dns k v m = elim (Bool-cases (str_eq k dns)) [
  | inl e ↦ rw (lookup-insert k dns v m) (rw e)
  | inr e ↦ rw (lookup-insert k dns v m) (rw e)
]

config_at-apply_entry :
    (dns : String) (host : Host) (e : Endpoint) (found : Option EndpointInstance)
    (m : HashMap EndpointInstance) (w : World)
    → lookup e.dns m ≡ found
    → config_at dns (apply_entry host e found m w).0
      ≡ (if str_eq e.dns dns then some e else config_at dns m)
unfolding apply_entry start_endpoint
config_at-apply_entry dns host e none m w f = config_at-insert dns e.dns _ m
config_at-apply_entry dns host e (some cur) m w f =
    elim (Bool-cases (endpoint_eq cur.existing_config e)) [
      | inl same ↦ rw same (elim (Bool-cases (str_eq e.dns dns)) [
        | inl hit ↦ rw hit (
            ap (λ k. config_at k m) (sym ((eq_iff e.dns dns).0 hit))
            ∙ ap config_of f
            ∙ ap some ((Endpoint-eq_iff cur.existing_config e).0 same))
        | inr miss ↦ rw miss
      ])
      | inr changed ↦ rw changed (config_at-insert dns e.dns _ m)
    ]

config_at-apply_endpoints :
    (dns : String) (host : Host) (es : List Endpoint) (m : HashMap EndpointInstance) (w : World)
    → config_at dns (apply_endpoints host es m w).0
      ≡ (if is_some (last_config dns es) then last_config dns es else config_at dns m)
unfolding apply_endpoints last_config
config_at-apply_endpoints dns host [] m w = refl
config_at-apply_endpoints dns host (e ∷ es) m w =
    let (m', w') = apply_entry host e (lookup e.dns m) m w in
    ground (
      arith,
      config_at-apply_endpoints dns host es m' w',
      config_at-apply_entry dns host e (lookup e.dns m) m w refl,
    )

config_at-apply_config :
    (dns : String) (host : Host) (config : EbbflowDaemonConfig) (r : InnerDaemonRunner)
    → config_at dns (apply_config host config r).endpoints ≡ last_config dns config.endpoints
unfolding apply_config
config_at-apply_config dns host config r =
    let (m1, w1) = retain_endpoints config.endpoints r.endpoints r.world in
    ground (
      arith,
      config_at-apply_endpoints dns host config.endpoints m1 w1,
      config_at-retain dns config.endpoints r.endpoints r.world,
      contains-last_config dns config.endpoints,
    )

ssh_config_of-apply_ssh :
    (host : Host) (c : Option SshConfiguration) (s : Option SshInstance) (w : World)
    → ssh_config_of (apply_ssh host c s w).0 ≡ c
unfolding apply_ssh start_ssh
ssh_config_of-apply_ssh host none none w = refl
ssh_config_of-apply_ssh host none (some old) w = refl
ssh_config_of-apply_ssh host (some c) none w = refl
ssh_config_of-apply_ssh host (some c) (some old) w =
    elim (Bool-cases (ssh_configuration_eq c old.existing_config)) [
      | inl same ↦ rw same (ap some (sym ((SshConfiguration-eq_iff c old.existing_config).0 same)))
      | inr changed ↦ rw changed
    ]

pub update_config_keyed :
    (host : Host) (config : EbbflowDaemonConfig) (key : Option String) (k : String)
    (r : InnerDaemonRunner)
    → (update_key key r).key ≡ some k
    → update_config host (some config) key r
      ≡ apply_config host config (record (update_key key r) { statusmeta = good })
unfolding update_config update_keyed with_config
update_config_keyed host config key k r e =
    ap (λ k'. update_keyed host (some config) k' (update_key key r)) e

pub reconciles :
    (host : Host) (config : EbbflowDaemonConfig) (r : InnerDaemonRunner)
    → let r' = apply_config host config r in
      ((dns : String) → config_at dns r'.endpoints ≡ last_config dns config.endpoints)
      × (ssh_config_of r'.ssh ≡ ssh_of host config.ssh)
      × (r'.statusmeta ≡ r.statusmeta)
reconciles host config r = (
  (λ dns. config_at-apply_config dns host config r),
  unfold apply_config in ssh_config_of-apply_ssh host (ssh_of host config.ssh) r.ssh _,
  unfold apply_config in refl,
)

-- With a key, the runner's endpoints after a new configuration are those of the configuration, the
-- last entry of a name counting, and the SSH proxy is the configuration's; the status is good.
pub update_config-reconciles :
    (host : Host) (config : EbbflowDaemonConfig) (key : Option String) (k : String)
    (r : InnerDaemonRunner)
    → (update_key key r).key ≡ some k
    → let r' = update_config host (some config) key r in
      ((dns : String) → config_at dns r'.endpoints ≡ last_config dns config.endpoints)
      × (ssh_config_of r'.ssh ≡ ssh_of host config.ssh)
      × (r'.statusmeta ≡ good)
update_config-reconciles host config key k r e =
    rw (update_config_keyed host config key k r e)
      (reconciles host config (record (update_key key r) { statusmeta = good }))
