-- ===== src/Served/Switched.antt =====
-- What `enable` and `disable` of an endpoint make the daemon serve.
use ebbflow.Prelude.{
  ◌≡◌, ap, ◌∙◌, String, Bool, false, List, [], ◌∷◌, map, Option, none, some, arith, str_eq, eq_iff,
  if◌then◌else◌, refl, Bool-cases, inl, inr,
}
use ebbflow.Prelude.Result.{Result, ok, err}
use ebbflow.Prelude.Map.{lookup}
use ebbflow.Config.{Endpoint, EbbflowDaemonConfig}
use ebbflow.Config.Files.{ConfigError, Yaml, Disk, load_from_file_or_new, getkey, key_or_none}
use ebbflow.Config.SaveLoad.{IsLawfulYaml}
use ebbflow.Daemon.{cap_idle}
use ebbflow.Daemon.Heap.{EndpointArgs}
use ebbflow.Runner.{endpoint_args}
use ebbflow.Runner.Idempotent.{HasDistinctNames}
use ebbflow.Runner.Reconcile.{last_config}
use ebbflow.Runner.Wanted.{serving, asked}
use ebbflow.Reload.{Daemon, waiting, begin, Reach}
use ebbflow.Reload.Reflects.{pending}
use ebbflow.Cli.{CliError, set_endpoint_enabled}
use ebbflow.Cli.Settings.{
  endpoint, EnableDisableArgs, enabledisable, handle_enable_disable_ret, enable_disable,
}
use ebbflow.Cli.Enabling.{switched, set_endpoint_enabled-eq_ok}
use ebbflow.Cli.Main.Writes.{enabledisable-Keeps}
use ebbflow.Served.{Reach-saved}

-- What an entry asks for when it is enabled.
abbrev pub enabled_args : Option Endpoint → Option EndpointArgs
enabled_args none = none
enabled_args (some e) = some (cap_idle (endpoint_args e))

abbrev switch : Bool → String → Option Endpoint → Option Endpoint
switch on dns none = none
switch on dns (some e) = some (switched on dns e)

dns-switched : (on : Bool) (dns : String) (e : Endpoint) → (switched on dns e).dns ≡ e.dns
unfolding switched
dns-switched on dns e = ground arith

last_config-map :
    (on : Bool) (dns other : String) (es : List Endpoint)
    → last_config other (map (switched on dns) es) ≡ switch on dns (last_config other es)
unfolding last_config
last_config-map on dns other [] = refl
last_config-map on dns other (e ∷ es) =
    ground (arith, last_config-map on dns other es, dns-switched on dns e)

last_config-name :
    (dns : String) (es : List Endpoint) (e : Endpoint) → last_config dns es ≡ some e → e.dns ≡ dns
unfolding last_config
last_config-name dns [] e h = cc
last_config-name dns (x ∷ es) e h = ground (arith, last_config-name dns es e, eq_iff x.dns dns)

asked-switch :
    (on : Bool) (dns other : String) (o : Option Endpoint)
    → ((e : Endpoint) → o ≡ some e → e.dns ≡ other)
    → asked (switch on dns o)
      ≡ (if str_eq dns other then (if on then enabled_args o else none) else asked o)
unfolding asked switched endpoint_args
asked-switch on dns other none named = ground arith
asked-switch on dns other (some e) named =
    let key = ap (str_eq dns) (named e refl) in
    elim (Bool-cases (str_eq dns other)) [
      | inl there ↦ rw (there, switched) (rw (key ∙ there) refl)
      | inr elsewhere ↦ rw (elsewhere, switched) (rw (key ∙ elsewhere) refl)
    ]

handled-ok :
    (on : Bool) (args : EnableDisableArgs) (r : Result CliError (Bool × Bool))
    → handle_enable_disable_ret on args r ≡ ok tt
    → (flags : Bool × Bool) × (r ≡ ok flags)
unfolding handle_enable_disable_ret
handled-ok on args (ok flags) h = (flags, refl)
handled-ok on args (err e) h = cc h

-- When `enable` or `disable` of an endpoint ended well, on a file that can be read and a configuration
-- in which no name stands twice, with a key in its file and with a serde_yaml that reads back what it
-- wrote, then in every interleaving of the daemon's loop, its watcher and those who write the files,
-- when the loop waits with nothing on its way and the files are as the subcommand left them, the
-- daemon serves that endpoint by its settings, or not at all if it was disabled, and every other name
-- as the configuration asked before.
pub Reach-enable_disable :
    (yaml : Yaml) (trim : String → String) (debug : ConfigError → String) (on idempotent : Bool)
    (name : String) (d d0 : Disk) (existing : EbbflowDaemonConfig) {s : Daemon} (key : String)
    → IsLawfulYaml yaml
    → load_from_file_or_new yaml d ≡ ok existing
    → HasDistinctNames existing.endpoints
    → d.config.read_error ≡ none
    → key_or_none (getkey trim d) ≡ ok (some key)
    → let args : EnableDisableArgs = record { target = endpoint name; idempotent = idempotent } in
      (enable_disable yaml on args d).1 ≡ ok tt
      → Reach yaml trim debug (begin d0) s
      → s.phase ≡ waiting
      → pending s ≡ false
      → s.disk ≡ (enable_disable yaml on args d).0
      → (dns : String)
      → serving s.runner.world.metas (lookup dns s.runner.endpoints) ≡ (
          if str_eq name dns
          then (if on then enabled_args (last_config dns existing.endpoints) else none)
          else asked (last_config dns existing.endpoints))
unfolding enable_disable enabledisable
Reach-enable_disable yaml trim debug on idempotent name d d0 existing key l loads distinct readable
      has_key h reach waits quiet same dns =
    let args : EnableDisableArgs = record { target = endpoint name; idempotent = idempotent } in
    let (flags, saved) = handled-ok on args (set_endpoint_enabled yaml on (some name) d).1 h in
    (Reach-saved yaml trim debug d0 d (set_endpoint_enabled yaml on (some name) d).0 key _
        ((set_endpoint_enabled-eq_ok yaml on name d existing flags l loads distinct readable
          saved).0)
        ((enabledisable-Keeps yaml on (endpoint name) d).0) has_key reach waits quiet same).0
      dns
    ∙ ap asked (last_config-map on name dns existing.endpoints)
    ∙ asked-switch on name dns (last_config dns existing.endpoints)
        (last_config-name dns existing.endpoints)
