-- ===== src/Served/Removed.antt =====
-- What `remove_endpoint` makes the daemon serve.
use ebbflow.Prelude.{
  ◌≡◌, ap, ◌∙◌, String, false, List, [], ◌∷◌, none, some, arith, str_eq, eq_iff, if◌then◌else◌,
  refl, Bool-cases, inl, inr,
}
use ebbflow.Prelude.Result.{ok}
use ebbflow.Prelude.Map.{lookup}
use ebbflow.Config.{Endpoint, EbbflowDaemonConfig}
use ebbflow.Config.Files.{ConfigError, Yaml, Disk, load_from_file_or_new, getkey, key_or_none}
use ebbflow.Config.SaveLoad.{IsLawfulYaml}
use ebbflow.Runner.Reconcile.{last_config}
use ebbflow.Runner.Wanted.{serving, asked}
use ebbflow.Reload.{Daemon, waiting, begin, Reach}
use ebbflow.Reload.Reflects.{pending}
use ebbflow.Cli.{RemoveEndpointArgs, retain_others, remove_endpoint}
use ebbflow.Cli.Removing.{remove_endpoint-eq_ok}
use ebbflow.Cli.Main.Writes.{remove_endpoint-Keeps}
use ebbflow.Served.{Reach-saved}

last_config-retain_others :
    (gone dns : String) (es : List Endpoint)
    → last_config dns (retain_others gone es).0
      ≡ (if str_eq gone dns then none else last_config dns es)
unfolding last_config retain_others
last_config-retain_others gone dns [] = ground arith
last_config-retain_others gone dns (e ∷ es) = ground (
  arith,
  last_config-retain_others gone dns es,
  eq_iff e.dns gone,
  eq_iff gone dns,
  eq_iff e.dns dns,
)

asked_left :
    (gone dns : String) (es : List Endpoint)
    → asked (if str_eq gone dns then none else last_config dns es)
      ≡ (if str_eq gone dns then none else asked (last_config dns es))
unfolding asked
asked_left gone dns es = elim (Bool-cases (str_eq gone dns)) [
  | inl same ↦ rw same refl
  | inr other ↦ rw other refl
]

-- When `remove_endpoint` ended well, on a file that can be read, with a key in its file and with a
-- serde_yaml that reads back what it wrote, then in every interleaving of the daemon's loop, its
-- watcher and those who write the files, when the loop waits with nothing on its way and the files are
-- as the subcommand left them, the daemon serves nothing under that name, and every other name as the
-- configuration asked before.
pub Reach-remove_endpoint :
    (yaml : Yaml) (trim : String → String) (debug : ConfigError → String)
    (args : RemoveEndpointArgs) (d d0 : Disk) (existing : EbbflowDaemonConfig) {s : Daemon}
    (key : String)
    → IsLawfulYaml yaml
    → load_from_file_or_new yaml d ≡ ok existing
    → d.config.read_error ≡ none
    → key_or_none (getkey trim d) ≡ ok (some key)
    → (remove_endpoint yaml args d).1 ≡ ok tt
    → Reach yaml trim debug (begin d0) s
    → s.phase ≡ waiting
    → pending s ≡ false
    → s.disk ≡ (remove_endpoint yaml args d).0
    → (dns : String)
    → serving s.runner.world.metas (lookup dns s.runner.endpoints)
      ≡ (if str_eq args.dns dns then none else asked (last_config dns existing.endpoints))
Reach-remove_endpoint yaml trim debug args d d0 existing key l loads readable has_key h reach waits
      quiet same dns =
    (Reach-saved yaml trim debug d0 d (remove_endpoint yaml args d).0 key _
        (remove_endpoint-eq_ok yaml args d existing loads l readable h)
        ((remove_endpoint-Keeps yaml args d).0) has_key reach waits quiet same).0
      dns
    ∙ ap asked (last_config-retain_others args.dns dns existing.endpoints)
    ∙ asked_left args.dns dns existing.endpoints
