-- ===== src/Ebbflowd/Level.antt =====
-- The log level that src/ebbflow.rs sets is the one that src/ebbflowd.rs starts with.
use ebbflow.Prelude.{◌≡◌, refl, sym, ap, ◌∙◌, String, Option, none, some, unwrap_or}
use ebbflow.Prelude.Result.{Result, ok}
use ebbflow.Config.{EbbflowDaemonConfig}
use ebbflow.Config.Files.{
  Yaml, Disk, load_from_file_or_new, getkey, key_or_none, config_or_none, config_reload,
}
use ebbflow.Config.SaveLoad.{IsLawfulYaml, save-getkey}
use ebbflow.Cli.{CliError, save_and_return}
use ebbflow.Cli.Endpoints.{save_and_return-eq_ok, with_existing-ok}
use ebbflow.Cli.Settings.{setloglevel}
use ebbflow.Ebbflowd.{determine_log_level, level_of, config_level}

unwrapped :
    {L : Type 0} (from_str : String → Option L) (warn : L) (level : Option String)
    → level_of from_str warn level
      ≡ (elim level [ none ↦ warn | some s ↦ unwrap_or (from_str s) warn ])
unfolding level_of
unwrapped from_str warn none = refl
unwrapped from_str warn (some s) = chosen warn (from_str s)
  where
    chosen :
        {L : Type 0} (warn : L) (o : Option L)
        → (elim o [ some l ↦ l | none ↦ warn ]) ≡ unwrap_or o warn
    chosen warn none = refl
    chosen warn (some l) = refl

-- After the level was set without an error, and if both files can be read and serde_yaml reads back
-- what it writes, a daemon that is started without `EBB_LOG_LEVEL` logs at that level, or at the
-- default one if the text is no level or the level was reset.
pub determine_log_level-setloglevel :
    {L : Type 0} (yaml : Yaml) (trim : String → String) (from_str : String → Option L) (warn : L)
    (level : Option String) (d : Disk) (existing : EbbflowDaemonConfig) (key : Option String)
    → IsLawfulYaml yaml
    → load_from_file_or_new yaml d ≡ ok existing
    → d.config.read_error ≡ none
    → key_or_none (getkey trim d) ≡ ok key
    → (setloglevel yaml level d).1 ≡ ok tt
    → determine_log_level from_str warn none (config_reload yaml trim (setloglevel yaml level d).0)
      ≡ (elim level [ none ↦ warn | some s ↦ unwrap_or (from_str s) warn ])
unfolding determine_log_level level_of setloglevel config_reload save_and_return config_or_none
    config_level
determine_log_level-setloglevel yaml trim from_str warn level d existing key l loads readable
      has_key h =
    let c : EbbflowDaemonConfig = record existing { loglevel = level } in
    let e =
      with_existing-ok yaml d (λ x. save_and_return yaml (record x { loglevel = level }) d tt)
        existing loads in
    let saves = ap (λ (p : Disk × Result CliError (Unit {0})). p.1) (sym e) ∙ h in
    ap
      (λ (p : Disk × Result CliError (Unit {0})).
        determine_log_level from_str warn none (config_reload yaml trim p.0))
      e
    ∙ rw ((save_and_return-eq_ok yaml c d tt tt l readable saves).0)
        (rw (save-getkey trim yaml c d) (rw has_key (unwrapped from_str warn level)))
