-- ===== src/Reload.antt =====
-- The loop of `run_daemon` of src/lib.rs, with `config_reload` and the file watcher of
-- src/ebbflowd.rs: the loop reads the two files, hands them to the runner, and waits for a
-- notification, while others write the files. `Notify` keeps at most one notification.
pub mod Reflects
pub mod Settles
use Prim.Native.String.{◌++◌ as str_append}
use ebbflow.Prelude.{
  String, Bool, true, false, ◌||◌, ◌≡◌, List, [], ◌∷◌, ◌++◌, Option, none, some, if◌then◌else◌,
}
use ebbflow.Prelude.Result.{Result, ok, err}
use ebbflow.Config.{EbbflowDaemonConfig}
use ebbflow.Config.Files.{
  ConfigError, Yaml, Disk, load_from_file, getkey, config_or_none, key_or_none,
}
use ebbflow.Daemon.{Host}
use ebbflow.Runner.{InnerDaemonRunner, new, update_config, submit_error_message}

-- `EventKind` of the watcher's library; the kinds that the source does not name are `other`.
pub data EventKind : Type 0 where
  create modify other : EventKind

-- What the watcher hands to its closure: an event, or an error.
abbrev pub Noticed : Type 0
Noticed = Result String EventKind

-- What the reading of the files comes to.
abbrev pub Reloaded : Type 0
Reloaded = Result ConfigError (Option EbbflowDaemonConfig × Option String)

-- Where the loop stands: before the configuration file is read, before the key file, before the
-- runner is called, or waiting.
pub data Phase : Type 0 where
  loading : Phase
  loading_key : Option EbbflowDaemonConfig → Phase
  applying : Reloaded → Phase
  waiting : Phase

-- `events` are those that the watcher did not see yet, `notified` is the notification kept.
pub record Daemon : Type 0 where
  pub disk : Disk
  pub events : List Noticed
  pub notified : Bool
  pub phase : Phase
  pub runner : InnerDaemonRunner

unfoldable pub begin : Disk → Daemon
begin d = record { disk = d; events = []; notified = false; phase = loading; runner = new }

-- The closure that the watcher calls: other events are not for the daemon. It panics on an error.
unfoldable pub is_mutation : EventKind → Bool
is_mutation create = true
is_mutation modify = true
is_mutation other = false

unfoldable pub mutates : Noticed → Bool
unfolding is_mutation
mutates (ok k) = is_mutation k
mutates (err e) = false

unfoldable pub watched : EventKind → Daemon → Daemon
unfolding is_mutation
watched k s = record s { notified = is_mutation k || s.notified }

-- The match on what was reloaded; `debug` is the derived text of an error.
unfoldable pub applied :
    (ConfigError → String) → Host → Reloaded → InnerDaemonRunner → InnerDaemonRunner
applied debug host (ok (config, key)) r = update_config host config key r
applied debug host (err e) r =
    submit_error_message host (str_append "Error reading new configuration " (debug e)) r

module _ (yaml : Yaml) (trim : String → String) (debug : ConfigError → String) where
  unfoldable pub after_config : Result ConfigError (Option EbbflowDaemonConfig) → Phase
  after_config (ok c) = loading_key c
  after_config (err e) = applying (err e)

  unfoldable pub after_key : Option EbbflowDaemonConfig → Result ConfigError (Option String) → Phase
  after_key c (ok k) = applying (ok (c, k))
  after_key c (err e) = applying (err e)

  -- The loop up to its next wait; with no notification kept it goes on waiting.
  unfoldable pub advance : Host → Daemon → Daemon
  unfolding after_config after_key applied
  advance host s = elim s.phase [
    | loading ↦ record s { phase = after_config (config_or_none (load_from_file yaml s.disk)) }
    | loading_key c ↦ record s { phase = after_key c (key_or_none (getkey trim s.disk)) }
    | applying r ↦ record s { phase = waiting; runner = applied debug host r s.runner }
    | waiting ↦ if s.notified then record s { notified = false; phase = loading } else s
  ]

  -- What the daemon does by itself. After a panic the watcher calls its closure no more.
  pub data Internal (s : Daemon) : Daemon → Type 0 where
    watch :
        (k : EventKind) (rest : List Noticed)
        → s.events ≡ ok k ∷ rest
        → Internal s (watched k (record s { events = rest }))
    loop : (host : Host) → (s.phase ≡ waiting → s.notified ≡ true) → Internal s (advance host s)

  -- Others write a file, which the watcher is told of as a creation or modification, or do
  -- something else in the directory, or the watching fails.
  pub data Step (s : Daemon) : Daemon → Type 0 where
    internal : {t : Daemon} → Internal s t → Step s t
    writes :
        (d : Disk) (k : EventKind)
        → is_mutation k ≡ true
        → Step s (record s { disk = d; events = s.events ++ (ok k ∷ []) })
    touches :
        (n : Noticed) → mutates n ≡ false → Step s (record s { events = s.events ++ (n ∷ []) })

  pub data Reach (s : Daemon) : Daemon → Type 0 where
    here : Reach s s
    next : {t u : Daemon} → Reach s t → Step t u → Reach s u
