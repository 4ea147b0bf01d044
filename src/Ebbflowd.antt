-- ===== src/Ebbflowd.antt =====
-- src/ebbflowd.rs: the start of the daemon's process: the level of its log, the file watcher, what
-- its tasks share, the Windows service, and how the process ends. The libraries' answers are
-- parameters. `config_reload` stands in Config/Files, the loop that `realmain` starts in Reload.
pub mod Level
use Prim.Native.String.{◌++◌ as str_append}
use ebbflow.Prelude.{ℕ, String, Bool, true, false, List, [], ◌∷◌, Option, none, some}
use ebbflow.Prelude.Result.{Result, ok, err, ◌>>=◌, ◌>>◌, map_err}
use ebbflow.Config.{EbbflowDaemonConfig}
use ebbflow.Config.Files.{ConfigError}
use ebbflow.Daemon.Shared.{SocketAddrV4, SharedInfo, new_with_ebbflow_overrides}
use ebbflow.Daemon.Shared
use ebbflow.Dns.{ResolverSettings}
use ebbflow.Signal.{SignalSender, send_signal}

-- The level of a configuration that could be read.
unfoldable pub config_level :
    Result ConfigError (Option EbbflowDaemonConfig × Option String) → Option String
config_level (ok (some cfg, key)) = cfg.loglevel
config_level (ok (none, key)) = none
config_level (err e) = none

-- `LevelFilter` of the log's library: its `from_str`, and its level `Warn`.
module _ {L : Type 0} (from_str : String → Option L) (warn : L) where
  unfoldable pub level_of : Option String → L
  level_of none = warn
  level_of (some s) = elim (from_str s) [ some level ↦ level | none ↦ warn ]

  -- `EBB_LOG_LEVEL` goes first.
  unfoldable pub determine_log_level :
      Option String → Result ConfigError (Option EbbflowDaemonConfig × Option String) → L
  unfolding config_level level_of
  determine_log_level (some l) reloaded = level_of (some l)
  determine_log_level none reloaded = level_of (config_level reloaded)

-- What the process finds when it starts; an error is known by its text.
pub record Start : Type 0 where
  pub watcher : Result String (Unit {0})
  pub precise_events : Result String (Unit {0})
  pub watch : Result String (Unit {0})
  pub unstable_ebb_addr : Option String
  pub unstable_ebb_dns : Option String
  pub parse : String → Result String SocketAddrV4
  pub resolver : ResolverSettings → Result String (Unit {0})

-- `{:?}` of the error of `SharedInfo::new`.
unfoldable pub settings : Result (Unit {0}) SharedInfo → Result String SharedInfo
settings (ok info) = ok info
settings (err u) = err "Error creating daemon settings ()"

unfoldable pub sharedinfo : Start → Option String → Option String → Result String SharedInfo
unfolding settings
sharedinfo s (some addr) (some dns) = do
  a ←
      map_err
        (λ e.
          str_append "Error creating ipv4 addr from overriden value "
            (str_append addr (str_append " " e)))
        (s.parse addr)
  settings (new_with_ebbflow_overrides s.resolver a dns)
sharedinfo s _ _ = settings (Shared.new s.resolver)

-- `realmain` up to the tasks that it starts, which run until the stop signal.
unfoldable pub realmain : Start → Result String SharedInfo
unfolding sharedinfo
realmain s = do
  map_err (str_append "Error creating new file watcher ") s.watcher
  map_err (str_append "Unable to set file event configuration options (precise) ") s.precise_events
  map_err (str_append "Unable to set file event configuration options ") s.watch
  sharedinfo s s.unstable_ebb_addr s.unstable_ebb_dns

-- The events of the Windows service that the handler tells apart.
pub data ServiceControl : Type 0 where
  interrogate stop other : ServiceControl

pub data ServiceControlHandlerResult : Type 0 where
  no_error not_implemented : ServiceControlHandlerResult

unfoldable pub event_handler :
    ServiceControl → SignalSender → SignalSender × ServiceControlHandlerResult
unfolding send_signal
event_handler interrogate s = (s, no_error)
event_handler stop s = (send_signal s, no_error)
event_handler other s = (s, not_implemented)

-- The exit code of the service.
unfoldable pub service_exit_code : Result String (Unit {0}) → ℕ
service_exit_code (ok u) = 0
service_exit_code (err e) = 1

pub data ServiceState : Type 0 where
  running stopped : ServiceState

-- What the service reports, with whether it can be told to stop; its wait is in seconds.
pub record ServiceStatus : Type 0 where
  pub current_state : ServiceState
  pub accepts_stop : Bool
  pub exit_code : ℕ
  pub wait_hint : ℕ

abbrev running_status : ServiceStatus
running_status = record {
  current_state = running;
  accepts_stop = true;
  exit_code = 0;
  wait_hint = 60;
}

unfoldable pub stopped_status : Result String (Unit {0}) → ServiceStatus
unfolding service_exit_code
stopped_status ended = record {
  current_state = stopped;
  accepts_stop = false;
  exit_code = service_exit_code ended;
  wait_hint = 0;
}

-- `run_service`: what registering the handler, the first report, `realmain` and the last report come
-- to; the reports that were made, and the result.
unfoldable pub run_service :
    Result String (Unit {0})
    → Result String (Unit {0})
    → Result String (Unit {0})
    → Result String (Unit {0})
    → List ServiceStatus × Result String (Unit {0})
unfolding stopped_status
run_service (err e) first ended last = ([], err e)
run_service (ok u) (err e) ended last = ([], err e)
run_service (ok u) (ok v) ended (err e) = (running_status ∷ [], err e)
run_service (ok u) (ok v) ended (ok w) = (running_status ∷ stopped_status ended ∷ [], ok tt)

-- `windows::run` and `my_service_main`: registering the log panics on an error, which is `none`; the
-- dispatcher starts the service, whose own result is dropped.
unfoldable pub windows_run :
    Result String (Unit {0}) → Result String (Unit {0}) → Option (Result String (Unit {0}))
windows_run (err e) dispatched = none
windows_run (ok u) dispatched = some dispatched

-- The process on other systems: an error is printed as its derived text, and not returned.
unfoldable pub process :
    (String → String) → Result String (Unit {0}) → List String × Result (Unit {0}) (Unit {0})
process debug (ok u) = ([], ok tt)
process debug (err e) = (str_append "Daemon exited with error: " (debug e) ∷ [], err tt)
