-- ===== src/Tests/ReloadCases.antt =====
-- The runner and the loop that feeds it, on one configuration.
use ebbflow.Prelude.{
  ◌≡◌, refl, ap, ◌∙◌, ◌≤◌, ◌+◌, ◌*◌, ◌⊎◌, String, true, false, List, [], ◌∷◌, none, some, is_some,
  length, if◌then◌else◌,
}
use ebbflow.Prelude.Result.{ok}
use ebbflow.Prelude.Map.{lookup}
use ebbflow.Config.Files.{
  ConfigError, Disk, load_from_file, load_from_file_path, getkey, read, parsed, config_or_none,
  key_or_none, config_reload,
}
use ebbflow.Daemon.{Host}
use ebbflow.Runner.{new, ssh_of}
use ebbflow.Runner.Status.{status}
use ebbflow.Runner.Reachable.{Call, updates, run}
use ebbflow.Runner.Reconcile.{last_config}
use ebbflow.Runner.Wanted.{serving, ssh_serving, asked, ssh_asked, take_calls, nothing}
use ebbflow.Runner.Refines.{run-take_calls}
use ebbflow.Runner.Listed.{lists_enabled, ssh_enabled, run-status}
use ebbflow.Reload.{
  create, is_mutation, Daemon, waiting, begin, advance, after_config, after_key, applied, Internal,
  loop, watch, watched, internal, writes, Reach, here, next,
}
use ebbflow.Reload.Reflects.{pending, any_mutation, Reach-served}
use ebbflow.Reload.Settles.{IsAtRest, left, Run, start, after, Run-settles}
use ebbflow.Tests.Fixtures.{sample_host, sample_config}
use ebbflow.Tests.CliCases.{yaml, trim, disk_on, with_endpoint, endpoint_on, decode}

-- A key, then a configuration.
abbrev calls : List Call
calls = updates sample_host none (some "k") ∷ updates sample_host (some sample_config) none ∷ []

run-take_calls_example :
    ((run calls new).key ≡ (take_calls calls nothing).key)
    × ((dns : String)
        → serving (run calls new).world.metas (lookup dns (run calls new).endpoints)
          ≡ (take_calls calls nothing).tasks dns)
    × (ssh_serving (run calls new).world.metas (run calls new).ssh ≡ (take_calls calls nothing).ssh)
run-take_calls_example = run-take_calls calls

run-status_example :
    (lists_enabled "a.example" (status (run calls new)).endpoints
      ≡ is_some ((take_calls calls nothing).tasks "a.example"))
    × (ssh_enabled (status (run calls new)).ssh ≡ is_some (take_calls calls nothing).ssh)
run-status_example = run-status calls "a.example"

abbrev pub debug : ConfigError → String
debug e = "error"

abbrev pub disk_keyed : Disk
disk_keyed = record disk_on { key = record disk_on.key { content = some " k " } }

abbrev pub step : Daemon → Daemon
step s = advance yaml trim debug sample_host s

-- The files are written while the loop has not begun; the watcher sees it, and the loop runs twice.
abbrev written : Daemon
written = record (begin disk_on) { disk = disk_keyed; events = ok create ∷ [] }

abbrev seen : Daemon
seen = watched create (record written { events = [] })

abbrev pub settled_daemon : Daemon
settled_daemon = step (step (step (step (step (step (step seen))))))

files : config_reload yaml trim disk_keyed ≡ ok (some (with_endpoint endpoint_on), some "k")
unfolding config_reload config_or_none load_from_file load_from_file_path read parsed decode
    key_or_none getkey trim
files = refl

pub settles :
    (settled_daemon.phase ≡ waiting)
    × (settled_daemon.disk ≡ disk_keyed)
    × (pending settled_daemon ≡ false)
unfolding begin watched is_mutation advance pending any_mutation applied after_config after_key
    config_or_none load_from_file load_from_file_path read parsed decode key_or_none getkey trim
settles = (refl, refl, refl)

-- The steps of the daemon by itself from `seen`; the fourth takes the notification.
runs_once : (s : Daemon) → s.notified ≡ true → Internal yaml trim debug s (step s)
runs_once s h = loop sample_host (λ w. h)

notified :
    (seen.notified ≡ true)
    × ((step seen).notified ≡ true)
    × ((step (step seen)).notified ≡ true)
    × ((step (step (step seen))).notified ≡ true)
unfolding begin watched is_mutation advance applied after_config after_key config_or_none
    load_from_file load_from_file_path read parsed decode key_or_none getkey trim
notified = (refl, refl, refl, refl)

runs_on :
    ((step (step (step (step seen)))).phase ≡ waiting
      → (step (step (step (step seen)))).notified ≡ true)
    × ((step (step (step (step (step seen))))).phase ≡ waiting
        → (step (step (step (step (step seen))))).notified ≡ true)
    × ((step (step (step (step (step (step seen)))))).phase ≡ waiting
        → (step (step (step (step (step (step seen)))))).notified ≡ true)
unfolding begin watched is_mutation advance applied after_config after_key config_or_none
    load_from_file load_from_file_path read parsed decode key_or_none getkey trim
runs_on = ((λ w. cc w), (λ w. cc w), λ w. cc w)

pub reaches : Reach yaml trim debug (begin disk_on) settled_daemon
unfolding is_mutation begin
reaches =
    next
      (next
        (next
          (next
            (next
              (next
                (next
                  (next (next here (writes disk_keyed create refl))
                    (internal (watch create [] refl)))
                  (internal (runs_once _ notified.0)))
                (internal (runs_once _ notified.1)))
              (internal (runs_once _ notified.2)))
            (internal (runs_once _ notified.3)))
          (internal (loop sample_host runs_on.0)))
        (internal (loop sample_host runs_on.1)))
      (internal (loop sample_host runs_on.2))

Reach-served_example :
    ((dns : String)
      → serving settled_daemon.runner.world.metas (lookup dns settled_daemon.runner.endpoints)
        ≡ asked (last_config dns (endpoint_on ∷ [])))
    × ((host : Host) × (ssh_serving settled_daemon.runner.world.metas settled_daemon.runner.ssh
          ≡ ssh_asked (ssh_of host none)))
Reach-served_example =
    Reach-served yaml trim debug disk_on reaches settles.0 settles.2
      (ap (config_reload yaml trim) settles.1 ∙ files)

runs : Run yaml trim debug written 8 settled_daemon
runs =
    after
      (after
        (after
          (after
            (after
              (after (after (after start (watch create [] refl)) (runs_once _ notified.0))
                (runs_once _ notified.1))
              (runs_once _ notified.2))
            (runs_once _ notified.3))
          (loop sample_host runs_on.0))
        (loop sample_host runs_on.1))
      (loop sample_host runs_on.2)

Run-settles_example :
    (8 ≤ 5 * length written.events + (if written.notified then 4 else 0) + left written.phase)
    × (IsAtRest settled_daemon ⊎ ((u : Daemon) × Internal yaml trim debug settled_daemon u))
Run-settles_example = Run-settles yaml trim debug sample_host runs
