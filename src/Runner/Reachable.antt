-- ===== src/Runner/Reachable.antt =====
-- The invariant of the runner over whole calls, and over every history of calls.
use ebbflow.Prelude.{
  ℕ, refl, String, List, [], ◌∷◌, Option, none, some, arith, Bool-cases, inl, inr,
}
use ebbflow.Prelude.Map.{HashMap}
use ebbflow.Config.{EbbflowDaemonConfig, SshConfiguration, ssh_configuration_eq}
use ebbflow.Daemon.{World, Host}
use ebbflow.Daemon.Heap.{MetaHeap, running-empty}
use ebbflow.Runner.{
  EndpointInstance, SshInstance, InnerDaemonRunner, new, stop_task, ssh_args, start_ssh, apply_ssh,
  retain_endpoints, apply_config, with_config, update_key, submit_error_message, update_keyed,
  update_config, good,
}
use ebbflow.Runner.Tasks.{
  stop_task-Extends, stop_task-IsFresh, running-stop_task, start_task-Started,
}
use ebbflow.Runner.Inv.{ssh_owned, SshMatches, Holds, Matches-Extends, SshMatches-Extends}
use ebbflow.Runner.Inv.Retained.{retain_endpoints-Holds, retain_endpoints-Extends}
use ebbflow.Runner.Inv.Entries.{apply_endpoints-Holds}

-- Every running task is held by exactly one instance, endpoints and SSH proxy together; instances
-- stand under their own names, each once; an instance holds a task exactly if its configuration
-- is enabled, and the task was started with the arguments of that configuration.
pub record IsConsistent (m : HashMap EndpointInstance) (ssh : Option SshInstance) (h : MetaHeap)
    : Type 0 where
  pub holds : Holds (ssh_owned ssh) m h
  pub ssh_matches : SshMatches h ssh

abbrev pub Inv : InnerDaemonRunner → Type 0
Inv r = IsConsistent r.endpoints r.ssh r.world.metas

no_ssh : ℕ → ℕ
no_ssh i = 0

start_ssh-IsConsistent :
    (host : Host) (c : SshConfiguration) (m : HashMap EndpointInstance) (w : World)
    → Holds no_ssh m w.metas
    → IsConsistent m (start_ssh host c w).0 (start_ssh host c w).1.metas
unfolding start_ssh no_ssh
start_ssh-IsConsistent host c m w h =
    let st = start_task-Started host c.enabled (ssh_args c) w h.fresh in
    record {
      holds = record {
        fresh = st.fresh;
        distinct = h.distinct;
        matching = Matches-Extends m st.extends h.matching;
        balanced = λ i. omega (arith, st.one_more i, h.balanced i);
      };
      ssh_matches = st.runs;
    }

stop_ssh-Holds :
    (old : SshInstance) (m : HashMap EndpointInstance) (w : World)
    → IsConsistent m (some old) w.metas
    → Holds no_ssh m (stop_task old.enabledisable w).metas
unfolding no_ssh
stop_ssh-Holds old m w v = record {
  fresh = stop_task-IsFresh old.enabledisable w v.holds.fresh;
  distinct = v.holds.distinct;
  matching = Matches-Extends m (stop_task-Extends old.enabledisable w) v.holds.matching;
  balanced = λ i. running-stop_task old.enabledisable w i _ (omega (arith, v.holds.balanced i));
}

apply_ssh-IsConsistent :
    (host : Host) (c : Option SshConfiguration) (s : Option SshInstance)
    (m : HashMap EndpointInstance) (w : World)
    → IsConsistent m s w.metas
    → IsConsistent m (apply_ssh host c s w).0 (apply_ssh host c s w).1.metas
unfolding apply_ssh
apply_ssh-IsConsistent host none none m w v = v
apply_ssh-IsConsistent host (some c) none m w v =
    start_ssh-IsConsistent host c m w (unfold no_ssh in v.holds)
apply_ssh-IsConsistent host none (some old) m w v =
    let h = stop_ssh-Holds old m w v in record { holds = unfold no_ssh in h; ssh_matches = tt }
apply_ssh-IsConsistent host (some c) (some old) m w v =
    elim (Bool-cases (ssh_configuration_eq c old.existing_config)) [
      | inl same ↦ rw same v
      | inr changed ↦ rw changed (start_ssh-IsConsistent host c m _ (stop_ssh-Holds old m w v))
    ]

apply_config-Inv :
    (host : Host) (config : EbbflowDaemonConfig) (r : InnerDaemonRunner)
    → Inv r
    → Inv (apply_config host config r)
unfolding apply_config
apply_config-Inv host config r v =
    let es = config.endpoints in
    let (m1, w1) = retain_endpoints es r.endpoints r.world in
    let h1 = retain_endpoints-Holds (ssh_owned r.ssh) es r.endpoints r.world v.holds in
    let h2 = apply_endpoints-Holds (ssh_owned r.ssh) host es m1 w1 h1 in
    let s1 =
      SshMatches-Extends r.ssh (retain_endpoints-Extends es r.endpoints r.world) v.ssh_matches in
    apply_ssh-IsConsistent host _ r.ssh _ _
      (record { holds = h2.0; ssh_matches = SshMatches-Extends r.ssh h2.1 s1 })

with_config-Inv :
    (host : Host) (config : Option EbbflowDaemonConfig) (r : InnerDaemonRunner)
    → Inv r
    → Inv (with_config host config r)
unfolding with_config
with_config-Inv host none r v = v
with_config-Inv host (some config) r v = apply_config-Inv host config r v

update_key-Inv : (key : Option String) (r : InnerDaemonRunner) → Inv r → Inv (update_key key r)
unfolding update_key
update_key-Inv none r v = v
update_key-Inv (some k) r v = v

update_keyed-Inv :
    (host : Host) (config : Option EbbflowDaemonConfig) (key : Option String)
    (r : InnerDaemonRunner)
    → Inv r
    → Inv (update_keyed host config key r)
unfolding update_keyed submit_error_message
update_keyed-Inv host config none r v = v
update_keyed-Inv host config (some k) r v =
    with_config-Inv host config (record r { statusmeta = good }) v

-- A new configuration or key, whatever they are, keeps the invariant: no task runs without an
-- instance that can stop it, and none is held twice.
pub update_config-Inv :
    (host : Host) (config : Option EbbflowDaemonConfig) (key : Option String)
    (r : InnerDaemonRunner)
    → Inv r
    → Inv (update_config host config key r)
unfolding update_config
update_config-Inv host config key r v =
    let r' = update_key key r in update_keyed-Inv host config r'.key r' (update_key-Inv key r v)

-- The calls that the daemon makes of its runner.
pub data Call : Type 0 where
  updates : Host → Option EbbflowDaemonConfig → Option String → Call
  fails : Host → String → Call

unfoldable pub run : List Call → InnerDaemonRunner → InnerDaemonRunner
run [] r = r
run (updates host config key ∷ cs) r = run cs (update_config host config key r)
run (fails host m ∷ cs) r = run cs (submit_error_message host m r)

run-Inv : (cs : List Call) (r : InnerDaemonRunner) → Inv r → Inv (run cs r)
unfolding run submit_error_message
run-Inv [] r v = v
run-Inv (updates host config key ∷ cs) r v =
    run-Inv cs (update_config host config key r) (update_config-Inv host config key r v)
run-Inv (fails host m ∷ cs) r v = run-Inv cs (submit_error_message host m r) v

new-Inv : Inv new
unfolding new
new-Inv = record {
  holds = record {
    fresh = record { above = λ i le. refl };
    distinct = tt;
    matching = tt;
    balanced = running-empty;
  };
  ssh_matches = tt;
}

-- After any history of calls on a new runner, the tasks that run are exactly those that the enabled
-- instances hold, each held once and started with the arguments of its configuration.
pub run-new-Inv : (cs : List Call) → Inv (run cs new)
run-new-Inv cs = run-Inv cs new new-Inv
