-- ===== src/Tests/RunnerCases.antt =====
-- The health window, the message queue and the runner on concrete inputs.
use ebbflow.Prelude.{
  ℕ, ◌≡◌, refl, Bool, true, false, List, [], ◌∷◌, Option, none, some, take, arith, String, ◌≢◌,
  eq_iff,
}
use ebbflow.Prelude.Map.{lookup, insert}
use ebbflow.Health.{new, data_of, window}
use ebbflow.Health.Hysteresis.{IsU16, run_reports, expected, history, data-run_reports}
use ebbflow.MessageQueue
use ebbflow.MessageQueue.{get_messages, add_messages, get-add_messages}
use ebbflow.Config.{EbbflowDaemonConfig}
use ebbflow.Daemon.{spawn_endpoint}
use ebbflow.Daemon.Heap.{alloc}
use ebbflow.Runner
use ebbflow.Runner.{
  InnerDaemonRunner, EndpointInstance, enabled, update_config, update_key, contains,
  retain_endpoints, apply_endpoints, apply_ssh, submit_error_message,
}
use ebbflow.Runner.Reachable.{Inv, Call, updates, fails, run, run-new-Inv}
use ebbflow.Runner.Reconcile.{config_at, last_config, update_config-reconciles}
use ebbflow.Runner.Keeps.{update_config-keeps}
use ebbflow.Runner.Idempotent.{update_config_twice}
use ebbflow.Tests.Fixtures.{sample_host, sample_config, endpoint_a, endpoint_b, concrete}

concrete-IsU16 : IsU16 concrete
concrete-IsU16 = omega arith

-- Two passes make the endpoint healthy, three failures unhealthy again.
abbrev reports : List (Bool × Option ℕ)
reports = (true, some 1) ∷ (true, some 2) ∷ (false, some 3) ∷ (false, some 4) ∷ (false, none) ∷ []

data-run_reports_example :
    data_of (run_reports concrete new reports)
    ≡ (expected concrete false [] reports, take (window concrete) (history [] reports))
data-run_reports_example = data-run_reports concrete reports concrete-IsU16

get-add_messages_example :
    get_messages (add_messages (("t1", "a") ∷ ("t2", "b") ∷ []) MessageQueue.new)
    ≡ ("t2", "b") ∷ ("t1", "a") ∷ []
get-add_messages_example = get-add_messages (("t1", "a") ∷ ("t2", "b") ∷ [])

-- A runner that was given the configuration once.
abbrev calls : List Call
calls = updates sample_host (some sample_config) (some "secret") ∷ fails sample_host "oops" ∷ []

configured_runner : InnerDaemonRunner
configured_runner = run calls Runner.new

configured_runner-Inv : Inv configured_runner
unfolding configured_runner
configured_runner-Inv = run-new-Inv calls

run-new-Inv_example : Inv (run calls Runner.new)
run-new-Inv_example = run-new-Inv calls

b_not_a : ◌≢◌ {A = String} "b.example" "a.example"
b_not_a p = cc ((eq_iff "b.example" "a.example").1 p)

abbrev instance_a : EndpointInstance
instance_a = record { enabledisable = enabled 0; existing_config = endpoint_a }

update_config-reconciles_example :
    let r' = update_config sample_host (some sample_config) (some "k") configured_runner in
    config_at "a.example" r'.endpoints ≡ some endpoint_a
unfolding last_config update_key
update_config-reconciles_example =
    (update_config-reconciles sample_host sample_config (some "k") "k" configured_runner refl).0
      "a.example"

-- The same endpoint beside another one: its task stays.
abbrev changed_config : EbbflowDaemonConfig
changed_config = record {
  endpoints = record endpoint_b { enabled = true } ∷ endpoint_a ∷ [];
  ssh = none;
  loglevel = none;
}

holds_a : lookup "a.example" configured_runner.endpoints ≡ some instance_a
unfolding configured_runner run update_config retain_endpoints apply_endpoints apply_ssh lookup
    insert contains spawn_endpoint alloc submit_error_message Runner.new
holds_a = refl

names_a : contains "a.example" changed_config.endpoints ≡ true
unfolding contains
names_a = refl

update_config-keeps_example :
    lookup "a.example"
      (update_config sample_host (some changed_config) (some "k") configured_runner).endpoints
    ≡ some instance_a
unfolding update_key
update_config-keeps_example =
    (update_config-keeps sample_host changed_config (some "k") "k" configured_runner instance_a
      configured_runner-Inv refl holds_a names_a ((λ p. absurd (b_not_a p)), ((λ p. refl), tt))).0

update_config_twice_example :
    update_config sample_host
      (some sample_config)
      (some "k")
      (update_config sample_host (some sample_config) (some "k") configured_runner)
    ≡ update_config sample_host (some sample_config) (some "k") configured_runner
unfolding update_key contains
update_config_twice_example =
    update_config_twice sample_host sample_config (some "k") "k" configured_runner
      (refl, (refl, tt)) refl
