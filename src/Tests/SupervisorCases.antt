-- ===== src/Tests/SupervisorCases.antt =====
-- The supervising task of an endpoint on concrete events.
use ebbflow.Prelude.{◌≡◌, Bool, true, false, String, List, [], ◌∷◌, some, arith}
use ebbflow.MessageQueue
use ebbflow.Health.Hysteresis.{IsU16, expected}
use ebbflow.Signal.{SignalSender, IsHistory}
use ebbflow.Daemon.{health_master}
use ebbflow.Supervisor.{Event, Probe, checked, begin, run_events}
use ebbflow.Supervisor.Rounds.{running_pools, serving, running-run_events}
use ebbflow.Supervisor.Follows.{checks, reports, phase_of, begin-expected}
use ebbflow.Tests.Fixtures.{concrete, localhost}

-- A receiver that only sees the latest value.
abbrev pub latest_only : SignalSender → List Bool
latest_only s = []

pub latest_only-IsHistory : IsHistory latest_only
latest_only-IsHistory = record { unsent = λ s h. tt }

abbrev passes : Probe
passes = record { late = false; connects = λ a. true; time = some 1 }

abbrev probes : List (String × Probe)
probes = ("t1", passes) ∷ ("t2", passes) ∷ []

abbrev events : List (String × Event)
events = ("t1", checked passes) ∷ ("t2", checked passes) ∷ []

running-run_events_example :
    let s =
      run_events events (
        begin "t0" "a.example" (localhost ∷ []) (some (health_master concrete)) MessageQueue.new) in
    running_pools latest_only s.pools ≡ serving s.phase
running-run_events_example =
    running-run_events latest_only "t0" "a.example" (localhost ∷ []) (some (health_master concrete))
      MessageQueue.new events latest_only-IsHistory

concrete-IsU16 : IsU16 concrete
concrete-IsU16 = omega arith

begin-expected_example :
    (run_events (checks probes) (
      begin "t0" "a.example"
        (localhost ∷ [])
        (some (health_master concrete))
        MessageQueue.new)).phase
    ≡ phase_of (expected concrete false [] (reports (localhost ∷ []) probes))
begin-expected_example =
    begin-expected "t0" "a.example" (localhost ∷ []) concrete MessageQueue.new probes concrete-IsU16
