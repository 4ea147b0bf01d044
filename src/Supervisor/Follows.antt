-- ===== src/Supervisor/Follows.antt =====
-- An endpoint is served exactly while its health check says that it is healthy.
use ebbflow.Prelude.{ℕ, ◌≡◌, refl, ap, ◌∙◌, String, Bool, true, false, List, [], ◌∷◌, Option, some}
use ebbflow.Config.{ConcreteHealthCheck}
use ebbflow.Health
use ebbflow.Health.{Check, HealthMasterInner, report_check_result, status, data_of}
use ebbflow.Health.Hysteresis.{IsU16, run_reports, expected, data-run_reports}
use ebbflow.MessageQueue.{MessageQueue}
use ebbflow.Daemon.{health_master}
use ebbflow.Daemon.Addrs.{SocketAddr}
use ebbflow.Daemon.Heap.{HealthMaster}
use ebbflow.Supervisor.{
  Supervisor, Phase, awaiting_healthy, awaiting_unhealthy, say, start_up, enter, shut_down, judged,
  Event, Probe, checked, supervise, begin, run_events, report, healthcheck,
}

-- Where an endpoint that was not stopped waits.
unfoldable pub phase_of : Bool → Phase
phase_of true = awaiting_unhealthy
phase_of false = awaiting_healthy

-- Rounds of the health check, each with the time of its messages, as events and as reports.
unfoldable pub checks : List (String × Probe) → List (String × Event)
checks [] = []
checks ((now, p) ∷ ps) = (now, checked p) ∷ checks ps

unfoldable pub reports : List SocketAddr → List (String × Probe) → List (Bool × Option ℕ)
reports addrs [] = []
reports addrs ((now, p) ∷ ps) = (healthcheck p addrs, p.time) ∷ reports addrs ps

-- The state of a task with a health check.
abbrev watching : Supervisor → HealthMaster → Bool → Supervisor
watching s hm b = record s { health = some hm; phase = phase_of b }

judged-watching :
    (now : String) (healthy b : Bool) (s : Supervisor) (hm : HealthMaster)
    → let s' = judged now healthy (watching s hm b) in
      (s'.health ≡ some hm) × (s'.phase ≡ phase_of healthy) × (s'.addrs ≡ s.addrs)
unfolding judged phase_of say start_up enter shut_down
judged-watching now true true s hm = (refl, refl, refl)
judged-watching now true false s hm = (refl, refl, refl)
judged-watching now false true s hm = (refl, refl, refl)
judged-watching now false false s hm = (refl, refl, refl)

supervise-watching :
    (now : String) (p : Probe) (s : Supervisor) (hm : HealthMaster) (b : Bool)
    → supervise now (checked p) (watching s hm b)
      ≡ judged now
          (report (healthcheck p s.addrs) p.time hm).1
          (watching s (report (healthcheck p s.addrs) p.time hm).0 b)
unfolding supervise phase_of
supervise-watching now p s hm true = refl
supervise-watching now p s hm false = refl

report-healthy :
    (result : Bool) (time : Option ℕ) (hm : HealthMaster)
    → (report result time hm).1 ≡ (report result time hm).0.inner.healthy
unfolding report report_check_result status
report-healthy result time hm = refl

run_events-watching :
    (ps : List (String × Probe)) (s : Supervisor) (hm : HealthMaster)
    → s.health ≡ some hm
    → s.phase ≡ phase_of hm.inner.healthy
    → (run_events (checks ps) s).phase
      ≡ phase_of (run_reports hm.cfg hm.inner (reports s.addrs ps)).healthy
unfolding run_events checks reports run_reports
run_events-watching [] s hm h e = e
run_events-watching ((now, p) ∷ ps) s hm h e =
    let b = hm.inner.healthy in
    let (hm', healthy) = report (healthcheck p s.addrs) p.time hm in
    let s' = supervise now (checked p) s in
    let here : s ≡ watching s hm b = λ i. record s { health = h i; phase = e i } in
    let step : s' ≡ judged now healthy (watching s hm' b) =
      ap (supervise now (checked p)) here ∙ supervise-watching now p s hm b in
    let (shared, agrees, kept) = judged-watching now healthy b s hm' in
    let phase : s'.phase ≡ phase_of hm'.inner.healthy =
      ap (λ (t : Supervisor). t.phase) step
      ∙ agrees
      ∙ ap phase_of (report-healthy (healthcheck p s.addrs) p.time hm) in
    run_events-watching ps s' hm' (ap (λ (t : Supervisor). t.health) step ∙ shared) phase
    ∙ ap (λ l. phase_of (run_reports hm'.cfg hm'.inner (reports l ps)).healthy)
        (ap (λ (t : Supervisor). t.addrs) step ∙ kept)

-- With a health check whose thresholds fit a u16, and unless it is told to stop, an endpoint is
-- served, whatever the checks come to, exactly while the described rule says that it is healthy.
pub begin-expected :
    (now endpoint : String) (addrs : List SocketAddr) (cfg : ConcreteHealthCheck) (q : MessageQueue)
    (ps : List (String × Probe))
    → IsU16 cfg
    → (run_events (checks ps) (begin now endpoint addrs (some (health_master cfg)) q)).phase
      ≡ phase_of (expected cfg false [] (reports addrs ps))
unfolding begin enter health_master Health.new phase_of data_of
begin-expected now endpoint addrs cfg q ps fits =
    run_events-watching ps (begin now endpoint addrs (some (health_master cfg)) q)
      (health_master cfg) refl refl
    ∙ ap phase_of
        (ap (λ (d : Bool × List Check). d.0) (data-run_reports cfg (reports addrs ps) fits))
