-- ===== src/Runner/Pools.antt =====
-- The tasks of the runner with the supervisors that they run: the pools that are open are those of
-- the enabled instances.
use ebbflow.Prelude.{
  ℕ, ◌+◌, ◌≤◌, ◌≡◌, refl, ap, ◌∙◌, String, Bool, true, false, List, [], ◌∷◌, Option, none, some,
  arith, unwrap_or, is_some, ◌⊎◌, inl, inr, if◌then◌else◌,
}
use ebbflow.MessageQueue.{MessageQueue}
use ebbflow.Daemon.Addrs.{SocketAddr}
use ebbflow.Daemon.Heap.{HealthMaster, Spawned, MetaHeap, running-cell}
use ebbflow.Signal.{SignalSender, IsHistory}
use ebbflow.Runner.{new}
use ebbflow.Runner.Inv.{owned, ssh_owned}
use ebbflow.Runner.Reachable.{Call, run, run-new-Inv}
use ebbflow.Supervisor.{
  Supervisor, Phase, awaiting_healthy, awaiting_unhealthy, ended, Event, checked, told_to_stop,
  supervise, begin, enter, start_up, say, run_events,
}
use ebbflow.Supervisor.Rounds.{
  running_pools, serving, run_events-over, stop-over, running-run_events,
}

-- Whether the stop signal is among the events.
unfoldable pub told : List (String × Event) → Bool
told [] = false
told ((now, told_to_stop) ∷ es) = true
told ((now, checked p) ∷ es) = told es

-- The task of a spawned endpoint after its events.
abbrev pub supervisor_of : String → MessageQueue → Spawned → List (String × Event) → Supervisor
supervisor_of now q s es =
    run_events es (begin now s.args.endpoint (unwrap_or s.hc_addrs []) s.meta.healthdata q)

-- The stop signal has come to exactly the tasks that were told to stop.
pub record IsDelivered (h : MetaHeap) (history : ℕ → List (String × Event)) : Type 0 where
  pub arrives : (id : ℕ) (s : Spawned) → h.cell id ≡ some s → told (history id) ≡ s.meta.stopped

phase-told :
    (es : List (String × Event)) (s : Supervisor) → told es ≡ true → (run_events es s).phase ≡ ended
unfolding told run_events
phase-told [] s h = cc h
phase-told ((now, checked p) ∷ es) s h = phase-told es (supervise now (checked p) s) h
phase-told ((now, told_to_stop) ∷ es) s h =
    ap (λ (t : Supervisor). (run_events es t).phase) (stop-over now s s.phase)
    ∙ ap (λ (t : Supervisor). t.phase) (run_events-over es (supervise now told_to_stop s))

-- Without a health check a task goes on serving.
served_on :
    (es : List (String × Event)) (s : Supervisor)
    → told es ≡ false
    → (run_events es (record s { health = none; phase = awaiting_unhealthy })).phase
      ≡ awaiting_unhealthy
unfolding told run_events supervise
served_on [] s h = refl
served_on ((now, checked p) ∷ es) s h = served_on es s h
served_on ((now, told_to_stop) ∷ es) s h = cc h

phase-untold :
    (now endpoint : String) (addrs : List SocketAddr) (q : MessageQueue)
    (es : List (String × Event))
    → told es ≡ false
    → (run_events es (begin now endpoint addrs none q)).phase ≡ awaiting_unhealthy
unfolding begin enter start_up say
phase-untold now endpoint addrs q es h = served_on es (begin now endpoint addrs none q) h

serving-le-one : (phase : Phase) → serving phase ≤ 1
unfolding serving
serving-le-one awaiting_healthy = omega arith
serving-le-one awaiting_unhealthy = omega arith
serving-le-one ended = omega arith

pools-health :
    (health : Option HealthMaster) (now endpoint : String) (addrs : List SocketAddr)
    (q : MessageQueue) (es : List (String × Event))
    → told es ≡ false
    → (is_some health ≡ true)
      ⊎ (serving (run_events es (begin now endpoint addrs health q)).phase ≡ 1)
unfolding serving
pools-health (some hm) now endpoint addrs q es h = inl refl
pools-health none now endpoint addrs q es h =
    inr (ap serving (phase-untold now endpoint addrs q es h))

module _ (earlier : SignalSender → List Bool) (calls : List Call)
    (history : ℕ → List (String × Event)) (now : String) (q : MessageQueue) where
  tended :
      (id : ℕ) (s : Spawned) (stopped : Bool)
      → s.meta.stopped ≡ stopped
      → told (history id) ≡ stopped
      → (serving (supervisor_of now q s (history id)).phase ≤ (if stopped then 0 else 1))
        × ((is_some s.meta.healthdata ≡ true)
            ⊎ (serving (supervisor_of now q s (history id)).phase ≡ (if stopped then 0 else 1)))
  unfolding serving
  tended id s true e t =
      let over = ap serving (
        phase-told (history id)
          (begin now s.args.endpoint (unwrap_or s.hc_addrs []) s.meta.healthdata q) t) in
      (omega (arith, over), inr over)
  tended id s false e t = (
    serving-le-one (supervisor_of now q s (history id)).phase,
    pools-health s.meta.healthdata now s.args.endpoint (unwrap_or s.hc_addrs []) q (history id) t,
  )

  -- After any history of calls on a new runner, and any events of the tasks that it spawned by which
  -- exactly those that it stopped were told so, if the channel only shows values that were sent: a
  -- task has at most one pool running, and only if an enabled instance holds the task, which at most
  -- one does; and exactly then if it has no health check.
  pub run-running_pools :
      (id : ℕ) (s : Spawned)
      → IsHistory earlier
      → IsDelivered (run calls new).world.metas history
      → (run calls new).world.metas.cell id ≡ some s
      → let pools = running_pools earlier (supervisor_of now q s (history id)).pools in
        let held = owned (run calls new).endpoints id + ssh_owned (run calls new).ssh id in
        (pools ≤ held) × (held ≤ 1) × ((is_some s.meta.healthdata ≡ true) ⊎ (pools ≡ held))
  run-running_pools id s h delivered there =
      let r = run calls new in
      let held = (run-new-Inv calls).holds.balanced id ∙ running-cell r.world.metas id s there in
      let pools =
        running-run_events earlier now s.args.endpoint (unwrap_or s.hc_addrs []) s.meta.healthdata q
          (history id) h in
      let (most, exact) = tended id s s.meta.stopped refl (delivered.arrives id s there) in
      (
        omega (arith, held, pools, most),
        ground (arith, held),
        elim exact [ inl checks ↦ inl checks | inr same ↦ inr (omega (arith, held, pools, same)) ],
      )
