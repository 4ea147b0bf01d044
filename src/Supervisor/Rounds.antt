-- ===== src/Supervisor/Rounds.antt =====
-- The pools of an endpoint over its whole life: never two at a time, and none after a stop.
use ebbflow.Prelude.{
  ℕ, ◌+◌, ◌≡◌, refl, ap, ◌∙◌, String, Bool, true, false, ◌||◌, List, [], ◌∷◌, ◌++◌, Option, none,
  some, arith, if◌then◌else◌,
}
use ebbflow.MessageQueue.{MessageQueue}
use ebbflow.Daemon.Addrs.{SocketAddr}
use ebbflow.Daemon.Heap.{HealthMaster}
use ebbflow.Signal
use ebbflow.Signal.{
  SignalSender, send_signal, drop_sender, received, wait, IsHistory, wait-received,
}
use ebbflow.Supervisor.{
  Supervisor, Phase, awaiting_healthy, awaiting_unhealthy, ended, say, start_up, enter, on_newest,
  shut_down, judged, Event, checked, told_to_stop, leave, supervise, begin, run_events, report,
  healthcheck,
}

-- The pools that were not told to stop: a receiver of their signal has not seen it. A pool whose
-- loop ended by a panic counts until it is told.
unfoldable pub running_pools : (SignalSender → List Bool) → List SignalSender → ℕ
running_pools earlier [] = 0
running_pools earlier (p ∷ ps) =
    (if wait (received earlier p) then 0 else 1) + running_pools earlier ps

unfoldable pub serving : Phase → ℕ
serving awaiting_unhealthy = 1
serving _ = 0

opens : List SignalSender → ℕ
opens [] = 0
opens (p ∷ ps) = (if p.value || p.dropped then 0 else 1) + opens ps

running_pools-opens :
    (earlier : SignalSender → List Bool) (ps : List SignalSender)
    → IsHistory earlier
    → running_pools earlier ps ≡ opens ps
unfolding running_pools opens
running_pools-opens earlier [] h = refl
running_pools-opens earlier (p ∷ ps) h =
    rw (wait-received earlier p h)
      (ap (λ n. (if p.value || p.dropped then 0 else 1) + n) (running_pools-opens earlier ps h))

-- While the endpoint is served one pool is open, and it is the newest.
abbrev Shape : Phase → List SignalSender → Type 0
Shape awaiting_unhealthy ps = (opens ps ≡ 1) × (opens (on_newest drop_sender ps) ≡ 0)
Shape _ ps = opens ps ≡ 0

abbrev Inv : Supervisor → Type 0
Inv s = Shape s.phase s.pools

drop-closed : (ps : List SignalSender) → opens ps ≡ 0 → opens (on_newest drop_sender ps) ≡ 0
unfolding opens on_newest drop_sender
drop-closed [] h = refl
drop-closed (p ∷ ps) h = ground (arith, h)

send-dropped :
    (ps : List SignalSender)
    → opens (on_newest drop_sender (on_newest send_signal ps)) ≡ opens (on_newest drop_sender ps)
unfolding opens on_newest drop_sender send_signal
send-dropped [] = refl
send-dropped (p ∷ ps) = ground arith

start_up-Inv : (now : String) (s : Supervisor) → opens s.pools ≡ 0 → Inv (start_up now s)
unfolding start_up say opens on_newest drop_sender Signal.new
start_up-Inv now s h = (ground (arith, h), ground (arith, h))

enter-Inv_at :
    (now : String) (s : Supervisor) (health : Option HealthMaster)
    → opens s.pools ≡ 0
    → Inv (enter now (record s { health = health }))
unfolding enter
enter-Inv_at now s none h = start_up-Inv now (record s { health = none }) h
enter-Inv_at now s (some hm) h = h

enter-Inv : (now : String) (s : Supervisor) → opens s.pools ≡ 0 → Inv (enter now s)
enter-Inv now s h = enter-Inv_at now s s.health h

judged-Inv :
    (now : String) (healthy : Bool) (s : Supervisor) (phase : Phase)
    → Shape phase s.pools
    → Inv (judged now healthy (record s { phase = phase }))
unfolding judged say shut_down
judged-Inv now true s awaiting_healthy v =
    start_up-Inv now
      (say now "Endpoint " " considered healthy" (record s { phase = awaiting_healthy })) v
judged-Inv now false s awaiting_healthy v = v
judged-Inv now true s awaiting_unhealthy v = v
judged-Inv now false s awaiting_unhealthy v =
    enter-Inv now
      (shut_down now
        (say now "Endpoint " " considered unhealthy" (record s { phase = awaiting_unhealthy })))
      (send-dropped s.pools ∙ v.1)
judged-Inv now healthy s ended v = v

supervise-Inv_at :
    (now : String) (e : Event) (s : Supervisor) (phase : Phase) (health : Option HealthMaster)
    → Shape phase s.pools
    → Inv (supervise now e (record s { phase = phase; health = health }))
unfolding supervise leave say
supervise-Inv_at now (checked p) s ended health v = v
supervise-Inv_at now (checked p) s awaiting_healthy none v = v
supervise-Inv_at now (checked p) s awaiting_unhealthy none v = v
supervise-Inv_at now (checked p) s awaiting_healthy (some hm) v =
    let (hm', healthy) = report (healthcheck p s.addrs) p.time hm in
    judged-Inv now healthy (record s { health = some hm' }) awaiting_healthy v
supervise-Inv_at now (checked p) s awaiting_unhealthy (some hm) v =
    let (hm', healthy) = report (healthcheck p s.addrs) p.time hm in
    judged-Inv now healthy (record s { health = some hm' }) awaiting_unhealthy v
supervise-Inv_at now told_to_stop s ended health v = v
supervise-Inv_at now told_to_stop s awaiting_healthy health v = drop-closed s.pools v
supervise-Inv_at now told_to_stop s awaiting_unhealthy health v = v.1

run_events-Inv : (es : List (String × Event)) (s : Supervisor) → Inv s → Inv (run_events es s)
unfolding run_events
run_events-Inv [] s v = v
run_events-Inv ((now, e) ∷ es) s v =
    run_events-Inv es (supervise now e s) (supervise-Inv_at now e s s.phase s.health v)

Shape-serving : (phase : Phase) (ps : List SignalSender) → Shape phase ps → opens ps ≡ serving phase
unfolding serving
Shape-serving awaiting_healthy ps v = v
Shape-serving awaiting_unhealthy ps v = v.0
Shape-serving ended ps v = v

begin-Inv :
    (now endpoint : String) (addrs : List SocketAddr) (health : Option HealthMaster)
    (q : MessageQueue)
    → Inv (begin now endpoint addrs health q)
unfolding begin opens
begin-Inv now endpoint addrs health q =
    enter-Inv now
      (record {
        endpoint = endpoint;
        addrs = addrs;
        health = health;
        pools = [];
        phase = awaiting_healthy;
        message_queue = q;
      })
      refl

-- After any events, if the channel only shows values that were sent, one pool of the endpoint runs
-- while it waits to turn unhealthy or to be stopped, and none runs otherwise, so never two at a
-- time.
pub running-run_events :
    (earlier : SignalSender → List Bool) (now endpoint : String) (addrs : List SocketAddr)
    (health : Option HealthMaster) (q : MessageQueue) (es : List (String × Event))
    → IsHistory earlier
    → let s = run_events es (begin now endpoint addrs health q) in
      running_pools earlier s.pools ≡ serving s.phase
running-run_events earlier now endpoint addrs health q es h =
    let s = run_events es (begin now endpoint addrs health q) in
    running_pools-opens earlier s.pools h
    ∙ Shape-serving s.phase s.pools (run_events-Inv es _ (begin-Inv now endpoint addrs health q))

run_events-append :
    (es fs : List (String × Event)) (s : Supervisor)
    → run_events (es ++ fs) s ≡ run_events fs (run_events es s)
unfolding run_events
run_events-append [] fs s = refl
run_events-append ((now, e) ∷ es) fs s = run_events-append es fs (supervise now e s)

abbrev pub over : Supervisor → Supervisor
over s = record s { phase = ended }

supervise-over : (now : String) (e : Event) (s : Supervisor) → supervise now e (over s) ≡ over s
unfolding supervise
supervise-over now (checked p) s = refl
supervise-over now told_to_stop s = refl

pub run_events-over :
    (es : List (String × Event)) (s : Supervisor) → run_events es (over s) ≡ over s
unfolding run_events
run_events-over [] s = refl
run_events-over ((now, e) ∷ es) s =
    ap (run_events es) (supervise-over now e s) ∙ run_events-over es s

pub stop-over :
    (now : String) (s : Supervisor) (phase : Phase)
    → let s' = supervise now told_to_stop (record s { phase = phase }) in s' ≡ over s'
unfolding supervise leave say
stop-over now s awaiting_healthy = refl
stop-over now s awaiting_unhealthy = refl
stop-over now s ended = refl

-- Once the endpoint was told to stop, its task has ended, whatever events come later, and if the
-- channel only shows values that were sent, no pool runs.
pub told_to_stop-run_events :
    (earlier : SignalSender → List Bool) (now later endpoint : String) (addrs : List SocketAddr)
    (health : Option HealthMaster) (q : MessageQueue) (before after : List (String × Event))
    → IsHistory earlier
    → let s =
        run_events
          (before ++ ((later, told_to_stop) ∷ after))
          (begin now endpoint addrs health q) in
      (s.phase ≡ ended) × (running_pools earlier s.pools ≡ 0)
unfolding run_events serving
told_to_stop-run_events earlier now later endpoint addrs health q before after h =
    let s0 = begin now endpoint addrs health q in
    let s1 = run_events before s0 in
    let s2 = supervise later told_to_stop s1 in
    let stopped : run_events (before ++ ((later, told_to_stop) ∷ after)) s0 ≡ over s2 =
      run_events-append before ((later, told_to_stop) ∷ after) s0
      ∙ ap (run_events after) (stop-over later s1 s1.phase)
      ∙ run_events-over after s2 in
    let phase = ap (λ (s : Supervisor). s.phase) stopped in
    (
      phase,
      running-run_events earlier now endpoint addrs health q
            (before ++ ((later, told_to_stop) ∷ after)) h
          ∙ ap serving phase,
    )
