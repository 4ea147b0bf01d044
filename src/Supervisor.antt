-- ===== src/Supervisor.antt =====
-- The task that `spawn_endpoint` of src/daemon/mod.rs starts for an endpoint: it waits until the
-- health check passes, starts a pool with a stop signal of its own, and ends it when the health
-- check fails or the endpoint is stopped. Each event carries the time of its messages.
pub mod Rounds
pub mod Follows
use Prim.Native.String.{◌++◌ as str_append}
use ebbflow.Prelude.{
  ℕ, String, Bool, true, false, not, ◌||◌, List, [], ◌∷◌, Option, none, some, if◌then◌else◌,
}
use ebbflow.Health.{report_check_result}
use ebbflow.MessageQueue.{MessageQueue, add_message}
use ebbflow.Daemon.Addrs.{SocketAddr}
use ebbflow.Daemon.Heap.{HealthMaster}
use ebbflow.Signal
use ebbflow.Signal.{SignalSender, send_signal, drop_sender}

-- Which `select` the task waits in.
pub data Phase : Type 0 where
  awaiting_healthy awaiting_unhealthy ended : Phase

-- `pools` has the signal of each pool that was spawned, the newest first.
pub record Supervisor : Type 0 where
  pub endpoint : String
  pub addrs : List SocketAddr
  pub health : Option HealthMaster
  pub pools : List SignalSender
  pub phase : Phase
  pub message_queue : MessageQueue

unfoldable pub say : String → String → String → Supervisor → Supervisor
say now before after s = record s {
  message_queue = add_message now (str_append before (str_append s.endpoint after)) s.message_queue;
}

-- From the first `select` to the second.
unfoldable pub start_up : String → Supervisor → Supervisor
unfolding say Signal.new
start_up now s =
    let s' = say now "Endpoint " " starting up" s in
    record s' { pools = Signal.new ∷ s'.pools; phase = awaiting_unhealthy }

-- The top of the loop: without a health check the endpoint is healthy at once.
unfoldable pub enter : String → Supervisor → Supervisor
unfolding start_up
enter now s = elim s.health [
  | none ↦ start_up now s
  | some hm ↦ record s { phase = awaiting_healthy }
]

unfoldable pub on_newest : (SignalSender → SignalSender) → List SignalSender → List SignalSender
on_newest f [] = []
on_newest f (p ∷ ps) = f p ∷ ps

-- The end of a round: the pool's signal is sent, and its sender goes out of scope.
unfoldable pub shut_down : String → Supervisor → Supervisor
unfolding say on_newest send_signal drop_sender
shut_down now s =
    let s' =
      say now "Endpoint " " shutting down" (record s { pools = on_newest send_signal s.pools }) in
    record s' { pools = on_newest drop_sender s'.pools }

-- One round of a health check against the local addresses: whether a second passed, and which
-- addresses accept a connection.
pub record Probe : Type 0 where
  pub late : Bool
  pub connects : SocketAddr → Bool
  pub time : Option ℕ

unfoldable pub inner_healthcheck : (SocketAddr → Bool) → List SocketAddr → Bool
inner_healthcheck connects [] = false
inner_healthcheck connects (a ∷ addrs) = connects a || inner_healthcheck connects addrs

unfoldable pub healthcheck : Probe → List SocketAddr → Bool
unfolding inner_healthcheck
healthcheck p addrs = if p.late then false else inner_healthcheck p.connects addrs

-- `report_check_result` of the shared health master, with its answer.
unfoldable pub report : Bool → Option ℕ → HealthMaster → HealthMaster × Bool
report result time hm =
    let (inner, healthy) = report_check_result result time hm.cfg hm.inner in
    (record hm { inner = inner }, healthy)

unfoldable pub judged : String → Bool → Supervisor → Supervisor
unfolding say start_up shut_down enter
judged now healthy s = elim s.phase [
  | awaiting_healthy ↦
      if healthy then start_up now (say now "Endpoint " " considered healthy" s) else s
  | awaiting_unhealthy ↦
      if healthy
      then s
      else enter now (shut_down now (say now "Endpoint " " considered unhealthy" s))
  | ended ↦ s
]

pub data Event : Type 0 where
  checked : Probe → Event
  told_to_stop : Event

-- Out of the loop: a pool that still runs loses its sender.
unfoldable pub leave : String → Supervisor → Supervisor
unfolding say on_newest drop_sender
leave now s =
    let s' = say now "Endpoint " " was disabled, shutting down" s in
    let s'' =
      say now "Endpoint " " is disabled" (record s' { pools = on_newest drop_sender s'.pools }) in
    record s'' { phase = ended }

unfoldable pub supervise : String → Event → Supervisor → Supervisor
unfolding judged leave report healthcheck
supervise now (checked probe) s = elim s.phase [
  | ended ↦ s
  | _ ↦ elim s.health [
    | none ↦ s
    | some hm ↦
        let (hm', healthy) = report (healthcheck probe s.addrs) probe.time hm in
        judged now healthy (record s { health = some hm' })
  ]
]
supervise now told_to_stop s = elim s.phase [ ended ↦ s | _ ↦ leave now s ]

-- A task that was just spawned.
unfoldable pub begin :
    String → String → List SocketAddr → Option HealthMaster → MessageQueue → Supervisor
unfolding enter
begin now endpoint addrs health q = enter now (record {
  endpoint = endpoint;
  addrs = addrs;
  health = health;
  pools = [];
  phase = awaiting_healthy;
  message_queue = q;
})

-- A history of events.
unfoldable pub run_events : List (String × Event) → Supervisor → Supervisor
unfolding supervise
run_events [] s = s
run_events ((now, e) ∷ rest) s = run_events rest (supervise now e s)
