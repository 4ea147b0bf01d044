-- ===== src/Connection/Serves.antt =====
-- `run_connection` with its proxied data: the effects of the whole task of a connection that reached
-- its local service, by the events of the data.
use mathlib.Core.List.{append_assoc}
use ebbflow.Prelude.{◌≡◌, refl, ◌∙◌, ap, String, Bool, true, false, List, [], ◌∷◌, ◌++◌, some}
use ebbflow.Prelude.Result.{Result, ok, err}
use ebbflow.Prelude.Bytes.{Bytes}
use ebbflow.Messaging.{Cbor}
use ebbflow.Daemon.Addrs.{SocketAddr}
use ebbflow.Connection.Stream.{ConnectionError, TlsStream}
use ebbflow.Connection.Establish.{EndpointConnectionArgs, establish}
use ebbflow.Connection.Local.{
  Attempt, LocalOutcome, connect_local, starttrafficresponse, answer,
  connect_local_with_ebbflow_communication,
}
use ebbflow.Connection.Run.{
  Effect, add_idle, remove_idle, drop_idle_permit, add_active, remove_active, drop_max_permit,
  abort_proxy, Proxied, stopped, finished, Session, jittersleep1p5, kill_active_delay, proxy_data,
  serve_local, after_idle, run_connection, connection_task,
}
use ebbflow.Connection.Proxy.{ProxyEvent, Proxy, over, start, run_proxy}
use ebbflow.Connection.Proxy.Told.{IsTold, was_stopped, run_proxy-was_stopped}
use ebbflow.Connection.Whole.{answer-err}

answer-posted :
    (cbor : Cbor) (good : Bool) (written : Result String (Unit {0})) (s : TlsStream)
    (posted : List String) (r : Result ConnectionError SocketAddr)
    (w : Result ConnectionError Bytes)
    → starttrafficresponse cbor good ≡ w
    → (answer cbor good written s posted r).posted ≡ posted
unfolding answer
answer-posted cbor good written s posted r (err e) h = rw (h, answer) refl
answer-posted cbor good (ok u) s posted r (ok b) h = rw (h, answer) refl
answer-posted cbor good (err e) s posted r (ok b) h = rw (h, answer) refl

-- A connection that reached its local service posted nothing.
connect_local-posted :
    (cbor : Cbor) (debug : ConnectionError → String) (args : EndpointConnectionArgs)
    (attempt : SocketAddr → Attempt) (written : Result String (Unit {0})) (s : TlsStream)
    (addr : SocketAddr) (r : Result ConnectionError SocketAddr)
    → connect_local debug attempt args.addrs ≡ r
    → (connect_local_with_ebbflow_communication cbor debug args attempt written s).result ≡ ok addr
    → (connect_local_with_ebbflow_communication cbor debug args attempt written s).posted ≡ []
unfolding connect_local_with_ebbflow_communication
connect_local-posted cbor debug args attempt written s addr (ok a) e h =
    rw (e, connect_local_with_ebbflow_communication)
      (answer-posted cbor true written s [] (ok a) _ refl)
connect_local-posted cbor debug args attempt written s addr (err x) e h = absurd (
    answer-err cbor written s _ x addr _ refl
      (rw (e, connect_local_with_ebbflow_communication) at h))

-- After the stop signal the data gets another while, and is cut off.
abbrev cut_off : Session → Bool → List Effect
cut_off n true = jittersleep1p5 n kill_active_delay ∷ abort_proxy ∷ []
cut_off n false = []

proxy_data-cut_off :
    (n : Session) (ending : Proxied) (told : Bool)
    → n.proxied ≡ ending
    → IsTold (over ending) told
    → proxy_data n ≡ cut_off n told
unfolding proxy_data
proxy_data-cut_off n stopped told e h = rw (e, h, proxy_data) refl
proxy_data-cut_off n (finished r) told e h = rw (e, h, proxy_data) refl

serve_local-eq :
    (n : Session) (o : LocalOutcome) (addr : SocketAddr)
    → o.result ≡ ok addr
    → o.posted ≡ []
    → serve_local n o ≡ add_active ∷ (proxy_data n ++ remove_active ∷ [])
unfolding serve_local
serve_local-eq n o addr r p = rw (r, p, serve_local) refl

-- A connection whose dialogue with Ebbflow ends with traffic, that was not idle for too long, whose
-- local service accepts and of which Ebbflow can be told, and whose data ends as its events say: it
-- is idle, then active for as long as the data flows, posts nothing, and sleeps and cuts the data
-- off exactly if the stop signal is among the events.
pub connection_task-was_stopped :
    (cbor : Cbor) (args : EndpointConnectionArgs) (n : Session) (s : TlsStream) (addr : SocketAddr)
    (local : Bytes) (es : List ProxyEvent) (p : Proxy)
    → n.idle_timeout ≡ false
    → establish cbor args n.dial ≡ ok s
    → (connect_local_with_ebbflow_communication cbor n.debug args n.attempt n.written s).result
      ≡ ok addr
    → run_proxy es (
        start
          (connect_local_with_ebbflow_communication cbor n.debug args n.attempt n.written s).stream
          local)
      ≡ some p
    → p.stage ≡ over n.proxied
    → connection_task cbor args n
      ≡ add_idle
        ∷ remove_idle
        ∷ drop_idle_permit
        ∷ add_active
        ∷ (cut_off n (was_stopped es) ++ (remove_active ∷ drop_max_permit ∷ []))
unfolding connection_task run_connection after_idle
connection_task-was_stopped cbor args n s addr local es p timely established connected ran ended =
    let o = connect_local_with_ebbflow_communication cbor n.debug args n.attempt n.written s in
    let posted =
      connect_local-posted cbor n.debug args n.attempt n.written s addr _ refl connected in
    let told = run_proxy-was_stopped o.stream local es p n.proxied ran ended in
    let cut = proxy_data-cut_off n n.proxied (was_stopped es) refl told in
    let active =
      serve_local-eq n o addr connected posted
      ∙ ap (λ fx. add_active ∷ (fx ++ remove_active ∷ [])) cut in
    let after = ap (after_idle cbor args n) established ∙ ap (λ fx. drop_idle_permit ∷ fx) active in
    rw (timely, after, append_assoc) refl
