-- ===== src/Connection/Whole.antt =====
-- A connection from its dial to the proxied data: what Ebbflow and the local service receive.
use mathlib.Core.List.{append_assoc}
use ebbflow.Prelude.{String, ◌≡◌, ◌≢◌, refl, ap, ◌∙◌, true, false, List, [], ◌++◌, some}
use ebbflow.Prelude.Result.{Result, ok, err}
use ebbflow.Prelude.Bytes.{Bytes}
use ebbflow.Messaging.{Cbor}
use ebbflow.Daemon.Addrs.{SocketAddr}
use ebbflow.Connection.Stream.{ConnectionError, TlsStream, write_all}
use ebbflow.Connection.Establish.{EndpointConnectionArgs, Dial, establish}
use ebbflow.Connection.Local.{
  Attempt, connect_local, starttrafficresponse, answer, connect_local_with_ebbflow_communication,
}
use ebbflow.Connection.Run.{Session}
use ebbflow.Connection.Dialogue.{Dialogue, establish-eq_ok}
use ebbflow.Connection.Proxy.{Proxy, ProxyEvent, start, run_proxy}
use ebbflow.Connection.Proxy.Carried.{run_proxy-carries}

answer-eq_ok :
    (cbor : Cbor) (written : Result String (Unit {0})) (s : TlsStream) (posted : List String)
    (r : Result ConnectionError SocketAddr) (addr : SocketAddr) (w : Result ConnectionError Bytes)
    → starttrafficresponse cbor true ≡ w
    → (answer cbor true written s posted r).result ≡ ok addr
    → (ready : Bytes) × (starttrafficresponse cbor true ≡ ok ready)
      × ((answer cbor true written s posted r).stream ≡ write_all ready s)
unfolding answer
answer-eq_ok cbor (ok u) s posted r addr (ok ready) e h = (ready, e, rw (e, answer) refl)
answer-eq_ok cbor (err x) s posted r addr (ok ready) e h = cc (rw (e, answer) at h)
answer-eq_ok cbor written s posted r addr (err x) e h = cc (rw (e, answer) at h)

pub answer-err :
    (cbor : Cbor) (written : Result String (Unit {0})) (s : TlsStream) (posted : List String)
    (x : ConnectionError) (addr : SocketAddr) (w : Result ConnectionError Bytes)
    → starttrafficresponse cbor false ≡ w
    → (answer cbor false written s posted (err x)).result ≢ ok addr
unfolding answer
answer-err cbor (ok u) s posted x addr (ok ready) e h = cc (rw (e, answer) at h)
answer-err cbor (err y) s posted x addr (ok ready) e h = cc (rw (e, answer) at h)
answer-err cbor written s posted x addr (err y) e h = cc (rw (e, answer) at h)

pub connect_local-eq_ok :
    (cbor : Cbor) (debug : ConnectionError → String) (args : EndpointConnectionArgs)
    (attempt : SocketAddr → Attempt) (written : Result String (Unit {0})) (s : TlsStream)
    (addr : SocketAddr) (r : Result ConnectionError SocketAddr)
    → connect_local debug attempt args.addrs ≡ r
    → (connect_local_with_ebbflow_communication cbor debug args attempt written s).result ≡ ok addr
    → (ready : Bytes) × (starttrafficresponse cbor true ≡ ok ready)
      × ((connect_local_with_ebbflow_communication cbor debug args attempt written s).stream
          ≡ write_all ready s)
unfolding connect_local_with_ebbflow_communication
connect_local-eq_ok cbor debug args attempt written s addr (ok a) e h =
    rw (e, connect_local_with_ebbflow_communication)
      (answer-eq_ok cbor written s [] (ok a) addr _ refl
        (rw (e, connect_local_with_ebbflow_communication) at h))
connect_local-eq_ok cbor debug args attempt written s addr (err x) e h = absurd (
    answer-err cbor written s _ x addr _ refl
      (rw (e, connect_local_with_ebbflow_communication) at h))

-- What a connection that reached the proxied data did: the dialogue came first, Ebbflow received the
-- hello, that the local service is ready and then a prefix of what the local service sent, and the
-- local service received a prefix of what follows the dialogue.
pub record IsProxied (cbor : Cbor) (args : EndpointConnectionArgs) (d : Dial) (local : Bytes)
    (p : Proxy) : Type 0 where
  traffic : TlsStream
  dialogue : Dialogue cbor args d traffic
  ready : Bytes
  tells : starttrafficresponse cbor true ≡ ok ready
  unsent : Bytes
  to_ebbflow : p.to_ebbflow.written ++ unsent ≡ dialogue.hello ++ (ready ++ local)
  undelivered : Bytes
  to_local : p.to_local.written ++ undelivered ≡ traffic.incoming

-- When the dialogue with Ebbflow ends with traffic, a local address accepts and Ebbflow can be told,
-- then at every moment of the proxied data Ebbflow has received the hello, the ready response and
-- after them only a prefix of what the local service sends; and the local service has received only
-- a prefix of what Ebbflow sends after a welcoming response and the start of the traffic.
pub run_proxy-IsProxied :
    (cbor : Cbor) (args : EndpointConnectionArgs) (n : Session) (s : TlsStream) (addr : SocketAddr)
    (local : Bytes) (es : List ProxyEvent) (p : Proxy)
    → establish cbor args n.dial ≡ ok s
    → (connect_local_with_ebbflow_communication cbor n.debug args n.attempt n.written s).result
      ≡ ok addr
    → run_proxy es (
        start
          (connect_local_with_ebbflow_communication cbor n.debug args n.attempt n.written s).stream
          local)
      ≡ some p
    → IsProxied cbor args n.dial local p
unfolding write_all
run_proxy-IsProxied cbor args n s addr local es p established connected ran =
    let dialogue = establish-eq_ok cbor args n.dial s established in
    let (ready, tells, told) =
      connect_local-eq_ok cbor n.debug args n.attempt n.written s addr _ refl connected in
    let o = connect_local_with_ebbflow_communication cbor n.debug args n.attempt n.written s in
    let (out, inc) = run_proxy-carries o.stream local es p ran in
    record {
      traffic = s;
      dialogue = dialogue;
      ready = ready;
      tells = tells;
      unsent = out.0 ++ p.to_ebbflow.incoming;
      to_ebbflow =
          out.1
          ∙ ap (λ (t : TlsStream). t.sent ++ local) told
          ∙ append_assoc s.sent ready local
          ∙ ap (λ b. b ++ (ready ++ local)) dialogue.keeps;
      undelivered = inc.0 ++ p.to_local.incoming;
      to_local = inc.1 ∙ ap (λ (t : TlsStream). t.incoming) told;
    }
