-- ===== src/Connection/Delivers.antt =====
-- What a connection that came to its proxied data can do for the local service.
use mathlib.Core.List.{append_assoc}
use ebbflow.Prelude.{◌≡◌, refl, ap, ◌∙◌, true, List, ◌++◌, some}
use ebbflow.Prelude.Result.{ok}
use ebbflow.Prelude.Bytes.{Bytes}
use ebbflow.Messaging.{Cbor}
use ebbflow.Daemon.Addrs.{SocketAddr}
use ebbflow.Connection.Stream.{TlsStream, write_all}
use ebbflow.Connection.Establish.{EndpointConnectionArgs, establish}
use ebbflow.Connection.Local.{starttrafficresponse, connect_local_with_ebbflow_communication}
use ebbflow.Connection.Run.{Session, finished}
use ebbflow.Connection.Dialogue.{Dialogue, establish-eq_ok}
use ebbflow.Connection.Proxy.{Proxy, ProxyEvent, over, start, run_proxy}
use ebbflow.Connection.Proxy.Delivers.{start-delivers}
use ebbflow.Connection.Whole.{connect_local-eq_ok}

-- When the dialogue with Ebbflow ends with traffic, a local address accepts and Ebbflow can be told,
-- then whatever the local service sends before it ends its stream, there is a run of the proxied
-- data that ends without an error and after which Ebbflow has received exactly the hello, the ready
-- response and all that the local service sent.
pub connected-delivers :
    (cbor : Cbor) (args : EndpointConnectionArgs) (n : Session) (s : TlsStream) (addr : SocketAddr)
    (local : Bytes)
    → establish cbor args n.dial ≡ ok s
    → (connect_local_with_ebbflow_communication cbor n.debug args n.attempt n.written s).result
      ≡ ok addr
    → (es : List ProxyEvent) × (p : Proxy) × (run_proxy es (
          start
            (connect_local_with_ebbflow_communication cbor n.debug args n.attempt n.written
              s).stream
            local)
        ≡ some p)
      × (p.stage ≡ over (finished (ok tt)))
      × (d : Dialogue cbor args n.dial s) × (ready : Bytes) × (starttrafficresponse cbor true
          ≡ ok ready)
      × (p.to_ebbflow.written ≡ d.hello ++ (ready ++ local))
unfolding write_all
connected-delivers cbor args n s addr local established connected =
    let d = establish-eq_ok cbor args n.dial s established in
    let (ready, tells, told) =
      connect_local-eq_ok cbor n.debug args n.attempt n.written s addr _ refl connected in
    let o = connect_local_with_ebbflow_communication cbor n.debug args n.attempt n.written s in
    let (es, p, ran, wrote, ended) = start-delivers o.stream local in
    (
      es,
      p,
      ran,
      ended,
      d,
      ready,
      tells,
      wrote
          ∙ ap (λ (t : TlsStream). t.sent ++ local) told
          ∙ append_assoc s.sent ready local
          ∙ ap (λ b. b ++ (ready ++ local)) d.keeps,
    )
