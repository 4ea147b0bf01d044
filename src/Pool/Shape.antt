-- ===== src/Pool/Shape.antt =====
-- The shape of a connection's effects: each counter goes up before it goes down, idle while the idle
-- permit is held, active after it was dropped and while the other permit is held.
use mathlib.Core.List.{append_assoc}
use ebbflow.Prelude.{
  ℕ, ◌+◌, ◌≤◌, ◌≡◌, refl, sym, subst, String, List, [], ◌∷◌, ◌++◌, map, arith, ◌∙◌, Bool-cases, inl,
  inr,
}
use ebbflow.Prelude.Result.{Result, ok, err}
use ebbflow.Messaging.{Cbor}
use ebbflow.Daemon.Addrs.{SocketAddr}
use ebbflow.Connection.Stream.{ConnectionError, TlsStream}
use ebbflow.Connection.Establish.{EndpointConnectionArgs, establish}
use ebbflow.Connection.Local.{LocalOutcome, connect_local_with_ebbflow_communication}
use ebbflow.Connection.Run.{
  Effect, add_idle, remove_idle, drop_idle_permit, add_active, remove_active, drop_max_permit, post,
  Session, Proxied, stopped, finished, jittersleep1p5, is_refusal, proxy_data, report_failure,
  serve_local, min_ebbflow_error_delay, after_idle, run_connection, connection_task,
}

pub data Kind : Type 0 where
  ups_idle downs_idle idle_drops ups_active downs_active max_drops : Kind

abbrev pub hits : Kind → Effect → ℕ
hits ups_idle add_idle = 1
hits downs_idle remove_idle = 1
hits idle_drops drop_idle_permit = 1
hits ups_active add_active = 1
hits downs_active remove_active = 1
hits max_drops drop_max_permit = 1
hits _ _ = 0

-- How often an effect of a kind is still to come.
abbrev pub count : Kind → List Effect → ℕ
count k [] = 0
count k (e ∷ es) = hits k e + count k es

pub record IsOrderly (es : List Effect) : Type 0 where
  pub idle_open : count ups_idle es ≤ count downs_idle es
  pub idle_permitted : count downs_idle es ≤ count ups_idle es + count idle_drops es
  pub active_open : count ups_active es ≤ count downs_active es
  pub active_permitted :
      count downs_active es + count idle_drops es ≤ count ups_active es + count max_drops es

-- Orderly now and after every further effect.
abbrev pub StaysOrderly : List Effect → Type 0
StaysOrderly [] = IsOrderly []
StaysOrderly (e ∷ es) = IsOrderly (e ∷ es) × StaysOrderly es

count-posts :
    (k : Kind) (l : List String) (es : List Effect) → count k (map post l ++ es) ≡ count k es
count-posts k [] es = refl
count-posts k (s ∷ l) es = ground (arith, count-posts k l es)

pub StaysOrderly-head : (es : List Effect) → StaysOrderly es → IsOrderly es
StaysOrderly-head [] s = s
StaysOrderly-head (e ∷ es) s = s.0

StaysOrderly-posts :
    (l : List String) (es : List Effect) → StaysOrderly es → StaysOrderly (map post l ++ es)
StaysOrderly-posts [] es s = s
StaysOrderly-posts (t ∷ l) es s =
    let rest = StaysOrderly-posts l es s in
    let h = StaysOrderly-head (map post l ++ es) rest in (omega (arith, h), rest)

-- What is left of a connection once its idle permit is gone.
record IsServing (es : List Effect) : Type 0 where
  orderly : StaysOrderly es
  no_ups_idle : count ups_idle es ≡ 0
  no_downs_idle : count downs_idle es ≡ 0
  no_idle_drops : count idle_drops es ≡ 0
  active_balance : count ups_active es ≡ count downs_active es
  one_active : count downs_active es ≤ 1
  one_max_drop : count max_drops es ≡ 1

IsServing-posts : (l : List String) (es : List Effect) → IsServing es → IsServing (map post l ++ es)
IsServing-posts l es v = record {
  orderly = StaysOrderly-posts l es v.orderly;
  no_ups_idle = count-posts ups_idle l es ∙ v.no_ups_idle;
  no_downs_idle = count-posts downs_idle l es ∙ v.no_downs_idle;
  no_idle_drops = count-posts idle_drops l es ∙ v.no_idle_drops;
  active_balance =
      omega (arith, count-posts ups_active l es, count-posts downs_active l es, v.active_balance);
  one_active = omega (arith, count-posts downs_active l es, v.one_active);
  one_max_drop = count-posts max_drops l es ∙ v.one_max_drop;
}

abbrev done : List Effect
done = drop_max_permit ∷ []

proxy-IsServing :
    (n : Session) (p : Proxied)
    → n.proxied ≡ p
    → IsServing ((add_active ∷ (proxy_data n ++ remove_active ∷ [])) ++ done)
unfolding proxy_data jittersleep1p5
proxy-IsServing n stopped e = rw e (omega arith)
proxy-IsServing n (finished r) e = rw e (omega arith)

result-IsServing :
    (n : Session) (r : Result ConnectionError SocketAddr)
    → IsServing (
        elim r [
          | err e ↦ jittersleep1p5 n min_ebbflow_error_delay ∷ []
          | ok addr ↦ add_active ∷ (proxy_data n ++ remove_active ∷ [])
        ]
        ++ done)
unfolding jittersleep1p5
result-IsServing n (err e) = omega arith
result-IsServing n (ok addr) = proxy-IsServing n n.proxied refl

serve_local-IsServing : (n : Session) (o : LocalOutcome) → IsServing (serve_local n o ++ done)
unfolding serve_local
serve_local-IsServing n o =
    subst IsServing (sym (append_assoc (map post o.posted) _ done))
      (IsServing-posts o.posted _ (result-IsServing n o.result))

-- A connection about to start: one of each, whatever happens to it.
pub record IsTask (es : List Effect) : Type 0 where
  pub orderly : StaysOrderly es
  pub idle_balance : count ups_idle es ≡ count downs_idle es
  pub one_idle_drop : count idle_drops es ≡ 1
  pub active_balance : count ups_active es ≡ count downs_active es
  pub one_max_drop : count max_drops es ≡ 1

permitted-IsTask :
    (es : List Effect)
    → IsServing (es ++ done)
    → IsTask ((add_idle ∷ remove_idle ∷ drop_idle_permit ∷ es) ++ done)
permitted-IsTask es v = record {
  orderly = (omega (arith, v), (omega (arith, v), (omega (arith, v), v.orderly)));
  idle_balance = omega (arith, v.no_ups_idle, v.no_downs_idle);
  one_idle_drop = omega (arith, v.no_idle_drops);
  active_balance = omega (arith, v.active_balance);
  one_max_drop = omega (arith, v.one_max_drop);
}

failure-IsTask :
    (n : Session) (args : EndpointConnectionArgs) (e : ConnectionError)
    → IsTask ((add_idle ∷ remove_idle ∷ report_failure n args e) ++ done)
unfolding report_failure jittersleep1p5
failure-IsTask n args e = elim (Bool-cases (is_refusal e)) [
  | inl refused ↦ rw refused (omega arith)
  | inr failed ↦ rw failed (omega arith)
]

established-IsTask :
    (cbor : Cbor) (args : EndpointConnectionArgs) (n : Session)
    (r : Result ConnectionError TlsStream)
    → IsTask ((add_idle ∷ remove_idle ∷ after_idle cbor args n r) ++ done)
unfolding after_idle
established-IsTask cbor args n (err e) = failure-IsTask n args e
established-IsTask cbor args n (ok s) = permitted-IsTask _ (
    serve_local-IsServing n
      (connect_local_with_ebbflow_communication cbor n.debug args n.attempt n.written s))

-- Whatever the network, the local service and the stop signal do, a connection raises and lowers
-- each counter equally often, each rise first, drops each of its two permits exactly once, is
-- counted idle only while it holds its idle permit, and active only after that.
pub connection_task-IsTask :
    (cbor : Cbor) (args : EndpointConnectionArgs) (n : Session)
    → IsTask (connection_task cbor args n)
unfolding connection_task run_connection
connection_task-IsTask cbor args n = elim (Bool-cases n.idle_timeout) [
  | inl late ↦ simp late (omega arith)
  | inr early ↦ simp early (established-IsTask cbor args n (establish cbor args n.dial))
]
