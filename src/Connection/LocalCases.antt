-- ===== src/Connection/LocalCases.antt =====
-- Which address `connect_local` settles on, and what Ebbflow is told about it.
use Prim.Native.String.{◌++◌ as str_append}
use mathlib.Core.List.{append_assoc, append-nil}
use ebbflow.Prelude.{
  String, map, ◌≡◌, refl, sym, ap, ◌∙◌, ◌++◌, Bool, true, false, List, [], ◌∷◌, Option, none, some,
}
use ebbflow.Prelude.Result.{Result, ok, err}
use ebbflow.Prelude.Bytes.{Bytes}
use ebbflow.Messaging.{Cbor}
use ebbflow.Daemon.Addrs.{SocketAddr}
use ebbflow.Connection.Stream.{
  ConnectionError, io, timeout, multiple, Timed, in_time, elapsed, TlsStream, write_all,
}
use ebbflow.Connection.Establish.{EndpointConnectionArgs}
use ebbflow.Connection.Local.{
  Attempt, join, failures_text, configured, connect_from, connect_local, starttrafficresponse,
  answer, connect_local_with_ebbflow_communication,
}

-- Why an address does not accept, if it does not.
unfoldable pub refusal_of : Timed (Result String (Unit {0})) → Option ConnectionError
refusal_of (in_time (ok u)) = none
refusal_of (in_time (err e)) = some (io e)
refusal_of elapsed = some (timeout "connecting to local host")

module _ (debug : ConnectionError → String) (attempt : SocketAddr → Attempt) where
  -- The first address that accepts, and each refusal with its address.
  unfoldable pub first_accepting : List SocketAddr → Option SocketAddr
  first_accepting [] = none
  first_accepting (a ∷ rest) = elim (refusal_of (attempt a).tcp) [
    | none ↦ some a
    | some e ↦ first_accepting rest
  ]

  unfoldable pub refusals : List SocketAddr → List (SocketAddr × ConnectionError)
  refusals [] = []
  refusals (a ∷ rest) = elim (refusal_of (attempt a).tcp) [
    | none ↦ refusals rest
    | some e ↦ (a, e) ∷ refusals rest
  ]

  -- Each refused address with its refusal, with commas between them.
  abbrev pub listed : List (SocketAddr × ConnectionError) → String
  listed [] = ""
  listed ((a, e) ∷ []) = str_append a.text (str_append " - " (debug e))
  listed ((a, e) ∷ r ∷ rest) =
      str_append (str_append a.text (str_append " - " (debug e)))
        (str_append ", " (listed (r ∷ rest)))

  -- The outcome on an address that accepts: an error of its keepalive, of its nodelay, or the address.
  abbrev pub chosen :
      SocketAddr
      → Result String (Unit {0})
      → Result String (Unit {0})
      → Result ConnectionError SocketAddr
  chosen a (err e) nodelay = err (io e)
  chosen a (ok u) (err e) = err (io e)
  chosen a (ok u) (ok v) = ok a

  abbrev pub settle : List SocketAddr → Option SocketAddr → Result ConnectionError SocketAddr
  settle addrs (some a) = chosen a (attempt a).keepalive (attempt a).nodelay
  settle addrs none = err (multiple (str_append "multiple " (listed (refusals addrs))))

  configured-chosen :
      (a : SocketAddr) (b : Attempt) (k n : Result String (Unit {0}))
      → b.keepalive ≡ k
      → b.nodelay ≡ n
      → configured b a ≡ chosen a k n
  unfolding configured
  configured-chosen a b (err e) n hk hn = rw (hk, configured) refl
  configured-chosen a b (ok u) (err e) hk hn = rw (hk, configured) (rw (hn, configured) refl)
  configured-chosen a b (ok u) (ok v) hk hn = rw (hk, configured) (rw (hn, configured) refl)

  failures_text-listed :
      (l : List (SocketAddr × ConnectionError))
      → failures_text debug l ≡ str_append "multiple " (listed l)
  unfolding failures_text join
  failures_text-listed l = ap (str_append "multiple ") (joined l)
    where
      joined :
          (l : List (SocketAddr × ConnectionError))
          → join ", " (
              map
                (λ (p : SocketAddr × ConnectionError).
                  str_append p.0.text (str_append " - " (debug p.1)))
                l)
            ≡ listed l
      joined [] = refl
      joined (p ∷ []) = refl
      joined ((a, e) ∷ q ∷ rest) =
          ap (λ t. str_append (str_append a.text (str_append " - " (debug e))) (str_append ", " t))
            (joined (q ∷ rest))

  abbrev outcome :
      List (SocketAddr × ConnectionError)
      → List SocketAddr
      → Option SocketAddr
      → Result ConnectionError SocketAddr
  outcome errors addrs (some a) = configured (attempt a) a
  outcome errors addrs none = err (multiple (failures_text debug (errors ++ refusals addrs)))

  refusals-cons :
      (a : SocketAddr) (e : ConnectionError) (rest : List SocketAddr)
      → refusal_of (attempt a).tcp ≡ some e
      → refusals (a ∷ rest) ≡ (a, e) ∷ refusals rest
  unfolding refusals
  refusals-cons a e rest h = rw (h, refusals) refl

  outcome-refused :
      (errors : List (SocketAddr × ConnectionError)) (a : SocketAddr) (e : ConnectionError)
      (rest : List SocketAddr) (o : Option SocketAddr)
      → refusal_of (attempt a).tcp ≡ some e
      → outcome (errors ++ (a, e) ∷ []) rest o ≡ outcome errors (a ∷ rest) o
  outcome-refused errors a e rest none h =
      ap (λ l. err (multiple (failures_text debug l)))
        (append_assoc errors ((a, e) ∷ []) (refusals rest)
          ∙ ap (λ l. errors ++ l) (sym (refusals-cons a e rest h)))
  outcome-refused errors a e rest (some b) h = refl

  -- One round of the loop, given the rest of it.
  connect_from-cons :
      (errors : List (SocketAddr × ConnectionError)) (a : SocketAddr) (rest : List SocketAddr)
      (t : Timed (Result String (Unit {0})))
      → (attempt a).tcp ≡ t
      → ((es : List (SocketAddr × ConnectionError))
          → connect_from debug attempt es rest ≡ outcome es rest (first_accepting rest))
      → connect_from debug attempt errors (a ∷ rest)
        ≡ outcome errors (a ∷ rest) (first_accepting (a ∷ rest))
  unfolding connect_from first_accepting refusal_of
  connect_from-cons errors a rest (in_time (ok u)) e ih =
      rw (e, connect_from, first_accepting, refusal_of) refl
  connect_from-cons errors a rest (in_time (err s)) e ih =
      let refused = outcome-refused errors a (io s) rest (first_accepting rest) (ap refusal_of e) in
      rw (e, connect_from, first_accepting) (ih (errors ++ (a, io s) ∷ []) ∙ refused)
  connect_from-cons errors a rest elapsed e ih =
      let late = timeout "connecting to local host" in
      let refused = outcome-refused errors a late rest (first_accepting rest) (ap refusal_of e) in
      rw (e, connect_from, first_accepting) (ih (errors ++ (a, late) ∷ []) ∙ refused)

  connect_from-outcome :
      (addrs : List SocketAddr) (errors : List (SocketAddr × ConnectionError))
      → connect_from debug attempt errors addrs ≡ outcome errors addrs (first_accepting addrs)
  unfolding connect_from first_accepting refusals
  connect_from-outcome [] errors =
      ap (λ l. err (multiple (failures_text debug l))) (sym (append-nil errors))
  connect_from-outcome (a ∷ rest) errors =
      connect_from-cons errors a rest (attempt a).tcp refl (connect_from-outcome rest)

  outcome-settle :
      (addrs : List SocketAddr) (o : Option SocketAddr) → outcome [] addrs o ≡ settle addrs o
  outcome-settle addrs (some a) =
      configured-chosen a (attempt a) (attempt a).keepalive (attempt a).nodelay refl refl
  outcome-settle addrs none = ap (λ t. err (multiple t)) (failures_text-listed (refusals addrs))

  -- The local connection goes to the first address that accepts, unless setting its keepalive or
  -- after that its nodelay fails, which is the error then; when none accepts, the error is the text
  -- that lists every address with its own refusal, in order.
  pub connect_local-settle :
      (addrs : List SocketAddr)
      → connect_local debug attempt addrs ≡ settle addrs (first_accepting addrs)
  unfolding connect_local
  connect_local-settle addrs =
      connect_from-outcome addrs [] ∙ outcome-settle addrs (first_accepting addrs)

unfoldable pub succeeded : {A : Type 0} → Result ConnectionError A → Bool
succeeded (ok a) = true
succeeded (err e) = false

told :
    (cbor : Cbor) (debug : ConnectionError → String) (args : EndpointConnectionArgs)
    (attempt : SocketAddr → Attempt) (s : TlsStream) (w : Bytes)
    (r : Result ConnectionError SocketAddr)
    → connect_local debug attempt args.addrs ≡ r
    → starttrafficresponse cbor (succeeded r) ≡ ok w
    → let o = connect_local_with_ebbflow_communication cbor debug args attempt (ok tt) s in
      (o.stream.sent ≡ s.sent ++ w) × (o.stream.incoming ≡ s.incoming) × (o.result ≡ r)
unfolding connect_local_with_ebbflow_communication write_all succeeded
told cbor debug args attempt s w (ok a) e h =
    rw (e, connect_local_with_ebbflow_communication) (rw (h, answer) (refl, refl, refl))
told cbor debug args attempt s w (err x) e h =
    rw (e, connect_local_with_ebbflow_communication) (rw (h, answer) (refl, refl, refl))

-- If the answer can be encoded and is written, Ebbflow was sent a response that says whether a
-- local connection stands, after whatever was sent before, and the outcome is that of the local
-- connection.
pub connect_local-answered :
    (cbor : Cbor) (debug : ConnectionError → String) (args : EndpointConnectionArgs)
    (attempt : SocketAddr → Attempt) (s : TlsStream) (w : Bytes)
    → let r = connect_local debug attempt args.addrs in
      starttrafficresponse cbor (succeeded r) ≡ ok w
      → let o = connect_local_with_ebbflow_communication cbor debug args attempt (ok tt) s in
        (o.stream.sent ≡ s.sent ++ w)
        × (o.stream.incoming ≡ s.incoming)
        × (o.result ≡ connect_local debug attempt args.addrs)
connect_local-answered cbor debug args attempt s w h =
    told cbor debug args attempt s w (connect_local debug attempt args.addrs) refl h
