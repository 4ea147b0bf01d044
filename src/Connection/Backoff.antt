-- ===== src/Connection/Backoff.antt =====
-- How long a connection sleeps: the delays after failures, and that none is longer than planned.
use ebbflow.Prelude.{
  ℕ, ◌+◌, ◌*◌, ◌/◌, ◌≤◌, ◌≡◌, refl, false, String, List, [], ◌∷◌, ◌++◌, map, arith, if◌then◌else◌,
  Bool-cases, inl, inr,
}
use ebbflow.Prelude.Result.{Result, ok, err}
use ebbflow.Messaging.{Cbor}
use ebbflow.Daemon.Addrs.{SocketAddr}
use ebbflow.Connection.Stream.{
  ConnectionError, io, timeout, messaging, bad_request, unexpected_message, forbidden, not_found,
  shutdown, multiple, TlsStream,
}
use ebbflow.Connection.Establish.{EndpointConnectionArgs, establish}
use ebbflow.Connection.Local.{LocalOutcome, connect_local_with_ebbflow_communication}
use ebbflow.Connection.Run.{
  Effect, add_idle, remove_idle, drop_idle_permit, add_active, remove_active, drop_max_permit, post,
  sleep, abort_proxy, Session, Proxied, stopped, finished, IsInRange, jittersleep1p5, is_refusal,
  proxy_data, report_failure, serve_local, after_idle, run_connection, connection_task,
  min_ebbflow_error_delay,
}

-- The milliseconds that the effects sleep.
pub slept : List Effect → ℕ
slept [] = 0
slept (sleep ms ∷ es) = ms + slept es
slept (_ ∷ es) = slept es

slept-posts : (l : List String) (es : List Effect) → slept (map post l ++ es) ≡ slept es
unfolding slept
slept-posts [] es = refl
slept-posts (s ∷ l) es = slept-posts l es

slept-done : (es : List Effect) → slept (es ++ drop_max_permit ∷ []) ≡ slept es
unfolding slept
slept-done [] = refl
slept-done (sleep ms ∷ es) = omega (arith, slept-done es)
slept-done (add_idle ∷ es) = slept-done es
slept-done (remove_idle ∷ es) = slept-done es
slept-done (drop_idle_permit ∷ es) = slept-done es
slept-done (add_active ∷ es) = slept-done es
slept-done (remove_active ∷ es) = slept-done es
slept-done (drop_max_permit ∷ es) = slept-done es
slept-done (post s ∷ es) = slept-done es
slept-done (abort_proxy ∷ es) = slept-done es

-- The milliseconds that the effects sleep before the permit of an idle connection is dropped, and
-- before the other permit is.
abbrev pub idle_held : List Effect → ℕ
idle_held [] = 0
idle_held (sleep ms ∷ es) = ms + idle_held es
idle_held (drop_idle_permit ∷ es) = 0
idle_held (_ ∷ es) = idle_held es

abbrev pub max_held : List Effect → ℕ
max_held [] = 0
max_held (sleep ms ∷ es) = ms + max_held es
max_held (drop_max_permit ∷ es) = 0
max_held (_ ∷ es) = max_held es

-- The shortest delay after a connection to Ebbflow failed: a minute when Ebbflow refused it.
abbrev pub delay_after : ConnectionError → ℕ
delay_after forbidden = 60_000
delay_after not_found = 60_000
delay_after bad_request = 60_000
delay_after _ = 5_000

delay_after-is_refusal :
    (e : ConnectionError) → delay_after e ≡ (if is_refusal e then 60_000 else 5_000)
unfolding is_refusal
delay_after-is_refusal forbidden = refl
delay_after-is_refusal not_found = refl
delay_after-is_refusal bad_request = refl
delay_after-is_refusal unexpected_message = refl
delay_after-is_refusal shutdown = refl
delay_after-is_refusal (io s) = refl
delay_after-is_refusal (timeout s) = refl
delay_after-is_refusal (messaging m) = refl
delay_after-is_refusal (multiple s) = refl

module _ (cbor : Cbor) (args : EndpointConnectionArgs) (n : Session)
    (range : IsInRange n.gen_range) where
  failure-slept :
      (e : ConnectionError)
      → (slept (report_failure n args e) ≤ delay_after e * 3 / 2)
        × (delay_after e ≤ idle_held (report_failure n args e ++ drop_max_permit ∷ []))
        × (delay_after e ≤ max_held (report_failure n args e ++ drop_max_permit ∷ []))
  unfolding slept report_failure jittersleep1p5
  failure-slept e =
      let l1 = range.lower 55_000 82_500 (omega arith) in
      let u1 = range.upper 55_000 82_500 (omega arith) in
      let l2 = range.lower 5_000 7_500 (omega arith) in
      let u2 = range.upper 5_000 7_500 (omega arith) in
      let delay = delay_after-is_refusal e in
      elim (Bool-cases (is_refusal e)) [
        | inl refused ↦ rw (delay, refused) (omega (arith, l1, u1, l2, u2))
        | inr failed ↦ rw (delay, failed) (omega (arith, l2, u2))
      ]

  proxy-slept : (p : Proxied) → n.proxied ≡ p → slept (proxy_data n ++ remove_active ∷ []) ≤ 90_000
  unfolding slept proxy_data jittersleep1p5
  proxy-slept stopped e =
      rw (e, proxy_data) (omega (arith, range.upper 60_000 90_000 (omega arith)))
  proxy-slept (finished r) e = rw (e, proxy_data) (omega arith)

  served-slept :
      (r : Result ConnectionError SocketAddr)
      → slept (elim r [
        | err e ↦ jittersleep1p5 n min_ebbflow_error_delay ∷ []
        | ok addr ↦ add_active ∷ (proxy_data n ++ remove_active ∷ [])
      ])
        ≤ 90_000
  unfolding slept jittersleep1p5
  served-slept (err e) = omega (arith, range.upper 5_000 7_500 (omega arith))
  served-slept (ok addr) = proxy-slept n.proxied refl

  serve_local-slept : (o : LocalOutcome) → slept (serve_local n o) ≤ 90_000
  unfolding serve_local
  serve_local-slept o = omega (arith, slept-posts o.posted _, served-slept o.result)

  after_idle-slept :
      (r : Result ConnectionError TlsStream) → slept (after_idle cbor args n r) ≤ 90_000
  unfolding after_idle slept
  after_idle-slept (err e) = ground (arith, failure-slept e, delay_after-is_refusal e)
  after_idle-slept (ok s) =
      serve_local-slept
        (connect_local_with_ebbflow_communication cbor n.debug args n.attempt n.written s)

  -- With a generator that stays in its range, a connection's task sleeps at most 90 seconds in all,
  -- whatever happens.
  connection_task-slept : slept (connection_task cbor args n) ≤ 90_000
  unfolding connection_task run_connection slept
  connection_task-slept = elim (Bool-cases n.idle_timeout) [
    | inl late ↦ simp late (omega arith)
    | inr early ↦ simp early (
        omega (
          arith,
          slept-done (after_idle cbor args n (establish cbor args n.dial)),
          after_idle-slept (establish cbor args n.dial),
        ))
  ]

  -- With a generator that stays in its range, a connection that failed before traffic came, and was
  -- not idle for too long, sleeps at least 5 seconds before it drops its idle permit, and before it
  -- drops the other, and at least a minute if Ebbflow answered that the endpoint is forbidden, not
  -- found or badly requested; all its delays are at most one and a half times that.
  pub connection_task-backs_off :
      (e : ConnectionError)
      → n.idle_timeout ≡ false
      → establish cbor args n.dial ≡ err e
      → (slept (connection_task cbor args n) ≤ delay_after e * 3 / 2)
        × (delay_after e ≤ idle_held (connection_task cbor args n))
        × (delay_after e ≤ max_held (connection_task cbor args n))
  unfolding connection_task run_connection slept after_idle
  connection_task-backs_off e early failed =
      simp (early, failed) (omega (arith, slept-done (report_failure n args e), failure-slept e))
