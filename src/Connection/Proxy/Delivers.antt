-- ===== src/Connection/Proxy/Delivers.antt =====
-- The proxy can always deliver to Ebbflow everything that the local service sends.
use ebbflow.Prelude.{
  ℕ, zero, suc, ◌<◌, ◌≡◌, refl, ap, ◌∙◌, arith, true, false, List, [], ◌∷◌, ◌++◌, some, inl, inr,
  Bool-cases,
}
use ebbflow.Prelude.Result.{ok, err}
use ebbflow.Prelude.Bytes.{Bytes}
use ebbflow.Connection.Stream.{TlsStream}
use ebbflow.Connection.Copy.{
  Copy, Phase, reading, writing, flushing, ended, CopyEvent, copy_step, has_ended,
}
use ebbflow.Connection.Copy.Measure.{measure}
use ebbflow.Connection.Copy.Progress.{IsFine, next_event, copy_step-goes_on}
use ebbflow.Connection.Run.{finished}
use ebbflow.Connection.Proxy.Carried.{Carries-ended, run_proxy-IsCarried}
use ebbflow.Connection.Proxy.{
  racing, over, Proxy, ProxyEvent, local2ebb, start, either_ended, settle, settled, with_to_ebbflow,
  carry, proxy_at, proxy_step, run_on, run_proxy,
}

-- A run that ends the proxy by the end of the local service's stream.
record Delivers (p : Proxy) : Type 0 where
  events : List ProxyEvent
  last : Proxy
  ran : run_proxy events p ≡ some last
  ends : last.to_ebbflow.phase ≡ ended (ok tt)
  finishes : last.stage ≡ over (finished (ok tt))

fine_end :
    (phase : Phase) (c : Copy)
    → c.phase ≡ phase
    → IsFine phase
    → has_ended c ≡ true
    → phase ≡ ended (ok tt)
unfolding has_ended
fine_end reading c e f h = cc (rw e at h)
fine_end (writing b) c e f h = cc (rw e at h)
fine_end flushing c e f h = cc (rw e at h)
fine_end (ended (ok u)) c e f h = refl
fine_end (ended (err x)) c e f h = elim f [ ]

racing_step :
    (p : Proxy) (e : CopyEvent) (c : Copy)
    → p.stage ≡ racing
    → copy_step e p.to_ebbflow ≡ some c
    → proxy_step (local2ebb e) p ≡ some (settled (record p { to_ebbflow = c }))
unfolding proxy_step proxy_at carry with_to_ebbflow
racing_step p e c st step =
    ap (λ stage. proxy_at stage (local2ebb e) p) st ∙ ap (with_to_ebbflow p) step

settled_on : (p : Proxy) → p.stage ≡ racing → either_ended p ≡ false → settled p ≡ p
unfolding settled settle
settled_on p st on = ap (λ stage. settle stage p) st ∙ rw on refl

settled_off :
    (p : Proxy)
    → p.stage ≡ racing
    → either_ended p ≡ true
    → settled p ≡ record p { stage = over (finished (ok tt)) }
unfolding settled settle
settled_off p st off = ap (λ stage. settle stage p) st ∙ rw off refl

Delivers-cons : (e : ProxyEvent) (p q : Proxy) → proxy_step e p ≡ some q → Delivers q → Delivers p
unfolding run_proxy run_on
Delivers-cons e p q step d = record {
  events = e ∷ d.events;
  last = d.last;
  ran = ap (run_on d.events) step ∙ d.ran;
  ends = d.ends;
  finishes = d.finishes;
}

-- With fuel above the measure of the direction to Ebbflow.
deliver :
    (n : ℕ) (p : Proxy)
    → measure p.to_ebbflow < n
    → p.stage ≡ racing
    → either_ended p ≡ false
    → has_ended p.to_local ≡ false
    → IsFine p.to_ebbflow.phase
    → Delivers p
unfolding either_ended run_proxy run_on proxy_step has_ended
deliver zero p small st on open_local f = absurd (omega arith)
deliver (suc n) p small st on open_local f = elim (copy_step-goes_on p.to_ebbflow f) [
  | inl done ↦ cc (rw done at on)
  | inr (c, step, f', less) ↦
      let q : Proxy = record p { to_ebbflow = c } in
      let stepped = racing_step p (next_event p.to_ebbflow.phase p.to_ebbflow.incoming) c st step in
      elim (Bool-cases (has_ended c)) [
        | inl off ↦ record {
          events = local2ebb (next_event p.to_ebbflow.phase p.to_ebbflow.incoming) ∷ [];
          last = record q { stage = over (finished (ok tt)) };
          ran = ap (run_on []) (stepped ∙ ap some (settled_off q st (rw off refl)));
          ends = fine_end c.phase c refl f' off;
          finishes = refl;
        }
        | inr goes ↦
            Delivers-cons (local2ebb (next_event p.to_ebbflow.phase p.to_ebbflow.incoming)) p q
              (stepped ∙ ap some (settled_on q st (rw (goes, open_local) refl)))
              (deliver n q (omega arith) st (rw (goes, open_local) refl) open_local f')
      ]
]

-- Whatever the local service sends before it ends its stream, there is a run of the proxy that
-- writes all of it to Ebbflow, after what had been sent before, and then ends without an error.
pub start-delivers :
    (s : TlsStream) (local : Bytes)
    → (es : List ProxyEvent) × (p : Proxy) × (run_proxy es (start s local) ≡ some p)
      × (p.to_ebbflow.written ≡ s.sent ++ local)
      × (p.stage ≡ over (finished (ok tt)))
unfolding start either_ended has_ended
start-delivers s local =
    let d =
      deliver (suc (measure (start s local).to_ebbflow)) (start s local) (omega arith) refl refl
        refl tt in
    (
      d.events,
      d.last,
      d.ran,
      Carries-ended (s.sent ++ local) d.last.to_ebbflow d.ends
          (run_proxy-IsCarried s local d.events d.last d.ran).to_ebbflow,
      d.finishes,
    )
