-- ===== src/Connection/Proxy/Carried.antt =====
-- What the proxy carried, in every interleaving of its two directions with the stop signal.
use mathlib.Core.List.{append-nil}
use ebbflow.Prelude.{
  ◌≤◌, ◌≡◌, refl, subst, arith, Bool, true, false, List, [], ◌∷◌, ◌++◌, Option, none, some, length,
  Bool-cases, inl, inr, ◌⊎◌,
}
use ebbflow.Prelude.Result.{Result, ok, err}
use ebbflow.Prelude.Bytes.{Bytes}
use ebbflow.Connection.Stream.{ConnectionError, TlsStream}
use ebbflow.Connection.Copy.{Copy, Phase, reading, writing, flushing, ended, has_ended, buffer_size}
use ebbflow.Connection.Copy.Carried.{Carries, Kept, IsHeld, copy_step-Kept}
use ebbflow.Connection.Run.{stopped, finished}
use ebbflow.Connection.Proxy.Every.{Every, IsOn, Follows, proxy_step-Every}
use ebbflow.Connection.Proxy.{
  Stage, racing, spawned, over, Proxy, ProxyEvent, start, either_ended, settle, settled, proxy_step,
  run_on, run_proxy,
}

-- While the race is on, neither direction has ended; when it finished by itself, one has.
abbrev pub IsSettled : Stage → Bool → Type 0
IsSettled racing done = done ≡ false
IsSettled spawned done = Unit
IsSettled (over stopped) done = Unit
IsSettled (over (finished r)) done = (r ≡ ok tt) × (done ≡ true)

pub record IsCarried (outgoing incoming : Bytes) (p : Proxy) : Type 0 where
  pub to_ebbflow : Carries outgoing p.to_ebbflow
  pub to_local : Carries incoming p.to_local
  pub settled : IsSettled p.stage (either_ended p)

-- While the data flows nothing is over.
on-IsSettled : (stage : Stage) → IsOn stage → IsSettled stage false
on-IsSettled racing on = refl
on-IsSettled spawned on = tt
on-IsSettled (over r) on = elim on [ inl e ↦ cc e | inr e ↦ cc e ]

module _ (outgoing incoming : Bytes) where
  settle-IsCarried :
      (stage : Stage) (p : Proxy)
      → p.stage ≡ stage
      → IsSettled stage false
      → Carries outgoing p.to_ebbflow
      → Carries incoming p.to_local
      → IsCarried outgoing incoming (settle stage p)
  unfolding settle
  settle-IsCarried racing p e i out inc = elim (Bool-cases (either_ended p)) [
    | inl off ↦ rw off (record { to_ebbflow = out; to_local = inc; settled = (refl, off) })
    | inr on ↦ rw on (record { to_ebbflow = out; to_local = inc; settled = rw e on })
  ]
  settle-IsCarried spawned p e i out inc = record {
    to_ebbflow = out;
    to_local = inc;
    settled = rw e tt;
  }
  settle-IsCarried (over stopped) p e i out inc = record {
    to_ebbflow = out;
    to_local = inc;
    settled = rw e tt;
  }
  settle-IsCarried (over (finished r)) p e i out inc = cc (i.1)

  Follows-IsCarried :
      (p : Proxy) → IsCarried outgoing incoming p → Follows (λ e q. IsCarried outgoing incoming q) p
  unfolding settled
  Follows-IsCarried p h = record {
    stops = λ at. record { to_ebbflow = h.to_ebbflow; to_local = h.to_local; settled = tt };
    cuts_off = λ at. record { to_ebbflow = h.to_ebbflow; to_local = h.to_local; settled = tt };
    sends = λ e c on ran.
        settle-IsCarried p.stage _ refl (on-IsSettled p.stage on)
          (subst (Kept outgoing) ran (copy_step-Kept outgoing e p.to_ebbflow h.to_ebbflow))
          h.to_local;
    receives = λ e c on ran.
        settle-IsCarried p.stage _ refl (on-IsSettled p.stage on) h.to_ebbflow
          (subst (Kept incoming) ran (copy_step-Kept incoming e p.to_local h.to_local));
  }

  run_on-IsCarried :
      (es : List ProxyEvent) (o : Option Proxy)
      → Every (IsCarried outgoing incoming) o
      → Every (IsCarried outgoing incoming) (run_on es o)
  unfolding run_on
  run_on-IsCarried es none h = tt
  run_on-IsCarried [] (some p) h = h
  run_on-IsCarried (e ∷ es) (some p) h =
      run_on-IsCarried es (proxy_step e p)
        (proxy_step-Every (λ e q. IsCarried outgoing incoming q) p (Follows-IsCarried p h) e)

fresh_copy :
    (all : Bytes) (c : Copy) → c.phase ≡ reading → c.written ++ c.incoming ≡ all → Carries all c
fresh_copy all c e whole = record {
  held = [];
  whole = whole;
  small = omega arith;
  accurate = rw e refl;
}

pub run_proxy-IsCarried :
    (s : TlsStream) (local : Bytes) (es : List ProxyEvent) (p : Proxy)
    → run_proxy es (start s local) ≡ some p
    → IsCarried (s.sent ++ local) s.incoming p
unfolding run_proxy start either_ended has_ended
run_proxy-IsCarried s local es p ran = subst (Every (IsCarried (s.sent ++ local) s.incoming)) ran (
    run_on-IsCarried (s.sent ++ local) s.incoming es (some (start s local)) (record {
      to_ebbflow = fresh_copy _ _ refl refl;
      to_local = fresh_copy _ _ refl refl;
      settled = refl;
    }))

-- Whatever the order of the events of both directions, the stop signal and the end of the delay:
-- what was written to Ebbflow, then at most a buffer of bytes, then what was not yet read from the
-- local service, is what had been sent before and what the local service sends; and what was
-- written to the local service, with a buffer and the unread rest, is what Ebbflow sends.
pub run_proxy-carries :
    (s : TlsStream) (local : Bytes) (es : List ProxyEvent) (p : Proxy)
    → run_proxy es (start s local) ≡ some p
    → ((held : Bytes) × (p.to_ebbflow.written ++ (held ++ p.to_ebbflow.incoming) ≡ s.sent ++ local)
        × (length held ≤ buffer_size))
      × ((held : Bytes) × (p.to_local.written ++ (held ++ p.to_local.incoming) ≡ s.incoming)
          × (length held ≤ buffer_size))
run_proxy-carries s local es p ran =
    let h = run_proxy-IsCarried s local es p ran in
    (
      (h.to_ebbflow.held, h.to_ebbflow.whole, h.to_ebbflow.small),
      (h.to_local.held, h.to_local.whole, h.to_local.small),
    )

-- A direction that ended at the end of its stream wrote everything.
pub Carries-ended :
    (all : Bytes) (c : Copy) → c.phase ≡ ended (ok tt) → Carries all c → c.written ≡ all
Carries-ended all c e h =
    let a = subst (λ k. IsHeld k h.held c.incoming) e h.accurate in
    simp (a.0, a.1, append-nil) at h.whole

ended-cases :
    (all : Bytes) (c : Copy) (phase : Phase)
    → c.phase ≡ phase
    → Carries all c
    → (has_ended c ≡ false)
      ⊎ (c.written ≡ all)
      ⊎ ((e : ConnectionError) × (c.phase ≡ ended (err e)))
unfolding has_ended
ended-cases all c reading e h = inl (rw e refl)
ended-cases all c (writing b) e h = inl (rw e refl)
ended-cases all c flushing e h = inl (rw e refl)
ended-cases all c (ended (ok u)) e h = inr (inl (Carries-ended all c e h))
ended-cases all c (ended (err x)) e h = inr (inr (x, e))

-- When the proxied data ended before the stop signal, the result is not an error, and one of the
-- directions wrote everything or failed on an error, whatever the other had left.
pub run_proxy-finished :
    (s : TlsStream) (local : Bytes) (es : List ProxyEvent) (p : Proxy)
    (r : Result ConnectionError (Unit {0}))
    → run_proxy es (start s local) ≡ some p
    → p.stage ≡ over (finished r)
    → (r ≡ ok tt)
      × ((p.to_ebbflow.written ≡ s.sent ++ local)
          ⊎ ((e : ConnectionError) × (p.to_ebbflow.phase ≡ ended (err e)))
          ⊎ (p.to_local.written ≡ s.incoming)
          ⊎ ((e : ConnectionError) × (p.to_local.phase ≡ ended (err e))))
unfolding either_ended
run_proxy-finished s local es p r ran e =
    let h = run_proxy-IsCarried s local es p ran in
    let (good, done) = subst (λ st. IsSettled st (either_ended p)) e h.settled in
    (
      good,
      elim (ended-cases _ p.to_ebbflow p.to_ebbflow.phase refl h.to_ebbflow) [
        | inr (inl all) ↦ inl all
        | inr (inr failed) ↦ inr (inl failed)
        | inl on ↦ elim (ended-cases _ p.to_local p.to_local.phase refl h.to_local) [
          | inr (inl all) ↦ inr (inr (inl all))
          | inr (inr failed) ↦ inr (inr (inr failed))
          | inl on' ↦ cc (rw (on, on') at done)
        ]
      ],
    )
