-- ===== src/Connection/Proxy/Told.antt =====
-- Which events end the proxied data: the stop signal, or a direction that ended before it.
use mathlib.Core.Bool.{or_assoc, or-false}
use ebbflow.Prelude.{
  ◌≡◌, refl, sym, subst, Bool, true, false, ◌||◌, List, [], ◌∷◌, Option, none, some, inl, inr,
  Bool-cases,
}
use ebbflow.Prelude.Bytes.{Bytes}
use ebbflow.Connection.Stream.{TlsStream}
use ebbflow.Connection.Run.{Proxied, stopped, finished}
use ebbflow.Connection.Proxy.{
  Stage, racing, spawned, over, Proxy, ProxyEvent, stop, start, either_ended, settle, settled,
  proxy_step, run_on, run_proxy,
}
use ebbflow.Connection.Proxy.Every.{Every, Follows, proxy_step-Every}

abbrev is_stop : ProxyEvent → Bool
is_stop stop = true
is_stop _ = false

abbrev pub was_stopped : List ProxyEvent → Bool
was_stopped [] = false
was_stopped (e ∷ es) = is_stop e || was_stopped es

-- Whether the stop signal came, as the stage shows it.
abbrev pub IsTold : Stage → Bool → Type 0
IsTold racing told = told ≡ false
IsTold spawned told = told ≡ true
IsTold (over stopped) told = told ≡ true
IsTold (over (finished r)) told = told ≡ false

settle-IsTold :
    (stage : Stage) (p : Proxy) (told : Bool)
    → p.stage ≡ stage
    → IsTold stage told
    → IsTold (settle stage p).stage told
unfolding settle
settle-IsTold racing p told at h = elim (Bool-cases (either_ended p)) [
  | inl e ↦ rw e h
  | inr e ↦ rw (e, at) h
]
settle-IsTold spawned p told at h = rw at h
settle-IsTold (over r) p told at h = subst (λ st. IsTold st told) (sym at) h

-- What a step makes of it.
abbrev AfterStep : Bool → ProxyEvent → Proxy → Type 0
AfterStep told e q = IsTold q.stage (told || is_stop e)

on-IsTold : (p : Proxy) (told : Bool) → IsTold p.stage told → IsTold p.stage (told || false)
on-IsTold p told h = rw or-false h

Follows-told : (p : Proxy) (told : Bool) → IsTold p.stage told → Follows (AfterStep told) p
unfolding settled
Follows-told p told h = record {
  stops = λ at. rw (rw at at h) refl;
  cuts_off = λ at. rw (rw at at h) refl;
  sends = λ e c on ran. settle-IsTold p.stage _ (told || false) refl (on-IsTold p told h);
  receives = λ e c on ran. settle-IsTold p.stage _ (told || false) refl (on-IsTold p told h);
}

run_on-Told :
    (es : List ProxyEvent) (o : Option Proxy) (told : Bool)
    → Every (λ p. IsTold p.stage told) o
    → Every (λ p. IsTold p.stage (told || was_stopped es)) (run_on es o)
unfolding run_on proxy_step
run_on-Told es none told h = tt
run_on-Told [] (some p) told h = rw or-false h
run_on-Told (e ∷ es) (some p) told h =
    subst (λ b. Every (λ q. IsTold q.stage b) (run_on es (proxy_step e p)))
      (or_assoc told (is_stop e) (was_stopped es))
      (run_on-Told es (proxy_step e p) (told || is_stop e)
        (proxy_step-Every (AfterStep told) p (Follows-told p told h) e))

-- The proxied data is over by the stop signal exactly if it came.
pub run_proxy-was_stopped :
    (s : TlsStream) (local : Bytes) (es : List ProxyEvent) (p : Proxy) (ending : Proxied)
    → run_proxy es (start s local) ≡ some p
    → p.stage ≡ over ending
    → IsTold (over ending) (was_stopped es)
unfolding run_proxy start
run_proxy-was_stopped s local es p ending ran e =
    subst (λ st. IsTold st (was_stopped es)) e
      (subst (Every (λ q. IsTold q.stage (was_stopped es))) ran
        (run_on-Told es (some (start s local)) false refl))
