-- ===== src/Connection/Proxy/Ends.antt =====
-- How long the proxy can go on, and that it can always deliver what the local service sends.
use ebbflow.Prelude.{
  ℕ, suc, ◌+◌, ◌*◌, ◌≤◌, ◌<◌, ◌≡◌, refl, subst, arith, List, [], ◌∷◌, Option, none, some, length,
  Bool-cases, inl, inr,
}
use ebbflow.Prelude.Bytes.{Bytes}
use ebbflow.Connection.Stream.{TlsStream}
use ebbflow.Connection.Copy.Measure
use ebbflow.Connection.Copy.Measure.{IsLess, copy_step-IsLess}
use ebbflow.Connection.Proxy.Every.{Every, Follows, proxy_step-Every}
use ebbflow.Connection.Proxy.{
  Stage, racing, spawned, over, Proxy, ProxyEvent, start, either_ended, settle, settled, proxy_step,
  run_on, run_proxy,
}

abbrev stage_weight : Stage → ℕ
stage_weight racing = 2
stage_weight spawned = 1
stage_weight (over r) = 0

abbrev measure : Proxy → ℕ
measure p = Measure.measure p.to_ebbflow + Measure.measure p.to_local + stage_weight p.stage

settle-le : (stage : Stage) (p : Proxy) → p.stage ≡ stage → measure (settle stage p) ≤ measure p
unfolding settle
settle-le racing p e = elim (Bool-cases (either_ended p)) [
  | inl off ↦ rw off (omega arith)
  | inr on ↦ rw on (omega arith)
]
settle-le spawned p e = omega arith
settle-le (over r) p e = omega arith

Follows-lt : (p : Proxy) → Follows (λ e q. measure q < measure p) p
unfolding settled
Follows-lt p = record {
  stops = λ at. rw at (omega arith);
  cuts_off = λ at. rw at (omega arith);
  sends = λ e c on ran. omega (
    arith,
    settle-le p.stage (record p { to_ebbflow = c }) refl,
    subst (IsLess (Measure.measure p.to_ebbflow)) ran (copy_step-IsLess e p.to_ebbflow),
  );
  receives = λ e c on ran. omega (
    arith,
    settle-le p.stage (record p { to_local = c }) refl,
    subst (IsLess (Measure.measure p.to_local)) ran (copy_step-IsLess e p.to_local),
  );
}

run_on-length :
    (es : List ProxyEvent) (o : Option Proxy) (bound : ℕ) (q : Proxy)
    → Every (λ p. measure p < bound) o
    → run_on es o ≡ some q
    → length es + measure q < bound
unfolding run_on proxy_step
run_on-length es none bound q l ran = cc
run_on-length [] (some p) bound q l ran =
    let same : p ≡ q = cc ran in
    let last : measure q < bound = subst (λ t. measure t < bound) same l in omega (arith, last)
run_on-length (e ∷ es) (some p) bound q l ran = omega (
  arith,
  run_on-length es (proxy_step e p) (measure p) q
      (proxy_step-Every (λ e q. measure q < measure p) p (Follows-lt p) e) ran,
)

-- No run of the proxy has more than three events for each byte that the two sides send, and four
-- more.
pub run_proxy-ends :
    (s : TlsStream) (local : Bytes) (es : List ProxyEvent) (p : Proxy)
    → run_proxy es (start s local) ≡ some p
    → length es ≤ 3 * (length local + length s.incoming) + 4
unfolding run_proxy start
run_proxy-ends s local es p ran = omega (
  arith,
  run_on-length es (some (start s local)) (suc (measure (start s local))) p (omega arith) ran,
)
