-- ===== src/Connection/Proxy/Every.antt =====
-- One step of the proxy by its cases, for a property of the state that follows.
use ebbflow.Prelude.{◌≡◌, refl, Bool, true, false, Option, none, some, ◌⊎◌, inl, inr, if◌then◌else◌}
use ebbflow.Connection.Copy.{Copy, CopyEvent, copy_step}
use ebbflow.Connection.Run.{stopped}
use ebbflow.Connection.Proxy.{
  Stage, racing, spawned, over, Proxy, ProxyEvent, local2ebb, ebb2local, stop, delay_over, settled,
  either_ended, with_to_ebbflow, with_to_local, carry, proxy_at, proxy_step,
}

-- The property of the state, if there is one.
abbrev pub Every : (Proxy → Type 0) → Option Proxy → Type 0
Every P none = Unit
Every P (some p) = P p

-- The data flows.
abbrev pub IsOn : Stage → Type 0
IsOn stage = (stage ≡ racing) ⊎ (stage ≡ spawned)

-- What has to be shown of each event from a state.
pub record Follows (P : ProxyEvent → Proxy → Type 0) (p : Proxy) : Type 0 where
  pub stops : p.stage ≡ racing → P stop (record p { stage = spawned })
  pub cuts_off : p.stage ≡ spawned → P delay_over (record p { stage = over stopped })
  pub sends :
      (e : CopyEvent) (c : Copy)
      → IsOn p.stage
      → copy_step e p.to_ebbflow ≡ some c
      → P (local2ebb e) (settled (record p { to_ebbflow = c }))
  pub receives :
      (e : CopyEvent) (c : Copy)
      → IsOn p.stage
      → copy_step e p.to_local ≡ some c
      → P (ebb2local e) (settled (record p { to_local = c }))

unless-Every :
    (P : Proxy → Type 0) (b : Bool) (o : Option Proxy) → Every P o → Every P (if b then none else o)
unless-Every P true o h = tt
unless-Every P false o h = h

module _ (P : ProxyEvent → Proxy → Type 0) (p : Proxy) (f : Follows P p) where
  sends-Every :
      (e : CopyEvent) (o : Option Copy)
      → IsOn p.stage
      → copy_step e p.to_ebbflow ≡ o
      → Every (P (local2ebb e)) (with_to_ebbflow p o)
  unfolding with_to_ebbflow
  sends-Every e none on ran = tt
  sends-Every e (some c) on ran = f.sends e c on ran

  receives-Every :
      (e : CopyEvent) (o : Option Copy)
      → IsOn p.stage
      → copy_step e p.to_local ≡ o
      → Every (P (ebb2local e)) (with_to_local p o)
  unfolding with_to_local
  receives-Every e none on ran = tt
  receives-Every e (some c) on ran = f.receives e c on ran

  carry-Every : (e : ProxyEvent) → IsOn p.stage → Every (P e) (carry e p)
  unfolding carry
  carry-Every (local2ebb e) on = sends-Every e _ on refl
  carry-Every (ebb2local e) on = receives-Every e _ on refl
  carry-Every stop on = tt
  carry-Every delay_over on = tt

  proxy_at-Every :
      (stage : Stage) (e : ProxyEvent) → p.stage ≡ stage → Every (P e) (proxy_at stage e p)
  unfolding proxy_at carry
  proxy_at-Every racing stop at = f.stops at
  proxy_at-Every racing (local2ebb e) at = carry-Every (local2ebb e) (inl at)
  proxy_at-Every racing (ebb2local e) at = carry-Every (ebb2local e) (inl at)
  proxy_at-Every racing delay_over at = tt
  proxy_at-Every spawned delay_over at = f.cuts_off at
  proxy_at-Every spawned (local2ebb e) at =
      unless-Every (P (local2ebb e)) (either_ended p) _ (carry-Every (local2ebb e) (inr at))
  proxy_at-Every spawned (ebb2local e) at =
      unless-Every (P (ebb2local e)) (either_ended p) _ (carry-Every (ebb2local e) (inr at))
  proxy_at-Every spawned stop at = unless-Every (P stop) (either_ended p) none tt
  proxy_at-Every (over r) e at = tt

  -- Whatever the event, its case has been shown.
  pub proxy_step-Every : (e : ProxyEvent) → Every (P e) (proxy_step e p)
  unfolding proxy_step
  proxy_step-Every e = proxy_at-Every p.stage e refl
