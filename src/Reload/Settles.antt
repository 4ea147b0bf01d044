-- ===== src/Reload/Settles.antt =====
-- The loop comes to rest: whatever order it and the watcher take, after a bounded number of steps
-- it waits and nothing is on its way, unless somebody touches the files again.
use ebbflow.Prelude.{
  ℕ, suc, ◌+◌, ◌*◌, ◌≤◌, ◌<◌, ◌≡◌, refl, ap, String, Bool, true, false, List, [], ◌∷◌, arith,
  length, if◌then◌else◌, ◌⊎◌, inl, inr, Option,
}
use ebbflow.Prelude.Result.{Result, ok, err}
use ebbflow.Config.{EbbflowDaemonConfig}
use ebbflow.Config.Files.{ConfigError, Yaml, load_from_file, config_or_none}
use ebbflow.Daemon.{Host}
use ebbflow.Reload.{
  Noticed, Phase, loading, loading_key, applying, waiting, Daemon, watched, after_config, after_key,
  advance, Internal, watch, loop,
}

-- The watcher has seen all events, or its closure panics on the next.
abbrev pub IsSeen : List Noticed → Type 0
IsSeen [] = Unit
IsSeen (ok k ∷ rest) = ⊥
IsSeen (err e ∷ rest) = Unit

-- The loop waits, no notification is kept, and the watcher will cause none.
pub record IsAtRest (s : Daemon) : Type 0 where
  pub waits : s.phase ≡ waiting
  pub unnotified : s.notified ≡ false
  pub seen : IsSeen s.events

-- The steps that a phase has before the next wait.
abbrev pub left : Phase → ℕ
left loading = 3
left (loading_key c) = 2
left (applying x) = 1
left waiting = 0

-- A bound of the steps to come: an event may cause a notification, and that a round of the loop.
unfoldable pub measure : Daemon → ℕ
measure s = 5 * length s.events + (if s.notified then 4 else 0) + left s.phase

module _ (yaml : Yaml) (trim : String → String) (debug : ConfigError → String) where
  -- So many steps of the daemon by itself.
  pub data Run (s : Daemon) : ℕ → Daemon → Type 0 where
    start : Run s 0 s
    after : {n : ℕ} {t u : Daemon} → Run s n t → Internal yaml trim debug t u → Run s (suc n) u

  left-after_config :
      (x : Result ConfigError (Option EbbflowDaemonConfig))
      → left (after_config yaml trim debug x) ≤ 2
  unfolding after_config
  left-after_config (ok c) = omega arith
  left-after_config (err e) = omega arith

  left-after_key :
      (c : Option EbbflowDaemonConfig) (x : Result ConfigError (Option String))
      → left (after_key yaml trim debug c x) ≤ 1
  unfolding after_key
  left-after_key c (ok k) = omega arith
  left-after_key c (err e) = omega arith

  advance-falls :
      (host : Host) (s : Daemon) (phase : Phase)
      → (phase ≡ waiting → s.notified ≡ true)
      → measure (advance yaml trim debug host (record s { phase = phase }))
        < measure (record s { phase = phase })
  unfolding advance measure
  advance-falls host s loading h =
      omega (arith, left-after_config (config_or_none (load_from_file yaml s.disk)))
  advance-falls host s (loading_key c) h = omega (arith, left-after_key c _)
  advance-falls host s (applying x) h = omega arith
  advance-falls host s waiting h = ground (arith, h refl)

  Internal-falls : {s t : Daemon} → Internal yaml trim debug s t → measure t < measure s
  unfolding measure watched
  Internal-falls {s} (watch k rest e) = ground (arith, ap length e)
  Internal-falls {s} (loop host h) = unfold measure in advance-falls host s s.phase h

  Run-falls : {s t : Daemon} {n : ℕ} → Run s n t → n + measure t ≤ measure s
  Run-falls start = omega arith
  Run-falls (after r i) = omega (arith, Run-falls r, Internal-falls i)

  -- A daemon that is not at rest can go on.
  go_on :
      (host : Host) (s : Daemon) (phase : Phase) (notified : Bool) (events : List Noticed)
      → s.phase ≡ phase
      → s.notified ≡ notified
      → s.events ≡ events
      → IsAtRest s ⊎ ((t : Daemon) × Internal yaml trim debug s t)
  go_on host s phase notified (ok k ∷ rest) e e' e'' =
      inr (watched k (record s { events = rest }), watch k rest e'')
  go_on host s waiting false [] e e' e'' =
      inl (record { waits = e; unnotified = e'; seen = rw e'' tt })
  go_on host s waiting false (err x ∷ rest) e e' e'' =
      inl (record { waits = e; unnotified = e'; seen = rw e'' tt })
  go_on host s waiting true events e e' e'' =
      inr (advance yaml trim debug host s, loop host (λ w. e'))
  go_on host s loading notified events e e' e'' =
      inr (advance yaml trim debug host s, loop host (λ w. cc (e, w)))
  go_on host s (loading_key c) notified events e e' e'' =
      inr (advance yaml trim debug host s, loop host (λ w. cc (e, w)))
  go_on host s (applying x) notified events e e' e'' =
      inr (advance yaml trim debug host s, loop host (λ w. cc (e, w)))

  -- However the daemon's own steps are ordered, from any state: there are at most five for each
  -- event to be seen, four for a notification kept, and those of the round that the loop is in; and
  -- where no step is left, the loop waits without a notification kept, and the watcher has no event
  -- left to see or has failed.
  pub Run-settles :
      (host : Host) {s t : Daemon} {n : ℕ}
      → Run s n t
      → (n ≤ 5 * length s.events + (if s.notified then 4 else 0) + left s.phase)
        × (IsAtRest t ⊎ ((u : Daemon) × Internal yaml trim debug t u))
  Run-settles host {s} {t} r = (
    unfold measure in omega (arith, Run-falls r),
    go_on host t t.phase t.notified t.events refl refl refl,
  )
