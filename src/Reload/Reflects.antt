-- ===== src/Reload/Reflects.antt =====
-- No change of the files is lost: when the loop waits and nothing is on its way to it, the runner
-- runs what the files say.
use ebbflow.Prelude.{
  ◌≡◌, refl, sym, ap, ◌∙◌, subst, String, Bool, true, false, ◌||◌, List, [], ◌∷◌, ◌++◌, Option,
  some, arith,
}
use ebbflow.Prelude.Map.{lookup}
use ebbflow.Prelude.Result.{Result, ok, err}
use ebbflow.Config.{EbbflowDaemonConfig}
use ebbflow.Config.Files.{
  ConfigError, Yaml, Disk, load_from_file, getkey, config_or_none, key_or_none, config_reload,
}
use ebbflow.Daemon.{Host}
use ebbflow.Runner.{InnerDaemonRunner, submit_error_message, update_config, update_key, ssh_of}
use ebbflow.Runner.Reachable.{Inv, update_config-Inv, run, run-new-Inv}
use ebbflow.Runner.Reconcile.{config_at, ssh_config_of, last_config, update_config-reconciles}
use ebbflow.Runner.Wanted.{serving, ssh_serving, asked, ssh_asked}
use ebbflow.Runner.Refines.{serving-asked, ssh_serving-asked}
use ebbflow.Reload.{
  EventKind, Noticed, mutates, Reloaded, Phase, loading, loading_key, applying, waiting, Daemon,
  begin, watched, applied, after_config, after_key, advance, watch, loop, Step, internal, writes,
  touches, Reach, here, next,
}

unfoldable pub any_mutation : List Noticed → Bool
any_mutation [] = false
any_mutation (n ∷ ns) = mutates n || any_mutation ns

-- A notification is kept, or an event that will cause one is still to be seen.
unfoldable pub pending : Daemon → Bool
unfolding any_mutation
pending s = s.notified || any_mutation s.events

any_mutation-append :
    (ns : List Noticed) (n : Noticed)
    → any_mutation (ns ++ (n ∷ [])) ≡ (any_mutation ns || mutates n)
unfolding any_mutation
any_mutation-append [] n = ground arith
any_mutation-append (m ∷ ns) n = ground (arith, any_mutation-append ns n)

module _ (yaml : Yaml) (trim : String → String) (debug : ConfigError → String) where
  -- The runner was last given this.
  abbrev Reflects : Reloaded → InnerDaemonRunner → Type 0
  Reflects x r =
      (host : Host) × (before : InnerDaemonRunner) × (r ≡ applied debug host x before) × Inv before

  -- What the loop has in hand is what the files say.
  abbrev Agrees : Phase → Disk → InnerDaemonRunner → Type 0
  Agrees loading d r = Unit {0}
  Agrees (loading_key c) d r = config_or_none (load_from_file yaml d) ≡ ok c
  Agrees (applying x) d r = config_reload yaml trim d ≡ x
  Agrees waiting d r = Reflects (config_reload yaml trim d) r

  record IsCurrent (s : Daemon) : Type 0 where
    consistent : Inv s.runner
    agrees : pending s ≡ false → Agrees s.phase s.disk s.runner

  applied-Inv :
      (host : Host) (x : Reloaded) (r : InnerDaemonRunner) → Inv r → Inv (applied debug host x r)
  unfolding applied submit_error_message
  applied-Inv host (ok (c, k)) r v = update_config-Inv host c k r v
  applied-Inv host (err e) r v = v

  after_config-Agrees :
      (d : Disk) (r : InnerDaemonRunner) (x : Result ConfigError (Option EbbflowDaemonConfig))
      → config_or_none (load_from_file yaml d) ≡ x
      → Agrees (after_config yaml trim debug x) d r
  unfolding after_config config_reload
  after_config-Agrees d r (ok c) e = e
  after_config-Agrees d r (err x) e = rw e refl

  after_key-Agrees :
      (d : Disk) (r : InnerDaemonRunner) (c : Option EbbflowDaemonConfig)
      (x : Result ConfigError (Option String))
      → config_or_none (load_from_file yaml d) ≡ ok c
      → key_or_none (getkey trim d) ≡ x
      → Agrees (after_key yaml trim debug c x) d r
  unfolding after_key config_reload
  after_key-Agrees d r c (ok k) e e' = rw e (rw e' refl)
  after_key-Agrees d r c (err x) e e' = rw e (rw e' refl)

  -- The loop from each phase.
  advance-IsCurrent_at :
      (host : Host) (s : Daemon) (phase : Phase) (notified : Bool)
      → IsCurrent (record s { phase = phase; notified = notified })
      → IsCurrent (advance yaml trim debug host (record s { phase = phase; notified = notified }))
  unfolding advance pending
  advance-IsCurrent_at host s loading n v = record {
    consistent = v.consistent;
    agrees = λ h. after_config-Agrees s.disk s.runner _ refl;
  }
  advance-IsCurrent_at host s (loading_key c) n v = record {
    consistent = v.consistent;
    agrees = λ h. after_key-Agrees s.disk s.runner c _ (v.agrees h) refl;
  }
  advance-IsCurrent_at host s (applying x) n v = record {
    consistent = applied-Inv host x s.runner v.consistent;
    agrees = λ h.
        (host, s.runner, ap (λ y. applied debug host y s.runner) (sym (v.agrees h)), v.consistent);
  }
  advance-IsCurrent_at host s waiting true v = record {
    consistent = v.consistent;
    agrees = λ h. tt;
  }
  advance-IsCurrent_at host s waiting false v = v

  watched-IsCurrent :
      (s : Daemon) (k : EventKind) (rest : List Noticed)
      → s.events ≡ ok k ∷ rest
      → IsCurrent s
      → IsCurrent (watched k (record s { events = rest }))
  unfolding watched pending any_mutation mutates
  watched-IsCurrent s k rest e v = record {
    consistent = v.consistent;
    agrees = λ h. v.agrees (ground (arith, h, ap any_mutation e));
  }

  Step-IsCurrent : {s t : Daemon} → Step yaml trim debug s t → IsCurrent s → IsCurrent t
  unfolding pending mutates
  Step-IsCurrent {s} (internal (watch k rest e)) v = watched-IsCurrent s k rest e v
  Step-IsCurrent {s} (internal (loop host h)) v = advance-IsCurrent_at host s s.phase s.notified v
  Step-IsCurrent {s} (writes d k m) v = record {
    consistent = v.consistent;
    agrees = λ h. ground (arith, h, any_mutation-append s.events (ok k), m);
  }
  Step-IsCurrent {s} (touches k m) v = record {
    consistent = v.consistent;
    agrees = λ h. v.agrees (ground (arith, h, any_mutation-append s.events k, m));
  }

  Reach-IsCurrent : {s t : Daemon} → IsCurrent s → Reach yaml trim debug s t → IsCurrent t
  Reach-IsCurrent v here = v
  Reach-IsCurrent v (next r st) = Step-IsCurrent st (Reach-IsCurrent v r)

  begin-IsCurrent : (d : Disk) → IsCurrent (begin d)
  unfolding begin run
  begin-IsCurrent d = record { consistent = run-new-Inv []; agrees = λ h. tt }

  -- In every interleaving of the loop, the watcher and those who write the files: when the loop
  -- waits with no notification kept and no event to come that would cause one, and the files hold a
  -- key and a configuration, then every name is served as the last entry of that name asks, and the
  -- SSH proxy as the configuration asks for some name of the host.
  pub Reach-served :
      (d : Disk) {s : Daemon} {config : EbbflowDaemonConfig} {k : String}
      → Reach yaml trim debug (begin d) s
      → s.phase ≡ waiting
      → pending s ≡ false
      → config_reload yaml trim s.disk ≡ ok (some config, some k)
      → ((dns : String)
          → serving s.runner.world.metas (lookup dns s.runner.endpoints)
            ≡ asked (last_config dns config.endpoints))
        × ((host : Host) × (ssh_serving s.runner.world.metas s.runner.ssh
              ≡ ssh_asked (ssh_of host config.ssh)))
  unfolding applied update_key
  Reach-served d {s} {config} {k} reach waits quiet files =
      let v = Reach-IsCurrent (begin-IsCurrent d) reach in
      let (host, before, e, w) = subst (λ p. Agrees p s.disk s.runner) waits (v.agrees quiet) in
      let given : s.runner ≡ update_config host (some config) (some k) before =
        e ∙ ap (λ x. applied debug host x before) files in
      let facts = update_config-reconciles host config (some k) k before refl in
      (
        (λ dns.
            serving-asked s.runner dns (lookup dns s.runner.endpoints) v.consistent refl
            ∙ ap asked
                (ap (λ (r : InnerDaemonRunner). config_at dns r.endpoints) given ∙ facts.0 dns)),
        (
          host,
          ssh_serving-asked s.runner s.runner.ssh v.consistent refl
              ∙ ap ssh_asked (ap (λ (r : InnerDaemonRunner). ssh_config_of r.ssh) given ∙ facts.1),
        ),
      )
