-- ===== src/Cli/Endpoints.antt =====
-- What `add_endpoint` leaves on the disk.
use ebbflow.Prelude.{
  ◌≡◌, refl, sym, ◌∙◌, ◌++◌, true, false, ◌||◌, String, List, [], ◌∷◌, none, some, arith, eq_iff,
  str_eq, Bool-cases, inl, inr, subst, if◌then◌else◌,
}
use ebbflow.Prelude.Result.{Result, ok, err}
use ebbflow.Config.{Endpoint, EbbflowDaemonConfig}
use ebbflow.Config.Files.{
  or_new, Yaml, Disk, load_from_file, load_from_file_or_new, save_to_file, ConfigError,
}
use ebbflow.Config.SaveLoad.{IsLawfulYaml, load-save_to_file}
use ebbflow.Runner.{contains}
use ebbflow.Runner.Idempotent.{HasDistinctNames}
use ebbflow.Cli.{
  CliError, with_existing, returned, save_and_return, AddEndpointArgs, new_endpoint, clash,
  clash_error, add_endpoint,
}

returned-eq_ok :
    {A : Type 0} (a b : A) (r : Result ConfigError (Unit {0}))
    → returned a r ≡ ok b
    → (r ≡ ok tt) × (a ≡ b)
unfolding returned
returned-eq_ok a b (ok u) h = (refl, cc h)
returned-eq_ok a b (err e) h = cc h

-- A change that was saved is what is loaded next.
pub save_and_return-eq_ok :
    {A : Type 0} (yaml : Yaml) (c : EbbflowDaemonConfig) (d : Disk) (a b : A)
    → IsLawfulYaml yaml
    → d.config.read_error ≡ none
    → (save_and_return yaml c d a).1 ≡ ok b
    → (load_from_file yaml (save_and_return yaml c d a).0 ≡ ok c) × (a ≡ b)
unfolding save_and_return
save_and_return-eq_ok yaml c d a b l readable h =
    let (saved, same) = returned-eq_ok a b (save_to_file yaml c d).1 h in
    (load-save_to_file yaml c d l readable saved, same)

clash-contains :
    (dns : String) (es : List Endpoint)
    → clash dns es ≡ (if contains dns es then some dns else none)
unfolding clash contains
clash-contains dns [] = refl
clash-contains dns (e ∷ es) = ground (arith, clash-contains dns es, eq_iff e.dns dns)

pub contains-append :
    (dns : String) (es : List Endpoint) (e : Endpoint)
    → contains dns (es ++ e ∷ []) ≡ (contains dns es || str_eq e.dns dns)
unfolding contains
contains-append dns [] e = ground arith
contains-append dns (x ∷ es) e = ground (arith, contains-append dns es e)

HasDistinctNames-append :
    (es : List Endpoint) (e : Endpoint)
    → HasDistinctNames es
    → contains e.dns es ≡ false
    → HasDistinctNames (es ++ e ∷ [])
unfolding contains
HasDistinctNames-append [] e d h = (refl, tt)
HasDistinctNames-append (x ∷ es) e d h = (
  ground (arith, contains-append x.dns es e, eq_iff e.dns x.dns, eq_iff x.dns e.dns, d.0, h),
  HasDistinctNames-append es e d.1 (ground (arith, h)),
)

pub with_existing-ok :
    {A : Type 0} (yaml : Yaml) (d : Disk) (k : EbbflowDaemonConfig → Disk × Result CliError A)
    (c : EbbflowDaemonConfig)
    → load_from_file_or_new yaml d ≡ ok c
    → with_existing yaml d k ≡ k c
unfolding with_existing
with_existing-ok yaml d k c e = rw (e, with_existing) refl

pub load_or_new-ok :
    (yaml : Yaml) (d : Disk) (c : EbbflowDaemonConfig)
    → load_from_file yaml d ≡ ok c
    → load_from_file_or_new yaml d ≡ ok c
unfolding load_from_file_or_new or_new
load_or_new-ok yaml d c e = rw (e, load_from_file_or_new) refl

abbrev pub added : AddEndpointArgs → EbbflowDaemonConfig → EbbflowDaemonConfig
added args c = record c { endpoints = c.endpoints ++ new_endpoint args ∷ [] }

module _ (yaml : Yaml) (args : AddEndpointArgs) (d : Disk) (existing : EbbflowDaemonConfig)
    (loads : load_from_file_or_new yaml d ≡ ok existing) where
  -- If the name of a new endpoint is in the configuration that was loaded, the disk stays as it was
  -- and the command exits with an error.
  add_endpoint-clash :
      contains args.dns existing.endpoints ≡ true
      → add_endpoint yaml args d ≡ (d, err (clash_error args.dns))
  unfolding add_endpoint
  add_endpoint-clash h =
      with_existing-ok yaml d _ existing loads
      ∙ rw (clash-contains args.dns existing.endpoints) (rw h refl)

  pub add_endpoint-new :
      contains args.dns existing.endpoints ≡ false
      → add_endpoint yaml args d ≡ save_and_return yaml (added args existing) d tt
  unfolding add_endpoint
  add_endpoint-new h =
      with_existing-ok yaml d _ existing loads
      ∙ rw (clash-contains args.dns existing.endpoints) (rw h refl)

  -- When `add_endpoint` succeeds, on a file that can be read and with a serde_yaml that reads back
  -- what it wrote, the endpoint's name was not in the configuration, and the configuration that is
  -- loaded next has the endpoint at its end and is the old one otherwise.
  pub add_endpoint-eq_ok :
      IsLawfulYaml yaml
      → d.config.read_error ≡ none
      → (add_endpoint yaml args d).1 ≡ ok tt
      → (contains args.dns existing.endpoints ≡ false)
        × (load_from_file yaml (add_endpoint yaml args d).0 ≡ ok (added args existing))
  add_endpoint-eq_ok l readable h = elim (Bool-cases (contains args.dns existing.endpoints)) [
    | inl there ↦ cc (rw (add_endpoint-clash there) at h)
    | inr new ↦
        let e = add_endpoint-new new in
        (
          new,
          rw e (save_and_return-eq_ok yaml (added args existing) d tt tt l readable (rw e at h)).0,
        )
  ]

  -- On a file that can be read and with a serde_yaml that reads back what it wrote, a configuration
  -- in which no name stands twice stays so when `add_endpoint` succeeds.
  add_endpoint-HasDistinctNames :
      (c : EbbflowDaemonConfig)
      → IsLawfulYaml yaml
      → d.config.read_error ≡ none
      → HasDistinctNames existing.endpoints
      → (add_endpoint yaml args d).1 ≡ ok tt
      → load_from_file yaml (add_endpoint yaml args d).0 ≡ ok c
      → HasDistinctNames c.endpoints
  unfolding new_endpoint
  add_endpoint-HasDistinctNames c l readable distinct h loaded =
      let (new, e) = add_endpoint-eq_ok l readable h in
      let same : added args existing ≡ c = cc (sym e ∙ loaded) in
      subst (λ (k : EbbflowDaemonConfig). HasDistinctNames k.endpoints) same
        (HasDistinctNames-append existing.endpoints (new_endpoint args) distinct new)
