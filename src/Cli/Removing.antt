-- ===== src/Cli/Removing.antt =====
-- What `remove_endpoint` leaves on the disk.
use ebbflow.Prelude.{
  ◌≡◌, ◌≢◌, refl, sym, ap, ◌∙◌, ◌++◌, true, false, ◌||◌, String, List, [], ◌∷◌, none, arith, eq_iff,
  eq_refl, Bool, Bool-cases, inl, inr,
}
use ebbflow.Prelude.Result.{Result, ok}
use ebbflow.Config.{Endpoint, EbbflowDaemonConfig}
use ebbflow.Config.Files.{write, Yaml, Disk, load_from_file, load_from_file_or_new, save_to_file}
use ebbflow.Config.SaveLoad.{IsLawfulYaml}
use ebbflow.Runner.{contains}
use ebbflow.Cli.{
  CliError, save_and_return, AddEndpointArgs, new_endpoint, add_endpoint, RemoveEndpointArgs,
  retain_others, remove_endpoint,
}
use ebbflow.Cli.Endpoints.{
  with_existing-ok, save_and_return-eq_ok, load_or_new-ok, contains-append, added, add_endpoint-new,
  add_endpoint-eq_ok,
}

retain_others-contains :
    (dns : String) (es : List Endpoint) → (retain_others dns es).1 ≡ contains dns es
unfolding retain_others contains
retain_others-contains dns [] = refl
retain_others-contains dns (e ∷ es) = ground (arith, retain_others-contains dns es)

retain_others-append :
    (dns : String) (es : List Endpoint) (e : Endpoint)
    → contains dns es ≡ false
    → e.dns ≡ dns
    → (retain_others dns (es ++ e ∷ [])).0 ≡ es
unfolding retain_others contains
retain_others-append dns [] e h same = ground (arith, eq_iff e.dns dns)
retain_others-append dns (x ∷ es) e h same =
    ground (arith, retain_others-append dns es e, eq_iff e.dns dns)

module _ (yaml : Yaml) (args : RemoveEndpointArgs) (d : Disk) (existing : EbbflowDaemonConfig)
    (loads : load_from_file_or_new yaml d ≡ ok existing) where
  abbrev pub removed : EbbflowDaemonConfig
  removed = record existing { endpoints = (retain_others args.dns existing.endpoints).0 }

  remove_endpoint-saves :
      (contains args.dns existing.endpoints || args.idempotent) ≡ true
      → remove_endpoint yaml args d ≡ save_and_return yaml removed d tt
  unfolding remove_endpoint
  remove_endpoint-saves h =
      with_existing-ok yaml d _ existing loads
      ∙ rw (retain_others-contains args.dns existing.endpoints) (rw h refl)

  remove_endpoint-fails :
      (contains args.dns existing.endpoints || args.idempotent) ≡ false
      → (remove_endpoint yaml args d).1 ≢ ok tt
  unfolding remove_endpoint
  remove_endpoint-fails h ends =
      let loaded = with_existing-ok yaml d _ existing loads in
      let end = sym (ap (λ (p : Disk × Result CliError (Unit {0})). p.1) loaded) ∙ ends in
      cc (rw h at (rw (retain_others-contains args.dns existing.endpoints) at end))

  -- When `remove_endpoint` succeeds, the configuration that is loaded next is the old one without the
  -- endpoints of that name.
  pub remove_endpoint-eq_ok :
      IsLawfulYaml yaml
      → d.config.read_error ≡ none
      → (remove_endpoint yaml args d).1 ≡ ok tt
      → load_from_file yaml (remove_endpoint yaml args d).0 ≡ ok removed
  remove_endpoint-eq_ok l readable h =
      elim (Bool-cases (contains args.dns existing.endpoints || args.idempotent)) [
        | inl saves ↦
            let e = remove_endpoint-saves saves in
            rw e (save_and_return-eq_ok yaml removed d tt tt l readable (rw e at h)).0
        | inr fails ↦ absurd (remove_endpoint-fails fails h)
      ]

read_error-save :
    {A : Type 0} (yaml : Yaml) (c : EbbflowDaemonConfig) (d : Disk) (a : A)
    → (save_and_return yaml c d a).0.config.read_error ≡ d.config.read_error
unfolding save_and_return save_to_file write
read_error-save yaml c d a = ground arith

-- An endpoint that was added and then removed, both with success, on a file that can be read and
-- with a serde_yaml that reads back what it wrote, leaves the configuration that was there before
-- the two commands.
pub remove-add_endpoint :
    (yaml : Yaml) (args : AddEndpointArgs) (idempotent : Bool) (d : Disk)
    (existing : EbbflowDaemonConfig)
    → IsLawfulYaml yaml
    → load_from_file_or_new yaml d ≡ ok existing
    → d.config.read_error ≡ none
    → (add_endpoint yaml args d).1 ≡ ok tt
    → let r : RemoveEndpointArgs = record { dns = args.dns; idempotent = idempotent } in
      let d1 = (add_endpoint yaml args d).0 in
      (remove_endpoint yaml r d1).1 ≡ ok tt
      → load_from_file yaml (remove_endpoint yaml r d1).0 ≡ ok existing
unfolding new_endpoint
remove-add_endpoint yaml args idempotent d existing l loads readable h1 h2 =
    let r : RemoveEndpointArgs = record { dns = args.dns; idempotent = idempotent } in
    let d1 = (add_endpoint yaml args d).0 in
    let (new, loaded) = add_endpoint-eq_ok yaml args d existing loads l readable h1 in
    let readable1 : d1.config.read_error ≡ none =
      ap (λ (p : Disk × Result CliError (Unit {0})). p.0.config.read_error)
        (add_endpoint-new yaml args d existing loads new)
      ∙ read_error-save yaml (added args existing) d tt
      ∙ readable in
    let there : (contains args.dns (added args existing).endpoints || idempotent) ≡ true =
      ground (
        arith,
        contains-append args.dns existing.endpoints (new_endpoint args),
        eq_refl args.dns,
      ) in
    let e =
      remove_endpoint-saves yaml r d1 (added args existing)
        (load_or_new-ok yaml d1 (added args existing) loaded) there in
    let back : removed yaml r d1 (added args existing)
          (load_or_new-ok yaml d1 (added args existing) loaded)
        ≡ existing =
      ap (λ es. record existing { endpoints = es })
        (retain_others-append args.dns existing.endpoints (new_endpoint args) new refl) in
    let saved =
      save_and_return-eq_ok yaml _ d1 tt tt l readable1
        (sym (ap (λ (p : Disk × Result CliError (Unit {0})). p.1) e) ∙ h2) in
    ap (λ (p : Disk × Result CliError (Unit {0})). load_from_file yaml p.0) e ∙ saved.0 ∙ ap ok back
