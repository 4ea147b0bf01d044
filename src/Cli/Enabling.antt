-- ===== src/Cli/Enabling.antt =====
-- What `enable` and `disable` of one endpoint change and report.
use ebbflow.Prelude.{
  ◌≡◌, refl, sym, ap, ◌∙◌, Bool, true, false, not, ◌||◌, ◌&&◌, String, List, [], ◌∷◌, map, none,
  some, arith, eq_iff, str_eq, Bool-cases, inl, inr, if◌then◌else◌,
}
use ebbflow.Prelude.Result.{Result, ok}
use ebbflow.Config.{Endpoint, EbbflowDaemonConfig, bool_eq}
use ebbflow.Config.Files.{Yaml, Disk, load_from_file, load_from_file_or_new}
use ebbflow.Config.SaveLoad.{IsLawfulYaml}
use ebbflow.Runner.{contains}
use ebbflow.Runner.Idempotent.{HasDistinctNames}
use ebbflow.Cli.{CliError, save_and_return, set_one, set_enabled, set_endpoint_enabled}
use ebbflow.Cli.Endpoints.{with_existing-ok, save_and_return-eq_ok}

-- The endpoint of that name with the wanted state, the others as they are.
unfoldable pub switched : Bool → String → Endpoint → Endpoint
switched enabled dns e = if str_eq dns e.dns then record e { enabled = enabled } else e

-- Some endpoint of that name is not in the wanted state.
unfoldable pub differs : Bool → String → List Endpoint → Bool
differs enabled dns [] = false
differs enabled dns (e ∷ es) =
    (str_eq dns e.dns && not (bool_eq e.enabled enabled)) || differs enabled dns es

same_state :
    (enabled : Bool) (e : Endpoint)
    → bool_eq e.enabled enabled ≡ true
    → e ≡ record e { enabled = enabled }
same_state enabled e h = ap (λ b. record e { enabled = b }) (ground (arith, h))

set_one-switched :
    (enabled : Bool) (dns : String) (e : Endpoint) (flags : Bool × Bool)
    → (set_one enabled (some dns) e flags).0 ≡ switched enabled dns e
unfolding set_one switched
set_one-switched enabled dns e flags = elim (Bool-cases (str_eq dns e.dns)) [
  | inl there ↦ elim (Bool-cases (bool_eq e.enabled enabled)) [
    | inl same ↦ rw (there, same) (same_state enabled e same)
    | inr other ↦ rw (there, other) refl
  ]
  | inr elsewhere ↦ rw elsewhere refl
]

set_enabled-switched :
    (enabled : Bool) (dns : String) (es : List Endpoint) (flags : Bool × Bool)
    → (set_enabled enabled (some dns) es flags).0 ≡ map (switched enabled dns) es
unfolding set_enabled
set_enabled-switched enabled dns [] flags = refl
set_enabled-switched enabled dns (e ∷ es) flags =
    ap (λ x. x ∷ (set_enabled enabled (some dns) es (set_one enabled (some dns) e flags).1).0)
      (set_one-switched enabled dns e flags)
    ∙ ap (λ l. switched enabled dns e ∷ l)
        (set_enabled-switched enabled dns es (set_one enabled (some dns) e flags).1)

pub differs-absent :
    (enabled : Bool) (dns : String) (es : List Endpoint)
    → contains dns es ≡ false
    → differs enabled dns es ≡ false
unfolding differs contains
differs-absent enabled dns [] h = refl
differs-absent enabled dns (e ∷ es) h =
    ground (arith, differs-absent enabled dns es, eq_iff dns e.dns, eq_iff e.dns dns)

set_one-flags :
    (enabled : Bool) (dns : String) (e : Endpoint) (flags : Bool × Bool)
    → (set_one enabled (some dns) e flags).1
      ≡ (if str_eq dns e.dns then (true, not (bool_eq e.enabled enabled)) else flags)
unfolding set_one
set_one-flags enabled dns e flags = ground arith

contains-same :
    (dns other : String) (es : List Endpoint)
    → str_eq dns other ≡ true
    → contains other es ≡ contains dns es
contains-same dns other es h = ap (λ x. contains x es) (sym ((eq_iff dns other).0 h))

set_enabled-flags :
    (enabled : Bool) (dns : String) (es : List Endpoint) (flags : Bool × Bool)
    → HasDistinctNames es
    → (set_enabled enabled (some dns) es flags).1
      ≡ (if contains dns es then (true, differs enabled dns es) else flags)
unfolding set_enabled differs contains
set_enabled-flags enabled dns [] flags d = refl
set_enabled-flags enabled dns (e ∷ es) flags d =
    let flags' = (set_one enabled (some dns) e flags).1 in
    let rest = set_enabled-flags enabled dns es flags' d.1 in
    ground (
      arith,
      rest,
      set_one-flags enabled dns e flags,
      contains-same dns e.dns es,
      differs-absent enabled dns es,
      eq_iff dns e.dns,
      eq_iff e.dns dns,
      d.0,
    )

-- When `enable` or `disable` of an endpoint succeeds in saving, on a file that can be read and a
-- configuration in which no name stands twice, the configuration that is loaded next has that
-- endpoint in the wanted state and is the old one otherwise; the result says whether the endpoint
-- is configured, and whether it was not in the wanted state before.
pub set_endpoint_enabled-eq_ok :
    (yaml : Yaml) (enabled : Bool) (dns : String) (d : Disk) (existing : EbbflowDaemonConfig)
    (flags : Bool × Bool)
    → IsLawfulYaml yaml
    → load_from_file_or_new yaml d ≡ ok existing
    → HasDistinctNames existing.endpoints
    → d.config.read_error ≡ none
    → (set_endpoint_enabled yaml enabled (some dns) d).1 ≡ ok flags
    → (load_from_file yaml (set_endpoint_enabled yaml enabled (some dns) d).0
        ≡ ok (record existing { endpoints = map (switched enabled dns) existing.endpoints }))
      × (flags.0 ≡ contains dns existing.endpoints)
      × (flags.1 ≡ differs enabled dns existing.endpoints)
unfolding set_endpoint_enabled
set_endpoint_enabled-eq_ok yaml enabled dns d existing flags l loads distinct readable h =
    let e =
      with_existing-ok yaml d
        (λ c.
          let (es, fs) = set_enabled enabled (some dns) c.endpoints (false, false) in
          save_and_return yaml (record c { endpoints = es }) d fs)
        existing loads in
    let (saved, same) =
      save_and_return-eq_ok yaml _ d _ flags l readable
        (sym (ap (λ (p : Disk × Result CliError (Bool × Bool)). p.1) e) ∙ h) in
    let f = sym same ∙ set_enabled-flags enabled dns existing.endpoints (false, false) distinct in
    let absent = differs-absent enabled dns existing.endpoints in
    (
      ap (λ (p : Disk × Result CliError (Bool × Bool)). load_from_file yaml p.0) e
          ∙ saved
          ∙ ap (λ es. ok (record existing { endpoints = es }))
              (set_enabled-switched enabled dns existing.endpoints (false, false)),
      ground (arith, f),
      ground (arith, f, absent),
    )

-- All endpoints in the wanted state.
abbrev pub all_switched : Bool → List Endpoint → List Endpoint
all_switched enabled es = map (λ (e : Endpoint). record e { enabled = enabled }) es

abbrev pub is_configured : List Endpoint → Bool
is_configured [] = false
is_configured (e ∷ es) = true

set_enabled-all :
    (enabled : Bool) (es : List Endpoint) (flags : Bool × Bool)
    → (set_enabled enabled none es flags).0 ≡ all_switched enabled es
unfolding set_enabled set_one
set_enabled-all enabled [] flags = refl
set_enabled-all enabled (e ∷ es) flags =
    ap (λ l. record e { enabled = enabled } ∷ l) (set_enabled-all enabled es (true, true))

flags-all :
    (enabled : Bool) (es : List Endpoint)
    → (set_enabled enabled none es (true, true)).1 ≡ (true, true)
unfolding set_enabled set_one
flags-all enabled [] = refl
flags-all enabled (e ∷ es) = flags-all enabled es

flags-configured :
    (enabled : Bool) (es : List Endpoint)
    → (set_enabled enabled none es (false, false)).1 ≡ (is_configured es, is_configured es)
unfolding set_enabled set_one
flags-configured enabled [] = refl
flags-configured enabled (e ∷ es) = flags-all enabled es

-- When `enable` or `disable` of all endpoints succeeds in saving, on a file that can be read, the
-- configuration that is loaded next has every endpoint in the wanted state and is the old one
-- otherwise; the result says that something was found and changed exactly if an endpoint is
-- configured, whatever state the endpoints were in.
pub set_all_enabled-eq_ok :
    (yaml : Yaml) (enabled : Bool) (d : Disk) (existing : EbbflowDaemonConfig) (flags : Bool × Bool)
    → IsLawfulYaml yaml
    → load_from_file_or_new yaml d ≡ ok existing
    → d.config.read_error ≡ none
    → (set_endpoint_enabled yaml enabled none d).1 ≡ ok flags
    → (load_from_file yaml (set_endpoint_enabled yaml enabled none d).0
        ≡ ok (record existing { endpoints = all_switched enabled existing.endpoints }))
      × (flags ≡ (is_configured existing.endpoints, is_configured existing.endpoints))
unfolding set_endpoint_enabled
set_all_enabled-eq_ok yaml enabled d existing flags l loads readable h =
    let e =
      with_existing-ok yaml d
        (λ c.
          let (es, fs) = set_enabled enabled none c.endpoints (false, false) in
          save_and_return yaml (record c { endpoints = es }) d fs)
        existing loads in
    let (saved, same) =
      save_and_return-eq_ok yaml _ d _ flags l readable
        (sym (ap (λ (p : Disk × Result CliError (Bool × Bool)). p.1) e) ∙ h) in
    (
      ap (λ (p : Disk × Result CliError (Bool × Bool)). load_from_file yaml p.0) e
          ∙ saved
          ∙ ap (λ es. ok (record existing { endpoints = es }))
              (set_enabled-all enabled existing.endpoints (false, false)),
      sym same ∙ flags-configured enabled existing.endpoints,
    )
