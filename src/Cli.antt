-- ===== src/Cli.antt =====
-- src/ebbflow.rs: the subcommands that change the configuration file. Each takes the disk and
-- returns it with its result; `exiterror` ends the process, which is the error `exits`.
pub mod Endpoints
pub mod Removing
pub mod Settings
pub mod Enabling
pub mod Outcomes
pub mod Status
pub mod Console
pub mod Init
pub mod Blocking
pub mod Printed
pub mod Main
use Prim.Native.String.{◌++◌ as str_append}
use ebbflow.Prelude.{
  ℕ, ◌%◌, ◌^◌, min, String, Bool, true, false, not, ◌||◌, List, [], ◌∷◌, ◌++◌, Option, none, some,
  str_eq, map, unwrap_or, if◌then◌else◌,
}
use ebbflow.Prelude.Result.{Result, ok, err}
use ebbflow.Config.{bool_eq, HealthCheck, tcp, Endpoint, Ssh, EbbflowDaemonConfig}
use ebbflow.Config.Files.{ConfigError, Yaml, Disk, load_from_file_or_new, save_to_file}
use ebbflow.Runner.{max_max_idle}

-- The errors of other libraries are known by their text. The last two are no errors of the source:
-- the process ended, by `exiterror` or by `hostname_or_die`.
pub data CliError : Type 0 where
  config_error : ConfigError → CliError
  std_io_error http other : String → CliError
  exits dies : String → CliError

-- `load_from_file_or_new().await?`, then the rest of a subcommand.
unfoldable pub with_existing :
    {A : Type 0}
    → Yaml
    → Disk
    → (EbbflowDaemonConfig → Disk × Result CliError A)
    → Disk × Result CliError A
with_existing yaml d k = elim (load_from_file_or_new yaml d) [
  | err e ↦ (d, err (config_error e))
  | ok existing ↦ k existing
]

unfoldable pub returned : {A : Type 0} → A → Result ConfigError (Unit {0}) → Result CliError A
returned a (ok u) = ok a
returned a (err e) = err (config_error e)

-- `save_to_file().await?`, then `Ok(a)`.
unfoldable pub save_and_return :
    {A : Type 0} → Yaml → EbbflowDaemonConfig → Disk → A → Disk × Result CliError A
unfolding returned
save_and_return yaml c d a = let (d', r) = save_to_file yaml c d in (d', returned a r)

pub record AddEndpointArgs : Type 0 where
  pub dns : String
  pub port : ℕ
  pub maxconns : Option ℕ
  pub maxidle : Option ℕ
  pub disabled : Bool
  pub healthcheck_port : Option ℕ
  pub healthcheck_consider_healthy : Option ℕ
  pub healthcheck_consider_unhealthy : Option ℕ
  pub healthcheck_frequency_secs : Option ℕ

unfoldable pub healthcheck_of : AddEndpointArgs → Option HealthCheck
healthcheck_of args = elim args.healthcheck_port [
  | none ↦ none
  | some p ↦ some (record {
    port = some p;
    consider_healthy_threshold = args.healthcheck_consider_healthy;
    consider_unhealthy_threshold = args.healthcheck_consider_unhealthy;
    type = tcp;
    frequency_secs = args.healthcheck_frequency_secs;
  })
]

-- The cast of `maxidle` to a u16 wraps.
unfoldable pub new_endpoint : AddEndpointArgs → Endpoint
unfolding healthcheck_of
new_endpoint args = record {
  port = args.port;
  dns = args.dns;
  maxconns = unwrap_or args.maxconns 5000;
  maxidle = unwrap_or args.maxidle 40 % 2 ^ 16;
  enabled = not args.disabled;
  healthcheck = healthcheck_of args;
}

-- The loop that looks for the name of the new endpoint.
unfoldable pub clash : String → List Endpoint → Option String
clash dns [] = none
clash dns (e ∷ es) = let rest = clash dns es in if str_eq e.dns dns then some e.dns else rest

abbrev pub clash_error : String → CliError
clash_error dns = exits (
    str_append "An endpoint of name "
      (str_append dns " already exists. Please remove it first then create it again"))

unfoldable pub add_endpoint : Yaml → AddEndpointArgs → Disk → Disk × Result CliError (Unit {0})
unfolding with_existing save_and_return clash new_endpoint
add_endpoint yaml args d = with_existing yaml d (λ existing.
    elim (clash args.dns existing.endpoints) [
      | some dns ↦ (d, err (clash_error dns))
      | none ↦
          save_and_return yaml
            (record existing { endpoints = existing.endpoints ++ new_endpoint args ∷ [] }) d tt
    ])

pub record RemoveEndpointArgs : Type 0 where
  pub dns : String
  pub idempotent : Bool

-- `retain`, with the flag `deleted`.
unfoldable pub retain_others : String → List Endpoint → List Endpoint × Bool
retain_others dns [] = ([], false)
retain_others dns (e ∷ es) =
    let (rest, deleted) = retain_others dns es in
    if str_eq e.dns dns then (rest, true) else (e ∷ rest, deleted)

unfoldable pub remove_endpoint :
    Yaml → RemoveEndpointArgs → Disk → Disk × Result CliError (Unit {0})
unfolding with_existing retain_others save_and_return
remove_endpoint yaml args d = with_existing yaml d (λ existing.
    let (rest, deleted) = retain_others args.dns existing.endpoints in
    if deleted || args.idempotent
    then save_and_return yaml (record existing { endpoints = rest }) d tt
    else (
      d,
      err (
          exits
            (str_append "Endpoint " (str_append args.dns " does not exist and was not deleted"))),
    ))

-- A round of the loop of `set_endpoint_enabled`; the Booleans are `targeted_found`, `mutated`.
unfoldable pub set_one : Bool → Option String → Endpoint → Bool × Bool → Endpoint × (Bool × Bool)
set_one enabled none e flags = (record e { enabled = enabled }, (true, true))
set_one enabled (some dns) e flags =
    if str_eq dns e.dns
    then (if bool_eq e.enabled enabled
        then (e, (true, false))
        else (record e { enabled = enabled }, (true, true)))
    else (e, flags)

unfoldable pub set_enabled :
    Bool → Option String → List Endpoint → Bool × Bool → List Endpoint × (Bool × Bool)
unfolding set_one
set_enabled enabled dns [] flags = ([], flags)
set_enabled enabled dns (e ∷ es) flags =
    let (e', flags') = set_one enabled dns e flags in
    let (es', flags_after) = set_enabled enabled dns es flags' in (e' ∷ es', flags_after)

unfoldable pub set_endpoint_enabled :
    Yaml → Bool → Option String → Disk → Disk × Result CliError (Bool × Bool)
unfolding with_existing set_enabled save_and_return
set_endpoint_enabled yaml enabled dns d = with_existing yaml d (λ existing.
    let (es, flags) = set_enabled enabled dns existing.endpoints (false, false) in
    save_and_return yaml (record existing { endpoints = es }) d flags)
