-- ===== src/Cli/Printed.antt =====
-- What src/ebbflow.rs prints: the status of the daemon and the configuration, as lines. The padding
-- of `{:width$}`, the length in bytes and the decimal text of a number are parameters.
pub mod Digits
use Prim.Native.String.{◌++◌ as str_append}
use ebbflow.Prelude.{
  ℕ, max, String, Bool, true, false, List, [], ◌∷◌, ◌++◌, Option, none, some, map, unwrap_or,
  if◌then◌else◌,
}
use ebbflow.Prelude.Result.{Result, ok, err}
use ebbflow.Config.{HealthCheck, Endpoint, Ssh, EbbflowDaemonConfig}
use ebbflow.Config.Files.{Yaml, Disk, load_from_file_or_new}
use ebbflow.Health.{Check}
use ebbflow.Daemon.{HealthOverall, not_configured, healthy, unhealthy}
use ebbflow.Runner.{DaemonStatusMeta, uninitialized, good}
use ebbflow.Runner.Status.{DaemonEndpointStatus, disabled_status, enabled_status, DaemonStatus}
use ebbflow.Cli.{CliError, config_error, dies}

pub record Format : Type 0 where
  pub pad : ℕ → String → String
  pub len : String → ℕ
  pub decimal : ℕ → String

unfoldable pub concat : List String → String
concat [] = ""
concat (s ∷ ss) = str_append s (concat ss)

unfoldable pub digit : Bool → String
digit true = "1"
digit false = "0"

-- The loop of `format_health_data_old_new`, over the checks in reverse, the oldest first.
unfoldable pub push_digits : List Check → List String
unfolding digit
push_digits [] = []
push_digits ((check, t) ∷ rest) = push_digits rest ++ digit check ∷ []

unfoldable pub format_health_data_old_new : List Check → String
unfolding concat push_digits
format_health_data_old_new checks = concat (push_digits checks)

unfoldable pub health_text : Option HealthOverall → String
unfolding format_health_data_old_new
health_text none = "Not Configured"
health_text (some not_configured) = "Not Configured"
health_text (some (healthy checks)) =
    str_append "Healthy - Old > New: " (format_health_data_old_new checks)
health_text (some (unhealthy checks)) =
    str_append "Unhealthy - Old > New: " (format_health_data_old_new checks)

abbrev tab : String
tab = "\t"

abbrev tabs : String
tabs = "\t\t"

-- The widest name.
unfoldable pub widest : Format → List String → ℕ
widest f [] = 0
widest f (n ∷ ns) = max (f.len n) (widest f ns)

unfoldable pub status_line : Format → String → DaemonEndpointStatus → ℕ → Bool → String
unfolding concat health_text
status_line f name disabled_status width printhealth =
    concat (f.pad width name ∷ tab ∷ "Disabled" ∷ tabs ∷ tabs ∷ tabs ∷ [])
status_line f name (enabled_status active idle health) width printhealth = concat (
    f.pad width name
    ∷ tab
    ∷ "Enabled"
    ∷ tabs
    ∷ f.decimal active
    ∷ tabs
    ∷ f.decimal idle
    ∷ tabs
    ∷ (if printhealth then health_text health else "")
    ∷ [])

unfoldable pub endpoint_lines : Format → List (String × DaemonEndpointStatus) → ℕ → List String
unfolding status_line
endpoint_lines f es width =
    map (λ (e : String × DaemonEndpointStatus). status_line f e.0 e.1 width true) es

unfoldable pub endpoints_table : Format → List (String × DaemonEndpointStatus) → List String
unfolding endpoint_lines widest concat
endpoints_table f [] = "No endpoints known." ∷ []
endpoints_table f (e ∷ es) =
    let width = widest f (map (λ (x : String × DaemonEndpointStatus). x.0) (e ∷ es)) in
    concat (f.pad width "DNS" ∷ "\tEnabled\t\tCurrActiveConns\tCurrIdleConns\tHealth" ∷ [])
    ∷ endpoint_lines f (e ∷ es) width

unfoldable pub ssh_table : Format → Option (String × DaemonEndpointStatus) → List String
unfolding status_line concat
ssh_table f none = "SSH configuration not known." ∷ []
ssh_table f (some (hostname, status)) =
    concat
      (f.pad (f.len hostname) "Hostname" ∷ "\tEnabled\t\tCurrActiveConns\tCurrIdleConns\t" ∷ [])
    ∷ status_line f hostname status (f.len hostname) false
    ∷ []

unfoldable pub message_lines : List (String × String) → List String
unfolding concat
message_lines [] = "No daemon messages." ∷ []
message_lines (m ∷ ms) = map (λ (x : String × String). concat (x.0 ∷ " - " ∷ x.1 ∷ [])) (m ∷ ms)

unfoldable pub meta_text : DaemonStatusMeta → String
meta_text good = "Good"
meta_text uninitialized = "Uninitialized"

-- `print_status`, at the time `now`.
unfoldable pub print_status : Format → String → DaemonStatus → List String
unfolding meta_text endpoints_table ssh_table message_lines
print_status f now s =
    str_append "Overall Health: " (meta_text s.meta)
      ∷ ""
      ∷ "Endpoints"
      ∷ "----------------------"
      ∷ endpoints_table f s.endpoints
    ++ "" ∷ "SSH Proxy" ∷ "-----------------" ∷ ssh_table f s.ssh
    ++ ""
      ∷ str_append "Daemon Messages - Current Time " now
      ∷ "-----------------"
      ∷ message_lines s.messages

unfoldable pub bool_text : Bool → String
bool_text true = "true"
bool_text false = "false"

unfoldable pub healthcheck_text : Format → ℕ → Option HealthCheck → String
unfolding concat
healthcheck_text f port none = "Not Configured"
healthcheck_text f port (some hc) = concat (
    "Port "
    ∷ f.decimal (unwrap_or hc.port port)
    ∷ " HealthyThreshold "
    ∷ f.decimal (unwrap_or hc.consider_healthy_threshold 3)
    ∷ " UnhealthyThreshold "
    ∷ f.decimal (unwrap_or hc.consider_unhealthy_threshold 3)
    ∷ " FreqSecs "
    ∷ f.decimal (unwrap_or hc.frequency_secs 5)
    ∷ [])

unfoldable pub config_line : Format → ℕ → Endpoint → String
unfolding healthcheck_text bool_text concat
config_line f width e = concat (
    f.pad width e.dns
    ∷ tab
    ∷ f.decimal e.port
    ∷ tab
    ∷ bool_text e.enabled
    ∷ tab
    ∷ f.decimal e.maxconns
    ∷ tabs
    ∷ f.decimal e.maxidle
    ∷ tabs
    ∷ healthcheck_text f e.port e.healthcheck
    ∷ [])

unfoldable pub config_table : Format → List Endpoint → List String
unfolding config_line widest
config_table f [] = "No endpoints configured" ∷ []
config_table f (e ∷ es) =
    let width = widest f (map (λ x. Endpoint.dns x) (e ∷ es)) in
    concat (f.pad width "DNS" ∷ "\tPort\tEnabled\tMaxConns\tMaxIdleConns\tHealthCheck" ∷ [])
    ∷ map (config_line f width) (e ∷ es)

-- `hostname` is the host's name or the error that ends the process, after what was printed.
unfoldable pub ssh_config_table :
    Format → Result String String → Option Ssh → List String × Result CliError (Unit {0})
unfolding bool_text concat
ssh_config_table f hostname none = ("SSH not configured" ∷ [], ok tt)
ssh_config_table f hostname (some s) =
    let name = (elim s.hostname_override as (λ _. Result String String) [
      | some n ↦ ok n
      | none ↦ hostname
    ]) in
    elim name [
      | err e ↦ ([], err (dies e))
      | ok n ↦ (
        concat (f.pad (f.len n) "Hostname" ∷ "\tPort\tEnabled\tMaxConns\tMaxIdleConns\t" ∷ [])
            ∷ concat (
                f.pad (f.len n) n
                ∷ tab
                ∷ f.decimal s.port
                ∷ tab
                ∷ bool_text s.enabled
                ∷ tab
                ∷ f.decimal s.maxconns
                ∷ tabs
                ∷ f.decimal s.maxidle
                ∷ [])
            ∷ [],
        ok tt,
      )
    ]

unfoldable pub printconfignokey :
    Format → Yaml → Result String String → Disk → List String × Result CliError (Unit {0})
unfolding config_table ssh_config_table
printconfignokey f yaml hostname d = elim (load_from_file_or_new yaml d) [
  | err e ↦ ([], err (config_error e))
  | ok existing ↦
      let (lines, r) = ssh_config_table f hostname existing.ssh in
      (
        "Endpoint Configuration" ∷ "----------------------" ∷ config_table f existing.endpoints
            ++ "" ∷ "SSH Configuration" ∷ "-----------------" ∷ lines,
        r,
      )
]
