-- ===== src/Config/Equality.antt =====
-- The equality that `#[derive(PartialEq)]` gives `Endpoint` (src/config.rs) and
-- `SshConfiguration` (src/lib.rs): field by field.
use ebbflow.Prelude.{
  ℕ, String, ◌≡◌, refl, ◌↔◌, Bool, true, false, ◌&&◌, Option, none, some, arith, ◌==◌, str_eq,
  eq_iff,
}
use ebbflow.Config.Data.{HealthCheckType, tcp, HealthCheck, Endpoint}

-- The configuration that a running SSH proxy was started with.
pub record SshConfiguration : Type 0 where
  pub port : ℕ
  pub max : ℕ
  pub hostname : String
  pub enabled : Bool
  pub maxidle : ℕ

abbrev pub bool_eq : Bool → Bool → Bool
bool_eq true b = b
bool_eq false true = false
bool_eq false false = true

abbrev port_eq : Option ℕ → Option ℕ → Bool
port_eq none none = true
port_eq (some a) (some b) = a == b
port_eq _ _ = false

abbrev type_eq : HealthCheckType → HealthCheckType → Bool
type_eq tcp tcp = true

health_check_eq : HealthCheck → HealthCheck → Bool
health_check_eq a b =
    port_eq a.port b.port
    && port_eq a.consider_healthy_threshold b.consider_healthy_threshold
    && port_eq a.consider_unhealthy_threshold b.consider_unhealthy_threshold
    && type_eq a.type b.type
    && port_eq a.frequency_secs b.frequency_secs

health_checks_eq : Option HealthCheck → Option HealthCheck → Bool
health_checks_eq none none = true
health_checks_eq (some a) (some b) = health_check_eq a b
health_checks_eq _ _ = false

unfoldable pub endpoint_eq : Endpoint → Endpoint → Bool
unfolding health_check_eq health_checks_eq
endpoint_eq a b =
    a.port == b.port
    && str_eq a.dns b.dns
    && a.maxconns == b.maxconns
    && a.maxidle == b.maxidle
    && bool_eq a.enabled b.enabled
    && health_checks_eq a.healthcheck b.healthcheck

unfoldable pub ssh_configuration_eq : SshConfiguration → SshConfiguration → Bool
ssh_configuration_eq a b =
    a.port == b.port
    && a.max == b.max
    && str_eq a.hostname b.hostname
    && bool_eq a.enabled b.enabled
    && a.maxidle == b.maxidle

bool_eq_iff : (a b : Bool) → (bool_eq a b ≡ true) ↔ (a ≡ b)
bool_eq_iff a b = ground arith

port_eq_iff : (a b : Option ℕ) → (port_eq a b ≡ true) ↔ (a ≡ b)
port_eq_iff a b = ground arith

type_eq_iff : (a b : HealthCheckType) → (type_eq a b ≡ true) ↔ (a ≡ b)
type_eq_iff tcp tcp = ((λ _. refl), (λ _. refl))

health_check_eq_iff : (a b : HealthCheck) → (health_check_eq a b ≡ true) ↔ (a ≡ b)
unfolding health_check_eq
health_check_eq_iff a b = ground (
  arith,
  type_eq_iff a.type b.type,
  port_eq_iff a.port b.port,
  port_eq_iff a.consider_healthy_threshold b.consider_healthy_threshold,
  port_eq_iff a.consider_unhealthy_threshold b.consider_unhealthy_threshold,
  port_eq_iff a.frequency_secs b.frequency_secs,
)

health_checks_eq_iff : (a b : Option HealthCheck) → (health_checks_eq a b ≡ true) ↔ (a ≡ b)
unfolding health_checks_eq
health_checks_eq_iff none none = ground arith
health_checks_eq_iff none (some b) = ground arith
health_checks_eq_iff (some a) none = ground arith
health_checks_eq_iff (some a) (some b) = ground (arith, health_check_eq_iff a b)

pub Endpoint-eq_iff : (a b : Endpoint) → (endpoint_eq a b ≡ true) ↔ (a ≡ b)
unfolding endpoint_eq
Endpoint-eq_iff a b = ground (
  arith,
  eq_iff a.dns b.dns,
  bool_eq_iff a.enabled b.enabled,
  health_checks_eq_iff a.healthcheck b.healthcheck,
)

pub Endpoint-eq_refl : (a : Endpoint) → endpoint_eq a a ≡ true
Endpoint-eq_refl a = (Endpoint-eq_iff a a).1 refl

pub SshConfiguration-eq_iff : (a b : SshConfiguration) → (ssh_configuration_eq a b ≡ true) ↔ (a ≡ b)
unfolding ssh_configuration_eq
SshConfiguration-eq_iff a b =
    ground (arith, eq_iff a.hostname b.hostname, bool_eq_iff a.enabled b.enabled)
