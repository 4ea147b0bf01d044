-- ===== src/Config/Data.antt =====
-- The data types of src/config.rs and the constructors `ConcreteHealthCheck::new`, `Ssh::new`.
use Prim.Native.String.{◌++◌ as str_append}
use ebbflow.Prelude.{ℕ, String, Bool, List, Option, unwrap_or, str_eq, if◌then◌else◌}
use ebbflow.Prelude.Result.{Result, ok, err}

pub data HealthCheckType : Type 0 where
  tcp : HealthCheckType

-- `HealthCheckType::from_str`, with `to_lowercase` and `trim` of the standard library.
unfoldable from_str : (String → String) → (String → String) → String → Result String HealthCheckType
from_str to_lowercase trim s =
    if str_eq (trim (to_lowercase s)) "tcp"
    then ok tcp
    else err (str_append "Could not parse " (str_append s " into a HealthCheckType"))

pub record HealthCheck : Type 0 where
  pub port : Option ℕ
  pub consider_healthy_threshold : Option ℕ
  pub consider_unhealthy_threshold : Option ℕ
  pub type : HealthCheckType
  pub frequency_secs : Option ℕ

pub record Endpoint : Type 0 where
  pub port : ℕ
  pub dns : String
  pub maxconns : ℕ
  pub maxidle : ℕ
  pub enabled : Bool
  pub healthcheck : Option HealthCheck

pub record Ssh : Type 0 where
  pub maxconns : ℕ
  pub port : ℕ
  pub enabled : Bool
  pub maxidle : ℕ
  pub hostname_override : Option String

pub record EbbflowDaemonConfig : Type 0 where
  pub endpoints : List Endpoint
  pub ssh : Option Ssh
  pub loglevel : Option String

pub record ConcreteHealthCheck : Type 0 where
  pub port : ℕ
  pub consider_healthy_threshold : ℕ
  pub consider_unhealthy_threshold : ℕ
  pub type : HealthCheckType
  pub frequency_secs : ℕ

-- `ConcreteHealthCheck::new`
unfoldable pub to_concrete : ℕ → HealthCheck → ConcreteHealthCheck
to_concrete default_port hc = record {
  port = unwrap_or hc.port default_port;
  consider_healthy_threshold = unwrap_or hc.consider_healthy_threshold 3;
  consider_unhealthy_threshold = unwrap_or hc.consider_unhealthy_threshold 3;
  type = hc.type;
  frequency_secs = unwrap_or hc.frequency_secs 5;
}

-- `Ssh::new`
unfoldable pub ssh_new : Bool → Option String → Ssh
ssh_new enabled hostname = record {
  maxconns = 20;
  port = 22;
  enabled = enabled;
  maxidle = 5;
  hostname_override = hostname;
}
