-- ===== src/Config.antt =====
-- The configuration of the client: the data of src/config.rs, without its file operations
-- (Config/Files) and with the derived equality of an endpoint.
mod Equality
pub mod Files
pub mod Paths
pub mod SaveLoad
pub use Equality.{Endpoint-eq_iff, Endpoint-eq_refl, SshConfiguration-eq_iff}
unfoldable pub use Equality.{endpoint_eq, ssh_configuration_eq}
pub use Equality.{SshConfiguration, bool_eq}
unfoldable pub use Data.{to_concrete, ssh_new}
pub use Data.{
  HealthCheckType, tcp, HealthCheck, Endpoint, Ssh, EbbflowDaemonConfig, ConcreteHealthCheck,
}
mod Data
