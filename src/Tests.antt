-- ===== src/Tests.antt =====
-- Concrete inputs, and each theorem that has hypotheses at one of them.
mod Fixtures
mod RunnerCases
mod WireCases
mod ProxyCases
mod PoolCases
mod ConnectionCases
mod CliCases
mod SettingsCases
mod SupervisorCases
mod ReloadCases
mod ServerCases
mod InitCases
mod BlockingCases
mod ServedCases
mod TaskCases
mod SshCases
