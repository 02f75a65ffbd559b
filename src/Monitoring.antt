-- ===== src/Monitoring.antt =====
-- `MonitoringService` of internal/app/monitoring.go: the processing of check results, incidents that
-- users write, maintenance windows and the life of a monitor. Definitions stand in Checks, Lifecycle
-- and Crud; the other children prove things about them.
pub mod Checks
pub mod Lifecycle
pub mod Crud
pub mod Traces
pub mod Groups
pub mod StatusPage
