-- ===== src/Store.antt =====
-- What the services reach through their ports: the tables of the database, what is published and
-- counted, and the environment of one call. The repositories of internal/adapter/postgres are the
-- children, with the queries of internal/sqlc/queries that they run.
pub mod World
pub mod Exec
pub mod Checks
pub mod Incidents
pub mod Monitors
pub mod Windows
pub mod Channels
pub mod FailedAlerts
pub mod Users
pub mod Sessions
pub mod Domains
pub mod Certs
pub mod Subscribers
pub mod BlogSubscribers
pub mod ApiKeys
pub mod Groups
