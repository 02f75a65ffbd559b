-- ===== src/Examples.antt =====
-- Concrete inputs on which the theorems are applied.
pub mod Data
mod Checks
mod Lifecycle
mod Crud
mod Traces
mod Alerts
mod Accounts
mod CustomDomains
mod Subscriptions
mod Webhook
mod Access
mod Handlers
mod Groups
mod StatusPage
mod Imports
mod Scheduler
mod SslScan
mod Follows
mod Crypto
