-- ===== src/Domain.antt =====
-- The domain types of internal/domain and their pure rules, one child for each group of files.
pub mod Incident
pub mod Monitor
pub mod User
pub mod Validate
pub mod Channel
pub mod CustomDomain
pub mod Group
pub mod Redaction
pub mod Subscriber
pub mod ApiKey
pub mod Mail
