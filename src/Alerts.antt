-- ===== src/Alerts.antt =====
-- internal/app/alert.go: delivering an alert to the channels of a monitor, and the channels that a
-- user keeps.
pub mod Delivery
pub mod Manage
