-- ===== src/Accounts.antt =====
-- internal/app/auth.go and internal/app/billing.go: who users are, and what they pay for.
pub mod Auth
pub mod Billing
