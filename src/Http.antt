-- ===== src/Http.antt =====
-- internal/adapter/http: the handlers of the API, and what stands in front of them.
pub mod Webhook
pub mod Access
pub mod Routes
pub mod Respond
pub mod Handlers
