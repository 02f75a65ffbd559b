-- ===== src/Lib.antt =====
-- Pingcast: an uptime monitor. Workers check monitors and feed each result to the monitoring
-- service, which stores it and opens and closes incidents; what should be told to users goes out as
-- alert events, which the notifier hands to the channels of the monitor.
--
-- A method of a service is a function of the environment of the call and of the world: it returns
-- its result or its error, and the world after it, also after an error. The world
-- (Store/World) holds the tables, and what was published, counted and sent. The environment holds
-- the clock, the outside calls that fail and the optional dependencies that are present. The
-- combinators of Store/Exec are those of the code: a checked error, a wrapped error, an error that
-- is only logged, and a transaction, which puts the tables back on an error.
--
-- Error             internal/domain/errors.go, and the wrapping of errors
-- Domain            internal/domain: users, monitors, incidents, channels, checks of input
-- Store             internal/adapter/postgres with its queries (internal/sqlc/queries)
-- Monitoring.Checks     ProcessCheckResult and RunCheck of internal/app/monitoring.go
-- Monitoring.Lifecycle  ChangeIncidentState, CreateManualIncident, ScheduleMaintenance
-- Monitoring.Crud       CreateMonitor, UpdateMonitor, DeleteMonitor, TogglePause
-- Monitoring.Traces     sequences of calls of the service
-- Alerts.Delivery   Handle of internal/app/alert.go; the order in which senders report is an argument
-- Alerts.Manage     the channels of a user and their bindings (internal/app/alert.go)
-- Accounts.Auth     registration, login and sessions (internal/app/auth.go)
-- Accounts.Billing  the cap on founders (internal/app/billing.go), also in calls that interleave
-- CustomDomains     hostnames of users, their validation and the renewal of their certificates
--                   (internal/app/custom_domain.go, internal/adapter/acme/lego_provisioner.go)
-- Subscriptions     readers of a status page and of the newsletter (internal/app/subscription.go and
--                   internal/app/blog_subscription.go); a mail is its template and values
-- Http.Webhook      the calls of the payment provider and of Telegram (internal/adapter/http/webhook.go)
-- Imports           the import of another provider's status page (internal/app/atlassian_importer.go)
-- Scheduler         the instance that publishes due checks (internal/adapter/checker/leader_scheduler.go)
-- Scheduler.Events  what the scheduler does with the events about monitors (internal/bootstrap/scheduler.go)
-- Scheduler.SslScan the daily scan of certificates and the locked loop that runs it
--                   (internal/bootstrap/scheduler.go, internal/adapter/checker/ssl_probe.go)
-- Streams           what the subscriptions do with messages (internal/adapter/nats); the broker, which
--                   delivers again what is refused, is outside
-- Crypto            the encryption of columns with versions of the key (internal/crypto/crypto.go)
-- Http.Routes       the operations that the API registers (internal/api/gen/server.go)
-- Http.Access       authentication, rate limits and the Pro gate in front of the API
--                   (internal/adapter/http/middleware.go, setup.go and others)
-- Monitoring.Groups  the groups of monitors (internal/app/monitoring.go and its repository)
-- Monitoring.StatusPage  the public page of a user (internal/app/monitoring.go)
-- Domain.Redaction  what answers show of the configuration of a channel (internal/domain/redaction.go)
-- Http.Respond      the answer to an error (internal/adapter/httperr/response.go)
-- Http.Handlers     the handlers of the API (internal/adapter/http/server.go, incidents.go, maintenance.go,
--                   monitor_groups.go and custom_domains.go): who asks, the body that the parser read, the
--                   call of the service, and the answer
-- Examples          concrete inputs
--
-- Identifiers are natural numbers of which only equality is used, times are numbers of seconds,
-- strings are lists of code points, and Go's `int` is an unbounded integer: the values that the
-- program compares stay far below 2^63. The database is modelled by lists of rows, with the partial
-- unique index that allows one open incident for a monitor; a call of a service is one step, but in
-- Accounts.Billing.Race, where the statements of calls interleave, and an
-- outside call fails or is made as the environment says. All recursion is on the structure of a
-- list, so there is no fuel.
--
-- Not modelled: the parsers of requests, the handlers that render feeds and badges, the broker of the
-- message streams, the network side of checkers, senders and certificates, the removal of old results,
-- configuration, logging and traces, whose effects are parameters where the modelled code uses them.
pub mod Prelude
pub mod Error
pub mod Domain
pub mod Store
pub mod Monitoring
pub mod Alerts
pub mod Accounts
pub mod CustomDomains
pub mod Subscriptions
pub mod Http
pub mod Imports
pub mod Scheduler
pub mod Streams
pub mod Crypto
pub mod Examples
