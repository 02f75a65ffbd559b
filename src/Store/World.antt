-- ===== src/Store/World.antt =====
-- The state that one call of a service reads and writes, and the environment that it runs in.
use pingcast.Prelude.{ℕ, String, Bool, Option, List, Text}
use pingcast.Error.{Error}
use pingcast.Domain.Monitor.{
  Monitor, MonitorType, CheckResult, AlertEvent, MonitorAction, MaintenanceWindow, MonitorStatus,
}
use pingcast.Domain.Incident.{Incident, IncidentUpdate}
use pingcast.Domain.User.{User}
use pingcast.Domain.CustomDomain.{CustomDomain}
use pingcast.Domain.Group.{MonitorGroup}
use pingcast.Domain.Subscriber.{StatusSubscriber, BlogSubscriber}
use pingcast.Domain.ApiKey.{ApiKey}
use pingcast.Domain.Mail.{Mail}
use pingcast.Domain.Channel.{NotificationChannel, ChannelType}
use pingcast.Prelude.Int.{ℤ}

-- internal/port/eventbus.go. A field that is left out of the JSON is `none`.
pub record MonitorChangedEvent : Type 0 where
  pub action : MonitorAction
  pub monitor_id : ℕ
  pub name : Text
  pub type : Option MonitorType
  pub check_config : Text
  pub interval_seconds : ℤ
  pub alert_after_failures : ℤ
  pub is_paused : Bool

-- A row of `monitors`: `deleted` says that `deleted_at` is set.
pub record MonitorRow : Type 0 where
  pub mon : Monitor
  pub deleted : Bool
  pub group_id : Option ℕ

pub record ChannelRow : Type 0 where
  pub chan : NotificationChannel
  pub deleted : Bool

-- A row of `monitor_uptime_hourly`.
pub record UptimeHour : Type 0 where
  pub monitor_id : ℕ
  pub hour : ℕ
  pub total_checks : ℕ
  pub successful_checks : ℕ

-- A row of `failed_alerts`: `error` says how many of how many channels failed.
pub record FailedAlert : Type 0 where
  pub event : AlertEvent
  pub failed : ℕ
  pub total : ℕ
  pub failed_channel_ids : List ℕ

-- internal/port/repository.go, and the branding columns of `users`.
pub record Branding : Type 0 where
  pub logo_url : Option Text
  pub accent_color : Option Text
  pub custom_footer_text : Option Text

-- A row of `users`.
pub record UserRow : Type 0 where
  pub user : User
  pub password_hash : Text
  pub customer_id : Option Text
  pub subscription_id : Option Text
  pub variant : Option Text
  pub branding : Branding
  pub deleted : Bool

-- A key of the session store (internal/adapter/redis/session.go), which is gone when it expires.
pub record Session : Type 0 where
  pub token : Text
  pub user_id : ℕ
  pub expires_at : ℕ

-- internal/port/repository.go: a row of `custom_domain_certs`.
pub record CustomDomainCert : Type 0 where
  pub custom_domain_id : ℕ
  pub cert_pem : Text
  pub key_pem : Text
  pub chain_pem : Text
  pub expires_at : ℕ

-- The tables. `check_results` stands in the order of `checked_at DESC`, the others newest first.
pub record Db : Type 0 where
  pub monitors : List MonitorRow
  pub check_results : List CheckResult
  pub uptime : List UptimeHour
  pub incidents : List Incident
  pub next_incident : ℕ
  pub updates : List IncidentUpdate
  pub next_update : ℕ
  pub windows : List MaintenanceWindow
  pub next_window : ℕ
  pub channels : List ChannelRow
  pub bindings : List (ℕ × ℕ)
  pub failed_alerts : List FailedAlert
  pub users : List UserRow
  pub domains : List CustomDomain
  pub next_domain : ℕ
  pub certs : List CustomDomainCert
  pub groups : List MonitorGroup
  pub next_group : ℕ
  pub subscribers : List StatusSubscriber
  pub next_subscriber : ℕ
  pub blog_subscribers : List BlogSubscriber
  pub next_blog_subscriber : ℕ
  pub api_keys : List ApiKey

-- What `port.Metrics` is told.
pub data Metric : Type 0 where
  record_check : MonitorType → MonitorStatus → ℕ → Metric
  incident_opened incident_resolved monitor_created monitor_deleted : Metric
  alert_sent : ChannelType → Bool → String → Metric
  alert_all_failed alert_dead_lettered : Metric

-- The database, and what was published on the two streams, counted, and handed to the senders of
-- channels, the latest first, the session store, the
-- map from active hostnames to users that the process keeps, and the mails handed to the mailer.
pub record World : Type 0 where
  pub db : Db
  pub alerts : List AlertEvent
  pub events : List MonitorChangedEvent
  pub metrics : List Metric
  pub sends : List (ℕ × AlertEvent)
  pub sessions : List Session
  pub hostname_cache : List (Text × ℕ)
  pub mails : List Mail

-- The calls that can fail for a reason outside the program.
pub data Op : Type 0 where
  insert_check consecutive_failures record_uptime update_status : Op
  get_monitor count_monitors create_monitor update_monitor toggle_pause delete_monitor : Op
  create_incident get_incident get_open resolve update_state in_cooldown : Op
  create_update create_window has_active commit : Op
  publish_alert publish_event : Op
  get_channel list_for_monitor list_by_user create_channel update_channel delete_channel : Op
  bind_channel unbind_channel : ℕ → Op
  create_failed_alert : ℕ → Op
  create_user get_user get_user_by_email update_plan update_lemon_squeezy : Op
  founder_lock count_founders set_variant : Op
  create_domain list_pending list_active delete_domain : Op
  update_domain : ℕ → Op
  create_group update_group delete_group assign_group list_groups list_memberships : Op
  list_active_monitors list_ssl_monitors : Op
  get_user_by_slug list_public get_branding list_incidents get_uptime delete_window : Op
  create_subscriber confirm_subscriber remove_subscriber list_subscribers : Op
  create_blog confirm_blog remove_blog count_blog : Op
  send_mail : ℕ → Op
  get_api_key touch_api_key create_api_key list_api_keys delete_api_key : Op
  update_branding list_updates : Op
  get_domain list_domains upsert_cert list_expiring : Op
  create_session get_session touch_session delete_session : Op

-- The environment of one call: the clock, which outside calls fail and how, which optional
-- dependencies are not nil, the identifier that the database draws next, and the checkers of the
-- registry (internal/adapter/checker), whose validation of a configuration is `none` for a nil error.
pub record Env : Type 0 where
  pub now : ℕ
  pub fault : Op → Option String
  pub has_metrics : Bool
  pub has_maintenance : Bool
  pub has_events : Bool
  pub new_id : ℕ
  pub validate_config : MonitorType → Text → Option Error
  pub target : MonitorType → Text → Option Text
