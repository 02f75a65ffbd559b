-- ===== src/Domain/Monitor.antt =====
-- internal/domain/monitor.go, internal/domain/alert.go and internal/domain/maintenance_window.go:
-- what a monitor is, one result of checking it, and the events about it. Identifiers (UUIDs and
-- serial numbers) are numbers of which only equality matters, times are numbers of seconds.
use pingcast.Prelude.{ℕ, Bool, true, false, not, ◌&&◌, Option, ltb, Text}
use pingcast.Prelude.Int.{ℤ}

pub data MonitorStatus : Type 0 where
  up down unknown : MonitorStatus

-- `MonitorType` is a string: `other` is any text but the three known ones.
pub data MonitorType : Type 0 where
  http tcp dns : MonitorType
  other : Text → MonitorType

pub record Monitor : Type 0 where
  pub id : ℕ
  pub user_id : ℕ
  pub name : Text
  pub type : MonitorType
  pub check_config : Text
  pub interval_seconds : ℤ
  pub alert_after_failures : ℤ
  pub is_paused : Bool
  pub is_public : Bool
  pub current_status : MonitorStatus
  pub created_at : ℕ

pub record CheckResult : Type 0 where
  pub monitor_id : ℕ
  pub status : MonitorStatus
  pub status_code : Option ℕ
  pub response_time_ms : ℕ
  pub error_message : Option Text
  pub checked_at : ℕ

pub data MonitorAction : Type 0 where
  create update delete pause resume : MonitorAction

pub data AlertEventType : Type 0 where
  alert_down alert_up alert_ssl_expiring : AlertEventType

pub record AlertEvent : Type 0 where
  pub monitor_id : ℕ
  pub user_id : ℕ
  pub incident_id : ℕ
  pub monitor_name : Text
  pub monitor_target : Text
  pub event : AlertEventType
  pub cause : Text

pub record MaintenanceWindow : Type 0 where
  pub id : ℕ
  pub monitor_id : ℕ
  pub starts_at : ℕ
  pub ends_at : ℕ
  pub reason : Text
  pub created_at : ℕ

-- `status == StatusDown`.
abbrev pub is_down : MonitorStatus → Bool
is_down down = true
is_down _ = false

abbrev pub is_up : MonitorStatus → Bool
is_up up = true
is_up _ = false

-- `MonitorType.Valid`.
unfoldable pub valid_type : MonitorType → Bool
valid_type (other t) = false
valid_type _ = true

-- `MaintenanceWindow.ActiveAt`: not before the start, and before the end.
unfoldable pub active_at : MaintenanceWindow → ℕ → Bool
active_at w now = not (ltb now w.starts_at) && ltb now w.ends_at
