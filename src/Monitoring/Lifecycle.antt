-- ===== src/Monitoring/Lifecycle.antt =====
-- internal/app/monitoring.go: incidents and maintenance windows that a user writes.
pub mod Consistency
pub mod Effects
use pingcast.Prelude.{
  ℕ, ltb, ◌==◌, Bool, true, not, if◌then◌else◌, Option, none, some, Text, trim_space, is_empty,
}
use pingcast.Error.{Error, sentinel, errorf, forbidden}
use pingcast.Domain.Monitor.{MaintenanceWindow}
use pingcast.Domain.Incident.{
  Incident, IncidentUpdate, IncidentState, investigating, resolved, state_eq, valid,
  can_transition_to,
}
use pingcast.Store.World.{Env}
use pingcast.Store.Exec.{Exec, ◌>>=◌, ◌>>◌, pure, check, wrapping, transaction}
use pingcast.Store.Incidents
use pingcast.Store.Incidents.{CreateIncidentInput}
use pingcast.Store.Monitors
use pingcast.Store.Windows

-- `if test { return err }`.
abbrev pub fail_if : Bool → Error → Option Error
fail_if b e = if b then some e else none

pub record ChangeIncidentStateInput : Type 0 where
  pub incident_id : ℕ
  pub user_id : ℕ
  pub new_state : IncidentState
  pub update_body : Text

-- The body of the transaction.
unfoldable pub change_tables : Env → ChangeIncidentStateInput → Exec IncidentUpdate
change_tables env in' = do
  wrapping "update state: %w" (Incidents.update_state env in'.incident_id in'.new_state)
  wrapping "resolve: %w" (
      if state_eq in'.new_state resolved
      then Incidents.resolve env in'.incident_id env.now
      else pure tt)
  wrapping "append update: %w" (
      Incidents.append_update env (record {
        incident_id = in'.incident_id;
        state = in'.new_state;
        body = in'.update_body;
        posted_by_user_id = in'.user_id;
      }))

unfoldable pub change_incident_state : Env → ChangeIncidentStateInput → Exec IncidentUpdate
unfolding valid can_transition_to
change_incident_state env in' = do
  check (fail_if (not (valid in'.new_state)) (errorf "invalid incident state %q"))
  check (fail_if (is_empty (trim_space in'.update_body)) (errorf "update body is required"))
  inc ← Incidents.get_by_id env in'.incident_id
  monitor ← Monitors.get_by_id env inc.monitor_id
  check (fail_if (not (monitor.user_id == in'.user_id)) (sentinel forbidden))
  check (can_transition_to inc.state in'.new_state)
  transaction env (change_tables env in')

pub record CreateManualIncidentInput : Type 0 where
  pub monitor_id : ℕ
  pub user_id : ℕ
  pub title : Text
  pub body : Text

-- The cause falls back to the title.
abbrev pub written : CreateManualIncidentInput → Text → CreateIncidentInput
written in' title = record {
  monitor_id = in'.monitor_id;
  cause = title;
  state = investigating;
  is_manual = true;
  title = some title;
}

unfoldable pub create_tables :
    Env → CreateManualIncidentInput → Text → Text → Exec (Incident × IncidentUpdate)
create_tables env in' title body = do
  created ← wrapping "create incident: %w" (Incidents.create env (written in' title))
  u ← wrapping "append initial update: %w" (
      Incidents.append_update env (record {
        incident_id = created.id;
        state = investigating;
        body = body;
        posted_by_user_id = in'.user_id;
      }))
  pure (created, u)

unfoldable pub create_manual_incident :
    Env → CreateManualIncidentInput → Exec (Incident × IncidentUpdate)
create_manual_incident env in' = do
  check (fail_if (is_empty (trim_space in'.title)) (errorf "title is required"))
  check (fail_if (is_empty (trim_space in'.body)) (errorf "body is required"))
  monitor ← Monitors.get_by_id env in'.monitor_id
  check (fail_if (not (monitor.user_id == in'.user_id)) (sentinel forbidden))
  transaction env (create_tables env in' (trim_space in'.title) (trim_space in'.body))

pub record ScheduleMaintenanceInput : Type 0 where
  pub monitor_id : ℕ
  pub user_id : ℕ
  pub starts_at : ℕ
  pub ends_at : ℕ
  pub reason : Text

unfoldable pub schedule_maintenance : Env → ScheduleMaintenanceInput → Exec MaintenanceWindow
schedule_maintenance env in' = do
  check (fail_if (not (ltb in'.starts_at in'.ends_at)) (errorf "ends_at must be after starts_at"))
  monitor ← Monitors.get_by_id env in'.monitor_id
  check (fail_if (not (monitor.user_id == in'.user_id)) (sentinel forbidden))
  Windows.create env (record {
    monitor_id = in'.monitor_id;
    starts_at = in'.starts_at;
    ends_at = in'.ends_at;
    reason = in'.reason;
  })

unfoldable pub delete_maintenance_window : Env → ℕ → ℕ → Exec (Unit {0})
delete_maintenance_window env id user_id = Windows.delete env id user_id
