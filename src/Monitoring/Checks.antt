-- ===== src/Monitoring/Checks.antt =====
-- internal/app/monitoring.go: from the result of a check to incidents and alerts.
pub mod Consistency
pub mod Decision
pub mod Silence
pub mod Outage
use pingcast.Prelude.{
  ℕ, ltb, leb, Bool, true, false, ◌&&◌, if◌then◌else◌, Option, none, some, List, [], ◌∷◌, Text,
}
use pingcast.Prelude.Int.{ℤ, pos, ltb_ℤ}
use pingcast.Error.{Error, sentinel, errorf, wrap, incident_exists, is_err, Result, ok, err}
use pingcast.Domain.Monitor.{
  Monitor, MonitorType, MonitorStatus, CheckResult, AlertEvent, AlertEventType, alert_down,
  alert_up, is_down, is_up,
}
use pingcast.Domain.Incident.{Incident, investigating}
use pingcast.Store.World.{World, Env, record_check, incident_opened, incident_resolved}
use pingcast.Store.World
use pingcast.Store.Exec.{Exec, ◌>>=◌, ◌>>◌, pure, throw, wrapping, attempt, call, count_metric}
use pingcast.Store.Checks as Results
use pingcast.Store.Incidents
use pingcast.Store.Incidents.{CreateIncidentInput}
use pingcast.Store.Monitors
use pingcast.Store.Windows

abbrev pub or_empty : Option Text → Text
or_empty none = []
or_empty (some t) = t

-- An error of the registry is logged, and the target is then empty.
unfoldable pub publish_alert : Env → Monitor → AlertEventType → Text → ℕ → Exec (Unit {0})
publish_alert env m event cause incident_id = call env World.Op.publish_alert λ w. (
  ok tt,
  record w {
    alerts =
        record {
          monitor_id = m.id;
          user_id = m.user_id;
          incident_id = incident_id;
          monitor_name = m.name;
          monitor_target = or_empty (env.target m.type m.check_config);
          event = event;
          cause = cause;
        }
        ∷ w.alerts;
  },
)

-- `s.maintenance != nil`; an error of the query is logged, and does not stop the alert.
unfoldable pub in_maintenance : Env → ℕ → Exec Bool
in_maintenance env monitor_id =
    if env.has_maintenance
    then (do
      r ← attempt (Windows.active env monitor_id)
      pure (elim r [ ok active ↦ active | err e ↦ false ]))
    else pure false

-- The error of `incidents.Create`: that an incident is open already is no error here.
abbrev create_failed : Error → Exec (Unit {0})
create_failed e = if is_err e incident_exists then pure tt else throw (wrap "create incident: %w" e)

abbrev pub opened : Env → Monitor → Text → Result Incident → Exec (Unit {0})
opened env m cause (err e) = create_failed e
opened env m cause (ok i) =
    count_metric env incident_opened >> publish_alert env m alert_down cause i.id

-- The input of `incidents.Create` for a monitor found down.
abbrev pub detected : Monitor → Text → CreateIncidentInput
detected m cause = record {
  monitor_id = m.id;
  cause = cause;
  state = investigating;
  is_manual = false;
  title = none;
}

unfoldable pub open_incident : Env → Monitor → CheckResult → Exec (Unit {0})
open_incident env m r = do
  let cause = or_empty r.error_message
  created ← attempt (Incidents.create env (detected m cause))
  opened env m cause created

unfoldable pub handle_down : Env → Monitor → CheckResult → Exec (Unit {0})
handle_down env m r = do
  failures ← wrapping "consecutive failures: %w" (Results.consecutive env m.id)
  if ltb_ℤ (pos failures) m.alert_after_failures then pure tt else do
    in_cooldown ← wrapping "cooldown check: %w" (Incidents.cooling env m.id)
    if in_cooldown then pure tt else do
      maintenance ← in_maintenance env m.id
      if maintenance then pure tt else open_incident env m r

-- An error of `GetOpen` is taken for "no open incident".
abbrev pub recovered : Env → Monitor → Result Incident → Exec (Unit {0})
recovered env m (err e) = pure tt
recovered env m (ok i) = do
  wrapping "resolve incident: %w" (Incidents.resolve env i.id env.now)
  count_metric env incident_resolved
  publish_alert env m alert_up [] i.id

unfoldable pub handle_recovery : Env → Monitor → Exec (Unit {0})
handle_recovery env m = do found ← attempt (Incidents.open_of env m.id); recovered env m found

unfoldable pub process_check_result : Env → Monitor → CheckResult → Exec (Unit {0})
process_check_result env m r = do
  count_metric env (record_check m.type r.status r.response_time_ms)
  wrapping "insert check result: %w" (Results.insert env r)
  attempt (Results.record_check env m.id r.checked_at (is_up r.status))
  previous ← wrapping "update status: %w" (Monitors.update_status env m.id r.status)
  if is_down r.status
      then handle_down env m r
      else if is_up r.status && is_down previous
      then handle_recovery env m
      else pure tt

-- `registry.Get`: a type with no checker is refused.
unfoldable pub run_check :
    (MonitorType → Option (Monitor → CheckResult)) → Env → Monitor → Exec (Unit {0})
run_check registry env m = elim (registry m.type) [
  | none ↦ throw (wrap "unknown monitor type %s: %w" (errorf "unknown monitor type: %s"))
  | some check ↦ process_check_result env m (check m)
]
