-- ===== src/Monitoring/Checks/Decision.antt =====
-- When a check result opens or closes an incident and what is then published, against a
-- description of that decision.
use pingcast.Prelude.{
  ℕ, suc, Bool, not, ◌&&◌, if◌then◌else◌, Option, none, some, [], ◌∷◌, any, find, update_where, ◌≡◌,
  Text, arith,
}
use pingcast.Prelude.Int.{pos, ltb_ℤ}
use pingcast.Error.{ok}
use pingcast.Domain.Monitor.{
  Monitor, CheckResult, AlertEvent, AlertEventType, MonitorStatus, down, up, alert_down, alert_up,
  is_up,
}
use pingcast.Domain.Incident.{Incident}
use pingcast.Store.World.{
  World, Env, Db, MonitorRow, Metric, record_check, incident_opened, incident_resolved,
}
use pingcast.Store.Exec.{◌>>=◌}
use pingcast.Store.Checks as Results
use pingcast.Store.Checks.{insert_desc, upsert_hour, trunc_hour, count_failures}
use pingcast.Store.Incidents
use pingcast.Store.Incidents.{is_open_for, has_id, close_at, new_row, resolved_since}
use pingcast.Store.Monitors
use pingcast.Store.Monitors.{is_live}
use pingcast.Store.Windows
use pingcast.Store.Windows.{any_active}
use pingcast.Monitoring.Checks.{
  or_empty, publish_alert, in_maintenance, detected, open_incident, handle_down, handle_recovery,
  process_check_result,
}

-- The environment in which no outside call fails.
abbrev pub quiet : Env → Env
quiet env = record env { fault = λ op. none }

abbrev counted : Env → Metric → World → World
counted env x w = if env.has_metrics then record w { metrics = x ∷ w.metrics } else w

abbrev alert : Env → Monitor → AlertEventType → Text → ℕ → AlertEvent
alert env m event cause id = record {
  monitor_id = m.id;
  user_id = m.user_id;
  incident_id = id;
  monitor_name = m.name;
  monitor_target = or_empty (env.target m.type m.check_config);
  event = event;
  cause = cause;
}

-- The result is stored, counted for the hour, and becomes the status of the monitor.
abbrev pub recorded : Env → Monitor → CheckResult → World → World
recorded env m r w =
    let w' = counted env (record_check m.type r.status r.response_time_ms) w in
    record w' {
      db = record w'.db {
        check_results = insert_desc r w.db.check_results;
        uptime =
            upsert_hour m.id (trunc_hour r.checked_at) (if is_up r.status then 1 else 0)
              w.db.uptime;
        monitors =
            update_where (is_live m.id)
              (λ row. record row { mon = record row.mon { current_status = r.status } })
              w.db.monitors;
      };
    }

-- Enough failures in a row, no incident resolved in the last five minutes, no maintenance, and no
-- incident open.
abbrev pub should_open : Env → Monitor → Db → Bool
should_open env m db =
    not (ltb_ℤ (pos (count_failures m.id db.check_results)) m.alert_after_failures)
    && not (any (resolved_since env.now m.id) db.incidents)
    && not (env.has_maintenance && any_active env.now m.id db.windows)
    && not (any (is_open_for m.id) db.incidents)

-- A new incident, and its alert.
abbrev pub announced : Env → Monitor → CheckResult → World → World
announced env m r w =
    let i = new_row w.db.next_incident env.now (detected m (or_empty r.error_message)) in
    let w' = counted env incident_opened (record w {
      db = record w.db { incidents = i ∷ w.db.incidents; next_incident = suc w.db.next_incident };
    }) in
    record w' { alerts = alert env m alert_down (or_empty r.error_message) i.id ∷ w'.alerts }

open_incident-quiet :
    (env : Env) (m : Monitor) (r : CheckResult) (w : World)
    → open_incident (quiet env) m r w
      ≡ (ok tt, if any (is_open_for m.id) w.db.incidents then w else announced env m r w)
unfolding open_incident ◌>>=◌ Incidents.create publish_alert
open_incident-quiet env m r w = ground arith

handle_down-quiet :
    (env : Env) (m : Monitor) (r : CheckResult) (w : World)
    → handle_down (quiet env) m r w
      ≡ (ok tt, if should_open env m w.db then announced env m r w else w)
unfolding handle_down ◌>>=◌ Results.consecutive Incidents.cooling in_maintenance Windows.active
handle_down-quiet env m r w = ground (arith, open_incident-quiet env m r w)

-- The recovery: the open incident is closed at the current time, and its alert.
abbrev pub closed : Env → Monitor → Option Incident → World → World
closed env m none w = w
closed env m (some i) w =
    let w' = counted env incident_resolved (record w {
      db = record w.db { incidents = update_where (has_id i.id) (close_at env.now) w.db.incidents };
    }) in
    record w' { alerts = alert env m alert_up [] i.id ∷ w'.alerts }

handle_recovery-quiet :
    (env : Env) (m : Monitor) (w : World)
    → handle_recovery (quiet env) m w
      ≡ (ok tt, closed env m (find (is_open_for m.id) w.db.incidents) w)
unfolding handle_recovery ◌>>=◌ Incidents.open_of Incidents.resolve publish_alert
handle_recovery-quiet env m w = ground arith

-- What processing a result does to the world, from the status that the monitor had.
abbrev pub expected : Env → Monitor → CheckResult → MonitorStatus → World → World
expected env m r previous w =
    let w' = recorded env m r w in
    elim r.status [
      | down ↦ if should_open env m w'.db then announced env m r w' else w'
      | up ↦ elim previous [
        | down ↦ closed env m (find (is_open_for m.id) w'.db.incidents) w'
        | _ ↦ w'
      ]
      | _ ↦ w'
    ]

-- If no outside call fails and the monitor is not deleted, processing a check result succeeds. It
-- stores the result, counts it for the hour and sets the status. A down result then opens an
-- incident and publishes its down alert exactly if `should_open` holds of the tables with the new
-- result. An up result after the status down closes the monitor's open incident, if there is one,
-- and publishes its up alert. Nothing else is changed or published.
pub process-expected :
    (env : Env) (m : Monitor) (r : CheckResult) (w : World) (row : MonitorRow)
    → find (is_live m.id) w.db.monitors ≡ some row
    → process_check_result (quiet env) m r w ≡ (ok tt, expected env m r row.mon.current_status w)
unfolding process_check_result ◌>>=◌ Results.insert Results.record_check Monitors.update_status
process-expected env m r w row live = ground (
  arith,
  handle_down-quiet env m r (recorded env m r w),
  handle_recovery-quiet env m (recorded env m r w),
)
