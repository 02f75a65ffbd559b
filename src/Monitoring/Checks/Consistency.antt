-- ===== src/Monitoring/Checks/Consistency.antt =====
-- Processing a check result keeps the table of incidents consistent.
use pingcast.Prelude.{ℕ, Bool, refl, Text, find, Option-cases, inl, inr}
use pingcast.Error.{Result, ok, err}
use pingcast.Domain.Monitor.{Monitor, CheckResult, MonitorStatus, AlertEventType}
use pingcast.Domain.Incident.{Incident}
use pingcast.Store.World.{Env}
use pingcast.Store.Exec.{attempt}
use pingcast.Store.Exec.Keeps.{Keeps, Keeps-call, Keeps-bind, Keeps-attempt, keeps_rules}
use pingcast.Store.Exec.Reads.{Reads-Keeps}
use pingcast.Store.Checks as Results
use pingcast.Store.Incidents
use pingcast.Store.Incidents.Consistency.{
  Consistent, create-Consistent, resolve-Consistent, open_of-Reads,
}
use pingcast.Store.Monitors
use pingcast.Store.Windows
use pingcast.Monitoring.Checks.{
  publish_alert, in_maintenance, open_incident, opened, handle_down, handle_recovery, recovered,
  process_check_result, detected, or_empty,
}

insert-Consistent : (env : Env) (r : CheckResult) → Keeps Consistent (Results.insert env r)
unfolding Results.insert
insert-Consistent env r = Keeps-call env _ _ (record { at = λ w h. h })

record_check-Consistent :
    (env : Env) (id t : ℕ) (b : Bool) → Keeps Consistent (Results.record_check env id t b)
unfolding Results.record_check
record_check-Consistent env id t b = Keeps-call env _ _ (record { at = λ w h. h })

update_status-Consistent :
    (env : Env) (id : ℕ) (s : MonitorStatus) → Keeps Consistent (Monitors.update_status env id s)
unfolding Monitors.update_status
update_status-Consistent env id s = Keeps-call env _ _ (record {
  at = λ w h. elim (Option-cases (find (Monitors.is_live id) w.db.monitors)) [
    | inl e ↦ rw e h
    | inr (row, e) ↦ rw e h
  ];
})

publish_alert-Consistent :
    (env : Env) (m : Monitor) (e : AlertEventType) (cause : Text) (id : ℕ)
    → Keeps Consistent (publish_alert env m e cause id)
unfolding publish_alert
publish_alert-Consistent env m e cause id = Keeps-call env _ _ (record { at = λ w h. h })

consecutive-Consistent : (env : Env) (id : ℕ) → Keeps Consistent (Results.consecutive env id)
unfolding Results.consecutive
consecutive-Consistent env id = Keeps-call env _ _ (record { at = λ w h. h })

cooling-Consistent : (env : Env) (id : ℕ) → Keeps Consistent (Incidents.cooling env id)
unfolding Incidents.cooling
cooling-Consistent env id = Keeps-call env _ _ (record { at = λ w h. h })

active-Consistent : (env : Env) (id : ℕ) → Keeps Consistent (Windows.active env id)
unfolding Windows.active
active-Consistent env id = Keeps-call env _ _ (record { at = λ w h. h })

open_of-Consistent : (env : Env) (id : ℕ) → Keeps Consistent (Incidents.open_of env id)
open_of-Consistent env id = Reads-Keeps Consistent _ (open_of-Reads env id)

ruleset consistent_rules = (
  keeps_rules, insert-Consistent, record_check-Consistent, update_status-Consistent,
  publish_alert-Consistent, consecutive-Consistent, cooling-Consistent, active-Consistent,
  open_of-Consistent, resolve-Consistent,
)

in_maintenance-Consistent : (env : Env) (id : ℕ) → Keeps Consistent (in_maintenance env id)
unfolding in_maintenance
in_maintenance-Consistent env id = search consistent_rules

opened-Consistent :
    (env : Env) (m : Monitor) (cause : Text) (r : Result Incident)
    → Keeps Consistent (opened env m cause r)
opened-Consistent env m cause (ok i) = search consistent_rules
opened-Consistent env m cause (err e) = search consistent_rules

open_incident-Consistent :
    (env : Env) (m : Monitor) (r : CheckResult) → Keeps Consistent (open_incident env m r)
unfolding open_incident
open_incident-Consistent env m r =
    let cause = or_empty r.error_message in
    Keeps-bind (attempt (Incidents.create env (detected m cause))) (opened env m cause)
      (Keeps-attempt _ (create-Consistent env (detected m cause) refl))
      (opened-Consistent env m cause)

handle_down-Consistent :
    (env : Env) (m : Monitor) (r : CheckResult) → Keeps Consistent (handle_down env m r)
unfolding handle_down
handle_down-Consistent env m r =
    search (consistent_rules, in_maintenance-Consistent, open_incident-Consistent) depth 9

recovered-Consistent :
    (env : Env) (m : Monitor) (r : Result Incident) → Keeps Consistent (recovered env m r)
recovered-Consistent env m (ok i) = search consistent_rules
recovered-Consistent env m (err e) = search consistent_rules

handle_recovery-Consistent : (env : Env) (m : Monitor) → Keeps Consistent (handle_recovery env m)
unfolding handle_recovery
handle_recovery-Consistent env m = search (consistent_rules, recovered-Consistent)

pub process_check_result-Consistent :
    (env : Env) (m : Monitor) (r : CheckResult) → Keeps Consistent (process_check_result env m r)
unfolding process_check_result
process_check_result-Consistent env m r =
    search (consistent_rules, handle_down-Consistent, handle_recovery-Consistent) depth 9
