-- ===== src/Http/Handlers/Incidents.antt =====
-- internal/adapter/http/incidents.go and maintenance.go. The goroutine that tells the readers of the page runs
-- after the answer; here it is the last step of the handler, and it returns no error.
use pingcast.Prelude.{
  ℕ, Bool, if◌then◌else◌, ◌&&◌, not, Option, List, [], ◌∷◌, map, Text, codes, ◌++◌, is_empty, any,
}
use pingcast.Error.{Error, is_err, forbidden}
use pingcast.Domain.User.{User}
use pingcast.Domain.Monitor.{MaintenanceWindow}
use pingcast.Domain.Incident.{
  Incident, IncidentUpdate, IncidentState, investigating, identified, monitoring, resolved, other,
}
use pingcast.Store.World.{Env}
use pingcast.Store.Exec.{Exec, ◌>>◌, pure, attempt}
use pingcast.Store.Incidents
use pingcast.Monitoring.Lifecycle.{
  change_incident_state, create_manual_incident, schedule_maintenance, delete_maintenance_window,
}
use pingcast.Subscriptions.{Notice, notify_incident}
use pingcast.Http.Respond.{
  Rendering, Response, answer, failure, contains, envelope, invalid_state_transition,
  forbidden_envelope,
}
use pingcast.Http.Handlers.{
  Libraries, require_user, parsed, write, write_or_forbidden, served, created, succeeded,
  no_content,
}

pub record ApiIncident : Type 0 where
  pub id : ℕ
  pub monitor_id : ℕ
  pub started_at : ℕ
  pub resolved_at : Option ℕ
  pub cause : Text
  pub state : IncidentState
  pub is_manual : Bool
  pub title : Option Text

abbrev pub domain_incident_to_api : Incident → ApiIncident
domain_incident_to_api i = record {
  id = i.id;
  monitor_id = i.monitor_id;
  started_at = i.started_at;
  resolved_at = i.resolved_at;
  cause = i.cause;
  state = i.state;
  is_manual = i.is_manual;
  title = i.title;
}

-- `domainIncidentUpdateToAPI` copies all fields.
abbrev pub domain_incident_update_to_api : IncidentUpdate → IncidentUpdate
domain_incident_update_to_api u = u

abbrev pub state_text : IncidentState → Text
state_text investigating = codes "investigating"
state_text identified = codes "identified"
state_text monitoring = codes "monitoring"
state_text resolved = codes "resolved"
state_text (other t) = t

-- `notifyIncidentAsync`.
unfoldable pub notify_incident_async : Env → Text → Notice → Exec (Unit {0})
notify_incident_async env slug n = attempt (notify_incident env slug n) >> pure tt

pub record CreateIncidentRequest : Type 0 where
  pub monitor_id : ℕ
  pub title : Text
  pub body : Text

unfoldable pub create_incident_handler :
    Env → Libraries → Option User → Option CreateIncidentRequest → Exec (Response ApiIncident)
unfolding write_or_forbidden notify_incident_async
create_incident_handler env libs user body = require_user user λ u. parsed body λ req.
    served
      (create_manual_incident env (record {
        monitor_id = req.monitor_id;
        user_id = u.id;
        title = req.title;
        body = req.body;
      }))
      (write_or_forbidden libs.rendering)
      λ made. (do
        notify_incident_async env u.slug
            (record { headline = req.title; state = state_text investigating; body = req.body })
        created (domain_incident_to_api made.0))

pub record UpdateIncidentStateRequest : Type 0 where
  pub state : IncidentState
  pub body : Text

-- The loops of `containsAny` look for each of the texts at each place.
unfoldable pub contains_any : Text → List Text → Bool
contains_any s subs = any (contains s) subs

abbrev pub transition_refused : Text → Bool
unfolding contains_any
transition_refused msg =
    not (is_empty msg)
    && contains_any msg (codes "cannot move" ∷ codes "invalid incident state" ∷ [])

abbrev pub refused_transition : {B : Type 0} → Rendering → Error → Response B
unfolding write write_or_forbidden contains_any
refused_transition r e =
    if is_err e forbidden
    then answer (failure forbidden_envelope)
    else if transition_refused (r.text e)
    then answer (failure (envelope 409 invalid_state_transition (r.text e)))
    else write r e

unfoldable pub update_incident_state_handler :
    Env
    → Libraries
    → Option User
    → ℕ
    → Option UpdateIncidentStateRequest
    → Exec (Response IncidentUpdate)
unfolding contains_any write notify_incident_async
update_incident_state_handler env libs user id body = require_user user λ u. parsed body λ req.
    served
      (change_incident_state env (record {
        incident_id = id;
        user_id = u.id;
        new_state = req.state;
        update_body = req.body;
      }))
      (refused_transition libs.rendering)
      λ upd. (do
        notify_incident_async env u.slug (record {
          headline = codes "Incident update: " ++ state_text upd.state;
          state = state_text upd.state;
          body = upd.body;
        })
        succeeded (domain_incident_update_to_api upd))

-- No user is asked for.
unfoldable pub list_incident_updates_handler :
    Env → Libraries → ℕ → Exec (Response (List IncidentUpdate))
unfolding write
list_incident_updates_handler env libs id =
    served (Incidents.list_updates env id) (write libs.rendering)
      λ us. succeeded (map domain_incident_update_to_api us)

pub record ScheduleMaintenanceWindowRequest : Type 0 where
  pub monitor_id : ℕ
  pub starts_at : ℕ
  pub ends_at : ℕ
  pub reason : Text

-- The answer has all fields of the window.
unfoldable pub schedule_maintenance_window_handler :
    Env
    → Libraries
    → Option User
    → Option ScheduleMaintenanceWindowRequest
    → Exec (Response MaintenanceWindow)
unfolding write_or_forbidden
schedule_maintenance_window_handler env libs user body = require_user user λ u. parsed body λ req.
    served
      (schedule_maintenance env (record {
        monitor_id = req.monitor_id;
        user_id = u.id;
        starts_at = req.starts_at;
        ends_at = req.ends_at;
        reason = req.reason;
      }))
      (write_or_forbidden libs.rendering) created

unfoldable pub delete_maintenance_window_handler :
    Env → Libraries → Option User → ℕ → Exec (Response (Unit {0}))
unfolding write
delete_maintenance_window_handler env libs user id =
    require_user user
      λ u. served (delete_maintenance_window env id u.id) (write libs.rendering) (λ _. no_content)
