-- ===== src/Http/Handlers/Surprises.antt =====
-- Answers that do not say what happened.
use pingcast.Prelude.{
  true, false, ltb, Option, none, some, ◌∷◌, Text, codes, ◌≡◌, refl, ap, ◌∙◌, arith, trim_space,
  is_empty, String,
}
use pingcast.Error.{Error, Result, ok, sentinel, errorf, wrap_two, foreign, event_publish_failed}
use pingcast.Domain.User.{User}
use pingcast.Domain.Monitor.{Monitor, create}
use pingcast.Store.World.{World, Env, publish_event}
use pingcast.Store.Exec.{Exec, ◌>>=◌}
use pingcast.Store.Exec.Reads.{after_ok}
use pingcast.Monitoring.Crud.{
  CreateMonitorInput, create_monitor, announce, publish_monitor_event, publish_changed,
}
use pingcast.Monitoring.Crud.Limits.{create_monitor_ok}
use pingcast.Monitoring.Lifecycle.{schedule_maintenance, create_manual_incident}
use pingcast.Http.Respond.{
  Rendering, Response, Envelope, answer, failure, envelope, internal_error, names_argument,
  classify,
}
use pingcast.Http.Handlers.{
  Libraries, require_user, parsed, write, write_or_forbidden, served, created,
}
use pingcast.Http.Handlers.Monitors.{
  ApiMonitor, CreateMonitorRequest, create_input, create_monitor_handler, and_error,
}
use pingcast.Http.Handlers.Incidents.{
  ScheduleMaintenanceWindowRequest, CreateIncidentRequest, schedule_maintenance_window_handler,
  create_incident_handler,
}

abbrev pub internal_envelope : Envelope
internal_envelope = envelope 500 internal_error (codes "internal error")

-- The text of the error names no parameter, and the error is not one of the framework.
abbrev pub IsOwn : Rendering → Error → Type 0
IsOwn r e = (names_argument (r.text e) ≡ false) × (r.fiber_code e ≡ none)

-- An invalid request is answered with status 500: a window that does not end after it starts, and a manual
-- incident without a title, if the texts of these errors name no parameter.
pub invalid_request-internal :
    (env : Env) (libs : Libraries) (user : User) (win : ScheduleMaintenanceWindowRequest)
    (inc : CreateIncidentRequest) (w : World)
    → IsOwn libs.rendering (errorf "ends_at must be after starts_at")
    → IsOwn libs.rendering (errorf "title is required")
    → ltb win.starts_at win.ends_at ≡ false
    → is_empty (trim_space inc.title) ≡ true
    → (schedule_maintenance_window_handler env libs (some user) (some win) w
        ≡ (ok (answer (failure internal_envelope)), w))
      × (create_incident_handler env libs (some user) (some inc) w
          ≡ (ok (answer (failure internal_envelope)), w))
unfolding schedule_maintenance_window_handler create_incident_handler require_user parsed
    write_or_forbidden write classify schedule_maintenance create_manual_incident ◌>>=◌
invalid_request-internal env libs user win inc w (plain, own) (plain', own') order blank =
    (rw (order, plain, own) refl, rw (blank, plain', own') refl)

-- What `create_monitor` returns where the event cannot be published.
announced_err :
    (env : Env) (m : Monitor) (w : World) (p : Monitor × Option Error) (why : String)
    → env.has_events ≡ true
    → env.fault publish_event ≡ some why
    → (announce env create m w).0 ≡ ok p
    → p.1 ≡ some (wrap_two (sentinel event_publish_failed) (foreign why))
unfolding announce publish_monitor_event publish_changed ◌>>=◌
announced_err env m w p why on down h = ground (arith, on, down, h)

create_monitor-unpublished :
    (env : Env) (user : User) (input : CreateMonitorInput) (w : World) (p : Monitor × Option Error)
    (why : String)
    → env.has_events ≡ true
    → env.fault publish_event ≡ some why
    → (create_monitor env user input w).0 ≡ ok p
    → p.1 ≡ some (wrap_two (sentinel event_publish_failed) (foreign why))
unfolding create_monitor
create_monitor-unpublished env user input w p why on down =
    let C : Result (Monitor × Option Error) × World → Type 0 =
      λ x. p.1 ≡ some (wrap_two (sentinel event_publish_failed) (foreign why)) in
    after_ok C _ _ w p λ n _. after_ok C _ _ _ p λ _ _.
      after_ok C _ _ _ p λ m _. after_ok C _ _ _ p λ _ _ h. announced_err env m _ p why on down h

served_ok :
    {A B : Type 0} (m : Exec A) (g : Error → Response B) (f : A → Exec (Response B)) (w : World)
    (a : A)
    → (m w).0 ≡ ok a
    → served m g f w ≡ f a (m w).1
unfolding ◌>>=◌
served_ok m g f w a e = rw e refl

and_error-unpublished :
    (env : Env) (libs : Libraries) (f : ApiMonitor → Exec (Response ApiMonitor))
    (p : Monitor × Option Error) (why : String) (w : World)
    → p.1 ≡ some (wrap_two (sentinel event_publish_failed) (foreign why))
    → IsOwn libs.rendering (wrap_two (sentinel event_publish_failed) (foreign why))
    → and_error env libs f p w ≡ (ok (answer (failure internal_envelope)), w)
unfolding and_error write classify ◌>>=◌
and_error-unpublished env libs f (m, o) why w h (plain, own) = rw (h, plain, own) refl

-- A request to create a monitor whose event cannot be published is answered with status 500, if the text of that
-- error names no parameter, although the monitor is created: it is one row more in the table.
pub create_monitor_handler-unpublished :
    (env : Env) (libs : Libraries) (user : User) (req : CreateMonitorRequest) (config : Text)
    (w : World) (p : Monitor × Option Error) (why : String)
    → env.has_events ≡ true
    → env.fault publish_event ≡ some why
    → IsOwn libs.rendering (wrap_two (sentinel event_publish_failed) (foreign why))
    → libs.json.marshal req.check_config ≡ some config
    → (create_monitor env user (create_input req config) w).0 ≡ ok p
    → let (r, w') = create_monitor_handler env libs (some user) (some req) w in
      (r ≡ ok (answer (failure internal_envelope)))
      × (w'.db.monitors ≡ record { mon = p.0; deleted = false; group_id = none } ∷ w.db.monitors)
unfolding create_monitor_handler require_user parsed
create_monitor_handler-unpublished env libs user req config w p why on down (plain, own) given
      made =
    let m = create_monitor env user (create_input req config) in
    let same : create_monitor_handler env libs (some user) (some req) w
        ≡ and_error env libs created p (m w).1 =
      rw given (served_ok m (write libs.rendering) (and_error env libs created) w p made) in
    let told =
      and_error-unpublished env libs created p why (m w).1
        (create_monitor-unpublished env user (create_input req config) w p why on down made)
        (plain, own) in
    (
      ap (λ x. x.0) (same ∙ told),
      ap (λ x. x.1.db.monitors) (same ∙ told)
          ∙ (create_monitor_ok env user (create_input req config) w p made).1,
    )
