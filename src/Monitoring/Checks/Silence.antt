-- ===== src/Monitoring/Checks/Silence.antt =====
-- What is not published: nothing while an incident is open, and an alert whose publication failed.
use pingcast.Prelude.{
  ℕ, String, Bool, true, false, none, some, any, ◌≡◌, refl, ap, ◌∙◌, arith, find, List,
  Option-cases, inl, inr,
}
use pingcast.Error.{Result, err, foreign}
use pingcast.Domain.Monitor.{Monitor, CheckResult, AlertEvent, MonitorStatus, down, is_down}
use pingcast.Store.World.{World, Env, Metric, MonitorRow, publish_alert}
use pingcast.Store.Exec.Keeps.{
  Keeps, Keeps-call, Keeps-count_metric, Keeps-bind, Keeps-wrapping, Keeps-attempt, Keeps-then,
}
use pingcast.Domain.Incident.{Incident}
use pingcast.Store.Exec.{◌>>=◌, count_metric}
use pingcast.Store.Checks as Results
use pingcast.Store.Incidents
use pingcast.Store.Incidents.{is_open_for}
use pingcast.Store.Monitors
use pingcast.Store.Monitors.{is_live}
use pingcast.Store.Windows
use pingcast.Monitoring.Checks
use pingcast.Monitoring.Checks.{in_maintenance, open_incident, handle_down, process_check_result}
use pingcast.Monitoring.Checks.Decision.{should_open, recorded}

-- What the calls before it leave of the incidents and the alerts.
open_incident_silent :
    (env : Env) (m : Monitor) (r : CheckResult) (w : World)
    → any (is_open_for m.id) w.db.incidents ≡ true
    → (open_incident env m r w).1 ≡ w
unfolding open_incident ◌>>=◌ Incidents.create
open_incident_silent env m r w h = ground arith

handle_down_silent :
    (env : Env) (m : Monitor) (r : CheckResult) (w : World)
    → any (is_open_for m.id) w.db.incidents ≡ true
    → (handle_down env m r w).1 ≡ w
unfolding handle_down ◌>>=◌ Results.consecutive Incidents.cooling in_maintenance Windows.active
handle_down_silent env m r w h = ground (arith, open_incident_silent env m r w h)

abbrev SameAs : List Incident → List AlertEvent → World → Type 0
SameAs incidents alerts w = (w.db.incidents ≡ incidents) × (w.alerts ≡ alerts)

module _ (incidents : List Incident) (alerts : List AlertEvent) where
  insert_same :
      (env : Env) (r : CheckResult) → Keeps (SameAs incidents alerts) (Results.insert env r)
  unfolding Results.insert
  insert_same env r = Keeps-call env _ _ (record { at = λ w h. h })

  record_check_same :
      (env : Env) (id t : ℕ) (b : Bool)
      → Keeps (SameAs incidents alerts) (Results.record_check env id t b)
  unfolding Results.record_check
  record_check_same env id t b = Keeps-call env _ _ (record { at = λ w h. h })

  update_status_same :
      (env : Env) (id : ℕ) (s : MonitorStatus)
      → Keeps (SameAs incidents alerts) (Monitors.update_status env id s)
  unfolding Monitors.update_status
  update_status_same env id s = Keeps-call env _ _ (record {
    at = λ w h. elim (Option-cases (find (is_live id) w.db.monitors)) [
      | inl e ↦ rw e h
      | inr (row, e) ↦ rw e h
    ];
  })

  count_same : (env : Env) (x : Metric) → Keeps (SameAs incidents alerts) (count_metric env x)
  count_same env x = Keeps-count_metric env x (λ w h. h)

  handle_down_same :
      (env : Env) (m : Monitor) (r : CheckResult)
      → any (is_open_for m.id) incidents ≡ true
      → Keeps (SameAs incidents alerts) (handle_down env m r)
  handle_down_same env m r o = record { at = λ w h. rw (handle_down_silent env m r w (rw h.0 o)) h }

process_same :
    (env : Env) (m : Monitor) (r : CheckResult) (incidents : List Incident)
    (alerts : List AlertEvent)
    → r.status ≡ down
    → any (is_open_for m.id) incidents ≡ true
    → Keeps (SameAs incidents alerts) (process_check_result env m r)
unfolding process_check_result
process_same env m r incidents alerts d h = Keeps-bind _ _ (count_same incidents alerts env _) λ _.
    Keeps-bind _ _ (Keeps-wrapping _ _ (insert_same incidents alerts env r)) λ _.
      Keeps-bind _ _ (Keeps-attempt _ (record_check_same incidents alerts env m.id _ _)) λ _.
        Keeps-bind _ _ (Keeps-wrapping _ _ (update_status_same incidents alerts env m.id _))
          λ previous.
            Keeps-then (is_down r.status) _ _ (ap is_down d)
              (handle_down_same incidents alerts env m r h)

-- While an incident of the monitor is open, processing a down result publishes nothing and leaves
-- the incidents as they are, whatever outside calls fail.
pub process_silent :
    (env : Env) (m : Monitor) (r : CheckResult) (w : World)
    → r.status ≡ down
    → any (is_open_for m.id) w.db.incidents ≡ true
    → ((process_check_result env m r w).1.db.incidents ≡ w.db.incidents)
      × ((process_check_result env m r w).1.alerts ≡ w.alerts)
process_silent env m r w d h = (process_same env m r w.db.incidents w.alerts d h).at w (refl, refl)

-- The environment in which only the publication of alerts fails.
abbrev pub mute : Env → String → Env
mute env s = record env { fault = λ op. elim op [ publish_alert ↦ some s | _ ↦ none ] }

abbrev LeftOpen : String → Monitor → World → Result (Unit {0}) × World → Type 0
LeftOpen s m w (result, w') =
    (result ≡ err (foreign s))
    × (w'.alerts ≡ w.alerts)
    × (any (is_open_for m.id) w'.db.incidents ≡ true)

open_incident-mute :
    (env : Env) (m : Monitor) (r : CheckResult) (w : World) (s : String)
    → any (is_open_for m.id) w.db.incidents ≡ false
    → LeftOpen s m w (open_incident (mute env s) m r w)
unfolding open_incident ◌>>=◌ Incidents.create Checks.publish_alert
open_incident-mute env m r w s h = ground arith

handle_down-mute :
    (env : Env) (m : Monitor) (r : CheckResult) (w : World) (s : String)
    → should_open env m w.db ≡ true
    → LeftOpen s m w (handle_down (mute env s) m r w)
unfolding handle_down ◌>>=◌ Results.consecutive Incidents.cooling in_maintenance Windows.active
handle_down-mute env m r w s h = ground (arith, open_incident-mute env m r w s)

process_mute :
    (env : Env) (m : Monitor) (r : CheckResult) (w : World) (row : MonitorRow) (s : String)
    → find (is_live m.id) w.db.monitors ≡ some row
    → r.status ≡ down
    → should_open env m (recorded env m r w).db ≡ true
    → LeftOpen s m w (process_check_result (mute env s) m r w)
unfolding process_check_result ◌>>=◌ Results.insert Results.record_check Monitors.update_status
process_mute env m r w row s live d h =
    ground (arith, handle_down-mute env m r (recorded env m r w) s)

-- If only the publication of alerts fails when a down result should open an incident, the caller
-- gets that error and the incident is open; and then processing any further down result of the
-- monitor publishes nothing: the down alert of that incident is lost.
pub alert_lost :
    (env : Env) (m : Monitor) (r : CheckResult) (w : World) (row : MonitorRow) (s : String)
    (env' : Env) (r' : CheckResult)
    → find (is_live m.id) w.db.monitors ≡ some row
    → r.status ≡ down
    → should_open env m (recorded env m r w).db ≡ true
    → r'.status ≡ down
    → let (result, w') = process_check_result (mute env s) m r w in
      (result ≡ err (foreign s))
      × (any (is_open_for m.id) w'.db.incidents ≡ true)
      × ((process_check_result env' m r' w').1.alerts ≡ w.alerts)
alert_lost env m r w row s env' r' live d h d' =
    let (failed, same, still) = process_mute env m r w row s live d h in
    (
      failed,
      still,
      (process_silent env' m r' (process_check_result (mute env s) m r w).1 d' still).1 ∙ same,
    )
