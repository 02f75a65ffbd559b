-- ===== src/Examples/Lifecycle.antt =====
-- The theorems about incidents that a user writes, on the sample tables.
use pingcast.Prelude.{codes, ◌≡◌, refl}
use pingcast.Error.{ok, err, sentinel, forbidden, incident_exists, wrap}
use pingcast.Domain.Incident.{IncidentUpdate, identified, can_transition_to}
use pingcast.Store.Exec.{◌>>=◌}
use pingcast.Store.Incidents
use pingcast.Store.Monitors
use pingcast.Monitoring.Lifecycle.{
  ChangeIncidentStateInput, change_incident_state, change_tables, CreateManualIncidentInput,
  create_manual_incident, create_tables,
}
use pingcast.Monitoring.Lifecycle.Effects.{
  change_incident_state-atomic, change_incident_state_ok, Changed,
}
use pingcast.Prelude.Strings.{trim_space, trim_left}
use pingcast.Examples.Data.{env, broken}

abbrev change : ChangeIncidentStateInput
change = record {
  incident_id = 3;
  user_id = 1;
  new_state = identified;
  update_body = codes "found it";
}

abbrev manual : CreateManualIncidentInput
manual = record { monitor_id = 7; user_id = 1; title = codes "outage"; body = codes "we look" }

-- The update that the change returns.
abbrev update : IncidentUpdate
update = record {
  id = 1;
  incident_id = 3;
  state = identified;
  body = codes "found it";
  posted_by_user_id = 1;
  posted_at = 7200;
}

change_succeeds : (change_incident_state env change broken).0 ≡ ok update
unfolding change_incident_state change_tables Incidents.get_by_id Monitors.get_by_id ◌>>=◌
    Incidents.update_state Incidents.append_update trim_space trim_left can_transition_to
change_succeeds = refl

change_incident_state_ok_example :
    Changed change env.now broken update (change_incident_state env change broken).1
change_incident_state_ok_example = change_incident_state_ok env change broken update change_succeeds

-- A user who does not own the monitor.
change_fails :
    (change_incident_state env (record change { user_id = 2 }) broken).0 ≡ err (sentinel forbidden)
unfolding change_incident_state Incidents.get_by_id Monitors.get_by_id ◌>>=◌ trim_space trim_left
change_fails = refl

change_incident_state-atomic_example :
    (change_incident_state env (record change { user_id = 2 }) broken).1.db ≡ broken.db
change_incident_state-atomic_example =
    change_incident_state-atomic env (record change { user_id = 2 }) broken (sentinel forbidden)
      change_fails

-- An incident is open already.
manual_fails :
    (create_manual_incident env manual broken).0
    ≡ err (wrap "create incident: %w" (sentinel incident_exists))
unfolding create_manual_incident create_tables Incidents.create Monitors.get_by_id ◌>>=◌ trim_space
    trim_left
manual_fails = refl
