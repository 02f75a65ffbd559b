-- ===== src/Examples/Imports.antt =====
-- The theorems about the import of a status page, on a sample export.
use pingcast.Prelude.{none, some, [], ◌∷◌, codes, ◌≡◌, refl}
use pingcast.Error.{errorf, wrap, ok, err}
use pingcast.Domain.Incident.{resolved}
use pingcast.Store.Exec.{◌>>=◌}
use pingcast.Store.Monitors
use pingcast.Store.Incidents
use pingcast.Store.Incidents.{is_open_for}
use pingcast.Domain.Incident.{valid}
use pingcast.Imports.{
  AtlassianExport, AtlassianIncident, Json, Envs, ImportResult, import_export, import_row,
  import_component, import_components, import_incidents, import_updates, import_update,
  import_tables, pick_monitor, map_atlassian_state,
}
use pingcast.Imports.Summary.{import_export-atomic}
use pingcast.Imports.Rows.{imported}
use pingcast.Examples.Data.{env, failing}

abbrev outage : AtlassianIncident
outage = record {
  id = codes "i";
  name = codes "outage";
  status = codes "postmortem";
  started_at = 5;
  resolved_at = some 60;
  components = codes "c" ∷ [];
  incident_updates = record { status = codes "monitoring"; body = codes "hm"; created_at = 6 } ∷ [];
}

abbrev export : AtlassianExport
export = record {
  schema_version = codes "1.0";
  page_name = codes "page";
  page_url = [];
  components = record { id = codes "c"; name = codes "api"; url = codes "u"; status = [] } ∷ [];
  incidents = outage ∷ [];
}

abbrev json : Json
json = record { unmarshal = λ s. ok export; url_config = λ u. ok u }

abbrev envs : Envs
envs = record { whole = env; component = λ n. env; incident = λ n. env; update = λ n k. env }

abbrev summary : ImportResult
summary = record {
  monitors_created = 1;
  incidents_created = 1;
  updates_created = 1;
  components_skipped = 0;
}

import_succeeds : (import_export envs json 1 (ok []) failing).0 ≡ ok summary
unfolding import_export import_tables import_components import_component import_incidents import_row
    import_updates import_update pick_monitor map_atlassian_state Monitors.create Incidents.create
    Incidents.resolve Incidents.append_update valid ◌>>=◌
import_succeeds = refl

import_export-atomic_example :
    (import_export envs json 1 (err (errorf "closed")) failing).1.db ≡ failing.db
unfolding import_export ◌>>=◌
import_export-atomic_example =
    import_export-atomic envs json 1 (err (errorf "closed")) failing
      (wrap "read import body: %w" (errorf "closed")) refl

row_created :
    (import_row env outage 7 failing).0
    ≡ ok (imported 1 7200 7 (record outage { resolved_at = none }) resolved)
unfolding import_row map_atlassian_state Incidents.create Incidents.resolve valid ◌>>=◌
row_created = refl
