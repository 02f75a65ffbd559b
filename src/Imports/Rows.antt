-- ===== src/Imports/Rows.antt =====
-- The row that an imported incident becomes.
use pingcast.Prelude.{ℕ, true, false, Option, none, some, ◌∷◌, any, count, ◌≡◌, arith}
use pingcast.Prelude.Lists.Where.{untouched}
use pingcast.Error.{ok}
use pingcast.Domain.Incident.{Incident, IncidentState, resolved}
use pingcast.Store.World.{World, Env}
use pingcast.Store.Exec.{◌>>=◌}
use pingcast.Store.Incidents
use pingcast.Store.Incidents.{has_id, is_open_for, close_at}
use pingcast.Imports.{AtlassianIncident, import_row, map_atlassian_state}

abbrev final_state : Option ℕ → IncidentState → IncidentState
final_state none s = s
final_state (some at) s = resolved

-- The row: it starts at the time of the import, and its time of resolution is that of the export.
abbrev pub imported : ℕ → ℕ → ℕ → AtlassianIncident → IncidentState → Incident
imported id now monitor_id inc s = record {
  id = id;
  monitor_id = monitor_id;
  started_at = now;
  resolved_at = inc.resolved_at;
  cause = inc.name;
  state = final_state inc.resolved_at s;
  is_manual = true;
  title = some inc.name;
}

-- An incident that is imported becomes the newest row, with the state that its name maps to, or
-- `resolved` if the export gives a time of resolution, and no other row changes, if the identifier
-- that comes next is free. Its monitor had no open incident. It starts at the time of the import
-- whatever start the export gives, and without a time of resolution it is open in the state
-- `resolved` as well.
pub import_row-imported :
    (env : Env) (inc : AtlassianIncident) (monitor_id : ℕ) (i : Incident) (w : World)
    → count (has_id w.db.next_incident) w.db.incidents ≡ 0
    → (import_row env inc monitor_id w).0 ≡ ok i
    → (any (is_open_for monitor_id) w.db.incidents ≡ false)
      × ((s : IncidentState)
          → map_atlassian_state inc.status ≡ ok s
          → (import_row env inc monitor_id w).1.db.incidents
            ≡ imported w.db.next_incident env.now monitor_id inc s ∷ w.db.incidents)
unfolding import_row Incidents.create Incidents.resolve ◌>>=◌
import_row-imported env inc monitor_id i w free h = (
  ground arith,
  λ s e. grind (
    arith,
    e,
    λ (at : ℕ). untouched (has_id w.db.next_incident) (close_at at) w.db.incidents free,
  ),
)
