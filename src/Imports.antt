-- ===== src/Imports.antt =====
-- internal/app/atlassian_importer.go: the import of a status page of another provider. The reader of
-- the body and the JSON library are arguments.
pub mod Summary
pub mod Rows
use pingcast.Prelude.{
  ℕ, suc, ◌+◌, Bool, true, false, ◌||◌, if◌then◌else◌, Option, none, some, List, [], ◌∷◌, find,
  Text, codes, text_eq, is_empty,
}
use pingcast.Prelude.Int.{pos}
use pingcast.Error.{Error, errorf, Result, ok, err}
use pingcast.Domain.Monitor.{Monitor, http, unknown}
use pingcast.Domain.Incident.{
  Incident, IncidentState, investigating, identified, monitoring, resolved,
}
use pingcast.Store.World.{World, Env}
use pingcast.Store.Exec.{Exec, ◌>>=◌, ◌>>◌, pure, throw, check, wrapping, transaction}
use pingcast.Store.Monitors
use pingcast.Store.Incidents
use pingcast.Accounts.Auth.{given}

pub record AtlassianComponent : Type 0 where
  pub id : Text
  pub name : Text
  pub url : Text
  pub status : Text

pub record AtlassianIncidentUpdate : Type 0 where
  pub status : Text
  pub body : Text
  pub created_at : ℕ

pub record AtlassianIncident : Type 0 where
  pub id : Text
  pub name : Text
  pub status : Text
  pub started_at : ℕ
  pub resolved_at : Option ℕ
  pub components : List Text
  pub incident_updates : List AtlassianIncidentUpdate

pub record AtlassianExport : Type 0 where
  pub schema_version : Text
  pub page_name : Text
  pub page_url : Text
  pub components : List AtlassianComponent
  pub incidents : List AtlassianIncident

pub record ImportResult : Type 0 where
  pub monitors_created : ℕ
  pub incidents_created : ℕ
  pub updates_created : ℕ
  pub components_skipped : ℕ

-- The decoder, and the JSON of a check of a URL.
pub record Json : Type 0 where
  pub unmarshal : Text → Result AtlassianExport
  pub url_config : Text → Result Text

-- The environments of the import: of its end, of the `n`-th component, and of the `n`-th incident, of
-- which the `k`-th update has its own.
pub record Envs : Type 0 where
  pub whole : Env
  pub component : ℕ → Env
  pub incident : ℕ → Env
  pub update : ℕ → ℕ → Env

-- The variables that the loops change: the result, and the map, newest entry first.
pub record Progress : Type 0 where
  pub result : ImportResult
  pub component_to_monitor : List (Text × ℕ)

abbrev pub initial : Progress
initial = record {
  result = record {
    monitors_created = 0;
    incidents_created = 0;
    updates_created = 0;
    components_skipped = 0;
  };
  component_to_monitor = [];
}

abbrev imported_monitor : ℕ → AtlassianComponent → Text → Monitor
imported_monitor user_id comp config = record {
  id = 0;
  user_id = user_id;
  name = comp.name;
  type = http;
  check_config = config;
  interval_seconds = pos 60;
  alert_after_failures = pos 2;
  is_paused = false;
  is_public = true;
  current_status = unknown;
  created_at = 0;
}

unfoldable pub import_component : Env → Json → ℕ → AtlassianComponent → Progress → Exec Progress
import_component env j user_id comp p =
    if is_empty comp.url
    then pure (record p {
      result = record p.result { components_skipped = suc p.result.components_skipped };
    })
    else (do
      config ← wrapping "marshal component %q config: %w" (given (j.url_config comp.url))
      created ←
          wrapping "create monitor for component %q: %w"
            (Monitors.create env (imported_monitor user_id comp config))
      pure (record {
        result = record p.result { monitors_created = suc p.result.monitors_created };
        component_to_monitor = (comp.id, created.id) ∷ p.component_to_monitor;
      }))

unfoldable pub import_components :
    Envs → Json → ℕ → ℕ → List AtlassianComponent → Progress → Exec Progress
unfolding import_component
import_components envs j user_id n [] p = pure p
import_components envs j user_id n (comp ∷ comps) p = do
  p' ← import_component (envs.component n) j user_id comp p
  import_components envs j user_id (suc n) comps p'

-- A lookup in the map.
abbrev monitor_of : List (Text × ℕ) → Text → Option ℕ
monitor_of m cid = elim (find (λ e. text_eq e.0 cid) m) [ none ↦ none | some e ↦ some e.1 ]

abbrev or_else : Option ℕ → Option ℕ → Option ℕ
or_else none o = o
or_else (some id) o = some id

unfoldable pub pick_monitor : List Text → List (Text × ℕ) → Option ℕ
pick_monitor [] m = none
pick_monitor (cid ∷ cids) m = or_else (monitor_of m cid) (pick_monitor cids m)

unfoldable pub map_atlassian_state : Text → Result IncidentState
map_atlassian_state s =
    if text_eq s (codes "investigating")
    then ok investigating
    else if text_eq s (codes "identified")
    then ok identified
    else if text_eq s (codes "monitoring")
    then ok monitoring
    else if text_eq s (codes "resolved") || text_eq s (codes "postmortem")
    then ok resolved
    else err (errorf "unknown atlassian state: %q")

unfoldable pub import_update :
    Env → ℕ → ℕ → AtlassianIncidentUpdate → ImportResult → Exec ImportResult
unfolding map_atlassian_state
import_update env user_id incident_id u r = do
  state ← given (map_atlassian_state u.status)
  wrapping "create update on incident %q: %w" (
      Incidents.append_update env (record {
        incident_id = incident_id;
        state = state;
        body = u.body;
        posted_by_user_id = user_id;
      }))
  pure (record r { updates_created = suc r.updates_created })

unfoldable pub import_updates :
    (ℕ → Env) → ℕ → ℕ → ℕ → List AtlassianIncidentUpdate → ImportResult → Exec ImportResult
unfolding import_update
import_updates envs user_id incident_id k [] r = pure r
import_updates envs user_id incident_id k (u ∷ us) r = do
  r' ← import_update (envs k) user_id incident_id u r
  import_updates envs user_id incident_id (suc k) us r'

abbrev resolved_if_given : Env → ℕ → Option ℕ → Exec (Unit {0})
resolved_if_given env id none = pure tt
resolved_if_given env id (some at) =
    wrapping "resolve incident %q: %w" (Incidents.resolve env id at)

-- The row of an incident on the monitor.
unfoldable pub import_row : Env → AtlassianIncident → ℕ → Exec Incident
unfolding map_atlassian_state
import_row env inc monitor_id = do
  state ← given (map_atlassian_state inc.status)
  created ← wrapping "create incident %q: %w" (
      Incidents.create env (record {
        monitor_id = monitor_id;
        cause = inc.name;
        state = state;
        is_manual = true;
        title = some inc.name;
      }))
  resolved_if_given env created.id inc.resolved_at
  pure created

abbrev import_picked :
    Envs → ℕ → ℕ → AtlassianIncident → ImportResult → Option ℕ → Exec ImportResult
import_picked envs user_id n inc r none = pure r
import_picked envs user_id n inc r (some monitor_id) = do
  created ← import_row (envs.incident n) inc monitor_id
  import_updates (envs.update n) user_id created.id 0 inc.incident_updates
      (record r { incidents_created = suc r.incidents_created })

unfoldable pub import_incidents :
    Envs → ℕ → List (Text × ℕ) → ℕ → List AtlassianIncident → ImportResult → Exec ImportResult
unfolding import_row import_updates pick_monitor
import_incidents envs user_id m n [] r = pure r
import_incidents envs user_id m n (inc ∷ incs) r = do
  r' ← import_picked envs user_id n inc r (pick_monitor inc.components m)
  import_incidents envs user_id m (suc n) incs r'

abbrev unsupported : AtlassianExport → Option Error
unsupported exp =
    if text_eq exp.schema_version (codes "1.0")
    then none
    else some (errorf "unsupported atlassian schema version %q (this importer pins to 1.0)")

-- The body of the transaction.
unfoldable pub import_tables : Envs → Json → ℕ → AtlassianExport → Exec ImportResult
unfolding import_components import_incidents
import_tables envs j user_id exp = do
  p ← import_components envs j user_id 0 exp.components initial
  import_incidents envs user_id p.component_to_monitor 0 exp.incidents p.result

-- `Import`: the body is read to its end first.
unfoldable pub import_export : Envs → Json → ℕ → Result Text → Exec ImportResult
unfolding import_tables
import_export envs j user_id body = do
  raw ← wrapping "read import body: %w" (given body)
  exp ← wrapping "invalid atlassian JSON: %w" (given (j.unmarshal raw))
  check (unsupported exp)
  transaction envs.whole (import_tables envs j user_id exp)
