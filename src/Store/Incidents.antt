-- ===== src/Store/Incidents.antt =====
-- internal/adapter/postgres/incident_repo.go and incident_update_repo.go, with the queries of
-- incidents.sql and incident_updates.sql and the partial unique index of migration 016.
pub mod Consistency
use pingcast.Prelude.{
  ℕ, suc, ◌+◌, ltb, ◌==◌, Bool, false, not, ◌&&◌, if◌then◌else◌, Option, none, some, [], ◌∷◌, find,
  any, update_where, Text, take, keep, List,
}
use pingcast.Error.{Result, sentinel, foreign, incident_exists, ok, err}
use pingcast.Domain.Incident.{
  Incident, IncidentUpdate, IncidentState, investigating, resolved, other, is_resolved, valid,
}
use pingcast.Store.World.{
  World, Env, create_incident, get_incident, get_open, in_cooldown, create_update,
}
use pingcast.Store.World
use pingcast.Store.Exec.{Exec, call}

pub record CreateIncidentInput : Type 0 where
  pub monitor_id : ℕ
  pub cause : Text
  pub state : IncidentState
  pub is_manual : Bool
  pub title : Option Text

-- `resolved_at IS NULL` for the monitor.
abbrev pub is_open_for : ℕ → Incident → Bool
is_open_for monitor_id i = i.monitor_id == monitor_id && not (is_resolved i)

-- `id = $1`, and what the updates of incidents.sql set.
abbrev pub has_id : ℕ → Incident → Bool
has_id id i = i.id == id

abbrev pub close_at : ℕ → Incident → Incident
close_at at i = record i { resolved_at = some at; state = resolved }

abbrev pub with_state : IncidentState → Incident → Incident
with_state state i = record i { state = state }

-- The empty string is read as `investigating`.
abbrev pub default_state : IncidentState → IncidentState
default_state (other []) = investigating
default_state s = s

-- The row that `CreateIncident` inserts.
abbrev pub new_row : ℕ → ℕ → CreateIncidentInput → Incident
new_row id now in' = record {
  id = id;
  monitor_id = in'.monitor_id;
  started_at = now;
  resolved_at = none;
  cause = in'.cause;
  state = default_state in'.state;
  is_manual = in'.is_manual;
  title = in'.title;
}

unfoldable pub create : Env → CreateIncidentInput → Exec Incident
unfolding valid
create env in' = call env create_incident λ w.
    if valid (default_state in'.state)
    then (if any (is_open_for in'.monitor_id) w.db.incidents
        then (err (sentinel incident_exists), w)
        else (
          ok (new_row w.db.next_incident env.now in'),
          record w {
            db = record w.db {
              incidents = new_row w.db.next_incident env.now in' ∷ w.db.incidents;
              next_incident = suc w.db.next_incident;
            };
          },
        ))
    else (err (foreign "invalid input value for enum incident_state"), w)

unfoldable pub resolve : Env → ℕ → ℕ → Exec (Unit {0})
resolve env id at = call env World.Op.resolve λ w. (
  ok tt,
  record w {
    db = record w.db {
      incidents =
          update_where (λ i. i.id == id) (λ i. record i { resolved_at = some at; state = resolved })
            w.db.incidents;
    };
  },
)

unfoldable pub update_state : Env → ℕ → IncidentState → Exec (Unit {0})
unfolding valid
update_state env id state = call env World.Op.update_state λ w.
    if valid state
    then (
      ok tt,
      record w {
        db = record w.db { incidents = update_where (has_id id) (with_state state) w.db.incidents };
      },
    )
    else (err (foreign "invalid input value for enum incident_state"), w)

abbrev pub one_row : Option Incident → World → Result Incident × World
one_row none w = (err (foreign "no rows in result set"), w)
one_row (some i) w = (ok i, w)

unfoldable pub get_by_id : Env → ℕ → Exec Incident
get_by_id env id = call env get_incident λ w. one_row (find (has_id id) w.db.incidents) w

unfoldable pub open_of : Env → ℕ → Exec Incident
open_of env monitor_id =
    call env get_open λ w. one_row (find (is_open_for monitor_id) w.db.incidents) w

-- Resolved in the five minutes before now.
abbrev pub resolved_since : ℕ → ℕ → Incident → Bool
resolved_since now monitor_id i =
    i.monitor_id == monitor_id && elim i.resolved_at [ none ↦ false | some t ↦ ltb now (t + 300) ]

unfoldable pub cooling : Env → ℕ → Exec Bool
cooling env monitor_id =
    call env in_cooldown λ w. (ok (any (resolved_since env.now monitor_id) w.db.incidents), w)

pub record CreateIncidentUpdateInput : Type 0 where
  pub incident_id : ℕ
  pub state : IncidentState
  pub body : Text
  pub posted_by_user_id : ℕ

unfoldable pub append_update : Env → CreateIncidentUpdateInput → Exec IncidentUpdate
unfolding valid
append_update env in' = call env create_update λ w.
    if valid in'.state
    then (let u : IncidentUpdate = record {
      id = w.db.next_update;
      incident_id = in'.incident_id;
      state = in'.state;
      body = in'.body;
      posted_by_user_id = in'.posted_by_user_id;
      posted_at = env.now;
    } in
        (
          ok u,
          record w {
            db = record w.db { updates = u ∷ w.db.updates; next_update = suc w.db.next_update };
          },
        ))
    else (err (foreign "invalid input value for enum incident_state"), w)

-- The table stands newest first.
unfoldable pub list_by_monitor : Env → ℕ → ℕ → Exec (List Incident)
list_by_monitor env monitor_id limit =
    call env World.Op.list_incidents
      λ w. (ok (take limit (keep (λ i. i.monitor_id == monitor_id) w.db.incidents)), w)

unfoldable pub list_updates : Env → ℕ → Exec (List IncidentUpdate)
list_updates env incident_id =
    call env World.Op.list_updates
      λ w. (ok (keep (λ u. u.incident_id == incident_id) w.db.updates), w)
