-- ===== src/Monitoring/Lifecycle/Effects.antt =====
-- What the methods on incidents do on every branch: all or nothing, and for the owner only.
use pingcast.Prelude.{
  ℕ, ◌==◌, not, Bool, false, none, some, ◌∷◌, ◌≡◌, find, arith, is_empty, trim_space, ◌∙◌, ap,
}
use pingcast.Error.{Error, Result, ok, err}
use pingcast.Domain.Incident.{Incident, IncidentUpdate, can_transition_to}
use pingcast.Store.World.{World, Env, MonitorRow}
use pingcast.Store.Exec.{transaction, ◌>>=◌}
use pingcast.Store.Exec.Reads.{transaction_atomic, read_ok, Reads-check, check-ok}
use pingcast.Store.Incidents.Consistency.{get_by_id-Reads, get_by_id-ok}
use pingcast.Store.Incidents
use pingcast.Store.Incidents.{has_id, is_open_for, new_row}
use pingcast.Store.Monitors
use pingcast.Store.Monitors.{is_live}
use pingcast.Monitoring.Lifecycle.{
  ChangeIncidentStateInput, change_tables, change_incident_state, CreateManualIncidentInput,
  create_tables, create_manual_incident, fail_if,
}
use pingcast.Monitoring.Lifecycle.Consistency.{changed}
use pingcast.Store.Monitors.Reads.{get_monitor-Reads, get_monitor-ok}

-- Whatever fails on the way, a change of an incident's state that returns an error has left the
-- tables as they were.
pub change_incident_state-atomic :
    (env : Env) (in' : ChangeIncidentStateInput) (w : World) (e : Error)
    → (change_incident_state env in' w).0 ≡ err e
    → (change_incident_state env in' w).1.db ≡ w.db
unfolding change_incident_state ◌>>=◌ Incidents.get_by_id Monitors.get_by_id
change_incident_state-atomic env in' w e h =
    ground (arith, transaction_atomic env (change_tables env in') w e)

-- What a successful transaction on the tables of `w` has done.
abbrev Recorded : ChangeIncidentStateInput → ℕ → World → IncidentUpdate → World → Type 0
Recorded in' now w u w' =
    (w'.db.incidents ≡ changed in'.new_state in'.incident_id now w.db.incidents)
    × (w'.db.updates ≡ u ∷ w.db.updates)
    × (u.incident_id ≡ in'.incident_id)
    × (u.state ≡ in'.new_state)
    × (u.body ≡ in'.update_body)
    × (u.posted_by_user_id ≡ in'.user_id)

Recorded-ok :
    (env : Env) (in' : ChangeIncidentStateInput) (w : World) (u : IncidentUpdate)
    → (transaction env (change_tables env in') w).0 ≡ ok u
    → Recorded in' env.now w u (transaction env (change_tables env in') w).1
unfolding change_tables Incidents.update_state Incidents.resolve Incidents.append_update ◌>>=◌
Recorded-ok env in' w u h = ground arith

-- What a success of `change_incident_state` shows.
abbrev pub Changed : ChangeIncidentStateInput → ℕ → World → IncidentUpdate → World → Type 0
Changed in' now w u w' =
    (inc : Incident) × (row : MonitorRow) × (find (has_id in'.incident_id) w.db.incidents
      ≡ some inc)
    × (find (is_live inc.monitor_id) w.db.monitors ≡ some row)
    × (row.mon.user_id ≡ in'.user_id)
    × (is_empty (trim_space in'.update_body) ≡ false)
    × (can_transition_to inc.state in'.new_state ≡ none)
    × Recorded in' now w u w'

pub passed : (b : Bool) (x : Error) → fail_if b x ≡ none → b ≡ false
passed b x h = ground arith

pub owner_of : (a b : ℕ) → not (a == b) ≡ false → a ≡ b
owner_of a b h = ground arith

-- A change of state that succeeds was asked for by the owner of the incident's monitor, with a body
-- that is not blank, and is one that the lifecycle allows. It has set the state of that incident,
-- with the current time of resolution if the new state is `resolved`, and appended the update that
-- it returns, which carries the new state, the body and the author.
pub change_incident_state_ok :
    (env : Env) (in' : ChangeIncidentStateInput) (w : World) (u : IncidentUpdate)
    → (change_incident_state env in' w).0 ≡ ok u
    → Changed in' env.now w u (change_incident_state env in' w).1
unfolding change_incident_state
change_incident_state_ok env in' w u =
    let C : Result IncidentUpdate × World → Type 0 = λ x. Changed in' env.now w u x.1 in
    read_ok C _ _ w u (Reads-check _) λ _ _. read_ok C _ _ w u (Reads-check _) λ _ body.
      read_ok C _ _ w u (get_by_id-Reads env _) λ inc e.
        read_ok C _ _ w u (get_monitor-Reads env _) λ m e'.
          read_ok C _ _ w u (Reads-check _) λ _ owner.
            read_ok C _ _ w u (Reads-check _) λ _ allowed h.
              let (row, live, same) = get_monitor-ok env inc.monitor_id w m e' in
              (
                inc,
                row,
                get_by_id-ok env _ w inc e,
                live,
                ap (λ x. x.user_id) same ∙ owner_of _ _ (passed _ _ (check-ok _ w owner)),
                passed _ _ (check-ok _ w body),
                check-ok _ w allowed,
                Recorded-ok env in' w u h,
              )

-- A manual incident that is refused, or fails on the way, has left the tables as they were.
pub create_manual_incident-atomic :
    (env : Env) (in' : CreateManualIncidentInput) (w : World) (e : Error)
    → (create_manual_incident env in' w).0 ≡ err e
    → (create_manual_incident env in' w).1.db ≡ w.db
unfolding create_manual_incident ◌>>=◌ Monitors.get_by_id
create_manual_incident-atomic env in' w e h = ground (
  arith,
  transaction_atomic env (create_tables env in' (trim_space in'.title) (trim_space in'.body)) w e,
)
