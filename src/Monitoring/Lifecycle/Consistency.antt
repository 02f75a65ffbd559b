-- ===== src/Monitoring/Lifecycle/Consistency.antt =====
-- The incidents that users write and move keep the table of incidents consistent.
use pingcast.Prelude.{
  ℕ, none, some, ◌≡◌, refl, Bool-cases, inl, inr, find, if◌then◌else◌, Text, List, arith,
  update_where,
}
use pingcast.Error.{ok}
use pingcast.Domain.Incident.{
  Incident, IncidentState, IncidentUpdate, resolved, state_eq, can_transition_to,
}
use pingcast.Store.World.{World, Env}
use pingcast.Store.Exec.{◌>>=◌}
use pingcast.Store.Exec.Keeps.{Keeps, Keeps-bind, Keeps-wrapping, Keeps-pure, keeps_rules}
use pingcast.Store.Exec.Reads.{Reads-check, Reads-Keeps, bind_read, check-ok, transaction_at}
use pingcast.Store.Incidents
use pingcast.Store.Incidents.{has_id, with_state, close_at}
use pingcast.Store.Incidents.Consistency.{
  Consistent, Consistent-TablesOnly, IsConsistent, IsConsistent-close, IsConsistent-move,
  close-with_state, create-Consistent, append_update-Consistent, get_by_id-Reads, get_by_id-ok,
}
use pingcast.Store.Monitors.Reads.{get_monitor-Reads}
use pingcast.Monitoring.Lifecycle.{
  ChangeIncidentStateInput, change_tables, change_incident_state, CreateManualIncidentInput,
  written, create_tables, create_manual_incident,
}

-- The rows of incidents after the body of the transaction, where that succeeds.
abbrev pub changed : IncidentState → ℕ → ℕ → List Incident → List Incident
changed s id now rows =
    if state_eq s resolved
    then update_where (has_id id) (close_at now) (update_where (has_id id) (with_state s) rows)
    else update_where (has_id id) (with_state s) rows

pub change_tables_ok :
    (env : Env) (in' : ChangeIncidentStateInput) (w : World) (u : IncidentUpdate)
    → (change_tables env in' w).0 ≡ ok u
    → ((change_tables env in' w).1.db.incidents
        ≡ changed in'.new_state in'.incident_id env.now w.db.incidents)
      × ((change_tables env in' w).1.db.next_incident ≡ w.db.next_incident)
unfolding change_tables Incidents.update_state Incidents.resolve Incidents.append_update ◌>>=◌
change_tables_ok env in' w u h = ground arith

IsConsistent-changed :
    (s : IncidentState) (id now : ℕ) (i : Incident) (rows : List Incident) (next : ℕ)
    → find (has_id id) rows ≡ some i
    → can_transition_to i.state s ≡ none
    → IsConsistent rows next
    → IsConsistent (changed s id now rows) next
IsConsistent-changed s id now i rows next found allowed h =
    elim (Bool-cases (state_eq s resolved)) [
      | inl closes ↦ rw (closes, close-with_state) (IsConsistent-close id now rows next h)
      | inr moves ↦ rw moves (IsConsistent-move id s i rows next found allowed moves h)
    ]

change_tables-Consistent :
    (env : Env) (in' : ChangeIncidentStateInput) (i : Incident) (w : World) (u : IncidentUpdate)
    → find (has_id in'.incident_id) w.db.incidents ≡ some i
    → can_transition_to i.state in'.new_state ≡ none
    → Consistent w
    → (change_tables env in' w).0 ≡ ok u
    → Consistent (change_tables env in' w).1
change_tables-Consistent env in' i w u found allowed h e =
    let (rows, next) = change_tables_ok env in' w u e in
    rw (rows, next)
      (IsConsistent-changed in'.new_state in'.incident_id env.now i w.db.incidents
        w.db.next_incident found allowed h)

pub change_incident_state-Consistent :
    (env : Env) (in' : ChangeIncidentStateInput) → Keeps Consistent (change_incident_state env in')
unfolding change_incident_state
change_incident_state-Consistent env in' = record {
  at = λ w h. bind_read Consistent _ _ w (Reads-check _) h λ _ _.
      bind_read Consistent _ _ w (Reads-check _) h λ _ _.
        bind_read Consistent _ _ w (get_by_id-Reads env _) h λ inc e.
          bind_read Consistent _ _ w (get_monitor-Reads env _) h λ m _.
            bind_read Consistent _ _ w (Reads-check _) h λ _ _.
              bind_read Consistent _ _ w (Reads-check _) h λ _ a.
                transaction_at Consistent env _ w Consistent-TablesOnly h λ u e'.
                  change_tables-Consistent env in' inc w u (get_by_id-ok env _ w inc e)
                    (check-ok _ w a) h e';
}

manual-Consistent :
    (env : Env) (in' : CreateManualIncidentInput) (title : Text)
    → Keeps Consistent (Incidents.create env (written in' title))
manual-Consistent env in' title = create-Consistent env (written in' title) refl

create_tables-Consistent :
    (env : Env) (in' : CreateManualIncidentInput) (title body : Text)
    → Keeps Consistent (create_tables env in' title body)
unfolding create_tables
create_tables-Consistent env in' title body =
    Keeps-bind _ _ (Keeps-wrapping _ _ (manual-Consistent env in' title)) λ i.
      Keeps-bind _ _ (Keeps-wrapping _ _ (append_update-Consistent env _)) λ u. Keeps-pure (i, u)

pub create_manual_incident-Consistent :
    (env : Env) (in' : CreateManualIncidentInput)
    → Keeps Consistent (create_manual_incident env in')
unfolding create_manual_incident
create_manual_incident-Consistent env in' =
    search
      (
        keeps_rules,
        Consistent-TablesOnly,
        create_tables-Consistent,
        Reads-Keeps Consistent,
        get_monitor-Reads,
      )
      depth 9
