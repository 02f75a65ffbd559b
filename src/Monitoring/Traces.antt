-- ===== src/Monitoring/Traces.antt =====
-- Any sequence of calls of the service, each by its own environment, from tables that are
-- consistent. A call is one step: how two of them interleave inside is not modelled, apart from the
-- unique index, which decides between two insertions.
use pingcast.Prelude.{ℕ, List, [], ◌∷◌, find, Option-cases, inl, inr, arith}
use pingcast.Domain.User.{User}
use pingcast.Domain.Monitor.{Monitor, CheckResult, MonitorAction}
use pingcast.Store.World.{World, Env}
use pingcast.Store.Exec.Keeps.{
  Keeps, Keeps-call, Keeps-bind, Keeps-wrapping, Keeps-pure, Keeps-throw, Keeps-attempt, Keeps-if,
  Keeps-check, Keeps-count_metric, Keeps-transaction,
}
use pingcast.Store.Exec.Reads.{Reads-Keeps, Reads-wrapping}
use pingcast.Store.Incidents.Consistency.{Consistent, Consistent-TablesOnly}
use pingcast.Store.Monitors
use pingcast.Store.Monitors.Reads.{get_monitor-Reads}
use pingcast.Store.Channels
use pingcast.Store.Windows
use pingcast.Monitoring.Checks.{process_check_result}
use pingcast.Monitoring.Checks.Consistency.{process_check_result-Consistent}
use pingcast.Monitoring.Lifecycle.{
  ChangeIncidentStateInput, change_incident_state, CreateManualIncidentInput,
  create_manual_incident, ScheduleMaintenanceInput, schedule_maintenance,
}
use pingcast.Monitoring.Lifecycle.Consistency.{
  change_incident_state-Consistent, create_manual_incident-Consistent,
}
use pingcast.Monitoring.Crud.{
  CreateMonitorInput, UpdateMonitorInput, create_monitor, update_monitor, delete_monitor,
  toggle_pause, bind_all, insert_monitor, announce, publish_monitor_event, publish_changed,
  publish_deleted,
}
use pingcast.Monitoring.Crud.Limits.{count_by_user-Reads, check_input-Reads}
use pingcast.Monitoring.Crud.Isolation.{load-Reads}

schedule-Consistent :
    (env : Env) (in' : ScheduleMaintenanceInput) → Keeps Consistent (schedule_maintenance env in')
unfolding schedule_maintenance Windows.create
schedule-Consistent env in' = Keeps-bind _ _ (Keeps-check _) λ _.
    Keeps-bind _ _ (Reads-Keeps Consistent _ (get_monitor-Reads env _))
      λ m. Keeps-bind _ _ (Keeps-check _) λ _. Keeps-call env _ _ (record { at = λ w h. h })

announce-Consistent :
    (env : Env) (action : MonitorAction) (m : Monitor) → Keeps Consistent (announce env action m)
unfolding announce publish_monitor_event publish_changed
announce-Consistent env action m =
    Keeps-bind _ _
      (Keeps-attempt _
        (Keeps-if _ _ _ (Keeps-call env _ _ (record { at = λ w h. h })) (Keeps-pure tt)))
      λ r. Keeps-pure _

bind_all-Consistent : (env : Env) (id : ℕ) (cs : List ℕ) → Keeps Consistent (bind_all env id cs)
unfolding bind_all Channels.bind_to_monitor
bind_all-Consistent env id [] = Keeps-pure tt
bind_all-Consistent env id (c ∷ cs) =
    Keeps-bind _ _ (Keeps-wrapping _ _ (Keeps-call env _ _ (record { at = λ w h. ground arith })))
      λ _. bind_all-Consistent env id cs

insert_row-Consistent : (env : Env) (m : Monitor) → Keeps Consistent (Monitors.create env m)
unfolding Monitors.create
insert_row-Consistent env m = Keeps-call env _ _ (record { at = λ w h. h })

insert_monitor-Consistent :
    (env : Env) (m : Monitor) (cs : List ℕ) → Keeps Consistent (insert_monitor env m cs)
unfolding insert_monitor
insert_monitor-Consistent env m [] = insert_row-Consistent env m
insert_monitor-Consistent env m (c ∷ cs) = Keeps-transaction env _ Consistent-TablesOnly (
    Keeps-bind _ _ (Keeps-wrapping _ _ (insert_row-Consistent env m))
      λ created. Keeps-bind _ _ (bind_all-Consistent env _ (c ∷ cs)) λ _. Keeps-pure _)

create_monitor-Consistent :
    (env : Env) (user : User) (input : CreateMonitorInput)
    → Keeps Consistent (create_monitor env user input)
unfolding create_monitor
create_monitor-Consistent env user input =
    Keeps-bind _ _ (Reads-Keeps Consistent _ (Reads-wrapping _ _ (count_by_user-Reads env _))) λ n.
      Keeps-bind _ _ (Reads-Keeps Consistent _ (check_input-Reads env user input n)) λ _.
        Keeps-bind _ _ (insert_monitor-Consistent env _ _) λ created.
          Keeps-bind _ _ (Keeps-count_metric env _ (λ w h. h)) λ _. announce-Consistent env _ _

update_monitor-Consistent :
    (env : Env) (user : User) (id : ℕ) (input : UpdateMonitorInput)
    → Keeps Consistent (update_monitor env user id input)
unfolding update_monitor Monitors.update
update_monitor-Consistent env user id input =
    Keeps-bind _ _ (Reads-Keeps Consistent _ (load-Reads env id _)) λ old.
      Keeps-bind _ _ (Keeps-check _) λ _. Keeps-bind _ _ (Keeps-check _) λ _.
        Keeps-bind _ _ (Keeps-wrapping _ _ (Keeps-call env _ _ (record { at = λ w h. h })))
          λ _. announce-Consistent env _ _

delete_monitor-Consistent :
    (env : Env) (user_id id : ℕ) → Keeps Consistent (delete_monitor env user_id id)
unfolding delete_monitor Monitors.delete publish_deleted publish_changed
delete_monitor-Consistent env user_id id =
    Keeps-bind _ _ (Reads-Keeps Consistent _ (load-Reads env id _)) λ old.
      Keeps-bind _ _ (Keeps-call env _ _ (record { at = λ w h. h })) λ _.
        Keeps-bind _ _ (Keeps-count_metric env _ (λ w h. h)) λ _.
          Keeps-if _ _ _
            (Keeps-bind _ _ (Keeps-attempt _ (Keeps-call env _ _ (record { at = λ w h. h })))
              λ r. Keeps-pure tt)
            (Keeps-throw _)

toggle_row-Consistent :
    (env : Env) (id user_id : ℕ) → Keeps Consistent (Monitors.toggle_pause env id user_id)
unfolding Monitors.toggle_pause
toggle_row-Consistent env id user_id = Keeps-call env _ _ (record {
  at = λ w h. elim (Option-cases (find (Monitors.is_owned id user_id) w.db.monitors)) [
    | inl e ↦ rw e h
    | inr (row, e) ↦ rw e h
  ];
})

toggle_pause-Consistent :
    (env : Env) (user : User) (id : ℕ) → Keeps Consistent (toggle_pause env user id)
unfolding toggle_pause
toggle_pause-Consistent env user id =
    Keeps-bind _ _ (Reads-Keeps Consistent _ (load-Reads env id _)) λ _.
      Keeps-bind _ _ (Keeps-wrapping _ _ (toggle_row-Consistent env id _))
        λ m. announce-Consistent env _ _

-- A call of the service that writes.
pub data Call : Type 0 where
  process : Monitor → CheckResult → Call
  change_state : ChangeIncidentStateInput → Call
  create_incident : CreateManualIncidentInput → Call
  schedule : ScheduleMaintenanceInput → Call
  create : User → CreateMonitorInput → Call
  update : User → ℕ → UpdateMonitorInput → Call
  delete : ℕ → ℕ → Call
  pause : User → ℕ → Call

-- The world that a call leaves, whatever it returns.
abbrev pub after : Env → Call → World → World
after env (process m r) w = (process_check_result env m r w).1
after env (change_state in') w = (change_incident_state env in' w).1
after env (create_incident in') w = (create_manual_incident env in' w).1
after env (schedule in') w = (schedule_maintenance env in' w).1
after env (create user input) w = (create_monitor env user input w).1
after env (update user id input) w = (update_monitor env user id input w).1
after env (delete user_id id) w = (delete_monitor env user_id id w).1
after env (pause user id) w = (toggle_pause env user id w).1

abbrev pub after_all : List (Env × Call) → World → World
after_all [] w = w
after_all ((env, c) ∷ calls) w = after_all calls (after env c w)

after-Consistent : (env : Env) (c : Call) (w : World) → Consistent w → Consistent (after env c w)
after-Consistent env (process m r) w = (process_check_result-Consistent env m r).at w
after-Consistent env (change_state in') w = (change_incident_state-Consistent env in').at w
after-Consistent env (create_incident in') w = (create_manual_incident-Consistent env in').at w
after-Consistent env (schedule in') w = (schedule-Consistent env in').at w
after-Consistent env (create user input) w = (create_monitor-Consistent env user input).at w
after-Consistent env (update user id input) w = (update_monitor-Consistent env user id input).at w
after-Consistent env (delete user_id id) w = (delete_monitor-Consistent env user_id id).at w
after-Consistent env (pause user id) w = (toggle_pause-Consistent env user id).at w

-- Any sequence of the eight calls of the services for checks, incidents, windows and monitors, in any
-- environments and with any of their outside calls failing, keeps the
-- incidents consistent: from tables where at most one incident of each monitor is open, where
-- identifiers of incidents are unique and below the next one, and where an incident is in the state
-- `resolved` exactly if it has a time of resolution, it leads to tables where all that holds.
pub after_all-Consistent :
    (calls : List (Env × Call)) (w : World) → Consistent w → Consistent (after_all calls w)
after_all-Consistent [] w h = h
after_all-Consistent ((env, c) ∷ calls) w h =
    after_all-Consistent calls (after env c w) (after-Consistent env c w h)
