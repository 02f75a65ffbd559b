-- ===== src/Scheduler/Follows/Calls.antt =====
-- Each call of the service that changes monitors keeps the scheduler in step.
use pingcast.Prelude.{
  ℕ, ◌==◌, Bool, true, false, if◌then◌else◌, none, some, List, [], ◌∷◌, find, any, ◌≡◌, refl, sym,
  ◌∙◌, ap, arith, Option-cases, Bool-cases, inl, inr, subst,
}
use pingcast.Error.{ok}
use pingcast.Domain.User.{User}
use pingcast.Domain.Monitor.{Monitor, create}
use pingcast.Store.World.{
  World, Env, MonitorRow, MonitorChangedEvent, publish_event, monitor_created,
}
use pingcast.Store.Exec.{◌>>=◌, count_metric}
use pingcast.Store.Exec.Keeps.{Keeps, Keeps-call, Keeps-bind, Keeps-wrapping, Keeps-pure}
use pingcast.Store.Exec.Reads.{bind_read, bind_at, Reads-check, Reads-wrapping, transaction-events}
use pingcast.Store.Monitors
use pingcast.Store.Monitors.{is_live}
use pingcast.Store.Channels
use pingcast.Monitoring.Crud.{
  CreateMonitorInput, UpdateMonitorInput, monitor_to_event, new_monitor, bind_all, insert_monitor,
  announce, load_owned_monitor, create_monitor, update_monitor, delete_monitor, toggle_pause,
}
use pingcast.Monitoring.Crud.Isolation.{load-Reads}
use pingcast.Monitoring.Crud.Limits.{
  count_by_user-Reads, check_input-Reads, insert_monitor_ok, insert_monitor_err, stamped, told,
  bound_insert,
}
use pingcast.Store.Monitors.Keyed.{find-live}
use pingcast.Scheduler.{LeaderScheduler}
use pingcast.Scheduler.Events.{handle_all}
use pingcast.Scheduler.Mirror.{wanted, scheduled}
use pingcast.Scheduler.Follows.{
  InSync, announced-InSync, updated-InSync, deleted-InSync, toggled-InSync,
}

load-row :
    (env : Env) (id user_id : ℕ) (w : World) (m : Monitor)
    → (load_owned_monitor env id user_id w).0 ≡ ok m
    → (row : MonitorRow) × (find (is_live id) w.db.monitors ≡ some row)
      × (row.mon ≡ m)
      × (m.user_id ≡ user_id)
unfolding load_owned_monitor Monitors.get_by_id ◌>>=◌
load-row env id user_id w m h = elim (Option-cases (find (is_live id) w.db.monitors)) [
  | inl e ↦ absurd (ground arith)
  | inr (row, e) ↦ (row, e, ground arith, ground arith)
]

-- What was loaded, with its own identifier in place of the one that was asked for.
same_id :
    (id : ℕ) (rows : List MonitorRow) (row : MonitorRow) (m : Monitor)
    → find (is_live id) rows ≡ some row
    → row.mon ≡ m
    → m.id ≡ id
same_id id rows row m e same = ap (λ m. m.id) (sym same) ∙ (find-live id rows row e).0

abbrev SameEvents : List MonitorChangedEvent → World → Type 0
SameEvents evs w = w.events ≡ evs

bind_all-SameEvents :
    (env : Env) (evs : List MonitorChangedEvent) (id : ℕ) (cs : List ℕ)
    → Keeps (SameEvents evs) (bind_all env id cs)
unfolding bind_all Channels.bind_to_monitor
bind_all-SameEvents env evs id [] = Keeps-pure tt
bind_all-SameEvents env evs id (c ∷ cs) =
    Keeps-bind _ _
      (Keeps-wrapping _ _ (
        Keeps-call env _ _ (record {
          at = λ w h. elim (Bool-cases (any (Channels.is_binding id c) w.db.bindings)) [
            | inl e ↦ rw e h
            | inr e ↦ rw e h
          ];
        })))
      λ _. bind_all-SameEvents env evs id cs

create-SameEvents :
    (env : Env) (evs : List MonitorChangedEvent) (m : Monitor)
    → Keeps (SameEvents evs) (Monitors.create env m)
unfolding Monitors.create
create-SameEvents env evs m = Keeps-call env _ _ (record { at = λ w h. h })

insert_monitor-events :
    (env : Env) (m : Monitor) (cs : List ℕ) (w : World)
    → (insert_monitor env m cs w).1.events ≡ w.events
unfolding insert_monitor
insert_monitor-events env m [] w = (create-SameEvents env w.events m).at w refl
insert_monitor-events env m (c ∷ cs) w =
    transaction-events env (bound_insert env m (c ∷ cs)) w
    ∙ (Keeps-bind _ _ (Keeps-wrapping _ _ (create-SameEvents env w.events m)) λ created.
          Keeps-bind _ _ (bind_all-SameEvents env w.events created.id (c ∷ cs))
            λ _. Keeps-pure _).at
        w refl

-- The row of a monitor that was created, before all others.
abbrev new_row : Monitor → MonitorRow
new_row m = record { mon = m; deleted = false; group_id = none }

-- What users ask of the service about their monitors.
pub data Call : Type 0 where
  creates : CreateMonitorInput → Call
  updates : ℕ → UpdateMonitorInput → Call
  deletes toggles : ℕ → Call

abbrev pub called : Env → User → Call → World → World
called env user (creates input) w = (create_monitor env user input w).1
called env user (updates id input) w = (update_monitor env user id input w).1
called env user (deletes id) w = (delete_monitor env user.id id w).1
called env user (toggles id) w = (toggle_pause env user id w).1

module _ (env : Env) (on : env.has_events ≡ true) (up : env.fault publish_event ≡ none) where
  told-InSync :
      (s : LeaderScheduler) (m : Monitor) (w w' : World)
      → InSync s w
      → w'.events ≡ w.events
      → w'.db.monitors ≡ new_row m ∷ w.db.monitors
      → any (λ r. r.mon.id == m.id) w.db.monitors ≡ false
      → InSync s (told env m w').1
  unfolding count_metric ◌>>=◌ monitor_to_event
  told-InSync s m w w' sync e rows fresh = by_wiring env.has_metrics
    where
      counted : Bool → World
      counted b = if b then record w' { metrics = monitor_created ∷ w'.metrics } else w'

      at :
          (x : World)
          → x.events ≡ w.events
          → x.db.monitors ≡ new_row m ∷ w.db.monitors
          → InSync s (announce env create m x).1
      at x xe xd =
          announced-InSync env on up s create m w x sync xe (rw xd (fresh, sync.1))
            (λ i. rw xd (ground arith))

      by_wiring : (b : Bool) → InSync s (announce env create m (counted b)).1
      by_wiring true = at (counted true) e rows
      by_wiring false = at (counted false) e rows

  -- A scheduler that began in step with the tables, and has handled the events of the stream in their
  -- order, is in step after each call of a user that creates, changes, deletes or pauses a monitor,
  -- whatever fails but the publication, if the database draws a new identifier.
  pub called-InSync :
      (user : User) (s : LeaderScheduler) (w : World) (c : Call)
      → InSync s w
      → any (λ r. r.mon.id == env.new_id) w.db.monitors ≡ false
      → InSync s (called env user c w)
  unfolding create_monitor update_monitor delete_monitor toggle_pause
  called-InSync user s w (creates input) sync fresh =
      let P = InSync s in
      let m = new_monitor user input in
      let cs = input.channel_ids in
      bind_read P _ _ w (Reads-wrapping _ _ (count_by_user-Reads env user.id)) sync λ n _.
        bind_read P _ _ w (check_input-Reads env user input n) sync λ _ _.
          bind_at P (insert_monitor env m cs) _ w
            (λ e failed. (
              λ i.
                  ap (λ evs. scheduled i (handle_all evs s)) (insert_monitor-events env m cs w)
                  ∙ sync.0 i
                  ∙ ap (wanted i) (sym (insert_monitor_err env m cs w e failed)),
              rw (insert_monitor_err env m cs w e failed) sync.1,
            ))
            λ created made.
              let (is, rows) = insert_monitor_ok env m cs w created made in
              subst (λ c. P (told env c (insert_monitor env m cs w).1).1) (cc (is, made))
                (told-InSync s (stamped env m) w _ sync (insert_monitor-events env m cs w) rows
                  fresh)
  called-InSync user s w (updates id input) sync fresh =
      let P = InSync s in
      bind_read P _ _ w (load-Reads env id user.id) sync λ old loaded.
        bind_read P _ _ w (Reads-check _) sync λ _ _. bind_read P _ _ w (Reads-check _) sync λ _ _.
          let (row, live, same, own) = load-row env id user.id w old loaded in
          updated-InSync env on up user s w sync input old (
            row,
            subst (λ i. find (is_live i) w.db.monitors ≡ some row)
                (sym (same_id id w.db.monitors row old live same)) live,
            same,
            own,
          )
  called-InSync user s w (deletes id) sync fresh =
      bind_read (InSync s) _ _ w (load-Reads env id user.id) sync λ old loaded.
        let (row, live, same, own) = load-row env id user.id w old loaded in
        deleted-InSync env on up user s w sync id row live (ap (λ m. m.user_id) same ∙ own)
  called-InSync user s w (toggles id) sync fresh =
      bind_read (InSync s) _ _ w (load-Reads env id user.id) sync λ old loaded.
        let (row, live, same, own) = load-row env id user.id w old loaded in
        toggled-InSync env on up user s w sync id row live (ap (λ m. m.user_id) same ∙ own)
