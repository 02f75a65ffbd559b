-- ===== src/Scheduler/Follows.antt =====
-- A scheduler that handles the events of the stream keeps the monitors of the tables.
pub mod Calls
pub mod Start
use pingcast.Prelude.{
  ℕ, ◌==◌, Bool, true, false, not, ◌&&◌, if◌then◌else◌, Option, none, some, List, [], ◌∷◌, find,
  any, update_where, ◌≡◌, ◌≢◌, refl, sym, ◌∙◌, ap, arith, Option-cases, inl, inr, subst,
}
use pingcast.Prelude.Int.{ℤ, pos}
use pingcast.Error.{Error, Result, ok, err}
use pingcast.Domain.User.{User}
use pingcast.Domain.Monitor.{Monitor, MonitorAction, create, update, delete, pause, resume}
use pingcast.Store.World.{
  World, Env, MonitorRow, MonitorChangedEvent, publish_event, monitor_deleted,
}
use pingcast.Store.Exec.{Exec, ◌>>=◌, ◌>>◌, wrapping, count_metric}
use pingcast.Store.Exec.Reads.{bind_read, Reads-check, call_at, wrapped_call_at}
use pingcast.Store.Monitors
use pingcast.Store.Monitors.{is_live, is_owned, set_fields, flip}
use pingcast.Monitoring.Crud
use pingcast.Monitoring.Crud.{
  CreateMonitorInput, UpdateMonitorInput, monitor_to_event, publish_changed, publish_monitor_event,
  announce, publish_deleted, load_owned_monitor, apply_input, create_monitor, update_monitor,
  delete_monitor, toggle_pause,
}
use pingcast.Scheduler.{LeaderScheduler}
use pingcast.Scheduler.Events.{handle_change, handle_all}
use pingcast.Store.Monitors.Keyed.{IsKeyed, IsKeyed-update_where, gone, find-live, find-owned}
use pingcast.Scheduler.Mirror.{
  scheduled, wanted, event_plan, plan, scheduled-handle_change, wanted-update_where, wanted-deleted,
}

-- The scheduler that began as `s` and has handled all events does what the tables ask for.
abbrev pub InSync : LeaderScheduler → World → Type 0
InSync s w =
    ((id : ℕ) → scheduled id (handle_all w.events s) ≡ wanted id w.db.monitors)
    × IsKeyed w.db.monitors

-- The table `rows'` is `rows` with what the event says.
abbrev pub Says : MonitorChangedEvent → List MonitorRow → List MonitorRow → Type 0
Says ev rows rows' =
    (id : ℕ) → wanted id rows' ≡ (if ev.monitor_id == id then event_plan ev else wanted id rows)

followed :
    (s : LeaderScheduler) (w w' : World) (ev : MonitorChangedEvent)
    → InSync s w
    → w'.events ≡ ev ∷ w.events
    → IsKeyed w'.db.monitors
    → Says ev w.db.monitors w'.db.monitors
    → InSync s w'
unfolding handle_all
followed s w w' ev (sync, keyed) e k says = (
  λ id.
      ap (λ evs. scheduled id (handle_all evs s)) e
      ∙ scheduled-handle_change ev (handle_all w.events s) id
      ∙ ap (λ p. if ev.monitor_id == id then event_plan ev else p) (sync id)
      ∙ sym (says id),
  k,
)

abbrev deletion : ℕ → MonitorChangedEvent
deletion id = record {
  action = delete;
  monitor_id = id;
  name = [];
  type = none;
  check_config = [];
  interval_seconds = pos 0;
  alert_after_failures = pos 0;
  is_paused = false;
}

monitor_to_event-id :
    (action : MonitorAction) (m : Monitor) → (monitor_to_event action m).monitor_id ≡ m.id
unfolding monitor_to_event
monitor_to_event-id action m = ground arith

plan-toggled :
    (m : Monitor) → event_plan (monitor_to_event (Crud.pause_action m.is_paused) m) ≡ plan m
unfolding monitor_to_event
plan-toggled m = ground arith

module _ (env : Env) (on : env.has_events ≡ true) (up : env.fault publish_event ≡ none) where
  pub announced :
      (action : MonitorAction) (m : Monitor) (w : World)
      → (announce env action m w).1 ≡ record w { events = monitor_to_event action m ∷ w.events }
  unfolding announce publish_monitor_event publish_changed ◌>>=◌
  announced action m w = rw (on, up) refl

  pub announced-InSync :
      (s : LeaderScheduler) (action : MonitorAction) (m : Monitor) (w w' : World)
      → InSync s w
      → w'.events ≡ w.events
      → IsKeyed w'.db.monitors
      → Says (monitor_to_event action m) w.db.monitors w'.db.monitors
      → InSync s (announce env action m w').1
  announced-InSync s action m w w' sync e k says = rw (announced action m w') (
      followed s w (record w' { events = monitor_to_event action m ∷ w'.events })
        (monitor_to_event action m) sync (ap (λ evs. monitor_to_event action m ∷ evs) e) k says)

  published_deleted :
      (id : ℕ) (w : World)
      → (publish_deleted env id w).1 ≡ record w { events = deletion id ∷ w.events }
  unfolding publish_deleted publish_changed ◌>>=◌
  published_deleted id w = rw (on, up) refl

  module _ (user : User) (s : LeaderScheduler) (w : World) (sync : InSync s w) where
    -- The monitor that was loaded is that of a live row of the user.
    abbrev pub Loaded : Monitor → Type 0
    Loaded m =
        (row : MonitorRow) × (find (is_live m.id) w.db.monitors ≡ some row)
        × (row.mon ≡ m)
        × (m.user_id ≡ user.id)

    pub updated-InSync :
        (input : UpdateMonitorInput) (old : Monitor)
        → Loaded old
        → let mon = apply_input user input old in
          InSync s
            ((wrapping "update monitor: %w" (Monitors.update env mon) >> announce env update mon)
              w).1
    unfolding Monitors.update apply_input monitor_to_event
    updated-InSync input old (row, live, same, own) =
        let mon = apply_input user input old in
        wrapped_call_at (InSync s) _ env _ _ _ w sync (
          announced-InSync s update mon w
            (record w {
              db = record w.db {
                monitors =
                    update_where (is_owned mon.id mon.user_id) (set_fields mon) w.db.monitors;
              };
            })
            sync refl
            (IsKeyed-update_where (is_owned mon.id mon.user_id) (set_fields mon) w.db.monitors
              (λ r. refl) sync.1)
            (λ i.
              wanted-update_where mon.id mon.user_id (set_fields mon) row w.db.monitors
                (λ j r. refl) live (ap (λ m. m.user_id) same) i))

    counted-InSync :
        (id : ℕ) (w' : World)
        → w'.events ≡ w.events
        → IsKeyed w'.db.monitors
        → Says (deletion id) w.db.monitors w'.db.monitors
        → InSync s ((count_metric env monitor_deleted >> publish_deleted env id) w').1
    unfolding count_metric ◌>>=◌
    counted-InSync id w' e k says = by_wiring env.has_metrics
      where
        counted : Bool → World
        counted b = if b then record w' { metrics = monitor_deleted ∷ w'.metrics } else w'

        at :
            (x : World) → x.events ≡ w.events → x.db ≡ w'.db → InSync s (publish_deleted env id x).1
        at x xe xd = rw (published_deleted id x) (
            followed s w (record x { events = deletion id ∷ x.events }) (deletion id) sync
              (ap (λ evs. deletion id ∷ evs) xe) (rw xd k) (rw xd says))

        by_wiring : (b : Bool) → InSync s (publish_deleted env id (counted b)).1
        by_wiring true = at _ e refl
        by_wiring false = at _ e refl

    pub deleted-InSync :
        (id : ℕ) (row : MonitorRow)
        → find (is_live id) w.db.monitors ≡ some row
        → row.mon.user_id ≡ user.id
        → InSync s
            ((Monitors.delete env id user.id
                >> (count_metric env monitor_deleted >> publish_deleted env id))
              w).1
    unfolding Monitors.delete
    deleted-InSync id row live own = call_at (InSync s) env _ _ _ w sync (
        counted-InSync id
          (record w {
            db = record w.db { monitors = update_where (is_owned id user.id) gone w.db.monitors };
          })
          refl (IsKeyed-update_where (is_owned id user.id) gone w.db.monitors (λ r. refl) sync.1)
          (λ i. wanted-deleted id user.id row w.db.monitors sync.1 live own i))

    pub toggled-InSync :
        (id : ℕ) (row : MonitorRow)
        → find (is_live id) w.db.monitors ≡ some row
        → row.mon.user_id ≡ user.id
        → InSync s
            ((wrapping "toggle pause: %w" (Monitors.toggle_pause env id user.id) >>= λ mon.
                announce env (Crud.pause_action mon.is_paused) mon)
              w).1
    unfolding Monitors.toggle_pause
    toggled-InSync id row live mine =
        let mid = (find-live id w.db.monitors row live).0 in
        wrapped_call_at (InSync s) _ env _ _ _ w sync (
          rw (find-owned id user.id row w.db.monitors live mine) (
            announced-InSync s (Crud.pause_action (not row.mon.is_paused)) (flip row).mon w
              (record w {
                db = record w.db {
                  monitors = update_where (is_owned id user.id) flip w.db.monitors;
                };
              })
              sync refl
              (IsKeyed-update_where (is_owned id user.id) flip w.db.monitors (λ r. refl) sync.1)
              (λ i.
                wanted-update_where id user.id flip row w.db.monitors (λ j r. refl) live mine i
                ∙ ap (λ p. if id == i then p else wanted i w.db.monitors)
                    (sym (plan-toggled (flip row).mon))
                ∙ ap
                    (λ j.
                      if j == i
                      then event_plan (
                          monitor_to_event (Crud.pause_action (flip row).mon.is_paused)
                            (flip row).mon)
                      else wanted i w.db.monitors)
                    (sym mid ∙ sym (monitor_to_event-id _ (flip row).mon)))))
