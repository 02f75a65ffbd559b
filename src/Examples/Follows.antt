-- ===== src/Examples/Follows.antt =====
-- The theorem about the scheduler that follows the events, on a user who pauses, resumes and deletes.
use pingcast.Prelude.{List, [], ◌∷◌, ◌≡◌, refl}
use pingcast.Monitoring.Crud.{
  toggle_pause, load_owned_monitor, announce, publish_monitor_event, publish_changed,
  monitor_to_event,
}
use pingcast.Store.World.{World}
use pingcast.Store.Exec.{◌>>=◌}
use pingcast.Store.Monitors
use pingcast.Scheduler.{new_leader_scheduler}
use pingcast.Scheduler.Events.{load, handle_all}
use pingcast.Scheduler.Mirror.{scheduled, wanted}
use pingcast.Scheduler.Follows.Calls.{toggles, deletes}
use pingcast.Scheduler.Follows.Start.{Step, after, started-InSync}
use pingcast.Examples.Data.{env, ann, site, row, failing}

abbrev quiet : World
quiet = record failing { db = record failing.db { monitors = row ∷ [] }; events = [] }

abbrev steps : List Step
steps = (env, ann, toggles 7) ∷ (env, ann, toggles 7) ∷ (env, ann, deletes 7) ∷ []

started-InSync_example :
    scheduled 7 (handle_all (after steps quiet).events (load (site ∷ []) new_leader_scheduler))
    ≡ wanted 7 (after steps quiet).db.monitors
unfolding toggle_pause load_owned_monitor announce publish_monitor_event publish_changed
    monitor_to_event Monitors.list_active Monitors.get_by_id Monitors.toggle_pause ◌>>=◌
started-InSync_example =
    started-InSync env quiet (site ∷ []) steps 7 refl refl (refl, tt)
      ((refl, refl, refl), ((refl, refl, refl), ((refl, refl, refl), tt)))
