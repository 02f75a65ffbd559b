-- ===== src/Scheduler/Events.antt =====
-- internal/bootstrap/scheduler.go: what the scheduler process does with the events about monitors.
use pingcast.Prelude.{Option, none, some, List, [], ◌∷◌, false}
use pingcast.Domain.Monitor.{
  Monitor, MonitorType, MonitorAction, create, update, delete, pause, resume, unknown, other,
}
use pingcast.Store.World.{MonitorChangedEvent}
use pingcast.Scheduler.{LeaderScheduler, add, remove}

-- A type that the JSON leaves out is the empty string.
abbrev type_of : Option MonitorType → MonitorType
type_of none = other []
type_of (some t) = t

-- The fields that the event does not carry have their zero values.
abbrev pub event_monitor : MonitorChangedEvent → Monitor
event_monitor ev = record {
  id = ev.monitor_id;
  user_id = 0;
  name = ev.name;
  type = type_of ev.type;
  check_config = ev.check_config;
  interval_seconds = ev.interval_seconds;
  alert_after_failures = ev.alert_after_failures;
  is_paused = ev.is_paused;
  is_public = false;
  current_status = unknown;
  created_at = 0;
}

abbrev by_action : MonitorAction → MonitorChangedEvent → LeaderScheduler → LeaderScheduler
unfolding add remove
by_action create ev s = add (event_monitor ev) s
by_action update ev s = add (event_monitor ev) s
by_action resume ev s = add (event_monitor ev) s
by_action delete ev s = remove ev.monitor_id s
by_action pause ev s = remove ev.monitor_id s

-- The handler of the subscription, which returns no error.
unfoldable pub handle_change : MonitorChangedEvent → LeaderScheduler → LeaderScheduler
unfolding add remove
handle_change ev s = by_action ev.action ev s

-- The events of a stream, the latest first, all handled.
unfoldable pub handle_all : List MonitorChangedEvent → LeaderScheduler → LeaderScheduler
unfolding handle_change
handle_all [] s = s
handle_all (ev ∷ evs) s = handle_change ev (handle_all evs s)

-- `NewScheduler`: the monitors that `ListActive` returns are there before the first event.
unfoldable pub load : List Monitor → LeaderScheduler → LeaderScheduler
unfolding add
load [] s = s
load (m ∷ ms) s = load ms (add m s)
