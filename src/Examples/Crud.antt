-- ===== src/Examples/Crud.antt =====
-- The theorems about monitors, on the sample tables.
use pingcast.Prelude.{codes, some, none, false, [], ◌≡◌, refl}
use pingcast.Prelude.Int.{pos}
use pingcast.Error.{ok}
use pingcast.Domain.Monitor.{Monitor, http, unknown}
use pingcast.Store.Exec.{◌>>=◌}
use pingcast.Store.Monitors
use pingcast.Prelude.Strings.{trim_space, trim_left}
use pingcast.Monitoring.Crud.{
  CreateMonitorInput, UpdateMonitorInput, create_monitor, check_input, insert_monitor, new_monitor,
  announce, update_monitor, delete_monitor, toggle_pause,
}
use pingcast.Monitoring.Crud.Limits.{Created, create_monitor_ok}
use pingcast.Monitoring.Crud.Isolation.{others, monitors_isolated}
use pingcast.Examples.Data.{env, ann, bob, failing}

abbrev input : CreateMonitorInput
input = record {
  name = codes " blog ";
  type = http;
  check_config = [];
  interval_seconds = pos 600;
  alert_after_failures = pos 0;
  is_public = false;
  channel_ids = [];
}

abbrev blog : Monitor
blog = record {
  id = 42;
  user_id = 1;
  name = codes "blog";
  type = http;
  check_config = [];
  interval_seconds = pos 600;
  alert_after_failures = pos 3;
  is_paused = false;
  is_public = false;
  current_status = unknown;
  created_at = 7200;
}

create_succeeds : (create_monitor env ann input failing).0 ≡ ok (blog, none)
unfolding create_monitor check_input insert_monitor new_monitor announce Monitors.count_by_user
    Monitors.create ◌>>=◌ trim_space trim_left
create_succeeds = refl

create_monitor_ok_example :
    Created ann blog failing.db.monitors (create_monitor env ann input failing).1.db.monitors
create_monitor_ok_example = create_monitor_ok env ann input failing (blog, none) create_succeeds

abbrev edit : UpdateMonitorInput
edit = record {
  name = some (codes "shop");
  check_config = none;
  interval_seconds = none;
  alert_after_failures = none;
  is_paused = none;
  is_public = none;
}

monitors_isolated_example :
    let rows = others bob.id failing.db.monitors in
    (others bob.id (update_monitor env bob 7 edit failing).1.db.monitors ≡ rows)
    × (others bob.id (delete_monitor env bob.id 7 failing).1.db.monitors ≡ rows)
    × (others bob.id (toggle_pause env bob 7 failing).1.db.monitors ≡ rows)
monitors_isolated_example = monitors_isolated env bob 7 edit failing
