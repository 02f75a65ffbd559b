-- ===== src/Monitoring/Crud.antt =====
-- internal/app/monitoring.go: creating, changing, pausing and deleting a monitor, and the events
-- that tell the scheduler. Where the source returns a monitor and an error together, the result
-- here is the monitor with that error beside it.
pub mod Limits
pub mod Isolation
use pingcast.Prelude.{
  ℕ, leb, ◌==◌, Bool, true, false, not, if◌then◌else◌, Option, none, some, List, [], ◌∷◌, Text,
  trim_space,
}
use pingcast.Prelude.Int.{ℤ, pos, ltb_ℤ, eqb_ℤ, max_ℤ}
use pingcast.Error.{
  Error, sentinel, foreign, wrap, wrap_two, forbidden, event_publish_failed, new_validation_error,
  monitor_limit_reached, interval_below_tier_min, Result, ok, err,
}
use pingcast.Domain.User.{User, monitor_limit, min_interval}
use pingcast.Domain.Monitor.{
  Monitor, MonitorType, MonitorAction, create, update, delete, pause, resume, unknown,
}
use pingcast.Domain.Validate.{validate_monitor_input}
use pingcast.Store.World.{Env, MonitorChangedEvent, publish_event, monitor_created, monitor_deleted}
use pingcast.Store.Exec.{
  Exec, ◌>>=◌, ◌>>◌, pure, throw, check, wrapping, attempt, call, count_metric, transaction,
}
use pingcast.Store.Monitors
use pingcast.Store.Channels
use pingcast.Monitoring.Lifecycle.{fail_if}

-- `action == ActionDelete || action == ActionPause`.
abbrev stops : MonitorAction → Bool
stops delete = true
stops pause = true
stops _ = false

unfoldable pub monitor_to_event : MonitorAction → Monitor → MonitorChangedEvent
monitor_to_event action m =
    if stops action
    then record {
      action = action;
      monitor_id = m.id;
      name = [];
      type = none;
      check_config = [];
      interval_seconds = pos 0;
      alert_after_failures = pos 0;
      is_paused = false;
    }
    else record {
      action = action;
      monitor_id = m.id;
      name = m.name;
      type = some m.type;
      check_config = m.check_config;
      interval_seconds = m.interval_seconds;
      alert_after_failures = m.alert_after_failures;
      is_paused = m.is_paused;
    }

-- `events.PublishMonitorChanged`.
unfoldable pub publish_changed : Env → MonitorChangedEvent → Exec (Unit {0})
publish_changed env ev = call env publish_event λ w. (ok tt, record w { events = ev ∷ w.events })

unfoldable pub publish_monitor_event : Env → MonitorAction → Monitor → Exec (Unit {0})
unfolding monitor_to_event publish_changed
publish_monitor_event env action m =
    if env.has_events then publish_changed env (monitor_to_event action m) else pure tt

-- `ErrEventPublishFailed` beside the monitor, if the event could not be published.
abbrev published : Monitor → Result (Unit {0}) → Monitor × Option Error
published m (ok _) = (m, none)
published m (err e) = (m, some (wrap_two (sentinel event_publish_failed) e))

unfoldable pub announce : Env → MonitorAction → Monitor → Exec (Monitor × Option Error)
unfolding publish_monitor_event
announce env action m = do r ← attempt (publish_monitor_event env action m); pure (published m r)

-- The repository returns no nil monitor without an error, so that test of the source has no case.
unfoldable pub load_owned_monitor : Env → ℕ → ℕ → Exec Monitor
load_owned_monitor env id user_id = do
  mon ← Monitors.get_by_id env id
  check (fail_if (not (mon.user_id == user_id)) (sentinel forbidden))
  pure mon

pub record CreateMonitorInput : Type 0 where
  pub name : Text
  pub type : MonitorType
  pub check_config : Text
  pub interval_seconds : ℤ
  pub alert_after_failures : ℤ
  pub is_public : Bool
  pub channel_ids : List ℕ

-- The value 0 stands for "not given".
abbrev pub or_default : ℤ → ℤ → ℤ
or_default v d = if eqb_ℤ v (pos 0) then d else v

unfoldable pub new_monitor : User → CreateMonitorInput → Monitor
unfolding min_interval
new_monitor user input = record {
  id = 0;
  user_id = user.id;
  name = trim_space input.name;
  type = input.type;
  check_config = input.check_config;
  interval_seconds = or_default input.interval_seconds (pos (min_interval user));
  alert_after_failures = or_default input.alert_after_failures (pos 3);
  is_paused = false;
  is_public = input.is_public;
  current_status = unknown;
  created_at = 0;
}

abbrev wrap_option : Option Error → Option Error
wrap_option none = none
wrap_option (some e) = some (wrap "invalid check config: %w" e)

-- Everything that `CreateMonitor` refuses before it writes.
unfoldable pub check_input : Env → User → CreateMonitorInput → ℕ → Exec (Unit {0})
unfolding monitor_limit min_interval validate_monitor_input
check_input env user input n =
    let interval = or_default input.interval_seconds (pos (min_interval user)) in
    let alert_after = or_default input.alert_after_failures (pos 3) in
    do
      check (fail_if (leb (monitor_limit user) n) (new_validation_error monitor_limit_reached))
      check (
          fail_if (ltb_ℤ interval (pos (min_interval user)))
            (new_validation_error interval_below_tier_min))
      check (validate_monitor_input input.name interval alert_after)
      check (wrap_option (env.validate_config input.type input.check_config))

unfoldable pub bind_all : Env → ℕ → List ℕ → Exec (Unit {0})
bind_all env monitor_id [] = pure tt
bind_all env monitor_id (c ∷ cs) =
    wrapping "bind channel %s: %w" (Channels.bind_to_monitor env monitor_id c)
    >> bind_all env monitor_id cs

-- Without channels a plain insert, with channels a transaction.
unfoldable pub insert_monitor : Env → Monitor → List ℕ → Exec Monitor
insert_monitor env m [] = Monitors.create env m
insert_monitor env m (c ∷ cs) = transaction env (do
  created ← wrapping "create monitor: %w" (Monitors.create env m)
  bind_all env created.id (c ∷ cs)
  pure created)

unfoldable pub create_monitor : Env → User → CreateMonitorInput → Exec (Monitor × Option Error)
create_monitor env user input = do
  n ← wrapping "count monitors: %w" (Monitors.count_by_user env user.id)
  check_input env user input n
  created ← insert_monitor env (new_monitor user input) input.channel_ids
  count_metric env monitor_created
  announce env create created

pub record UpdateMonitorInput : Type 0 where
  pub name : Option Text
  pub check_config : Option Text
  pub interval_seconds : Option ℤ
  pub alert_after_failures : Option ℤ
  pub is_paused : Option Bool
  pub is_public : Option Bool

abbrev pub or_old {ℓ} : {A : Type ℓ} → Option A → A → A
or_old none a = a
or_old (some b) a = b

-- A given interval is raised to the least one of the plan.
abbrev new_interval : User → Option ℤ → ℤ → ℤ
unfolding min_interval
new_interval user none old = old
new_interval user (some i) old = max_ℤ i (pos (min_interval user))

abbrev trimmed : Option Text → Option Text
trimmed none = none
trimmed (some t) = some (trim_space t)

abbrev check_config : Env → MonitorType → Option Text → Option Error
check_config env type none = none
check_config env type (some c) = wrap_option (env.validate_config type c)

unfoldable pub apply_input : User → UpdateMonitorInput → Monitor → Monitor
unfolding new_interval min_interval
apply_input user input m = record m {
  name = or_old (trimmed input.name) m.name;
  check_config = or_old input.check_config m.check_config;
  interval_seconds = new_interval user input.interval_seconds m.interval_seconds;
  alert_after_failures = or_old input.alert_after_failures m.alert_after_failures;
  is_paused = or_old input.is_paused m.is_paused;
  is_public = or_old input.is_public m.is_public;
}

unfoldable pub update_monitor : Env → User → ℕ → UpdateMonitorInput → Exec (Monitor × Option Error)
unfolding validate_monitor_input
update_monitor env user id input = do
  old ← load_owned_monitor env id user.id
  check (check_config env old.type input.check_config)
  let mon = apply_input user input old
  check (validate_monitor_input mon.name mon.interval_seconds mon.alert_after_failures)
  wrapping "update monitor: %w" (Monitors.update env mon)
  announce env update mon

-- A failed publication is logged. A nil publisher is not tested for here: the call panics.
unfoldable pub publish_deleted : Env → ℕ → Exec (Unit {0})
unfolding publish_changed
publish_deleted env monitor_id =
    if env.has_events
    then (do
      attempt (
          publish_changed env (record {
            action = delete;
            monitor_id = monitor_id;
            name = [];
            type = none;
            check_config = [];
            interval_seconds = pos 0;
            alert_after_failures = pos 0;
            is_paused = false;
          }))
      pure tt)
    else throw (foreign "nil pointer dereference")

unfoldable pub delete_monitor : Env → ℕ → ℕ → Exec (Unit {0})
delete_monitor env user_id monitor_id = do
  load_owned_monitor env monitor_id user_id
  Monitors.delete env monitor_id user_id
  count_metric env monitor_deleted
  publish_deleted env monitor_id

abbrev pub pause_action : Bool → MonitorAction
pause_action true = pause
pause_action false = resume

unfoldable pub toggle_pause : Env → User → ℕ → Exec (Monitor × Option Error)
toggle_pause env user monitor_id = do
  load_owned_monitor env monitor_id user.id
  mon ← wrapping "toggle pause: %w" (Monitors.toggle_pause env monitor_id user.id)
  announce env (pause_action mon.is_paused) mon
