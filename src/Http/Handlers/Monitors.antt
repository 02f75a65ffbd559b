-- ===== src/Http/Handlers/Monitors.antt =====
-- internal/adapter/http/server.go: the handlers that create, change, delete and pause a monitor.
use pingcast.Prelude.{ℕ, Bool, false, if◌then◌else◌, Option, none, some, [], Text, is_empty}
use pingcast.Prelude.Int.{ℤ, pos}
use pingcast.Error.{Error, Result, ok, err, foreign, wrap}
use pingcast.Domain.User.{User}
use pingcast.Domain.Monitor.{Monitor, MonitorType, MonitorStatus}
use pingcast.Domain.Redaction.{Object, Json}
use pingcast.Store.World.{Env}
use pingcast.Store.Exec.{Exec, pure}
use pingcast.Monitoring.Crud.{
  CreateMonitorInput, UpdateMonitorInput, create_monitor, update_monitor, delete_monitor,
  toggle_pause,
}
use pingcast.Http.Respond.{Rendering, Response}
use pingcast.Http.Handlers.{
  Libraries, require_user, parsed, write, served, created, succeeded, no_content,
}

pub record ApiMonitor : Type 0 where
  pub id : ℕ
  pub name : Text
  pub type : MonitorType
  pub check_config : Object
  pub target : Text
  pub interval_seconds : ℤ
  pub alert_after_failures : ℤ
  pub is_paused : Bool
  pub is_public : Bool
  pub current_status : MonitorStatus
  pub created_at : ℕ

-- `ParseCheckConfig`: nothing is parsed to no map.
unfoldable pub parse_check_config : Json → Monitor → Result Object
parse_check_config json m =
    if is_empty m.check_config then ok [] else elim (json.unmarshal m.check_config) [
      | none ↦ err (wrap "parse check config for monitor %s: %w" (foreign "invalid JSON"))
      | some o ↦ ok o
    ]

abbrev api_monitor : Monitor → Text → Object → ApiMonitor
api_monitor m target config = record {
  id = m.id;
  name = m.name;
  type = m.type;
  check_config = config;
  target = target;
  interval_seconds = m.interval_seconds;
  alert_after_failures = m.alert_after_failures;
  is_paused = m.is_paused;
  is_public = m.is_public;
  current_status = m.current_status;
  created_at = m.created_at;
}

abbrev with_config : Monitor → Text → Result Object → Result ApiMonitor
with_config m target (err e) = err (wrap "parse config for monitor %s: %w" e)
with_config m target (ok config) = ok (api_monitor m target config)

unfoldable pub domain_monitor_to_api : Env → Json → Monitor → Result ApiMonitor
unfolding parse_check_config
domain_monitor_to_api env json m = elim (env.target m.type m.check_config) [
  | none ↦ err (wrap "resolve target for monitor %s: %w" (foreign "no target"))
  | some target ↦ with_config m target (parse_check_config json m)
]

abbrev pub shown :
    Rendering
    → (ApiMonitor → Exec (Response ApiMonitor))
    → Result ApiMonitor
    → Exec (Response ApiMonitor)
unfolding write
shown r f (err e) = pure (write r e)
shown r f (ok m) = f m

-- What a service returns beside the monitor: an error that is not nil is answered, whatever stands beside it.
unfoldable pub and_error :
    Env
    → Libraries
    → (ApiMonitor → Exec (Response ApiMonitor))
    → Monitor × Option Error
    → Exec (Response ApiMonitor)
unfolding write domain_monitor_to_api
and_error env libs f (m, some e) = pure (write libs.rendering e)
and_error env libs f (m, none) = shown libs.rendering f (domain_monitor_to_api env libs.json m)

-- The body of a request: a config is an object, and a field that is left out is `none`.
pub record CreateMonitorRequest : Type 0 where
  pub name : Text
  pub type : MonitorType
  pub check_config : Object
  pub interval_seconds : Option ℤ
  pub alert_after_failures : Option ℤ
  pub is_public : Option Bool

abbrev pub or_zero : Option ℤ → ℤ
or_zero none = pos 0
or_zero (some i) = i

abbrev pub or_false : Option Bool → Bool
or_false none = false
or_false (some b) = b

abbrev pub create_input : CreateMonitorRequest → Text → CreateMonitorInput
create_input req config = record {
  name = req.name;
  type = req.type;
  check_config = config;
  interval_seconds = or_zero req.interval_seconds;
  alert_after_failures = or_zero req.alert_after_failures;
  is_public = or_false req.is_public;
  channel_ids = [];
}

unfoldable pub create_monitor_handler :
    Env → Libraries → Option User → Option CreateMonitorRequest → Exec (Response ApiMonitor)
unfolding write and_error
create_monitor_handler env libs user body = require_user user λ u. parsed body λ req.
    parsed (libs.json.marshal req.check_config) λ config.
      served (create_monitor env u (create_input req config)) (write libs.rendering)
        (and_error env libs created)

pub record UpdateMonitorRequest : Type 0 where
  pub name : Option Text
  pub check_config : Option Object
  pub interval_seconds : Option ℤ
  pub alert_after_failures : Option ℤ
  pub is_paused : Option Bool
  pub is_public : Option Bool

abbrev pub update_input : UpdateMonitorRequest → Option Text → UpdateMonitorInput
update_input req config = record {
  name = req.name;
  check_config = config;
  interval_seconds = req.interval_seconds;
  alert_after_failures = req.alert_after_failures;
  is_paused = req.is_paused;
  is_public = req.is_public;
}

-- A field that is given is marshalled, which can fail.
abbrev pub marshalled : Json → Option Object → Option (Option Text)
marshalled json none = some none
marshalled json (some o) = elim (json.marshal o) [ none ↦ none | some t ↦ some (some t) ]

unfoldable pub update_monitor_handler :
    Env → Libraries → Option User → ℕ → Option UpdateMonitorRequest → Exec (Response ApiMonitor)
unfolding write and_error
update_monitor_handler env libs user id body = require_user user λ u. parsed body λ req.
    parsed (marshalled libs.json req.check_config) λ config.
      served (update_monitor env u id (update_input req config)) (write libs.rendering)
        (and_error env libs succeeded)

unfoldable pub delete_monitor_handler :
    Env → Libraries → Option User → ℕ → Exec (Response (Unit {0}))
unfolding write
delete_monitor_handler env libs user id =
    require_user user
      λ u. served (delete_monitor env u.id id) (write libs.rendering) (λ _. no_content)

unfoldable pub toggle_monitor_pause_handler :
    Env → Libraries → Option User → ℕ → Exec (Response ApiMonitor)
unfolding write and_error
toggle_monitor_pause_handler env libs user id =
    require_user user
      λ u. served (toggle_pause env u id) (write libs.rendering) (and_error env libs succeeded)
