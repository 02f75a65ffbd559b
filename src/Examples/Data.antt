-- ===== src/Examples/Data.antt =====
-- Sample users, monitors, results and tables.
use pingcast.Prelude.{ℕ, none, some, [], ◌∷◌, codes, false, true}
use pingcast.Prelude.Int.{pos}
use pingcast.Domain.User.{User, free}
use pingcast.Domain.Monitor.{Monitor, CheckResult, MonitorStatus, http, up, down}
use pingcast.Domain.Incident.{Incident, investigating}
use pingcast.Store.World.{World, Env, MonitorRow, Db}

abbrev pub env : Env
env = record {
  now = 7200;
  fault = λ op. none;
  has_metrics = true;
  has_maintenance = true;
  has_events = true;
  new_id = 42;
  validate_config = λ type config. none;
  target = λ type config. some (codes "https://example.org");
}

abbrev pub ann : User
ann = record {
  id = 1;
  email = codes "ann@example.org";
  slug = codes "ann";
  plan = free;
  created_at = 10;
}

abbrev pub bob : User
bob = record ann { id = 2; slug = codes "bob" }

abbrev pub site : Monitor
site = record {
  id = 7;
  user_id = 1;
  name = codes "site";
  type = http;
  check_config = [];
  interval_seconds = pos 300;
  alert_after_failures = pos 2;
  is_paused = false;
  is_public = true;
  current_status = up;
  created_at = 100;
}

abbrev pub result : MonitorStatus → ℕ → CheckResult
result status at = record {
  monitor_id = 7;
  status = status;
  status_code = none;
  response_time_ms = 12;
  error_message = some (codes "timeout");
  checked_at = at;
}

abbrev pub incident : Incident
incident = record {
  id = 3;
  monitor_id = 7;
  started_at = 7000;
  resolved_at = none;
  cause = codes "timeout";
  state = investigating;
  is_manual = false;
  title = none;
}

abbrev pub row : MonitorRow
row = record { mon = site; deleted = false; group_id = none }

abbrev pub empty : Db
empty = record {
  monitors = [];
  check_results = [];
  uptime = [];
  incidents = [];
  next_incident = 1;
  updates = [];
  next_update = 1;
  windows = [];
  next_window = 1;
  channels = [];
  bindings = [];
  failed_alerts = [];
  users = [];
  domains = [];
  next_domain = 1;
  certs = [];
  groups = [];
  next_group = 1;
  subscribers = [];
  next_subscriber = 1;
  blog_subscribers = [];
  next_blog_subscriber = 1;
  api_keys = [];
}

abbrev world : Db → World
world db = record {
  db = db;
  alerts = [];
  events = [];
  metrics = [];
  sends = [];
  sessions = [];
  hostname_cache = [];
  mails = [];
}

-- One monitor, of which the last result was a failure.
abbrev pub failing : World
failing = world (record empty { monitors = row ∷ []; check_results = result down 7000 ∷ [] })

-- The same with an incident open.
abbrev pub broken : World
broken = world (record empty {
  monitors = row ∷ [];
  check_results = result down 7000 ∷ [];
  incidents = incident ∷ [];
  next_incident = 4;
})
