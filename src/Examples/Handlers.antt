-- ===== src/Examples/Handlers.antt =====
-- The theorems about the handlers, with a JSON library that reads a text as one field.
use pingcast.Prelude.{true, false, Option, none, some, [], ◌∷◌, Text, codes, ◌≡◌, refl, arith, find}
use pingcast.Prelude.Int.{pos}
use pingcast.Prelude.Strings.{trim_space, trim_left}
use pingcast.Error.{Error, ok, wrap_two, sentinel, foreign, event_publish_failed}
use pingcast.Domain.User.{User, pro}
use pingcast.Domain.Monitor.{Monitor, http, unknown}
use pingcast.Domain.Channel.{NotificationChannel, webhook, telegram}
use pingcast.Domain.Redaction.{string, Object, mask}
use pingcast.Store.World.{World, Env, publish_event}
use pingcast.Store.Exec.{◌>>=◌}
use pingcast.Store.Monitors
use pingcast.Store.ApiKeys
use pingcast.Store.Channels
use pingcast.Monitoring.Crud.{
  create_monitor, check_input, insert_monitor, new_monitor, announce, publish_monitor_event,
  publish_changed,
}
use pingcast.Http.Access.{Request, next, unauthorized, auth_middleware, required_scope}
use pingcast.Http.Respond.{answer, json, failure}
use pingcast.Http.Handlers.{Libraries, require_user, parsed}
use pingcast.Http.Handlers.Monitors.{
  CreateMonitorRequest, UpdateMonitorRequest, create_input, create_monitor_handler,
}
use pingcast.Http.Handlers.Channels.{
  UpdateChannelRequest, domain_channel_to_api, update_channel_handler,
}
use pingcast.Http.Handlers.ApiKeys.{
  KeyMaker, CreateApiKeyRequest, ApiKeyCreated, create_api_key_handler, revoke_api_key_handler,
}
use pingcast.Http.Handlers.ApiKeys.Accepted.{create_api_key-Accepted}
use pingcast.Http.Handlers.Channels.Secrets.{domain_channel_to_api-same}
use pingcast.Http.Handlers.Channels.Blank.{renamed, update_channel_handler-blank}
use pingcast.Http.Handlers.Tenants.{Refused, foreign_monitor-Refused, foreign_channel-Refused}
use pingcast.Http.Handlers.Surprises.{
  internal_envelope, create_monitor_handler-unpublished, invalid_request-internal,
}
use pingcast.Http.Handlers.Incidents.{
  ScheduleMaintenanceWindowRequest, CreateIncidentRequest, schedule_maintenance_window_handler,
  create_incident_handler,
}
use pingcast.Http.Handlers
use pingcast.Examples.Data.{env, ann, bob, site, row, failing}
use pingcast.Examples.Accounts.{members}
use pingcast.Examples.Access.{server, request}
use pingcast.Examples.Alerts.{ready, senders, channel}

-- An object is written as the text of its first field.
abbrev first_field : Object → Option Text
first_field [] = some []
first_field ((key, string v) ∷ m) = some v
first_field ((key, v) ∷ m) = none

abbrev libs : Libraries
libs = record {
  rendering = record { text = λ e. codes "an error"; fiber_code = λ e. none };
  json = record { unmarshal = λ raw. some ((codes "url", string raw) ∷ []); marshal = first_field };
}

abbrev maker : KeyMaker
maker = record { hash_key = λ k. k; random_bytes = ok (171 ∷ []) }

abbrev wanted_key : CreateApiKeyRequest
wanted_key = record {
  name = codes "ci";
  scopes = codes "incidents:write" ∷ [];
  expires_in_days = some (pos 1);
}

abbrev ann_pro : User
ann_pro = record ann { plan = pro }

abbrev made_key : ApiKeyCreated
made_key = record {
  key = record {
    id = 42;
    name = codes "ci";
    scopes = codes "incidents:write" ∷ [];
    created_at = 7200;
    last_used_at = none;
    expires_at = some 93600;
  };
  raw_key = codes "pc_live_ab";
}

key_made :
    (create_api_key_handler env libs maker (some ann_pro) (some wanted_key) members).0
    ≡ ok (answer (json 201 made_key))
unfolding create_api_key_handler require_user parsed ApiKeys.create ◌>>=◌
key_made = refl

abbrev bearing : Request
bearing = record request { authorization = codes "Bearer pc_live_ab" }

create_api_key-Accepted_example :
    let w' = (create_api_key_handler env libs maker (some ann_pro) (some wanted_key) members).1 in
    ((auth_middleware env server bearing w').0 ≡ ok (next (some ann_pro)))
    × ((auth_middleware env server bearing
          (revoke_api_key_handler env libs (some ann_pro) 42 w').1).0
        ≡ ok (unauthorized false))
unfolding required_scope
create_api_key-Accepted_example =
    create_api_key-Accepted env env libs maker server ann_pro wanted_key bearing members
      (answer (json 201 made_key)) made_key _ key_made refl (λ raw. refl) refl refl refl refl refl
      refl refl

abbrev hook : NotificationChannel
hook = record {
  id = 22;
  user_id = 1;
  name = codes "ops";
  type = webhook;
  config = [];
  is_enabled = true;
  created_at = 50;
}

-- Two secrets that end alike.
domain_channel_to_api-same_example :
    domain_channel_to_api libs.json (record hook { config = codes "https://a/1234" })
    ≡ domain_channel_to_api libs.json (record hook { config = codes "https://bb/1234" })
domain_channel_to_api-same_example =
    domain_channel_to_api-same libs.json hook (codes "url") (codes "https://a/1234")
      (codes "https://bb/1234") (codes "https://a/1234") (codes "https://bb/1234")
      (mask (codes "https://a/1234")) ((codes "url", string []) ∷ []) refl refl refl refl refl refl
      (omega arith) (omega arith) refl

-- The stream is down.
abbrev cut_off : Env
cut_off = record env { fault = λ op. elim op [ publish_event ↦ some "no responders" | _ ↦ none ] }

abbrev blog_request : CreateMonitorRequest
blog_request = record {
  name = codes "blog";
  type = http;
  check_config = [];
  interval_seconds = some (pos 600);
  alert_after_failures = none;
  is_public = none;
}

abbrev blog : Monitor
blog = record {
  id = 42;
  user_id = 1;
  name = codes "blog";
  type = http;
  check_config = [];
  interval_seconds = pos 600;
  alert_after_failures = pos 3;
  is_paused = false;
  is_public = false;
  current_status = unknown;
  created_at = 7200;
}

abbrev unpublished : Monitor × Option Error
unpublished = (blog, some (wrap_two (sentinel event_publish_failed) (foreign "no responders")))

created_unpublished :
    (create_monitor cut_off ann (create_input blog_request []) failing).0 ≡ ok unpublished
unfolding create_monitor check_input insert_monitor new_monitor announce publish_monitor_event
    publish_changed Monitors.count_by_user Monitors.create ◌>>=◌ trim_space trim_left
created_unpublished = refl

create_monitor_handler-unpublished_example :
    let (r, w') = create_monitor_handler cut_off libs (some ann) (some blog_request) failing in
    (r ≡ ok (answer (failure internal_envelope)))
    × (w'.db.monitors ≡ record { mon = blog; deleted = false; group_id = none } ∷ row ∷ [])
create_monitor_handler-unpublished_example =
    create_monitor_handler-unpublished cut_off libs ann blog_request [] failing unpublished
      "no responders" refl refl (refl, refl) refl created_unpublished

abbrev pausing : UpdateMonitorRequest
pausing = record {
  name = none;
  check_config = none;
  interval_seconds = none;
  alert_after_failures = none;
  is_paused = some true;
  is_public = none;
}

foreign_monitor-Refused_example :
    Refused failing
      (Handlers.Monitors.update_monitor_handler env libs (some bob) 7 (some pausing) failing)
    × Refused failing (Handlers.Monitors.delete_monitor_handler env libs (some bob) 7 failing)
    × Refused failing (Handlers.Monitors.toggle_monitor_pause_handler env libs (some bob) 7 failing)
foreign_monitor-Refused_example =
    foreign_monitor-Refused env libs bob 7 pausing none failing row refl refl refl refl (λ e. cc)

abbrev no_fields : UpdateChannelRequest
no_fields = record { name = none; is_enabled = none; config = none }

-- Bob with a monitor of his own.
abbrev shared : World
shared = record ready {
  db = record ready.db {
    monitors = row ∷ record row { mon = record site { id = 8; user_id = 2 } } ∷ [];
  };
}

foreign_channel-Refused_example :
    Refused shared (Handlers.Channels.get_channel_handler env libs (some bob) 21 shared)
    × Refused shared (
        Handlers.Channels.update_channel_handler env libs senders
          (some bob)
          21
          (some no_fields)
          shared)
    × Refused shared (Handlers.Channels.delete_channel_handler env libs (some bob) 21 shared)
    × Refused shared (Handlers.Channels.bind_channel_handler env libs (some bob) 8 (some 21) shared)
foreign_channel-Refused_example =
    foreign_channel-Refused env libs senders bob 8 21 no_fields none shared (channel 21 telegram)
      (record row { mon = record site { id = 8; user_id = 2 } }) refl refl refl refl refl (λ e. cc)
      refl refl

update_channel_handler-blank_example :
    let (r, w') = update_channel_handler env libs senders (some ann) 21 (some no_fields) ready in
    (r
      ≡ ok (
          answer (
            json 200
              (domain_channel_to_api libs.json (renamed [] true (channel 21 telegram)).chan))))
    × (find (Channels.is_live 21) w'.db.channels ≡ some (renamed [] true (channel 21 telegram)))
update_channel_handler-blank_example =
    update_channel_handler-blank env libs senders ann 21 ready (channel 21 telegram) refl refl refl
      refl

abbrev backwards : ScheduleMaintenanceWindowRequest
backwards = record { monitor_id = 7; starts_at = 9000; ends_at = 8000; reason = [] }

abbrev untitled : CreateIncidentRequest
untitled = record { monitor_id = 7; title = codes "  "; body = codes "down" }

invalid_request-internal_example :
    (schedule_maintenance_window_handler env libs (some ann) (some backwards) failing
      ≡ (ok (answer (failure internal_envelope)), failing))
    × (create_incident_handler env libs (some ann) (some untitled) failing
        ≡ (ok (answer (failure internal_envelope)), failing))
unfolding trim_space trim_left
invalid_request-internal_example =
    invalid_request-internal env libs ann backwards untitled failing (refl, refl) (refl, refl) refl
      refl
