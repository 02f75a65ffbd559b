-- ===== src/Http/Handlers/Channels.antt =====
-- internal/adapter/http/server.go: the handlers of channels.
pub mod Blank
pub mod Secrets
use pingcast.Prelude.{
  ℕ, ◌==◌, Bool, true, not, if◌then◌else◌, Option, none, some, List, [], map, Text,
}
use pingcast.Error.{Error, sentinel, forbidden}
use pingcast.Domain.User.{User}
use pingcast.Domain.Channel.{ChannelType, NotificationChannel}
use pingcast.Domain.Redaction.{Object, Json, redact_channel_config}
use pingcast.Store.World.{Env}
use pingcast.Store.Exec.{Exec, ◌>>=◌, ◌>>◌, pure, check}
use pingcast.Store.Channels
use pingcast.Alerts.Delivery.{Senders}
use pingcast.Alerts.Manage.{
  CreateChannelInput, create_channel, update_channel, delete_channel, bind_channel, unbind_channel,
}
use pingcast.Monitoring.Lifecycle.{fail_if}
use pingcast.Http.Respond.{Response, answer, bare}
use pingcast.Http.Handlers.{
  Libraries, require_user, parsed, write, served, created, succeeded, no_content,
}
use pingcast.Http.Handlers.Monitors.{marshalled}

pub record ApiChannel : Type 0 where
  pub id : ℕ
  pub name : Text
  pub type : ChannelType
  pub config : Object
  pub is_enabled : Bool
  pub created_at : ℕ

-- An object that cannot be read back is answered as the empty one.
abbrev pub or_empty : Option Object → Object
or_empty none = []
or_empty (some o) = o

unfoldable pub domain_channel_to_api : Json → NotificationChannel → ApiChannel
unfolding redact_channel_config
domain_channel_to_api json ch = record {
  id = ch.id;
  name = ch.name;
  type = ch.type;
  config = or_empty (json.unmarshal (redact_channel_config json ch.type ch.config));
  is_enabled = ch.is_enabled;
  created_at = ch.created_at;
}

-- `AlertService.GetChannelByID`. The repository returns no nil channel without an error.
unfoldable pub get_channel_by_id : Env → ℕ → ℕ → Exec NotificationChannel
get_channel_by_id env user_id channel_id = do
  ch ← Channels.get_by_id env channel_id
  check (fail_if (not (ch.user_id == user_id)) (sentinel forbidden))
  pure ch

unfoldable pub list_channels_handler :
    Env → Libraries → Option User → Exec (Response (List ApiChannel))
unfolding write domain_channel_to_api
list_channels_handler env libs user = require_user user λ u.
    served (Channels.list_by_user env u.id) (write libs.rendering)
      λ chs. succeeded (map (domain_channel_to_api libs.json) chs)

pub record CreateChannelRequest : Type 0 where
  pub name : Text
  pub type : ChannelType
  pub config : Object

unfoldable pub create_channel_handler :
    Env
    → Libraries
    → Senders
    → Option User
    → Option CreateChannelRequest
    → Exec (Response ApiChannel)
unfolding write domain_channel_to_api
create_channel_handler env libs s user body = require_user user λ u. parsed body λ req.
    parsed (libs.json.marshal req.config) λ config.
      served
        (create_channel env s u.id (record { name = req.name; type = req.type; config = config }))
        (write libs.rendering) λ ch. created (domain_channel_to_api libs.json ch)

unfoldable pub get_channel_handler : Env → Libraries → Option User → ℕ → Exec (Response ApiChannel)
unfolding write domain_channel_to_api
get_channel_handler env libs user id = require_user user λ u.
    served (get_channel_by_id env u.id id) (write libs.rendering)
      λ ch. succeeded (domain_channel_to_api libs.json ch)

pub record UpdateChannelRequest : Type 0 where
  pub name : Option Text
  pub is_enabled : Option Bool
  pub config : Option Object

-- A name that is left out is the empty name, and a channel is enabled unless the request says otherwise.
abbrev pub or_blank : Option Text → Text
or_blank none = []
or_blank (some name) = name

abbrev pub or_true : Option Bool → Bool
or_true none = true
or_true (some b) = b

unfoldable pub update_channel_handler :
    Env
    → Libraries
    → Senders
    → Option User
    → ℕ
    → Option UpdateChannelRequest
    → Exec (Response ApiChannel)
unfolding write domain_channel_to_api
update_channel_handler env libs s user id body = require_user user λ u. parsed body λ req.
    parsed (marshalled libs.json req.config) λ config.
      served (update_channel env s u.id id (or_blank req.name) config (or_true req.is_enabled))
        (write libs.rendering) λ ch. succeeded (domain_channel_to_api libs.json ch)

unfoldable pub delete_channel_handler :
    Env → Libraries → Option User → ℕ → Exec (Response (Unit {0}))
unfolding write
delete_channel_handler env libs user id =
    require_user user
      λ u. served (delete_channel env u.id id) (write libs.rendering) (λ _. no_content)

-- The body carries the channel.
unfoldable pub bind_channel_handler :
    Env → Libraries → Option User → ℕ → Option ℕ → Exec (Response (Unit {0}))
unfolding write
bind_channel_handler env libs user id body = require_user user λ u. parsed body λ channel_id.
    served (bind_channel env u.id id channel_id) (write libs.rendering)
      λ _. pure (answer (bare 200))

unfoldable pub unbind_channel_handler :
    Env → Libraries → Option User → ℕ → ℕ → Exec (Response (Unit {0}))
unfolding write
unbind_channel_handler env libs user id channel_id =
    require_user user
      λ u. served (unbind_channel env u.id id channel_id) (write libs.rendering) (λ _. no_content)
