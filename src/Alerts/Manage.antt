-- ===== src/Alerts/Manage.antt =====
-- internal/app/alert.go: the channels that a user keeps, and the monitors that they are bound to.
-- The repositories return no nil channel or monitor without an error, so those tests of the source
-- have no case.
pub mod Isolation
use pingcast.Prelude.{ℕ, ◌==◌, Bool, true, not, Option, none, some, Text}
use pingcast.Error.{Error, sentinel, forbidden, new_validation_error, invalid_channel_config}
use pingcast.Domain.Channel.{ChannelType, NotificationChannel}
use pingcast.Domain.Validate.{validate_channel_input}
use pingcast.Store.World.{Env}
use pingcast.Store.Exec.{Exec, ◌>>=◌, ◌>>◌, pure, check}
use pingcast.Store.Channels
use pingcast.Store.Monitors
use pingcast.Monitoring.Lifecycle.{fail_if}
use pingcast.Alerts.Delivery.{Senders}

pub record CreateChannelInput : Type 0 where
  pub name : Text
  pub type : ChannelType
  pub config : Text

-- The registry's error becomes a validation error.
abbrev invalid_config : Option Error → Option Error
invalid_config none = none
invalid_config (some e) = some (new_validation_error invalid_channel_config)

unfoldable pub create_channel : Env → Senders → ℕ → CreateChannelInput → Exec NotificationChannel
create_channel env s user_id input = do
  check (validate_channel_input input.name input.type)
  check (invalid_config (s.validate_config input.type input.config))
  Channels.create env (record {
    id = 0;
    user_id = user_id;
    name = input.name;
    type = input.type;
    config = input.config;
    is_enabled = true;
    created_at = 0;
  })

unfoldable pub load_owned_channel : Env → ℕ → ℕ → Exec NotificationChannel
load_owned_channel env user_id channel_id = do
  ch ← Channels.get_by_id env channel_id
  check (fail_if (not (ch.user_id == user_id)) (sentinel forbidden))
  pure ch

abbrev given_config : Senders → ChannelType → Option Text → Option Error
given_config s type none = none
given_config s type (some c) = invalid_config (s.validate_config type c)

abbrev or_same : Option Text → Text → Text
or_same none c = c
or_same (some c') c = c'

unfoldable pub update_channel :
    Env → Senders → ℕ → ℕ → Text → Option Text → Bool → Exec NotificationChannel
update_channel env s user_id channel_id name config is_enabled = do
  old ← load_owned_channel env user_id channel_id
  check (given_config s old.type config)
  let ch = record old { config = or_same config old.config; name = name; is_enabled = is_enabled }
  Channels.update env ch
  pure ch

unfoldable pub delete_channel : Env → ℕ → ℕ → Exec (Unit {0})
delete_channel env user_id channel_id = do
  load_owned_channel env user_id channel_id
  Channels.delete env channel_id user_id

unfoldable pub bind_channel : Env → ℕ → ℕ → ℕ → Exec (Unit {0})
bind_channel env user_id monitor_id channel_id = do
  mon ← Monitors.get_by_id env monitor_id
  check (fail_if (not (mon.user_id == user_id)) (sentinel forbidden))
  ch ← Channels.get_by_id env channel_id
  check (fail_if (not (ch.user_id == user_id)) (sentinel forbidden))
  Channels.bind_to_monitor env monitor_id channel_id

unfoldable pub unbind_channel : Env → ℕ → ℕ → ℕ → Exec (Unit {0})
unbind_channel env user_id monitor_id channel_id = do
  mon ← Monitors.get_by_id env monitor_id
  check (fail_if (not (mon.user_id == user_id)) (sentinel forbidden))
  Channels.unbind_from_monitor env monitor_id channel_id
