-- ===== src/Examples/Alerts.antt =====
-- The theorems about the delivery of alerts and about channels, on sample tables.
use pingcast.Prelude.{ℕ, count, true, false, none, some, [], ◌∷◌, codes, ◌≡◌, refl}
use mathlib.Core.List.Permᴰ
use pingcast.Error.{Result, ok, err, foreign, delivery_error}
use pingcast.Domain.Channel.{ChannelType, webhook, telegram, email}
use pingcast.Domain.Monitor.{AlertEvent, alert_down}
use pingcast.Store.World.{World, ChannelRow}
use pingcast.Store.Exec.{◌>>=◌}
use pingcast.Store.Channels
use pingcast.Store.Monitors
use pingcast.Alerts.Delivery.{
  Senders, Sender, Order, handle, send_all, deliver_all, deliver, finish, hand_over,
  delivery_reason,
}
use pingcast.Alerts.Delivery.Handled.{Handled, recipients, handle-Handled}
use pingcast.Alerts.Delivery.Outcome.{works}
use pingcast.Streams.{nak, on_message, on_alert}
use pingcast.Streams.Redelivery.{on_alert-nak}
use pingcast.Alerts.Manage.{bind_channel}
use pingcast.Examples.Data.{env, failing}

abbrev pub channel : ℕ → ChannelType → ChannelRow
channel id type = record {
  chan = record {
    id = id;
    user_id = 1;
    name = codes "ops";
    type = type;
    config = [];
    is_enabled = true;
    created_at = 50;
  };
  deleted = false;
}

abbrev sender : ChannelType → Result Sender
sender telegram = ok (λ ev. none)
sender webhook = ok (λ ev. some (delivery_error "timeout" 0 (foreign "deadline exceeded")))
sender type = err (foreign "no such sender")

abbrev pub senders : Senders
senders = record {
  send_overrides = λ type. none;
  create_sender = λ type id config. sender type;
  validate_config = λ type config. none;
}

abbrev event : AlertEvent
event = record {
  monitor_id = 7;
  user_id = 1;
  incident_id = 3;
  monitor_name = codes "site";
  monitor_target = [];
  event = alert_down;
  cause = [];
}

-- Three channels: one works, one fails, one has no sender.
abbrev pub ready : World
ready = record failing {
  db = record failing.db {
    channels = channel 21 telegram ∷ channel 22 webhook ∷ channel 23 email ∷ [];
  };
}

abbrev same_order : Order
same_order xs = xs

handle-Handled_example :
    Handled env senders event
      (recipients event ready.db)
      ready.db
      (handle env senders same_order event ready)
handle-Handled_example =
    handle-Handled env senders same_order event ready (λ xs. Permᴰ.refl xs) refl refl

bind_succeeds : (bind_channel env 1 7 21 ready).0 ≡ ok tt
unfolding bind_channel Channels.get_by_id Monitors.get_by_id Channels.bind_to_monitor ◌>>=◌
bind_succeeds = refl

-- One channel, which fails.
abbrev unreached : World
unreached = record failing { db = record failing.db { channels = channel 22 webhook ∷ [] } }

alert_refused : (on_alert (λ payload. some event) env senders same_order [] unreached).0 ≡ nak
unfolding on_alert on_message handle send_all deliver_all deliver finish hand_over delivery_reason
    Channels.list_for_monitor Channels.list_by_user ◌>>=◌
alert_refused = refl

on_alert-nak_example :
    (count (works senders event) (recipients event unreached.db) ≡ 0)
    × ((on_alert (λ payload. some event) env senders same_order [] unreached).1.db ≡ unreached.db)
on_alert-nak_example =
    on_alert-nak (λ payload. some event) env senders same_order [] event unreached
      (λ xs. Permᴰ.refl xs) refl refl refl alert_refused
