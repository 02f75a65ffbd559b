-- ===== src/Http/Handlers/Channels/Blank.antt =====
-- What a change of a channel that gives no field does.
use pingcast.Prelude.{
  ℕ, ==_refl, Bool, true, none, some, List, [], ◌∷◌, find, update_where, Text, ◌≡◌, refl, arith,
}
use pingcast.Error.{ok}
use pingcast.Domain.User.{User}
use pingcast.Domain.Channel.{NotificationChannel}
use pingcast.Store.World.{World, Env, ChannelRow, get_channel, update_channel}
use pingcast.Store.Exec.{◌>>=◌}
use pingcast.Store.Channels
use pingcast.Alerts.Delivery.{Senders}
use pingcast.Alerts.Manage
use pingcast.Alerts.Manage.{load_owned_channel}
use pingcast.Http.Respond.{answer, json}
use pingcast.Http.Handlers.{Libraries, require_user, parsed}
use pingcast.Http.Handlers.Channels.{update_channel_handler, domain_channel_to_api}

-- The row after an update of its name and of whether it is enabled.
abbrev pub renamed : Text → Bool → ChannelRow → ChannelRow
renamed name on row = record row { chan = record row.chan { name = name; is_enabled = on } }

abbrev blanked : NotificationChannel → ChannelRow → ChannelRow
blanked c row = record row {
  chan = record row.chan { name = c.name; config = c.config; is_enabled = c.is_enabled };
}

find-blanked :
    (id user_id : ℕ) (c : NotificationChannel) (row : ChannelRow) (rows : List ChannelRow)
    → find (Channels.is_live id) rows ≡ some row
    → row.chan.user_id ≡ user_id
    → find (Channels.is_live id) (update_where (Channels.is_owned id user_id) (blanked c) rows)
      ≡ some (blanked c row)
find-blanked id user_id c row [] e own = cc
find-blanked id user_id c row (r ∷ rows) e own =
    ground (arith, e, own, find-blanked id user_id c row rows)

live-id :
    (id : ℕ) (row : ChannelRow) (rows : List ChannelRow)
    → find (Channels.is_live id) rows ≡ some row
    → row.chan.id ≡ id
live-id id row [] e = cc
live-id id row (r ∷ rows) e = ground (arith, e, live-id id row rows)

abbrev with_blanked : ℕ → ℕ → ChannelRow → World → World
with_blanked id user_id row w =
    let c = (renamed [] true row).chan in
    record w {
      db = record w.db {
        channels = update_where (Channels.is_owned id user_id) (blanked c) w.db.channels;
      };
    }

update_channel-blank :
    (env : Env) (s : Senders) (user_id id : ℕ) (w : World) (row : ChannelRow)
    → env.fault get_channel ≡ none
    → env.fault update_channel ≡ none
    → find (Channels.is_live id) w.db.channels ≡ some row
    → row.chan.user_id ≡ user_id
    → Manage.update_channel env s user_id id [] none true w
      ≡ (ok (renamed [] true row).chan, with_blanked id user_id row w)
unfolding Manage.update_channel load_owned_channel Channels.get_by_id Channels.update ◌>>=◌
update_channel-blank env s user_id id w row f g live own =
    ground (arith, f, g, live, own, ==_refl user_id, live-id id row w.db.channels live)

-- A request of the owner to change a channel that gives no field at all is not without effect: where the tables can
-- be read and written it is answered with status 200, and afterwards the channel has the empty name and is
-- enabled.
pub update_channel_handler-blank :
    (env : Env) (libs : Libraries) (s : Senders) (user : User) (id : ℕ) (w : World)
    (row : ChannelRow)
    → env.fault get_channel ≡ none
    → env.fault update_channel ≡ none
    → find (Channels.is_live id) w.db.channels ≡ some row
    → row.chan.user_id ≡ user.id
    → let (r, w') =
        update_channel_handler env libs s
          (some user)
          id
          (some (record { name = none; is_enabled = none; config = none }))
          w in
      (r ≡ ok (answer (json 200 (domain_channel_to_api libs.json (renamed [] true row).chan))))
      × (find (Channels.is_live id) w'.db.channels ≡ some (renamed [] true row))
unfolding update_channel_handler require_user parsed ◌>>=◌
update_channel_handler-blank env libs s user id w row f g live own =
    rw (update_channel-blank env s user.id id w row f g live own)
      (refl, find-blanked id user.id (renamed [] true row).chan row w.db.channels live own)
