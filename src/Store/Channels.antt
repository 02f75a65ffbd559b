-- ===== src/Store/Channels.antt =====
-- internal/adapter/postgres/channel_repo.go, with the queries of channels.sql. The encryption of
-- `config` at rest is left out, as in Store/Monitors.antt.
pub mod Reads
use pingcast.Prelude.{
  ℕ, ◌==◌, Bool, true, false, not, ◌&&◌, if◌then◌else◌, Option, none, some, List, ◌∷◌, map, find,
  any, keep, update_where,
}
use pingcast.Error.{Result, sentinel, foreign, not_found, wrap, ok, err}
use pingcast.Domain.Channel.{NotificationChannel}
use pingcast.Store.World.{
  World, Env, ChannelRow, get_channel, create_channel, update_channel, delete_channel,
}
use pingcast.Store.World
use pingcast.Store.Exec.{Exec, call, wrapping}

abbrev pub is_live : ℕ → ChannelRow → Bool
is_live id row = row.chan.id == id && not row.deleted

abbrev pub is_owned : ℕ → ℕ → ChannelRow → Bool
is_owned id user_id row = is_live id row && row.chan.user_id == user_id

-- `ErrNotFound` is returned as it is, another error wrapped.
abbrev found : Option ChannelRow → World → Result NotificationChannel × World
found none w = (err (sentinel not_found), w)
found (some row) w = (ok row.chan, w)

unfoldable pub get_by_id : Env → ℕ → Exec NotificationChannel
get_by_id env id w = elim (env.fault get_channel) [
  | none ↦ found (find (is_live id) w.db.channels) w
  | some s ↦ (err (wrap "get channel: %w" (foreign s)), w)
]

-- `is_enabled` has the default TRUE.
unfoldable pub create : Env → NotificationChannel → Exec NotificationChannel
create env c = wrapping "create channel: %w" (
    call env create_channel λ w.
      let c' = record c { id = env.new_id; is_enabled = true; created_at = env.now } in
      (
        ok c',
        record w {
          db = record w.db { channels = record { chan = c'; deleted = false } ∷ w.db.channels };
        },
      ))

unfoldable pub update : Env → NotificationChannel → Exec (Unit {0})
update env c = call env update_channel λ w. (
  ok tt,
  record w {
    db = record w.db {
      channels =
          update_where (is_owned c.id c.user_id)
            (λ row. record row {
              chan = record row.chan {
                name = c.name;
                config = c.config;
                is_enabled = c.is_enabled;
              };
            })
            w.db.channels;
    };
  },
)

unfoldable pub delete : Env → ℕ → ℕ → Exec (Unit {0})
delete env id user_id = call env delete_channel λ w. (
  ok tt,
  record w {
    db = record w.db {
      channels =
          update_where (is_owned id user_id) (λ row. record row { deleted = true }) w.db.channels;
    };
  },
)

abbrev pub is_binding : ℕ → ℕ → ℕ × ℕ → Bool
is_binding monitor_id channel_id b = b.0 == monitor_id && b.1 == channel_id

-- `ON CONFLICT DO NOTHING`.
unfoldable pub bind_to_monitor : Env → ℕ → ℕ → Exec (Unit {0})
bind_to_monitor env monitor_id channel_id = call env (World.Op.bind_channel channel_id) λ w.
    if any (is_binding monitor_id channel_id) w.db.bindings then (ok tt, w) else (
      ok tt,
      record w { db = record w.db { bindings = (monitor_id, channel_id) ∷ w.db.bindings } },
    )

unfoldable pub unbind_from_monitor : Env → ℕ → ℕ → Exec (Unit {0})
unbind_from_monitor env monitor_id channel_id = call env (World.Op.unbind_channel channel_id) λ w. (
  ok tt,
  record w {
    db = record w.db {
      bindings = keep (λ b. not (is_binding monitor_id channel_id b)) w.db.bindings;
    };
  },
)

-- The lists that the notifier sends to. It sends in parallel, so their order is left out.
unfoldable pub list_for_monitor : Env → ℕ → Exec (List NotificationChannel)
list_for_monitor env monitor_id = wrapping "list channels for monitor: %w" (
    call env World.Op.list_for_monitor λ w. (
      ok (
          map (λ row. row.chan)
            (keep (λ row. not row.deleted && any (is_binding monitor_id row.chan.id) w.db.bindings)
              w.db.channels)),
      w,
    ))

unfoldable pub list_by_user : Env → ℕ → Exec (List NotificationChannel)
list_by_user env user_id = wrapping "list channels: %w" (
    call env World.Op.list_by_user λ w. (
      ok (
          map (λ row. row.chan)
            (keep (λ row. row.chan.user_id == user_id && not row.deleted) w.db.channels)),
      w,
    ))
