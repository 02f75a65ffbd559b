-- ===== src/Store/Monitors.antt =====
-- internal/adapter/postgres/monitor_repo.go, with the queries of monitors.sql. The encryption of
-- `check_config` at rest is left out: a row holds the configuration as the services see it.
pub mod Reads
pub mod Keyed
pub mod Ssl
use pingcast.Prelude.{
  ℕ, ◌==◌, Bool, true, false, not, ◌&&◌, Option, none, some, ◌∷◌, find, count, update_where, any,
  keep, map, List, Text, text_eq,
}
use pingcast.Error.{Result, sentinel, foreign, not_found, ok, err}
use pingcast.Domain.Monitor.{Monitor, MonitorStatus, unknown}
use pingcast.Store.World.{
  World, Env, MonitorRow, UserRow, get_monitor, count_monitors, create_monitor, update_monitor,
  delete_monitor,
}
use pingcast.Store.World
use pingcast.Store.Exec.{Exec, call}

-- `id = $1 AND deleted_at IS NULL`.
abbrev pub is_live : ℕ → MonitorRow → Bool
is_live id row = row.mon.id == id && not row.deleted

-- The same, `AND user_id = $2`.
abbrev pub is_owned : ℕ → ℕ → MonitorRow → Bool
is_owned id user_id row = is_live id row && row.mon.user_id == user_id

abbrev found : Option MonitorRow → World → Result Monitor × World
found none w = (err (sentinel not_found), w)
found (some row) w = (ok row.mon, w)

unfoldable pub get_by_id : Env → ℕ → Exec Monitor
get_by_id env id = call env get_monitor λ w. found (find (is_live id) w.db.monitors) w

unfoldable pub count_by_user : Env → ℕ → Exec ℕ
count_by_user env user_id =
    call env count_monitors
      λ w. (ok (count (λ row. row.mon.user_id == user_id && not row.deleted) w.db.monitors), w)

-- The columns that `CreateMonitor` does not set take their defaults.
unfoldable pub create : Env → Monitor → Exec Monitor
create env m = call env create_monitor λ w.
    let m' = record m { id = env.new_id; current_status = unknown; created_at = env.now } in
    (
      ok m',
      record w {
        db = record w.db {
          monitors = record { mon = m'; deleted = false; group_id = none } ∷ w.db.monitors;
        };
      },
    )

abbrev pub set_fields : Monitor → MonitorRow → MonitorRow
set_fields m row = record row {
  mon = record row.mon {
    name = m.name;
    check_config = m.check_config;
    interval_seconds = m.interval_seconds;
    alert_after_failures = m.alert_after_failures;
    is_paused = m.is_paused;
    is_public = m.is_public;
  };
}

unfoldable pub update : Env → Monitor → Exec (Unit {0})
update env m = call env update_monitor λ w. (
  ok tt,
  record w {
    db = record w.db {
      monitors = update_where (is_owned m.id m.user_id) (set_fields m) w.db.monitors;
    };
  },
)

abbrev previous : Option MonitorRow → World → World → Result MonitorStatus × World
previous none w w' = (err (foreign "no rows in result set"), w)
previous (some row) w w' = (ok row.mon.current_status, w')

-- The previous status comes from the row as it was.
unfoldable pub update_status : Env → ℕ → MonitorStatus → Exec MonitorStatus
update_status env id status = call env World.Op.update_status λ w.
    previous (find (is_live id) w.db.monitors) w (record w {
      db = record w.db {
        monitors =
            update_where (is_live id)
              (λ row. record row { mon = record row.mon { current_status = status } })
              w.db.monitors;
      };
    })

abbrev pub flip : MonitorRow → MonitorRow
flip row = record row { mon = record row.mon { is_paused = not row.mon.is_paused } }

abbrev toggled : Option MonitorRow → World → World → Result Monitor × World
toggled none w w' = (err (foreign "no rows in result set"), w)
toggled (some row) w w' = (ok (flip row).mon, w')

unfoldable pub toggle_pause : Env → ℕ → ℕ → Exec Monitor
toggle_pause env id user_id = call env World.Op.toggle_pause λ w.
    toggled (find (is_owned id user_id) w.db.monitors) w (record w {
      db = record w.db { monitors = update_where (is_owned id user_id) flip w.db.monitors };
    })

-- A soft delete.
unfoldable pub delete : Env → ℕ → ℕ → Exec (Unit {0})
delete env id user_id = call env delete_monitor λ w. (
  ok tt,
  record w {
    db = record w.db {
      monitors =
          update_where (is_owned id user_id) (λ row. record row { deleted = true }) w.db.monitors;
    };
  },
)

-- `JOIN users u`: the live owner of the row has the slug.
abbrev pub is_shown : Text → List UserRow → MonitorRow → Bool
is_shown slug users row =
    any (λ u. u.user.id == row.mon.user_id && text_eq u.user.slug slug && not u.deleted) users
    && row.mon.is_public
    && not row.deleted

-- The order by name, which is a matter of the database's collation, is left out.
unfoldable pub list_public_by_slug : Env → Text → Exec (List Monitor)
list_public_by_slug env slug =
    call env World.Op.list_public
      λ w. (ok (map (λ row. row.mon) (keep (is_shown slug w.db.users) w.db.monitors)), w)

-- `deleted_at IS NULL AND is_paused = false`.
abbrev pub is_active : MonitorRow → Bool
is_active row = not row.deleted && not row.mon.is_paused

unfoldable pub list_active : Env → Exec (List Monitor)
list_active env =
    call env World.Op.list_active_monitors
      λ w. (ok (map (λ row. row.mon) (keep is_active w.db.monitors)), w)
