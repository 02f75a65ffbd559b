-- ===== src/Store/Windows.antt =====
-- internal/adapter/postgres/maintenance_window_repo.go, with the queries of maintenance.sql.
use pingcast.Prelude.{keep, not, ℕ, suc, ◌==◌, Bool, ◌&&◌, List, ◌∷◌, any, Text}
use pingcast.Error.{ok}
use pingcast.Domain.Monitor.{MaintenanceWindow, active_at}
use pingcast.Store.World.{Env, MonitorRow, create_window, has_active, delete_window}
use pingcast.Store.Exec.{Exec, call}

pub record CreateMaintenanceWindowInput : Type 0 where
  pub monitor_id : ℕ
  pub starts_at : ℕ
  pub ends_at : ℕ
  pub reason : Text

unfoldable pub create : Env → CreateMaintenanceWindowInput → Exec MaintenanceWindow
create env in' = call env create_window λ w.
    let m : MaintenanceWindow = record {
      id = w.db.next_window;
      monitor_id = in'.monitor_id;
      starts_at = in'.starts_at;
      ends_at = in'.ends_at;
      reason = in'.reason;
      created_at = env.now;
    } in
    (
      ok m,
      record w {
        db = record w.db { windows = m ∷ w.db.windows; next_window = suc w.db.next_window };
      },
    )

-- `HasActiveMaintenanceWindow`: the test of `MaintenanceWindow.ActiveAt`, made by the database.
abbrev pub any_active : ℕ → ℕ → List MaintenanceWindow → Bool
unfolding active_at
any_active now monitor_id = any (λ m. m.monitor_id == monitor_id && active_at m now)

unfoldable pub active : Env → ℕ → Exec Bool
unfolding active_at
active env monitor_id =
    call env has_active λ w. (ok (any_active env.now monitor_id w.db.windows), w)

-- `AND monitor_id IN (SELECT id FROM monitors WHERE user_id = $2)`.
abbrev pub is_of : ℕ → List MonitorRow → MaintenanceWindow → Bool
is_of user_id rows m = any (λ row. row.mon.id == m.monitor_id && row.mon.user_id == user_id) rows

unfoldable pub delete : Env → ℕ → ℕ → Exec (Unit {0})
delete env id user_id = call env delete_window λ w. (
  ok tt,
  record w {
    db = record w.db {
      windows = keep (λ m. not (m.id == id && is_of user_id w.db.monitors m)) w.db.windows;
    };
  },
)
