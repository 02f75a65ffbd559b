-- ===== src/Store/Monitors/Ssl.antt =====
-- ListProHTTPForSSLScan of internal/adapter/postgres/monitor_repo.go, with its query.
use pingcast.Prelude.{ℕ, ◌==◌, Bool, true, false, not, ◌&&◌, List, map, keep, any, Text}
use pingcast.Error.{ok}
use pingcast.Domain.User.{is_pro}
use pingcast.Domain.Monitor.{MonitorType, http, tcp, dns, other}
use pingcast.Store.World.{Env, MonitorRow, UserRow, list_ssl_monitors}
use pingcast.Store.Exec.{Exec, call}

pub record ProHttpMonitor : Type 0 where
  pub id : ℕ
  pub user_id : ℕ
  pub name : Text
  pub check_config : Text

abbrev is_http : MonitorType → Bool
is_http http = true
is_http tcp = false
is_http dns = false
is_http (other t) = false

-- `JOIN users u`: the owner is on the plan `pro`, and neither row is deleted.
abbrev pub is_scanned : List UserRow → MonitorRow → Bool
is_scanned users row =
    any (λ u. u.user.id == row.mon.user_id && is_pro u.user.plan && not u.deleted) users
    && is_http row.mon.type
    && not row.mon.is_paused
    && not row.deleted

abbrev pub scanned : MonitorRow → ProHttpMonitor
scanned row = record {
  id = row.mon.id;
  user_id = row.mon.user_id;
  name = row.mon.name;
  check_config = row.mon.check_config;
}

unfoldable pub list_pro_http : Env → Exec (List ProHttpMonitor)
list_pro_http env =
    call env list_ssl_monitors
      λ w. (ok (map scanned (keep (is_scanned w.db.users) w.db.monitors)), w)
