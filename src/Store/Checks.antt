-- ===== src/Store/Checks.antt =====
-- internal/adapter/postgres/check_result_repo.go and uptime_repo.go, with the queries of
-- check_results.sql and uptime_hourly.sql.
pub mod Failures
use pingcast.Prelude.{
  ℕ, suc, ◌+◌, ◌*◌, ◌/◌, leb, ltb, ◌==◌, Bool, ◌&&◌, if◌then◌else◌, Option, none, some, List, [],
  ◌∷◌, keep, any, update_where, count, length,
}
use pingcast.Error.{ok}
use pingcast.Domain.Monitor.{CheckResult, MonitorStatus, is_down, is_up}
use pingcast.Store.World.{Env, UptimeHour, insert_check, consecutive_failures, record_uptime}
use pingcast.Store.Exec.{Exec, call}

-- The place of a new row in the order of `checked_at DESC`.
unfoldable pub insert_desc : CheckResult → List CheckResult → List CheckResult
insert_desc r [] = r ∷ []
insert_desc r (x ∷ xs) =
    let rest = insert_desc r xs in if leb x.checked_at r.checked_at then r ∷ x ∷ xs else x ∷ rest

unfoldable pub insert : Env → CheckResult → Exec (Unit {0})
insert env r =
    call env insert_check λ w.
      (ok tt, record w { db = record w.db { check_results = insert_desc r w.db.check_results } })

-- The statuses of a monitor's results with their `ROW_NUMBER() OVER (ORDER BY checked_at DESC)`.
abbrev pub ordered : ℕ → List CheckResult → List (MonitorStatus × ℕ)
ordered rn [] = []
ordered rn (r ∷ rs) = (r.status, rn) ∷ ordered (suc rn) rs

-- `SELECT MIN(rn) FROM ordered WHERE status = 'up'`: the row numbers grow along the list.
abbrev pub first_up : List (MonitorStatus × ℕ) → Option ℕ
first_up [] = none
first_up ((s, rn) ∷ rows) = let rest = first_up rows in if is_up s then some rn else rest

abbrev pub coalesce : Option ℕ → ℕ → ℕ
coalesce none d = d
coalesce (some n) d = n

-- The query `ConsecutiveFailures`.
unfoldable pub count_failures : ℕ → List CheckResult → ℕ
count_failures monitor_id results =
    let rows = ordered 1 (keep (λ r. r.monitor_id == monitor_id) results) in
    count (λ row. is_down row.0 && ltb row.1 (coalesce (first_up rows) (length rows + 1))) rows

unfoldable pub consecutive : Env → ℕ → Exec ℕ
unfolding count_failures
consecutive env monitor_id =
    call env consecutive_failures λ w. (ok (count_failures monitor_id w.db.check_results), w)

-- `date_trunc('hour', t)`, over seconds.
abbrev pub trunc_hour : ℕ → ℕ
trunc_hour t = (t / 3600) * 3600

abbrev same_hour : ℕ → ℕ → UptimeHour → Bool
same_hour monitor_id hour row = row.monitor_id == monitor_id && row.hour == hour

-- `UpsertUptimeHourly`: one row for each monitor and hour.
unfoldable pub upsert_hour : ℕ → ℕ → ℕ → List UptimeHour → List UptimeHour
upsert_hour monitor_id hour success rows =
    if any (same_hour monitor_id hour) rows
    then update_where (same_hour monitor_id hour)
        (λ row. record row {
          total_checks = row.total_checks + 1;
          successful_checks = row.successful_checks + success;
        })
        rows
    else record {
      monitor_id = monitor_id;
      hour = hour;
      total_checks = 1;
      successful_checks = success;
    }
      ∷ rows

unfoldable pub record_check : Env → ℕ → ℕ → Bool → Exec (Unit {0})
unfolding upsert_hour
record_check env monitor_id checked_at success = call env record_uptime λ w. (
  ok tt,
  record w {
    db = record w.db {
      uptime =
          upsert_hour monitor_id (trunc_hour checked_at) (if success then 1 else 0) w.db.uptime;
    };
  },
)
