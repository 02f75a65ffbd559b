-- ===== src/Store/FailedAlerts.antt =====
-- internal/adapter/postgres/failed_alert_repo.go.
use pingcast.Prelude.{ℕ, ◌∷◌}
use pingcast.Error.{ok}
use pingcast.Store.World.{Env, FailedAlert, create_failed_alert}
use pingcast.Store.Exec.{Exec, call, wrapping}

-- The `n`-th attempt at writing a row.
unfoldable pub create : Env → ℕ → FailedAlert → Exec (Unit {0})
create env n row = wrapping "insert failed alert: %w" (
    call env (create_failed_alert n)
      λ w. (ok tt, record w { db = record w.db { failed_alerts = row ∷ w.db.failed_alerts } }))
