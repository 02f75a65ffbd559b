-- ===== src/Domain/Group.antt =====
-- internal/domain/monitor_group.go: the sections of a public status page.
use pingcast.Prelude.{ℕ, Text}
use pingcast.Prelude.Int.{ℤ}

pub record MonitorGroup : Type 0 where
  pub id : ℕ
  pub user_id : ℕ
  pub name : Text
  pub ordering : ℤ
  pub created_at : ℕ
