-- ===== src/Domain/User.antt =====
-- internal/domain/user.go and internal/domain/plan_gate.go: users and what their plan allows.
use pingcast.Prelude.{ℕ, Bool, true, false, not, Text}

pub data Plan : Type 0 where
  free pro : Plan

pub record User : Type 0 where
  pub id : ℕ
  pub email : Text
  pub slug : Text
  pub plan : Plan
  pub created_at : ℕ

-- `p == PlanPro`.
abbrev pub is_pro : Plan → Bool
is_pro free = false
is_pro pro = true

abbrev plan_limit : Plan → ℕ
plan_limit free = 5
plan_limit pro = 50

abbrev plan_interval : Plan → ℕ
plan_interval free = 300
plan_interval pro = 30

unfoldable pub monitor_limit : User → ℕ
monitor_limit u = plan_limit u.plan

unfoldable pub min_interval : User → ℕ
min_interval u = plan_interval u.plan

unfoldable pub can_use_email : User → Bool
can_use_email u = is_pro u.plan

unfoldable pub requires_pro : Plan → Bool
requires_pro p = not (is_pro p)
