-- ===== src/Accounts/Billing.antt =====
-- internal/app/billing.go: the founder price, of which only so many are sold.
pub mod Cap
pub mod Demotion
pub mod Race
use pingcast.Prelude.{ℕ, ltb, leb, Bool, if◌then◌else◌, Text, codes, text_eq, ◌&&◌}
use pingcast.Store.World.{Env}
use pingcast.Store.Exec.{Exec, ◌>>=◌, ◌>>◌, pure, transaction}
use pingcast.Store.Users

pub record FounderStatus : Type 0 where
  pub available : Bool
  pub used : ℕ
  pub cap : ℕ

-- The cap of the service is its argument.
unfoldable pub founder_status : Env → ℕ → Exec FounderStatus
founder_status env cap = do
  used ← Users.count_active_founders env
  pure (record { available = ltb used cap; used = used; cap = cap })

-- The variant that is written: the count is made for a founder only.
unfoldable pub choose : Env → ℕ → Text → Exec Text
choose env cap requested =
    if text_eq requested (codes "founder")
    then (do
      Users.acquire_founder_cap_lock env
      used ← Users.count_active_founders env
      pure (if leb cap used then codes "retail" else requested))
    else pure requested

unfoldable pub tag_from_webhook : Env → ℕ → ℕ → Text → Exec Text
unfolding choose
tag_from_webhook env cap user_id requested = transaction env (do
  chosen ← choose env cap requested
  Users.set_subscription_variant env user_id chosen
  pure chosen)
