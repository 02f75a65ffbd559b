-- ===== src/Accounts/Billing/Demotion.antt =====
-- A founder whose webhook is delivered again.
use pingcast.Prelude.{
  ℕ, ◌≤◌, Bool, true, false, ◌&&◌, none, List, [], ◌∷◌, any, count, update_where, codes, ◌≡◌, refl,
  arith,
}
use pingcast.Error.{ok}
use pingcast.Store.World.{World, Env, UserRow, founder_lock, count_founders, set_variant, commit}
use pingcast.Store.Exec.{◌>>=◌}
use pingcast.Store.Users
use pingcast.Store.Users.{is_live, is_founder, with_variant}
use pingcast.Accounts.Billing.{choose, tag_from_webhook}

-- The user has the founder price.
abbrev pub has_founder_price : ℕ → List UserRow → Bool
has_founder_price id = any (λ row. is_live id row && is_founder row)

retagged-none :
    (id : ℕ) (rows : List UserRow)
    → has_founder_price id (update_where (is_live id) (with_variant (codes "retail")) rows) ≡ false
retagged-none id [] = refl
retagged-none id (row ∷ rows) = ground (arith, retagged-none id rows)

-- While the cap is reached, and if no outside call fails, a webhook that asks for the founder
-- variant of a user who has it already takes it away: it returns `retail`, and the user no longer
-- has the founder price.
pub founder-demoted :
    (env : Env) (cap id : ℕ) (w : World)
    → env.fault founder_lock ≡ none
    → env.fault count_founders ≡ none
    → env.fault set_variant ≡ none
    → env.fault commit ≡ none
    → cap ≤ count is_founder w.db.users
    → has_founder_price id w.db.users ≡ true
    → let (result, w') = tag_from_webhook env cap id (codes "founder") w in
      (result ≡ ok (codes "retail")) × (has_founder_price id w'.db.users ≡ false)
unfolding tag_from_webhook choose Users.acquire_founder_cap_lock Users.count_active_founders
    Users.set_subscription_variant ◌>>=◌
founder-demoted env cap id w f f' f'' f''' full has =
    (ground arith, ground (arith, retagged-none id w.db.users))
