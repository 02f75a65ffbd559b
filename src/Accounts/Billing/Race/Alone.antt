-- ===== src/Accounts/Billing/Race/Alone.antt =====
-- A transaction that runs alone does what TagFromWebhook does.
use pingcast.Prelude.{ℕ, Bool, false, List, [], ◌∷◌}
use pingcast.Store.World.{World}
use pingcast.Store.Users
use pingcast.Store.Users.{is_founder}

-- The statements of one call, none of which fails.
abbrev pub alone : List (ℕ × Bool)
alone = (0, false) ∷ (0, false) ∷ (0, false) ∷ []
