-- ===== src/Accounts/Billing/Race.antt =====
-- TagFromWebhook of internal/app/billing.go in webhooks that run at the same time: the statements of
-- their transactions come in any order, and the advisory lock, which a transaction holds until it
-- ends, makes another one wait. A transaction sees what was committed before each statement.
pub mod Lock
pub mod Bounded
pub mod Alone
use pingcast.Prelude.{
  ℕ, zero, suc, leb, Bool, true, false, if◌then◌else◌, Option, none, some, List, [], ◌∷◌, any,
  count, map, update_where, Text, codes, text_eq,
}
use pingcast.Store.World.{UserRow}
use pingcast.Store.Users.{is_live, is_founder, with_variant}

-- The statement that comes next.
pub data Phase : Type 0 where
  acquiring counting writing ended : Phase

pub record Transaction : Type 0 where
  pub user_id : ℕ
  pub chosen : Text
  pub phase : Phase
  pub holds : Bool

-- The callback of `TagFromWebhook` at its start: only a founder is counted, behind the lock.
unfoldable pub begin : ℕ → Text → Transaction
begin user_id requested = record {
  user_id = user_id;
  chosen = requested;
  phase = if text_eq requested (codes "founder") then acquiring else writing;
  holds = false;
}

pub record System : Type 0 where
  pub users : List UserRow
  pub transactions : List Transaction

abbrev advance_at : Phase → ℕ → Bool → List UserRow → Transaction → Transaction × List UserRow
advance_at acquiring cap locked users t =
    (if locked then t else record t { phase = counting; holds = true }, users)
advance_at counting cap locked users t = (
  record t {
    phase = writing;
    chosen = if leb cap (count is_founder users) then codes "retail" else t.chosen;
  },
  users,
)
advance_at writing cap locked users t = (
  record t { phase = ended; holds = false },
  update_where (is_live t.user_id) (with_variant t.chosen) users,
)
advance_at ended cap locked users t = (t, users)

-- One statement, and with the last one the commit; the Boolean says whether some transaction has
-- the lock.
unfoldable pub advance : ℕ → Bool → List UserRow → Transaction → Transaction × List UserRow
advance cap locked users t = advance_at t.phase cap locked users t

-- An error of a statement rolls the transaction back.
abbrev pub rolled_back : Transaction → Transaction
rolled_back t = record t { phase = ended; holds = false }

abbrev pub nth : ℕ → List Transaction → Option Transaction
nth i [] = none
nth zero (t ∷ ts) = some t
nth (suc i) (t ∷ ts) = nth i ts

abbrev pub set_nth : ℕ → Transaction → List Transaction → List Transaction
set_nth i t [] = []
set_nth zero t (x ∷ ts) = t ∷ ts
set_nth (suc i) t (x ∷ ts) = x ∷ set_nth i t ts

abbrev pub is_held : List Transaction → Bool
is_held ts = any (λ t. t.holds) ts

abbrev pub moved : ℕ → ℕ → Bool → Option Transaction → System → System
unfolding advance
moved cap i fails none s = s
moved cap i fails (some t) s =
    if fails
    then record s { transactions = set_nth i (rolled_back t) s.transactions }
    else (let (t', users) = advance cap (is_held s.transactions) s.users t in
        record { users = users; transactions = set_nth i t' s.transactions })

-- The transaction that makes the next step, and whether its statement fails.
unfoldable pub interleave : ℕ → List (ℕ × Bool) → System → System
unfolding advance
interleave cap [] s = s
interleave cap (p ∷ ps) s = interleave cap ps (moved cap p.0 p.1 (nth p.0 s.transactions) s)
