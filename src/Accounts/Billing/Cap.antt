-- ===== src/Accounts/Billing/Cap.antt =====
-- The cap on founders holds after every call of TagFromWebhook.
use pingcast.Prelude.{
  ℕ, ◌+◌, ◌≤◌, ◌<◌, leb, ◌==◌, Bool, false, List, [], ◌∷◌, count, update_where, Text, codes,
  text_eq, ◌≡◌, subst, arith, Bool-cases, inl, inr, ◌⊎◌,
}
use pingcast.Error.{ok}
use pingcast.Store.World.{World, Env, UserRow}
use pingcast.Store.Exec.{◌>>=◌, ◌>>◌, pure}
use pingcast.Store.Exec.Keeps.{TablesOnly}
use pingcast.Store.Exec.Reads.{Reads, transaction_at, bind_read}
use pingcast.Store.Users
use pingcast.Store.Users.{is_live, is_founder, with_variant, has_variant, stored}
use pingcast.Accounts.Billing.{choose, tag_from_webhook}

-- The rows that an identifier stands for.
abbrev pub has_id : ℕ → UserRow → Bool
has_id id row = row.user.id == id

-- One row at most is changed, so at most one founder more is counted.
pub founders-tagged :
    (id : ℕ) (variant : Text) (rows : List UserRow)
    → count is_founder (update_where (is_live id) (with_variant variant) rows)
      ≤ count is_founder rows + count (has_id id) rows
founders-tagged id variant [] = omega arith
founders-tagged id variant (row ∷ rows) = ground (arith, founders-tagged id variant rows)

-- A variant that is not `founder` makes no founder.
pub founders-other :
    (id : ℕ) (variant : Text) (rows : List UserRow)
    → text_eq variant (codes "founder") ≡ false
    → count is_founder (update_where (is_live id) (with_variant variant) rows)
      ≤ count is_founder rows
founders-other id variant [] h = omega arith
founders-other id variant (row ∷ rows) h = ground (arith, founders-other id variant rows h)

choose-Reads : (env : Env) (cap : ℕ) (requested : Text) → Reads (choose env cap requested)
unfolding choose ◌>>=◌ Users.acquire_founder_cap_lock Users.count_active_founders
choose-Reads env cap requested = record { same = λ w. ground arith }

choose-below :
    (env : Env) (cap : ℕ) (requested v : Text) (w : World)
    → (choose env cap requested w).0 ≡ ok v
    → (text_eq v (codes "founder") ≡ false) ⊎ (count is_founder w.db.users < cap)
unfolding choose ◌>>=◌ Users.acquire_founder_cap_lock Users.count_active_founders
choose-below env cap requested v w h = elim (Bool-cases (text_eq requested (codes "founder"))) [
  | inl founder ↦ elim (Bool-cases (leb cap (count is_founder w.db.users))) [
    | inl full ↦ inl (ground arith)
    | inr free ↦ inr (ground arith)
  ]
  | inr other ↦ inl (ground arith)
]

-- At most `cap` founders are counted.
abbrev pub Capped : ℕ → World → Type 0
Capped cap w = count is_founder w.db.users ≤ cap

tagged-Capped :
    (env : Env) (cap id : ℕ) (v : Text) (w : World)
    → (text_eq v (codes "founder") ≡ false) ⊎ (count is_founder w.db.users < cap)
    → count (has_id id) w.db.users ≤ 1
    → Capped cap w
    → Capped cap (Users.set_subscription_variant env id v w).1
unfolding Users.set_subscription_variant ◌>>=◌
tagged-Capped env cap id v w (inl other) u h = ground (arith, founders-other id v w.db.users other)
tagged-Capped env cap id v w (inr below) u h = ground (arith, founders-tagged id v w.db.users)

then_pure-Capped :
    (env : Env) (cap id : ℕ) (v : Text) (w : World)
    → Capped cap (Users.set_subscription_variant env id v w).1
    → Capped cap ((Users.set_subscription_variant env id v >> pure v) w).1
unfolding ◌>>=◌
then_pure-Capped env cap id v w h = ground (arith, h)

Capped-TablesOnly : {cap : ℕ} → TablesOnly (Capped cap)
Capped-TablesOnly {cap} = record {
  holds = λ w w' e h. subst (λ db. count is_founder db.users ≤ cap) e h;
}

-- A call of TagFromWebhook that no other call interleaves with keeps the number of founders within the
-- cap, whatever variant it asks for and whatever outside call fails, if identifiers of users are
-- unique.
pub tag_from_webhook-Capped :
    (env : Env) (cap id : ℕ) (requested : Text) (w : World)
    → count (has_id id) w.db.users ≤ 1
    → Capped cap w
    → Capped cap (tag_from_webhook env cap id requested w).1
unfolding tag_from_webhook
tag_from_webhook-Capped env cap id requested w u h =
    transaction_at (Capped cap) env _ w Capped-TablesOnly h λ v _.
      bind_read (Capped cap) _ _ w (choose-Reads env cap requested) h λ chosen e.
        then_pure-Capped env cap id chosen w
          (tagged-Capped env cap id chosen w (choose-below env cap requested chosen w e) u h)
